-- ===== src/Subscriber/Packets.antt =====
-- What is shown of a packet that comes in one piece, and of one that comes in two.
use pc_communication_protoco.Prelude.{
  ◌+◌, ◌≤◌, ◌<◌, ◌≡◌, refl, true, false, some, [], ◌∷◌, ◌++◌, Text, ◌==◌, ltb, leb, length,
  length-append, drop, ok, atoi, arith,
}
use pc_communication_protoco.Subscriber.{Session, overwrite, receive_packet, on_server}

overwrite-ok :
    (chunk buff : Text)
    → length chunk ≤ length buff
    → overwrite chunk buff ≡ ok (chunk ++ drop (length chunk) buff)
unfolding overwrite
overwrite-ok chunk buff fits =
    let room : leb (length chunk) (length buff) ≡ true = ground arith in rw room

module _ (cleared size : Text) (s : Session) (some_size : 0 < length size) where
  -- A packet that comes in one piece and fits the buffer is shown as it came, in the cleared buffer.
  pub on_server-whole :
      (pkt : Text)
      → 0 < length pkt
      → length pkt ≡ atoi size
      → length pkt ≤ length cleared
      → (s' : Session) × (on_server cleared (some size) (some pkt ∷ []) s ≡ ok s')
        × (s'.shown ≡ s.shown ++ (pkt ++ drop (length pkt) cleared) ∷ [])
  unfolding on_server receive_packet
  on_server-whole pkt some_bytes whole room =
      let live : (length size == 0) ≡ false = ground arith in
      let going : (length pkt == 0) ≡ false = ground arith in
      let more : ltb 0 (atoi size) ≡ true = ground arith in
      (
        record s { shown = s.shown ++ (pkt ++ drop (length pkt) cleared) ∷ [] },
        rw (live, more, going, overwrite-ok pkt cleared room),
        refl,
      )

  -- Of a packet that reaches the client in two pieces, neither of them empty, the second not longer
  -- than the first and together as long as its size says, the second piece is stored over the
  -- beginning of the first, and that is shown. The first piece fits the buffer.
  pub on_server-split :
      (first second : Text)
      → 0 < length first
      → 0 < length second
      → length first + length second ≡ atoi size
      → length second ≤ length first
      → length first ≤ length cleared
      → (s' : Session) × (on_server cleared (some size) (some first ∷ some second ∷ []) s ≡ ok s')
        × (s'.shown
            ≡ s.shown
              ++ (second ++ drop (length second) (first ++ drop (length first) cleared)) ∷ [])
  unfolding on_server receive_packet
  on_server-split first second some_first some_second whole shorter room =
      let live : (length size == 0) ≡ false = ground arith in
      let going : (length first == 0) ≡ false = ground arith in
      let going' : (length second == 0) ≡ false = ground arith in
      let more : ltb 0 (atoi size) ≡ true = ground arith in
      let more' : ltb (0 + length first) (atoi size) ≡ true = ground arith in
      let buff = first ++ drop (length first) cleared in
      let room' : length second ≤ length buff =
        omega (arith, length-append first (drop (length first) cleared)) in
      (
        record s { shown = s.shown ++ (second ++ drop (length second) buff) ∷ [] },
        rw (
          live,
          more,
          going,
          overwrite-ok first cleared room,
          more',
          going',
          overwrite-ok second buff room',
        ),
        refl,
      )
