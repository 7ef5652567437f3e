-- ===== src/Link/Scheduler/Rounds.antt =====
-- Rounds of the scheduler, and what the forwarding loop puts into the buffer.
use mathlib.Core.Path.{subst}
use Prim.Native.Nat.{bit_xor}
use native.Mathlib.Nat.{mod-lt}
use pc_communication_protoco.Prelude.{
  ℕ, zero, suc, Text, ◌^◌, ◌+◌, ◌-◌, ◌%◌, ◌≤◌, ◌<◌, ◌≡◌, ◌≢◌, refl, sym, ap, ◌∙◌, Bool, true, false,
  Bool-cases, ◌⊎◌, inl, inr, Option, none, some, List, [], ◌∷◌, ◌++◌, append-nil, append_assoc, ltb,
  leb, ◌==◌, ◌||◌, ◌&&◌, if◌then◌else◌, length, length-append, All, All-behind, ok, died, arith,
}
use pc_communication_protoco.Link.Scheduler.{
  buffer_size, Message, MsgInFlight, Link, Rand, deliver, take_from, put_in_flight, wait_time_send,
  scheduler_round, flip, set_byte, run_forwarding,
}
use pc_communication_protoco.Link.Scheduler.Flight.{
  messages, messages-append, Timed, deliver-splits, put_in_flight-Timed, put_in_flight-order,
  put_in_flight-later,
}

no_wait : (a b w : ℕ) → (ltb 0 (a - b) || ltb 0 w) ≡ false → a ≤ b
no_wait a b w waits = ground (arith, waits)

not_empty : (xs ys : List Message) → (length (xs ++ ys) == 0) ≡ false → (length xs + length ys) ≢ 0
not_empty xs ys waiting e = ground (arith, waiting, length-append xs ys, e)

module _ (serialization_delay delay crt_time : ℕ) (arrivals : List Message) (s : Link) where
  -- The link after the deliveries and the message put in flight.
  abbrev pub moved : Link
  moved = put_in_flight serialization_delay delay crt_time (record s {
    in_flight = (deliver crt_time s.in_flight).1;
    to_remote = s.to_remote ++ (deliver crt_time s.in_flight).0;
  })

  abbrev pub after : Link
  after = record moved { buffer = moved.buffer ++ arrivals }

  -- A round leaves the link in one state, or the assertion stops the process when the link is idle,
  -- nothing waits in flight and a message is in the buffer.
  pub round-cases :
      ((w : Option ℕ) × (scheduler_round serialization_delay delay crt_time arrivals s
          ≡ ok (after, w)))
      ⊎ ((scheduler_round serialization_delay delay crt_time arrivals s ≡ died)
          × (moved.idle_time ≤ crt_time)
          × ((length moved.buffer + length arrivals) ≢ 0))
  unfolding scheduler_round
  round-cases =
      let wait_idle = moved.idle_time - crt_time in
      let wait_send = wait_time_send crt_time moved.in_flight in
      elim (Bool-cases (ltb 0 wait_idle || ltb 0 wait_send)) [
        | inl sleeps ↦ inl (
          some (if ltb 0 wait_send && ltb wait_send wait_idle then wait_send else wait_idle),
          rw sleeps,
        )
        | inr waits ↦ elim (Bool-cases (length after.buffer == 0)) [
          | inl empty ↦ inl (none, rw (waits, empty))
          | inr waiting ↦ inr (
            rw (waits, waiting),
            no_wait moved.idle_time crt_time wait_send waits,
            not_empty moved.buffer arrivals waiting,
          )
        ]
      ]

  take_from-idle :
      (t : Link) (b : List Message)
      → 0 < serialization_delay
      → t.buffer ≡ b
      → (take_from serialization_delay delay crt_time t b).idle_time ≤ crt_time
      → (take_from serialization_delay delay crt_time t b).buffer ≡ []
  unfolding take_from
  take_from-idle t [] real e idle = e
  take_from-idle t (m ∷ b) real e idle = absurd (omega arith)

  -- A link that is idle after the step has nothing in its buffer.
  pub put_in_flight-idle :
      (t : Link)
      → 0 < serialization_delay
      → (put_in_flight serialization_delay delay crt_time t).idle_time ≤ crt_time
      → (put_in_flight serialization_delay delay crt_time t).buffer ≡ []
  unfolding put_in_flight
  put_in_flight-idle t real = elim (Bool-cases (leb t.idle_time crt_time)) [
    | inl idle ↦ rw idle (take_from-idle t t.buffer real refl)
    | inr busy ↦ rw busy (λ idle. ground arith)
  ]

  abbrev delivered : Link
  delivered = record s {
    in_flight = (deliver crt_time s.in_flight).1;
    to_remote = s.to_remote ++ (deliver crt_time s.in_flight).0;
  }

  -- With a serialization delay above 0, finish times in order, and none later than the delay after
  -- the link is idle, a round of the scheduler ends in one of two ways. It sends a first part of
  -- what was in flight, all of it due, leaves nothing in flight that is due, keeps the order of all
  -- messages from the wire over the link to the buffer, with the messages that arrive meanwhile
  -- last, and leaves the finish times so. Or it fails an assertion, and then messages have arrived
  -- during the round.
  pub scheduler_round-delivers :
      0 < serialization_delay
      → Timed serialization_delay delay s
      → ((s' : Link) × (w : Option ℕ) × (due : List MsgInFlight) × (scheduler_round
              serialization_delay delay crt_time arrivals s
            ≡ ok (s', w))
          × (s'.to_remote ≡ s.to_remote ++ messages due)
          × All (λ f. f.finish_time ≤ crt_time) due
          × All (λ f. crt_time < f.finish_time) s'.in_flight
          × (messages due ++ (messages s'.in_flight ++ s'.buffer)
              ≡ messages s.in_flight ++ s.buffer ++ arrivals)
          × Timed serialization_delay delay s')
        ⊎ ((scheduler_round serialization_delay delay crt_time arrivals s ≡ died) × (arrivals ≢ []))
  scheduler_round-delivers real timed = elim round-cases [
    | inr (dies, idle, waiting) ↦ inr (
      dies,
      λ none_came.
          waiting omega (arith, ap length (put_in_flight-idle _ real idle), ap length none_came),
    )
    | inl (w, e) ↦
        (let (due, split, sent, ready, later, ordered) =
            deliver-splits crt_time s.in_flight timed.0 in
          let rest = (deliver crt_time s.in_flight).1 in
          let bounded : All (λ f. f.finish_time ≤ s.idle_time + delay) rest =
            All-behind (λ f. f.finish_time ≤ s.idle_time + delay) due rest
              (subst (All (λ f. f.finish_time ≤ s.idle_time + delay)) split timed.1) in
          let (order, same) = put_in_flight-order serialization_delay delay crt_time delivered in
          inl (
            after,
            w,
            due,
            e,
            same ∙ ap (λ (t : List Message). s.to_remote ++ t) sent,
            ready,
            put_in_flight-later serialization_delay delay crt_time delivered real later,
            regroup due rest split order,
            put_in_flight-Timed serialization_delay delay crt_time delivered (ordered, bounded),
          ))
  ]
    where
      regroup :
          (due rest : List MsgInFlight)
          → s.in_flight ≡ due ++ rest
          → messages moved.in_flight ++ moved.buffer ≡ messages rest ++ s.buffer
          → messages due ++ (messages moved.in_flight ++ (moved.buffer ++ arrivals))
            ≡ messages s.in_flight ++ s.buffer ++ arrivals
      regroup due rest split order =
          ap (λ (t : List Message). messages due ++ t)
            (sym (append_assoc (messages moved.in_flight) moved.buffer arrivals)
              ∙ ap (λ (t : List Message). t ++ arrivals) order)
          ∙ sym (append_assoc (messages due) (messages rest ++ s.buffer) arrivals)
          ∙ ap (λ (t : List Message). t ++ arrivals)
              (sym (append_assoc (messages due) (messages rest) s.buffer))
          ∙ ap (λ (t : List Message). t ++ s.buffer ++ arrivals)
              (sym (ap messages split ∙ messages-append due rest))

-- On an idle link with nothing in flight and nothing in the buffer, a message that arrives after
-- the scheduler looked into the buffer and before it waits for the signal stops the process by a
-- failed assertion.
pub scheduler_round-race :
    (serialization_delay delay crt_time : ℕ) (arrivals : List Message) (s : Link)
    → s.in_flight ≡ []
    → s.buffer ≡ []
    → s.idle_time ≤ crt_time
    → arrivals ≢ []
    → scheduler_round serialization_delay delay crt_time arrivals s ≡ died
unfolding scheduler_round deliver put_in_flight take_from wait_time_send
scheduler_round-race serialization_delay delay crt_time [] s link_empty buffer_empty idle came =
    absurd (came refl)
scheduler_round-race serialization_delay delay crt_time (m ∷ arrivals) s link_empty buffer_empty
      idle came =
    let free : leb s.idle_time crt_time ≡ true = ground arith in
    let no_time : ltb 0 (s.idle_time - crt_time) ≡ false = ground arith in
    let some_came : (length (m ∷ arrivals) == 0) ≡ false = ground arith in
    rw (link_empty, free, buffer_empty, no_time, some_came)

set_byte-ok :
    (bs : Text) (i : ℕ) (f : ℕ → ℕ) → i < length bs → (r : Text) × (set_byte bs i f ≡ ok r)
unfolding set_byte
set_byte-ok [] i f inside = absurd (omega arith)
set_byte-ok (b ∷ bs) zero f inside = (f b ∷ bs, refl)
set_byte-ok (b ∷ bs) (suc i) f inside =
    let (r, e) = set_byte-ok bs i f (omega arith) in (b ∷ r, rw e)

corrupted :
    (m : Message) (b : Bool) (at bit : ℕ)
    → 0 < m.len
    → m.len ≤ length m.payload
    → (m' : Message) × ((if b then flip m at bit else ok m) ≡ ok m')
corrupted m false at bit real fits = (m, refl)
corrupted m true at bit real fits =
    let (r, e) =
      set_byte-ok m.payload (at % m.len) (λ b. bit_xor b (2 ^ (bit % 8)))
        (omega (arith, mod-lt at real, fits)) in
    let some_bytes : (m.len == 0) ≡ false = ground arith in
    (record m { payload = r }, unfold flip in rw (some_bytes, e))

-- with at most buffer_size messages in the buffer, `run_forwarding` succeeds on a message whose
-- length is above 0 and at most that of its payload, and leaves the messages in the buffer as they
-- were, with at most one more behind them, and at most buffer_size of them.
pub run_forwarding-bounded :
    (loss corrupt : ℕ) (rand : Rand) (m : Message) (s : Link)
    → length s.buffer ≤ buffer_size
    → 0 < m.len
    → m.len ≤ length m.payload
    → (s' : Link) × (new : List Message) × (run_forwarding loss corrupt rand (some m) s ≡ ok s')
      × (s'.buffer ≡ s.buffer ++ new)
      × (length new ≤ 1)
      × (length s'.buffer ≤ buffer_size)
unfolding run_forwarding
run_forwarding-bounded loss corrupt rand m s bounded real fits =
    elim (Bool-cases (leb buffer_size (length s.buffer) || ltb (rand.for_loss % 100) loss)) [
      | inl drop ↦ (s, [], rw drop, sym (append-nil s.buffer), omega arith, bounded)
      | inr keep ↦
          (let (m', e) =
              corrupted m (ltb (rand.for_corrupt % 100) corrupt) rand.at rand.bit real fits in
            (
              record s { buffer = s.buffer ++ m' ∷ [] },
              m' ∷ [],
              rw (keep, e),
              refl,
              omega arith,
              room m' keep,
            ))
    ]
  where
    room :
        (m' : Message)
        → (leb buffer_size (length s.buffer) || ltb (rand.for_loss % 100) loss) ≡ false
        → length (s.buffer ++ m' ∷ []) ≤ buffer_size
    room m' keep = ground (arith, keep, length-append s.buffer (m' ∷ []))
