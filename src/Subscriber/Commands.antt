-- ===== src/Subscriber/Commands.antt =====
-- What the commands of the user come to.
use pc_communication_protoco.Prelude.{
  NoNul, true, ◌||◌, ℕ, zero, suc, ◌+◌, ◌%◌, ◌<◌, ◌≡◌, ◌≢◌, refl, ap, ◌∙◌, false, Bool-cases, inl,
  inr, some, List, [], ◌∷◌, ◌++◌, append_assoc, Text, text_eq, ◌==◌, ltb, lt→ltb, length,
  length-append, take_all, All, All-append, ok, codes, atoi, decimal, print_digits, ◌/◌,
  atoi-decimal, arith,
}
use pc_communication_protoco.Broker.Types.{TopicPacket, Action}
use pc_communication_protoco.Broker.Registry.{clear_topic}
use pc_communication_protoco.Broker.Publish.{subscribed}
use pc_communication_protoco.Subscriber.{
  Session, starts_with, skip_sep, take_token, strtok, strcpy, subscribe_action, unsubscribe_action,
  send_action, on_line,
}

-- A word: no space in it.
abbrev pub IsWord : Text → Type 0
IsWord = All (λ b. b ≢ 32)

take_token-word : (w rest : Text) → IsWord w → take_token (w ++ 32 ∷ rest) ≡ (w, rest)
unfolding take_token
take_token-word [] rest word = refl
take_token-word (b ∷ w) rest word =
    let letter : (b == 32) ≡ false = ground arith in rw (letter, take_token-word w rest word.1)

take_token-end : (w : Text) → IsWord w → take_token w ≡ (w, [])
unfolding take_token
take_token-end [] word = refl
take_token-end (b ∷ w) word =
    let letter : (b == 32) ≡ false = ground arith in rw (letter, take_token-end w word.1)

-- A word in front of a space is the next token.
pub strtok-word :
    (w rest : Text) → 0 < length w → IsWord w → strtok (w ++ 32 ∷ rest) ≡ some (w, rest)
unfolding strtok skip_sep
strtok-word [] rest some_bytes word = absurd (omega arith)
strtok-word (b ∷ w) rest some_bytes word =
    let letter : (b == 32) ≡ false = ground arith in
    rw (letter, strtok) (ap some (take_token-word (b ∷ w) rest word))

pub strtok-end : (w : Text) → 0 < length w → IsWord w → strtok w ≡ some (w, [])
unfolding strtok skip_sep
strtok-end [] some_bytes word = absurd (omega arith)
strtok-end (b ∷ w) some_bytes word =
    let letter : (b == 32) ≡ false = ground arith in
    rw (letter, strtok) (ap some (take_token-end (b ∷ w) word))

clear_topic-absent :
    (ts : List TopicPacket) (name : Text)
    → subscribed name ts ≡ false
    → clear_topic ts name ≡ (ts, false)
unfolding clear_topic
clear_topic-absent [] name absent = refl
clear_topic-absent (t ∷ ts) name absent =
    let other : text_eq t.topic name ≡ false = ground (arith, absent) in
    let rest : subscribed name ts ≡ false = ground (arith, absent) in
    rw (other, clear_topic-absent ts name rest)

-- The line of an `unsubscribe` command with a topic of 1 to 48 bytes without a space or a zero
-- byte, ended by a newline, sends an `Action` whose topic is the topic with the newline; a client
-- that has no entry of that longer topic keeps all its entries.
pub unsubscribe-newline :
    (s : Session) (topic : Text)
    → 0 < length topic
    → length topic < 49
    → IsWord topic
    → NoNul topic
    → (action : Action) × (on_line (codes "unsubscribe " ++ topic ++ 10 ∷ []) s
        ≡ ok (send_action s (some action)))
      × (action.topic ≡ topic ++ 10 ∷ [])
      × ((ts : List TopicPacket)
          → subscribed (topic ++ 10 ∷ []) ts ≡ false
          → clear_topic ts action.topic ≡ (ts, false))
unfolding on_line unsubscribe_action starts_with
unsubscribe-newline s topic some_bytes short word no_nul =
    let name = topic ++ 10 ∷ [] in
    let word' : IsWord name =
      All-append (λ b. b ≢ 32) topic (10 ∷ []) word ((λ e. omega arith), tt) in
    let long : length name ≡ length topic + 1 = omega (arith, length-append topic (10 ∷ [])) in
    let ends : (s.ended || ltb (length name) 50) ≡ true = ground (arith, long) in
    let action : Action = record { type = codes "unsubscribe"; topic = name; sf = 2 } in
    (
      action,
      rw (
        strtok-end name (omega (arith, long)) word',
        ends,
        take_all 50 name (omega (arith, long)),
      ),
      refl,
      λ ts absent. clear_topic-absent ts name absent,
    )

print_digits-IsWord : (fuel n : ℕ) (acc : Text) → IsWord acc → IsWord (print_digits fuel n acc)
unfolding print_digits
print_digits-IsWord zero n acc word = word
print_digits-IsWord (suc fuel) n acc word = elim (Bool-cases (ltb n 10)) [
  | inl small ↦ rw small ((λ e. omega arith), word)
  | inr large ↦
      rw large (print_digits-IsWord fuel (n / 10) ((48 + n % 10) ∷ acc) ((λ e. omega arith), word))
]

pub decimal-IsWord : (n : ℕ) → IsWord (decimal n)
unfolding decimal
decimal-IsWord n = print_digits-IsWord (n + 1) n [] tt

strcpy-ok : (t : Text) → length t < 51 → strcpy 51 t ≡ ok t
unfolding strcpy
strcpy-ok t short = rw (lt→ltb (length t) 51 short)

-- The line of a `subscribe` command with a topic of 1 to 50 bytes without a space and a decimal
-- number below 256, ended by a newline, sends the `Action` with that topic and that number.
pub subscribe-sent :
    (s : Session) (topic : Text) (sf : ℕ)
    → 0 < length topic
    → length topic < 51
    → IsWord topic
    → sf < 256
    → on_line (codes "subscribe " ++ topic ++ codes " " ++ decimal sf ++ 10 ∷ []) s
      ≡ ok
          (record (send_action s
            (some (record { type = codes "subscribe"; topic = topic; sf = sf }))) {
              ended = s.ended || (length topic == 50);
            })
unfolding on_line subscribe_action starts_with
subscribe-sent s topic sf some_bytes short word small =
    let number = decimal sf ++ 10 ∷ [] in
    let line : topic ++ codes " " ++ decimal sf ++ 10 ∷ [] ≡ topic ++ 32 ∷ number =
      append_assoc (topic ++ codes " ") (decimal sf) (10 ∷ [])
      ∙ append_assoc topic (codes " ") number in
    let word' : IsWord number =
      All-append (λ b. b ≢ 32) (decimal sf) (10 ∷ []) (decimal-IsWord sf)
        ((λ e. omega arith), tt) in
    let some_digits : 0 < length number = omega (arith, length-append (decimal sf) (10 ∷ [])) in
    let value : atoi number % 256 ≡ sf =
      ap (λ (n : ℕ). n % 256) (atoi-decimal sf (10 ∷ []) refl) ∙ omega arith in
    rw (
      line,
      strtok-word topic number some_bytes word,
      strcpy-ok topic short,
      strtok-end number some_digits word',
      value,
    )

-- A line that is none of the three commands sends again what `action` holds, and keeps it.
pub unknown-resends :
    (s : Session) (line : Text)
    → starts_with (codes "exit") line ≡ false
    → starts_with (codes "subscribe") line ≡ false
    → starts_with (codes "unsubscribe") line ≡ false
    → (s' : Session) × (on_line line s ≡ ok s')
      × (s'.sent ≡ s.sent ++ s.action ∷ [])
      × (s'.action ≡ s.action)
unfolding on_line
unknown-resends s line no_exit no_subscribe no_unsubscribe =
    (send_action s s.action, rw (no_exit, no_subscribe, no_unsubscribe), refl, refl)
