-- ===== src/Link/Scheduler/Drained.antt =====
-- How long it takes until all that waits is sent.
use pc_communication_protoco.Prelude.{
  ℕ, ◌+◌, ◌-◌, ◌≤◌, ◌<◌, ◌≡◌, ◌≢◌, ap, true, false, ◌⊎◌, some, List, [], ◌∷◌, ◌++◌, map, append-nil,
  ltb, leb, All, ok, arith,
}
use pc_communication_protoco.Link.Scheduler.{
  Message, MsgInFlight, Link, deliver, take_from, put_in_flight, wait_time_send, scheduler_round,
}
use pc_communication_protoco.Link.Scheduler.Flight.{messages}

-- Every clock reading is above the one before.
abbrev pub Rising : ℕ → List ℕ → Type 0
Rising crt_time [] = Unit
Rising crt_time (t ∷ times) = (crt_time < t) × Rising t times

-- A round in which nothing arrives.
abbrev pub quiet : List ℕ → List (ℕ × List Message × List Message)
quiet = map (λ (t : ℕ). (t, [], []))

-- What is sent, and then what waits, in order.
abbrev all_messages : Link → List Message
all_messages s = s.to_remote ++ (messages s.in_flight ++ s.buffer)

-- All that waited is sent, in order, and nothing waits.
abbrev pub IsDrained : Link → Link → Type 0
IsDrained s s' =
    (s'.to_remote ≡ s.to_remote ++ (messages s.in_flight ++ s.buffer))
    × (s'.in_flight ≡ [])
    × (s'.buffer ≡ [])

module _ (serialization_delay delay : ℕ) where
  -- The time that the messages of the buffer take the link.
  abbrev load : List Message → ℕ
  load [] = 0
  load (m ∷ buffer) = serialization_delay + load buffer

  -- Behind a round: the link is busy if a message waits, and nothing in flight is due.
  abbrev Settled : ℕ → Link → Type 0
  Settled crt_time s =
      (s.buffer ≢ [] → crt_time < s.idle_time) × All (λ f. crt_time < f.finish_time) s.in_flight

  -- A round leaves the link as it is, or puts a message in flight if the link is free.
  abbrev Moves : ℕ → Link → Link → Type 0
  Moves crt_time s s' =
      ((s'.idle_time ≡ s.idle_time)
        × (s'.buffer ≡ s.buffer)
        × (s.buffer ≢ [] → crt_time < s.idle_time))
      ⊎ ((s'.idle_time + load s'.buffer ≡ crt_time + load s.buffer)
          × (s.idle_time ≤ crt_time)
          × (s.buffer ≢ []))

-- With a free link, an empty buffer and a message in flight that is not due, a round in which
-- nothing arrives leaves everything as it is, and the wait behind it is 0.
scheduler_round-spins :
    (serialization_delay delay crt_time : ℕ) (f : MsgInFlight) (fs : List MsgInFlight) (s : Link)
    → s.idle_time ≤ crt_time
    → crt_time < f.finish_time
    → let s' = record s { in_flight = f ∷ fs; buffer = [] } in
      scheduler_round serialization_delay delay crt_time [] s' ≡ ok (s', some 0)
unfolding scheduler_round deliver put_in_flight take_from wait_time_send
scheduler_round-spins serialization_delay delay crt_time f fs s free early =
    let none_due : ltb crt_time f.finish_time ≡ true = ground arith in
    let idle : leb s.idle_time crt_time ≡ true = ground arith in
    let no_time : s.idle_time - crt_time ≡ 0 = omega arith in
    let some_time : ltb 0 (f.finish_time - crt_time) ≡ true = ground arith in
    let not_first : ltb (f.finish_time - crt_time) 0 ≡ false = ground arith in
    rw (none_due, idle, no_time, some_time, not_first)
      (ap
        (λ (l : List Message).
          ok (record s { in_flight = f ∷ fs; buffer = []; to_remote = l }, some 0))
        (append-nil s.to_remote))
