-- ===== src/Link/Scheduler.antt =====
-- `link_emulator/link.c`: the scheduler's round, and one message in each forwarding loop. The two
-- queues are the lists that `Link.Queue` shows they hold, the oldest message first; what the random
-- numbers and the clock say is an argument.
pub mod Flight
pub mod Rounds
pub mod Drained
use Prim.Native.Nat.{bit_xor}
use pc_communication_protoco.Prelude.{
  ℕ, zero, suc, ◌+◌, ◌-◌, ◌%◌, ◌^◌, Bool, true, false, not, ◌||◌, ◌&&◌, Option, none, some, List,
  [], ◌∷◌, ◌++◌, Text, ◌==◌, ltb, leb, if◌then◌else◌, length, get_elem?, Run, ok, died, fault,
  ◌>>=◌, deref,
}

abbrev pub buffer_size : ℕ
buffer_size = 1000

pub record Message : Type 0 where
  pub len : ℕ
  pub payload : Text

pub record MsgInFlight : Type 0 where
  pub m : Message
  pub finish_time : ℕ

abbrev pub in_flight_until : Message → ℕ → MsgInFlight
in_flight_until m finish_time = record { m = m; finish_time = finish_time }

-- `to_remote` is what `send_message2` sent, `back` what `send_message1` sent.
pub record Link : Type 0 where
  pub buffer : List Message
  pub in_flight : List MsgInFlight
  pub idle_time : ℕ
  pub to_remote : List Message
  pub back : List Message

-- The first loop of a round: what has finished is sent, the oldest first.
unfoldable pub deliver : ℕ → List MsgInFlight → List Message × List MsgInFlight
deliver crt_time [] = ([], [])
deliver crt_time (last ∷ in_flight) =
    let (sent, rest) = deliver crt_time in_flight in
    if ltb crt_time last.finish_time then ([], last ∷ in_flight) else (last.m ∷ sent, rest)

-- For how long the oldest message in flight has still to go.
unfoldable pub wait_time_send : ℕ → List MsgInFlight → ℕ
wait_time_send crt_time [] = 0
wait_time_send crt_time (last ∷ in_flight) = last.finish_time - crt_time

module _ (serialization_delay delay : ℕ) where
  unfoldable pub take_from : ℕ → Link → List Message → Link
  take_from crt_time s [] = s
  take_from crt_time s (m ∷ buffer) = record s {
    buffer = buffer;
    idle_time = crt_time + serialization_delay;
    in_flight = s.in_flight ++ in_flight_until m (crt_time + serialization_delay + delay) ∷ [];
  }

  -- A message of the buffer is put in flight when the link is idle.
  unfoldable pub put_in_flight : ℕ → Link → Link
  unfolding take_from
  put_in_flight crt_time s = if leb s.idle_time crt_time then take_from crt_time s s.buffer else s

  -- One round at `crt_time`. `arrivals` are the messages that the other thread puts into the buffer
  -- after the scheduler looked into it. Waiting times are signed in the source, and used only above
  -- 0. The round ends asleep for some time, or waiting for a signal, `none`.
  unfoldable pub scheduler_round : ℕ → List Message → Link → Run (Link × Option ℕ)
  unfolding put_in_flight wait_time_send
  scheduler_round crt_time arrivals s =
      let due = deliver crt_time s.in_flight in
      let s' =
        put_in_flight crt_time (record s { in_flight = due.1; to_remote = s.to_remote ++ due.0 }) in
      let wait_idle = s'.idle_time - crt_time in
      let wait_send = wait_time_send crt_time s'.in_flight in
      let s'' = record s' { buffer = s'.buffer ++ arrivals } in
      if ltb 0 wait_idle || ltb 0 wait_send
      then ok
          (s'', some (if ltb 0 wait_send && ltb wait_send wait_idle then wait_send else wait_idle))
      else if length s''.buffer == 0
      then ok (s'', none)
      else died

  -- The loop: each round with its time, what arrives in it, and what arrives while the thread sleeps
  -- or waits for the signal behind it.
  unfoldable pub link_scheduler : List (ℕ × List Message × List Message) → Link → Run Link
  unfolding scheduler_round
  link_scheduler [] s = ok s
  link_scheduler ((crt_time, arrivals, meanwhile) ∷ rounds) s = do
    (s', w) ← scheduler_round crt_time arrivals s
    link_scheduler rounds (record s' { buffer = s'.buffer ++ meanwhile })

-- What `receive_message1` and `receive_message2` do: the message that brings the link up is only
-- used for its sender's address. `none` in the list is an error of `recvfrom`; the result is whether
-- the link is up, and what is returned, or nothing as long as no message came.
unfoldable pub receive_on : Bool → List (Option Message) → Bool × Option (Option Message)
receive_on link_up [] = (link_up, none)
receive_on link_up (none ∷ received) = (link_up, some none)
receive_on true (some m ∷ received) = (true, some (some m))
receive_on false (some m ∷ received) = receive_on true received

unfoldable pub receive_message1 : Bool → List (Option Message) → Bool × Option (Option Message)
unfolding receive_on
receive_message1 link_up1 received = receive_on link_up1 received

unfoldable pub receive_message2 : Bool → List (Option Message) → Bool × Option (Option Message)
unfolding receive_on
receive_message2 link_up2 received = receive_on link_up2 received

unfoldable pub set_byte : Text → ℕ → (ℕ → ℕ) → Run Text
set_byte [] i f = fault
set_byte (b ∷ bs) zero f = ok (f b ∷ bs)
set_byte (b ∷ bs) (suc i) f = do rest ← set_byte bs i f; ok (b ∷ rest)

-- A random bit of a random byte; the remainder by a length of 0 is a `fault`.
unfoldable pub flip : Message → ℕ → ℕ → Run Message
unfolding set_byte
flip m rand_at rand_bit = if m.len == 0 then fault else (do
  payload ← set_byte m.payload (rand_at % m.len) (λ b. bit_xor b (2 ^ (rand_bit % 8)))
  ok (record m { payload = payload }))

-- The numbers that `rand` returns for one message.
pub record Rand : Type 0 where
  pub for_loss : ℕ
  pub for_corrupt : ℕ
  pub at : ℕ
  pub bit : ℕ

-- `run_forwarding` for one received message; NULL ends the process.
unfoldable pub run_forwarding : ℕ → ℕ → Rand → Option Message → Link → Run Link
unfolding flip
run_forwarding loss corrupt rand none s = died
run_forwarding loss corrupt rand (some m) s =
    if leb buffer_size (length s.buffer) || ltb (rand.for_loss % 100) loss then ok s else (do
      m' ← (if ltb (rand.for_corrupt % 100) corrupt then flip m rand.at rand.bit else ok m)
      ok (record s { buffer = s.buffer ++ m' ∷ [] }))

-- `run_reverse_forwarding` for one received message.
unfoldable pub run_reverse_forwarding : Option Message → Link → Run Link
run_reverse_forwarding none s = died
run_reverse_forwarding (some m) s = ok (record s { back = s.back ++ m ∷ [] })
