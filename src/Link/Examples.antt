-- ===== src/Link/Examples.antt =====
-- The link emulator at small inputs.
use pc_communication_protoco.Prelude.{
  ℕ, ◌≤◌, ◌<◌, ◌≡◌, ◌≢◌, ◌⊎◌, refl, Option, none, some, List, [], ◌∷◌, ◌++◌, arith, All, ok, died,
  ◌==◌, if◌then◌else◌,
}
use pc_communication_protoco.Router.Queue.{cell, Cells}
use pc_communication_protoco.Link.Queue.{LinkQueue, link_queue}
use pc_communication_protoco.Link.Queue.Fifo.{LinkHolds}
use pc_communication_protoco.Prelude.{codes, text_eq}
use pc_communication_protoco.Link.Param.{param_type, loss}
use pc_communication_protoco.Link.Scheduler.{
  Message, MsgInFlight, in_flight_until, Link, scheduler_round,
}
use pc_communication_protoco.Link.Scheduler.Flight.{messages, Timed}
use pc_communication_protoco.Link.Scheduler.Rounds.{scheduler_round-delivers, scheduler_round-race}

-- Two entries, at 16 and at 32.
abbrev cells : Cells
cells p = if p == 16 then some (cell 7 32) else if p == 32 then some (cell 8 0) else none

abbrev two : LinkQueue
two = link_queue 2 32 16

two-LinkHolds : LinkHolds cells two ((16, 7) ∷ (32, 8) ∷ [])
two-LinkHolds = (
  omega arith,
  (refl, (λ e. omega arith), refl, (32, refl, (refl, (λ e. omega arith), refl, (0, refl, refl)))),
  refl,
)

abbrev first : Message
first = record { len = 2; payload = 1 ∷ 2 ∷ [] }

abbrev second : Message
second = record { len = 1; payload = 3 ∷ [] }

abbrev link : Link
link = record {
  buffer = second ∷ [];
  in_flight = in_flight_until first 2000 ∷ [];
  idle_time = 1500;
  to_remote = [];
  back = [];
}

scheduler_round-delivers_example :
    ((s' : Link) × (w : Option ℕ) × (due : List MsgInFlight) × (scheduler_round 1000 1000 2500
          (first ∷ [])
          link
        ≡ ok (s', w))
      × (s'.to_remote ≡ messages due)
      × All (λ f. f.finish_time ≤ 2500) due
      × All (λ f. 2500 < f.finish_time) s'.in_flight
      × (messages due ++ (messages s'.in_flight ++ s'.buffer) ≡ first ∷ second ∷ first ∷ [])
      × Timed 1000 1000 s')
    ⊎ ((scheduler_round 1000 1000 2500 (first ∷ []) link ≡ died) × ((first ∷ []) ≢ []))
scheduler_round-delivers_example =
    scheduler_round-delivers 1000 1000 2500 (first ∷ []) link (omega arith)
      ((tt, tt), (omega arith, tt))

abbrev idle : Link
idle = record { buffer = []; in_flight = []; idle_time = 1500; to_remote = first ∷ []; back = [] }

scheduler_round-race_example : scheduler_round 1000 1000 2500 (second ∷ []) idle ≡ died
scheduler_round-race_example =
    scheduler_round-race 1000 1000 2500 (second ∷ []) idle refl refl (omega arith)
      (λ e. ground arith)

loss_name : param_type (codes "loss") ≡ some loss
unfolding param_type text_eq
loss_name = refl

abbrev waiting : Link
waiting = record {
  buffer = first ∷ second ∷ [];
  in_flight = [];
  idle_time = 4;
  to_remote = [];
  back = [];
}
