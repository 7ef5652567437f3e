-- ===== src/Router/Examples.antt =====
-- The router's theorems at small inputs.
use pc_communication_protoco.Prelude.{
  ℕ, ◌≡◌, inl, refl, none, some, [], ◌∷◌, arith, ◌==◌, if◌then◌else◌, ok,
}
use pc_communication_protoco.Router.Queue.{cell, Cells, Queue, queue, queue_enq, queue_deq}
use pc_communication_protoco.Router.Queue.Fifo.{Holds, queue_enq-queue_deq}
use pc_communication_protoco.Router.Route.{RouteTableEntry, Table, get_best_route}
use pc_communication_protoco.Router.Route.Search.{Sorted, Searched, get_best_route-Searched}
use pc_communication_protoco.Router.Route.Complete.{Finds, get_best_route-Finds}

abbrev cells : Cells
cells p = if p == 16 then some (cell 64 0) else none

abbrev one_queue : Queue
one_queue = queue 16 16

one_queue-Holds : Holds cells one_queue ((16, 64) ∷ [])
one_queue-Holds = ((refl, (λ e. omega arith), refl, (0, refl, refl)), refl)

queue_enq-queue_deq_example :
    (q1 : Queue) × (h1 : Cells) × (q2 : Queue) × (h2 : Cells) × (queue_enq 32 one_queue 65 cells
      ≡ ok (q1, h1))
    × Holds h1 q1 ((16, 64) ∷ (32, 65) ∷ [])
    × (queue_deq q1 h1 ≡ ok (64, q2, h2))
    × Holds h2 q2 ((32, 65) ∷ [])
queue_enq-queue_deq_example =
    queue_enq-queue_deq cells one_queue 32 65 ((16, 64) ∷ []) one_queue-Holds (λ e. omega arith)
      refl

abbrev entry : ℕ → ℕ → ℕ → RouteTableEntry
entry prefix mask interface = record {
  prefix = prefix;
  next_hop = 9;
  mask = mask;
  interface = interface;
}

abbrev rtable : Table
rtable = entry 4 12 1 ∷ entry 8 12 2 ∷ []

rtable-Sorted : Sorted rtable
rtable-Sorted = (inl (omega arith), tt)

get_best_route-Searched_example : Searched rtable 9 (get_best_route rtable 9)
get_best_route-Searched_example = get_best_route-Searched rtable 9 rtable-Sorted

get_best_route-Finds_example : Finds (get_best_route rtable 9)
get_best_route-Finds_example =
    get_best_route-Finds rtable 9 12 1 (entry 8 12 2) rtable-Sorted (refl, (refl, tt)) refl refl
