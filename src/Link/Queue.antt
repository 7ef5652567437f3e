-- ===== src/Link/Queue.antt =====
-- `link_emulator/queue.c`: entries are linked from the oldest, `last`, by `prev` to the newest,
-- `first`. An entry is a cell of the heap, with `crt` as its element and `prev` as its link.
pub mod Fifo
use pc_communication_protoco.Prelude.{
  ℕ, suc, ◌+◌, ◌-◌, Bool, Option, none, some, ◌==◌, if◌then◌else◌, Run, ok, died, ◌>>=◌, deref,
}
use pc_communication_protoco.Router.Queue.{Cell, cell, Cells, null, put}

pub record LinkQueue : Type 0 where
  pub size : ℕ
  pub first : ℕ
  pub last : ℕ

abbrev pub link_queue : ℕ → ℕ → ℕ → LinkQueue
link_queue size first last = record { size = size; first = first; last = last }

unfoldable pub create_queue : LinkQueue
create_queue = link_queue 0 null null

-- `fresh` is what `malloc` returns. A failed `assert` ends the process.
unfoldable pub enqueue : ℕ → LinkQueue → ℕ → Cells → Run (LinkQueue × Cells)
unfolding put
enqueue fresh q m h =
    let h' = put h fresh (some (cell m null)) in
    if q.first == null
    then (if q.last == null then ok (link_queue (q.size + 1) fresh fresh, h') else died)
    else (do
      c ← deref (h' q.first)
      ok (link_queue (q.size + 1) fresh q.last, put h' q.first (some (cell c.element fresh))))

-- The message is NULL for an empty queue.
unfoldable pub dequeue : LinkQueue → Cells → Run (ℕ × LinkQueue × Cells)
unfolding put
dequeue q h =
    if q.first == null
    then (if q.size == 0 then ok (null, q, h) else died)
    else if q.first == q.last
    then (do
      t ← deref (h q.last)
      (if t.next == null
          then ok (t.element, link_queue (q.size - 1) null null, put h q.last none)
          else died))
    else (do
      t ← deref (h q.last)
      ok (t.element, link_queue (q.size - 1) q.first t.next, put h q.last none))
