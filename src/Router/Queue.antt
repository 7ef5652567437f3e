-- ===== src/Router/Queue.antt =====
-- `router/list.c` and `router/queue.c`: a FIFO queue as a chain of cells on the heap. The address
-- that `malloc` returns is an argument, and a `struct queue` is a value that each call returns.
pub mod Chain
pub mod Fifo
use pc_communication_protoco.Prelude.{
  ℕ, Bool, Option, none, some, ◌==◌, if◌then◌else◌, Run, ok, died, ◌>>=◌, deref,
}

pub record Cell : Type 0 where
  pub element : ℕ
  pub next : ℕ

abbrev pub cell : ℕ → ℕ → Cell
cell element next = record { element = element; next = next }

abbrev pub Cells : Type 0
Cells = ℕ → Option Cell

abbrev pub null : ℕ
null = 0

unfoldable pub put : Cells → ℕ → Option Cell → Cells
put h p c a = if a == p then c else h a

unfoldable pub cons : ℕ → ℕ → ℕ → Cells → ℕ × Cells
unfolding put
cons fresh element l h = (fresh, put h fresh (some (cell element l)))

unfoldable pub cdr_and_free : ℕ → Cells → Run (ℕ × Cells)
unfolding put
cdr_and_free l h = do c ← deref (h l); ok (c.next, put h l none)

pub record Queue : Type 0 where
  pub head : ℕ
  pub tail : ℕ

abbrev pub queue : ℕ → ℕ → Queue
queue head tail = record { head = head; tail = tail }

unfoldable pub queue_create : Queue
queue_create = queue null null

unfoldable pub queue_empty : Queue → Bool
queue_empty q = q.head == null

unfoldable pub queue_enq : ℕ → Queue → ℕ → Cells → Run (Queue × Cells)
unfolding queue_empty cons put
queue_enq fresh q element h =
    if queue_empty q then ok (queue fresh fresh, (cons fresh element null h).1) else (do
      let (new, h') = cons fresh element null h
      c ← deref (h' q.tail)
      ok (queue q.head new, put h' q.tail (some (cell c.element new))))

-- `assert(!queue_empty(q))` ends the process.
unfoldable pub queue_deq : Queue → Cells → Run (ℕ × Queue × Cells)
unfolding queue_empty cdr_and_free
queue_deq q h = if queue_empty q then died else (do
  c ← deref (h q.head)
  (rest, h') ← cdr_and_free q.head h
  ok (c.element, queue rest q.tail, h'))

unfoldable pub top : Queue → Cells → Run ℕ
unfolding queue_empty
top q h = if queue_empty q then died else (do c ← deref (h q.head); ok c.element)
