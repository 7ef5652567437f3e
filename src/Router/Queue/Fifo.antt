-- ===== src/Router/Queue/Fifo.antt =====
-- The queue refines a list: `queue_enq` appends, `queue_deq` takes the first element.
use pc_communication_protoco.Prelude.{
  ℕ, ◌≡◌, ◌≢◌, refl, sym, true, false, none, some, [], ◌∷◌, ◌++◌, arith, ◌==◌, ok, ◌>>=◌,
}
use pc_communication_protoco.Router.Queue.{
  cell, Cells, null, put, Queue, queue, queue_create, queue_empty, queue_enq, queue_deq, top,
  cdr_and_free,
}
use pc_communication_protoco.Router.Queue.Chain.{
  Items, last, Chain, Chain-put, Chain-linked, linked, ne_of_unused,
}

-- The queue holds these items: the chain leads from `head` to NULL, and `tail` is the last cell.
-- Nothing is said of the `tail` of an empty queue.
abbrev pub Holds : Cells → Queue → Items → Type 0
Holds h q [] = q.head ≡ null
Holds h q ((a, v) ∷ xs) = Chain h q.head ((a, v) ∷ xs) × (q.tail ≡ last a xs)

pub queue_create-Holds : (h : Cells) → Holds h queue_create []
unfolding queue_create
queue_create-Holds h = refl

pub queue_empty_iff :
    (h : Cells) (q : Queue) (xs : Items)
    → Holds h q xs
    → (queue_empty q ≡ true → xs ≡ []) × (xs ≡ [] → queue_empty q ≡ true)
unfolding queue_empty
queue_empty_iff h q [] holds = (λ _. refl, λ _. ground arith)
queue_empty_iff h q ((a, v) ∷ xs) holds = (λ e. absurd (ground arith), λ e. ground arith)

pub Holds-waiting :
    (h : Cells) (q : Queue) (a v : ℕ) (xs : Items) → Holds h q ((a, v) ∷ xs) → queue_empty q ≡ false
unfolding queue_empty
Holds-waiting h q a v xs holds = ground arith

last-append : (d a v : ℕ) (xs : Items) → last d (xs ++ (a, v) ∷ []) ≡ a
last-append d a v [] = refl
last-append d a v ((b, w) ∷ xs) = last-append b a v xs

-- On a queue that holds a list, `queue_enq` with a fresh cell never fails and puts the element
-- behind all the others.
pub queue_enq-append :
    (h : Cells) (q : Queue) (fresh element : ℕ) (xs : Items)
    → Holds h q xs
    → fresh ≢ null
    → h fresh ≡ none
    → (q' : Queue) × (h' : Cells) × (queue_enq fresh q element h ≡ ok (q', h'))
      × Holds h' q' (xs ++ (fresh, element) ∷ [])
unfolding queue_enq queue_empty put
queue_enq-append h q fresh element [] holds real unused = (
  queue fresh fresh,
  put h fresh (some (cell element null)),
  ground arith,
  ((refl, real, refl, (null, ground arith, refl)), refl),
)
queue_enq-append h q fresh element ((a, v) ∷ xs) (chain, tail) real unused =
    let (old, holds, chain') = Chain-linked h fresh element q.head a v xs real unused chain in
    let occupied : (q.head == null) ≡ false = ground arith in
    let apart : (last a xs == fresh) ≡ false =
      ground (arith, ne_of_unused h (last a xs) fresh (cell old null) unused holds) in
    (
      queue q.head fresh,
      linked h fresh element (last a xs) old,
      rw (occupied, tail, apart, holds),
      (chain', sym (last-append a fresh element xs)),
    )

Holds-tail :
    (h : Cells) (p tail a : ℕ) (xs : Items)
    → Chain h p xs
    → tail ≡ last a xs
    → Holds h (queue p tail) xs
Holds-tail h p tail a [] chain e = chain
Holds-tail h p tail a ((b, v) ∷ xs) chain e = (chain, e)

-- On a queue that holds a list with a first element, `queue_deq` returns that element, frees its
-- cell and keeps the others in order.
pub queue_deq-cons :
    (h : Cells) (q : Queue) (a element : ℕ) (xs : Items)
    → Holds h q ((a, element) ∷ xs)
    → (q' : Queue) × (h' : Cells) × (queue_deq q h ≡ ok (element, q', h'))
      × Holds h' q' xs
      × (h' a ≡ none)
unfolding queue_deq queue_empty cdr_and_free put
queue_deq-cons h q a element xs ((e, real, new, (next, holds, rest)), tail) =
    let occupied : (q.head == null) ≡ false = ground arith in
    (queue next q.tail, put h q.head none, rw (occupied, e, holds), rest_holds, rw e (ground arith))
  where
    rest_holds : Holds (put h q.head none) (queue next q.tail) xs
    rest_holds =
        rw e (Holds-tail (put h a none) next q.tail a xs (Chain-put h a none next xs new rest) tail)

-- `top` shows what `queue_deq` would return; on an empty queue both end the process.
pub top-queue_deq :
    (h : Cells) (q : Queue) (xs : Items)
    → Holds h q xs
    → top q h ≡ (do (element, rest, h') ← queue_deq q h; ok element)
unfolding queue_deq queue_empty cdr_and_free put top
top-queue_deq h q [] holds = ground arith
top-queue_deq h q ((a, v) ∷ xs) ((e, real, new, (next, holds, rest)), tail) =
    let occupied : (q.head == null) ≡ false = ground arith in rw (occupied, e, holds)

-- What the next removal gives after an element was put in, and what it leaves.
abbrev pub oldest : Items → ℕ → ℕ
oldest [] element = element
oldest ((a, v) ∷ xs) element = v

abbrev pub later : Items → ℕ × ℕ → Items
later [] item = []
later (x ∷ xs) item = xs ++ item ∷ []

-- On a queue that holds a list, `queue_enq` with a fresh cell never fails and puts the element
-- behind all the others; `queue_deq` after it never fails, returns the oldest element and leaves
-- the others in order.
pub queue_enq-queue_deq :
    (h : Cells) (q : Queue) (fresh element : ℕ) (xs : Items)
    → Holds h q xs
    → fresh ≢ null
    → h fresh ≡ none
    → (q1 : Queue) × (h1 : Cells) × (q2 : Queue) × (h2 : Cells) × (queue_enq fresh q element h
        ≡ ok (q1, h1))
      × Holds h1 q1 (xs ++ (fresh, element) ∷ [])
      × (queue_deq q1 h1 ≡ ok (oldest xs element, q2, h2))
      × Holds h2 q2 (later xs (fresh, element))
queue_enq-queue_deq h q fresh element [] holds real unused =
    let (q1, h1, put_in, holds1) = queue_enq-append h q fresh element [] holds real unused in
    let (q2, h2, taken, holds2, freed) = queue_deq-cons h1 q1 fresh element [] holds1 in
    (q1, h1, q2, h2, put_in, holds1, taken, holds2)
queue_enq-queue_deq h q fresh element ((a, v) ∷ xs) holds real unused =
    let (q1, h1, put_in, holds1) =
      queue_enq-append h q fresh element ((a, v) ∷ xs) holds real unused in
    let (q2, h2, taken, holds2, freed) =
      queue_deq-cons h1 q1 a v (xs ++ (fresh, element) ∷ []) holds1 in
    (q1, h1, q2, h2, put_in, holds1, taken, holds2)
