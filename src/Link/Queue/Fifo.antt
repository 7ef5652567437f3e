-- ===== src/Link/Queue/Fifo.antt =====
-- The emulator's queue refines a list with its length.
use mathlib.Core.Path.{subst}
use pc_communication_protoco.Prelude.{
  ℕ, ◌+◌, ◌-◌, ◌≡◌, ◌≢◌, refl, ap, ◌∙◌, sym, true, false, none, some, [], ◌∷◌, ◌++◌, arith, ◌==◌,
  length, length-append, ok,
}
use pc_communication_protoco.Router.Queue.Fifo.{oldest, later}
use pc_communication_protoco.Router.Queue.{cell, Cells, null, put}
use pc_communication_protoco.Router.Queue.Chain.{
  Items, last, Chain, Chain-put, Chain-linked, linked, ne_of_unused, last-among,
}
use pc_communication_protoco.Link.Queue.{LinkQueue, link_queue, enqueue, dequeue}

-- The entries from the oldest to the newest, their number, and the two ends.
abbrev pub LinkHolds : Cells → LinkQueue → Items → Type 0
LinkHolds h q [] = (q.size ≡ 0) × (q.first ≡ null) × (q.last ≡ null)
LinkHolds h q ((a, v) ∷ xs) =
    (q.size ≡ length xs + 1) × Chain h q.last ((a, v) ∷ xs) × (q.first ≡ last a xs)

last-real : (h : Cells) (p a v : ℕ) (xs : Items) → Chain h p ((a, v) ∷ xs) → last a xs ≢ null
last-real h p a v [] (e, real, new, _) = real
last-real h p a v ((b, w) ∷ xs) (e, real, new, (next, holds, rest)) = last-real h next b w xs rest

last-append : (d a v : ℕ) (xs : Items) → last d (xs ++ (a, v) ∷ []) ≡ a
last-append d a v [] = refl
last-append d a v ((b, w) ∷ xs) = last-append b a v xs

-- On a queue of the link emulator that holds a list, `enqueue` with a fresh entry never fails,
-- counts one more and puts the message behind all the others.
pub enqueue-append :
    (h : Cells) (q : LinkQueue) (fresh m : ℕ) (xs : Items)
    → LinkHolds h q xs
    → fresh ≢ null
    → h fresh ≡ none
    → (q' : LinkQueue) × (h' : Cells) × (enqueue fresh q m h ≡ ok (q', h'))
      × LinkHolds h' q' (xs ++ (fresh, m) ∷ [])
unfolding enqueue put
enqueue-append h q fresh m [] (n, f, l) real unused = (
  link_queue (q.size + 1) fresh fresh,
  put h fresh (some (cell m null)),
  rw (f, l) refl,
  (omega (arith, n), (refl, real, refl, (null, ground arith, refl)), refl),
)
enqueue-append h q fresh m ((a, v) ∷ xs) (n, chain, f) real unused =
    let (old, holds, chain') = Chain-linked h fresh m q.last a v xs real unused chain in
    let occupied : (q.first == null) ≡ false = ground (arith, last-real h q.last a v xs chain) in
    let apart : (last a xs == fresh) ≡ false =
      ground (arith, ne_of_unused h (last a xs) fresh (cell old null) unused holds) in
    (
      link_queue (q.size + 1) fresh q.last,
      linked h fresh m (last a xs) old,
      rw (occupied, f, apart, holds),
      (
        omega (arith, n, length-append xs ((fresh, m) ∷ [])),
        chain',
        sym (last-append a fresh m xs),
      ),
    )

abbrev pub Oldest : Cells → LinkQueue → ℕ → Items → Type 0
Oldest h q m [] = (m ≡ null) × LinkHolds h q []
Oldest h q m ((a, v) ∷ xs) = (m ≡ v) × LinkHolds h q xs × (h a ≡ none)

-- On a queue of the link emulator that holds a list, `dequeue` never fails: it returns the oldest
-- message, frees its entry, counts one less and keeps the others in order; on an empty queue it
-- returns NULL.
pub dequeue-cons :
    (h : Cells) (q : LinkQueue) (xs : Items)
    → LinkHolds h q xs
    → (q' : LinkQueue) × (h' : Cells) × (m : ℕ) × (dequeue q h ≡ ok (m, q', h')) × Oldest h' q' m xs
unfolding dequeue put
dequeue-cons h q [] (n, f, l) = (q, h, null, rw (f, n) refl, (refl, (n, f, l)))
dequeue-cons h q ((a, v) ∷ []) (n, (e, real, new, (next, holds, end)), f) =
    let occupied : (q.first == null) ≡ false = ground arith in
    let single : (q.first == q.last) ≡ true = ground arith in
    (
      link_queue (q.size - 1) null null,
      put h q.last none,
      v,
      rw (occupied, single, e, holds, end),
      (refl, (omega (arith, n), refl, refl), rw e (ground arith)),
    )
dequeue-cons h q ((a, v) ∷ (b, w) ∷ xs) (n, (e, real, new, (next, holds, rest)), f) =
    let kept : Chain (put h q.last none) next ((b, w) ∷ xs) =
      subst (λ p. Chain (put h p none) next ((b, w) ∷ xs)) (sym e)
        (Chain-put h a none next ((b, w) ∷ xs) new rest) in
    let newest = last-real h next b w xs rest in
    let occupied : (q.first == null) ≡ false = ground arith in
    let more : (q.first == q.last) ≡ false = ground (arith, last-among b xs a new) in
    (
      link_queue (q.size - 1) q.first next,
      put h q.last none,
      v,
      rw (occupied, more, e, holds),
      (refl, (omega (arith, n), kept, f), rw e (ground arith)),
    )

-- On a queue of the link emulator that holds a list, `enqueue` with a fresh entry never fails,
-- counts one more and puts the message behind all the others; `dequeue` after it never fails,
-- returns the oldest message, counts one less and leaves the others in order.
pub enqueue-dequeue :
    (h : Cells) (q : LinkQueue) (fresh m : ℕ) (xs : Items)
    → LinkHolds h q xs
    → fresh ≢ null
    → h fresh ≡ none
    → (q1 : LinkQueue) × (h1 : Cells) × (q2 : LinkQueue) × (h2 : Cells) × (enqueue fresh q m h
        ≡ ok (q1, h1))
      × LinkHolds h1 q1 (xs ++ (fresh, m) ∷ [])
      × (dequeue q1 h1 ≡ ok (oldest xs m, q2, h2))
      × LinkHolds h2 q2 (later xs (fresh, m))
enqueue-dequeue h q fresh m [] holds real unused =
    let (q1, h1, put_in, holds1) = enqueue-append h q fresh m [] holds real unused in
    let (q2, h2, m', taken, (same, holds2, freed)) = dequeue-cons h1 q1 ((fresh, m) ∷ []) holds1 in
    (q1, h1, q2, h2, put_in, holds1, taken ∙ ap (λ (k : ℕ). ok (k, q2, h2)) same, holds2)
enqueue-dequeue h q fresh m ((a, v) ∷ xs) holds real unused =
    let (q1, h1, put_in, holds1) = enqueue-append h q fresh m ((a, v) ∷ xs) holds real unused in
    let (q2, h2, m', taken, (same, holds2, freed)) =
      dequeue-cons h1 q1 ((a, v) ∷ xs ++ (fresh, m) ∷ []) holds1 in
    (q1, h1, q2, h2, put_in, holds1, taken ∙ ap (λ (k : ℕ). ok (k, q2, h2)) same, holds2)
