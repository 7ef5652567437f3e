-- ===== src/Router/Queue/Chain.antt =====
-- Chains of cells: from a pointer along the `next` fields to NULL.
use pc_communication_protoco.Prelude.{
  ℕ, ◌≡◌, ◌≢◌, refl, false, Option, none, some, List, [], ◌∷◌, ◌++◌, arith, ◌==◌, Bool-cases, inl,
  inr, among,
}
use pc_communication_protoco.Router.Queue.{Cell, cell, Cells, null, put}

-- What a queue stands for: the address and the element of each cell, in order.
abbrev pub Items : Type 0
Items = List (ℕ × ℕ)

abbrev pub addresses : Items → List ℕ
addresses [] = []
addresses ((a, v) ∷ xs) = a ∷ addresses xs

abbrev pub elements : Items → List ℕ
elements [] = []
elements ((a, v) ∷ xs) = v ∷ elements xs

abbrev pub last : ℕ → Items → ℕ
last d [] = d
last d ((a, v) ∷ xs) = last a xs

abbrev pub Chain : Cells → ℕ → Items → Type 0
Chain h p [] = p ≡ null
Chain h p ((a, v) ∷ xs) =
    (p ≡ a)
    × (a ≢ null)
    × (among a (addresses xs) ≡ false)
    × ((next : ℕ) × (h a ≡ some (cell v next)) × Chain h next xs)

pub Chain-put :
    (h : Cells) (a : ℕ) (c : Option Cell) (p : ℕ) (xs : Items)
    → among a (addresses xs) ≡ false
    → Chain h p xs
    → Chain (put h a c) p xs
unfolding put
Chain-put h a c p [] out chain = chain
Chain-put h a c p ((b, v) ∷ xs) out (e, ne, new, (next, holds, rest)) =
    (e, ne, new, (next, ground arith, Chain-put h a c next xs (ground arith) rest))

pub Chain-fresh :
    (h : Cells) (a p : ℕ) (xs : Items) → h a ≡ none → Chain h p xs → among a (addresses xs) ≡ false
Chain-fresh h a p [] unused chain = refl
Chain-fresh h a p ((b, v) ∷ xs) unused (e, ne, new, (next, holds, rest)) =
    elim (Bool-cases (a == b)) [
      | inl same ↦ absurd (ground arith)
      | inr other ↦ rw other (Chain-fresh h a next xs unused rest)
    ]

pub last-among : (a : ℕ) (xs : Items) (b : ℕ) → among b (a ∷ addresses xs) ≡ false → b ≢ last a xs
last-among a [] b out = ground arith
last-among a ((c, v) ∷ xs) b out = last-among c xs b (ground arith)

abbrev pub linked : Cells → ℕ → ℕ → ℕ → ℕ → Cells
linked h fresh element tail old =
    put (put h fresh (some (cell element null))) tail (some (cell old fresh))

among-append_one :
    (a fresh element : ℕ) (xs : Items)
    → among a (addresses xs) ≡ false
    → a ≢ fresh
    → among a (addresses (xs ++ (fresh, element) ∷ [])) ≡ false
among-append_one a fresh element [] out ne = ground arith
among-append_one a fresh element ((b, v) ∷ xs) out ne =
    ground (arith, among-append_one a fresh element xs)

pub ne_of_unused : (h : Cells) (a fresh : ℕ) (c : Cell) → h fresh ≡ none → h a ≡ some c → a ≢ fresh
ne_of_unused h a fresh c unused holds e = let used : h fresh ≡ some c = rw (← e) holds in cc

-- Writing a fresh cell behind the last one.
pub Chain-linked :
    (h : Cells) (fresh element p a v : ℕ) (xs : Items)
    → fresh ≢ null
    → h fresh ≡ none
    → Chain h p ((a, v) ∷ xs)
    → (old : ℕ) × (h (last a xs) ≡ some (cell old null))
      × Chain (linked h fresh element (last a xs) old) p (((a, v) ∷ xs) ++ (fresh, element) ∷ [])
unfolding put
Chain-linked h fresh element p a v [] real unused (e, ne, new, (next, holds, rest)) = (
  v,
  rw (← rest) holds,
  (e, ne, ground arith, (fresh, ground arith, (refl, real, refl, (null, ground arith, refl)))),
)
Chain-linked h fresh element p a v ((b, w) ∷ xs) real unused (e, ne, new, (next, holds, rest)) =
    let (old, tail, chain) = Chain-linked h fresh element next b w xs real unused rest in
    let other = ne_of_unused h a fresh (cell v next) unused holds in
    let inner = last-among b xs a new in
    (
      old,
      tail,
      (
        e,
        ne,
        among-append_one a fresh element ((b, w) ∷ xs) new other,
        (next, ground arith, chain),
      ),
    )
