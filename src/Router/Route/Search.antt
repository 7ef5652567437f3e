-- ===== src/Router/Route/Search.antt =====
-- What `get_best_route` finds in a sorted table.
use Prim.Native.Nat.{bit_and}
use pc_communication_protoco.Prelude.{
  ℕ, zero, suc, ◌+◌, ◌-◌, ◌/◌, ◌≤◌, ◌<◌, ◌≡◌, ◌⊎◌, inl, inr, refl, Option, none, some, [], ◌∷◌,
  arith, ◌==◌, ltb, leb, Bool-cases, ==_iff, length, get_elem?, Run, ok,
}
use pc_communication_protoco.Router.Route.{
  RouteTableEntry, Table, walk_down, probe, search_route, get_best_route,
}

-- The table is sorted: entry `i` is not above entry `i + 1`.
abbrev pub Ordered : RouteTableEntry → RouteTableEntry → Type 0
Ordered a b = (a.prefix < b.prefix) ⊎ ((a.prefix ≡ b.prefix) × (a.mask ≤ b.mask))

abbrev pub Sorted : Table → Type 0
Sorted [] = Unit
Sorted (a ∷ []) = Unit
Sorted (a ∷ b ∷ rest) = Ordered a b × Sorted (b ∷ rest)

abbrev pub Matches : ℕ → RouteTableEntry → Type 0
Matches dest_ip e = bit_and dest_ip e.mask ≡ e.prefix

-- An entry of the table that matches the address.
abbrev pub IsRoute : Table → ℕ → RouteTableEntry → Type 0
IsRoute rtable dest_ip e = ((i : ℕ) × (get_elem? rtable i ≡ some e)) × Matches dest_ip e

pub get_elem?-lt :
    (rtable : Table) (i : ℕ)
    → i < length rtable
    → (e : RouteTableEntry) × (get_elem? rtable i ≡ some e)
get_elem?-lt [] i h = absurd (omega arith)
get_elem?-lt (a ∷ rest) zero h = (a, refl)
get_elem?-lt (a ∷ rest) (suc i) h = get_elem?-lt rest i (omega arith)

Sorted-next :
    (rtable : Table) (m : ℕ) (a b : RouteTableEntry)
    → Sorted rtable
    → get_elem? rtable m ≡ some a
    → get_elem? rtable (suc m) ≡ some b
    → Ordered a b
Sorted-next [] m a b sorted ea eb = ground arith
Sorted-next (c ∷ []) m a b sorted ea eb = ground arith
Sorted-next (c ∷ d ∷ rest) zero a b sorted ea eb = ground arith
Sorted-next (c ∷ d ∷ rest) (suc m) a b sorted ea eb = Sorted-next (d ∷ rest) m a b sorted.1 ea eb

-- In a sorted table the inner loop never moves: the entry below has no larger mask.
pub walk_down-Sorted :
    (rtable : Table) (m : ℕ) (e : RouteTableEntry)
    → Sorted rtable
    → m < length rtable
    → get_elem? rtable m ≡ some e
    → walk_down rtable m ≡ ok e
unfolding walk_down
walk_down-Sorted rtable zero e sorted h found = rw found
walk_down-Sorted rtable (suc m) e sorted h found =
    let (b, before) = get_elem?-lt rtable m (omega arith) in
    let order = Sorted-next rtable m b e sorted before found in rw (found, before) (ground arith)

-- The outcome of the search: a route, or nothing.
abbrev pub Searched : Table → ℕ → Run (Option RouteTableEntry) → Type 0
Searched rtable dest_ip (ok none) = Unit
Searched rtable dest_ip (ok (some e)) = IsRoute rtable dest_ip e
Searched rtable dest_ip _ = ⊥

-- One probe, given what the two ways to go on would find.
probe-Searched :
    (rtable : Table) (dest_ip m : ℕ) (lower upper : Run (Option RouteTableEntry))
    → Sorted rtable
    → m < length rtable
    → Searched rtable dest_ip lower
    → Searched rtable dest_ip upper
    → Searched rtable dest_ip (probe rtable dest_ip m lower upper)
unfolding probe
probe-Searched rtable dest_ip m lower upper sorted inside below above =
    let (e, found) = get_elem?-lt rtable m inside in
    elim (Bool-cases (bit_and dest_ip e.mask == e.prefix)) [
      | inl hit ↦
          rw (found, hit, walk_down-Sorted rtable m e sorted inside found)
            ((m, found), (==_iff _ _).0 hit)
      | inr miss ↦ elim (Bool-cases (ltb (bit_and dest_ip e.mask) e.prefix)) [
        | inl left ↦ rw (found, miss, left) below
        | inr right ↦ rw (found, miss, right) above
      ]
    ]

search_route-Searched :
    (fuel : ℕ) (rtable : Table) (dest_ip l hi : ℕ)
    → Sorted rtable
    → hi ≤ length rtable
    → hi - l < fuel
    → Searched rtable dest_ip (search_route fuel rtable dest_ip l hi)
unfolding search_route
search_route-Searched zero rtable dest_ip l hi sorted inside enough = absurd (omega arith)
search_route-Searched (suc fuel) rtable dest_ip l hi sorted inside enough =
    elim (Bool-cases (leb hi l)) [
      | inl over ↦ rw (over) tt
      | inr more ↦
          (let m = l + (hi - 1 - l) / 2 in
            let room : l < hi = ground (arith, more) in
            rw more (
              probe-Searched rtable dest_ip m (search_route fuel rtable dest_ip l m)
                (search_route fuel rtable dest_ip (m + 1) hi) sorted (omega arith)
                (search_route-Searched fuel rtable dest_ip l m sorted (omega arith) (omega arith))
                (search_route-Searched fuel rtable dest_ip (m + 1) hi sorted inside (omega arith))))
    ]

-- On a table sorted by prefix and mask `get_best_route` ends within its fuel, reads nothing outside
-- the table, and returns nothing or an entry of the table that matches the address.
pub get_best_route-Searched :
    (rtable : Table) (dest_ip : ℕ)
    → Sorted rtable
    → Searched rtable dest_ip (get_best_route rtable dest_ip)
unfolding get_best_route
get_best_route-Searched rtable dest_ip sorted =
    search_route-Searched (length rtable + 1) rtable dest_ip 0 (length rtable) sorted (omega arith)
      (omega arith)
