-- ===== src/Router/Route/Complete.antt =====
-- When `get_best_route` finds a route that exists, and when it does not.
use Prim.Native.Nat.{bit_and}
use mathlib.Core.Path.{subst}
use pc_communication_protoco.Prelude.{
  ℕ, zero, suc, ◌+◌, ◌-◌, ◌/◌, ◌≤◌, ◌<◌, ◌≡◌, inl, inr, true, false, ◌∙◌, none, some, [], ◌∷◌,
  arith, All, ◌==◌, ltb, leb, Bool-cases, ==_iff, length, get_elem?, Run, ok, sym, ap, Option,
}
use pc_communication_protoco.Router.Route.{
  RouteTableEntry, Table, walk_down, probe, search_route, get_best_route,
}
use pc_communication_protoco.Router.Route.Search.{Sorted, Matches, get_elem?-lt, walk_down-Sorted}

-- Prefixes grow along a sorted table.
Sorted-le :
    (rtable : Table) (i j : ℕ) (a b : RouteTableEntry)
    → Sorted rtable
    → i ≤ j
    → get_elem? rtable i ≡ some a
    → get_elem? rtable j ≡ some b
    → a.prefix ≤ b.prefix
Sorted-le [] i j a b sorted h ea eb = ground arith
Sorted-le (c ∷ rest) zero zero a b sorted h ea eb = ground arith
Sorted-le (c ∷ []) zero (suc j) a b sorted h ea eb = ground arith
Sorted-le (c ∷ d ∷ rest) zero (suc j) a b sorted h ea eb =
    ground (arith, Sorted-le (d ∷ rest) zero j d b sorted.1)
Sorted-le (c ∷ rest) (suc i) zero a b sorted h ea eb = absurd (omega arith)
Sorted-le (c ∷ []) (suc i) (suc j) a b sorted h ea eb = ground arith
Sorted-le (c ∷ d ∷ rest) (suc i) (suc j) a b sorted h ea eb =
    Sorted-le (d ∷ rest) i j a b sorted.1 (omega arith) ea eb

abbrev pub Finds : Run (Option RouteTableEntry) → Type 0
Finds r = (e : RouteTableEntry) × (r ≡ ok (some e))

get_elem?-All :
    (P : RouteTableEntry → Type 0) (rtable : Table) (i : ℕ) (e : RouteTableEntry)
    → All P rtable
    → get_elem? rtable i ≡ some e
    → P e
get_elem?-All P [] i e all found = ground arith
get_elem?-All P (a ∷ rest) zero e all found = subst P (let same : a ≡ e = cc in same) all.0
get_elem?-All P (a ∷ rest) (suc i) e all found = get_elem?-All P rest i e all.1 found

get_elem?-inside :
    (rtable : Table) (i : ℕ) (e : RouteTableEntry) → get_elem? rtable i ≡ some e → i < length rtable
get_elem?-inside [] i e found = ground arith
get_elem?-inside (a ∷ rest) zero e found = omega arith
get_elem?-inside (a ∷ rest) (suc i) e found = omega (arith, get_elem?-inside rest i e found)

module _ (rtable : Table) (dest_ip mask i : ℕ) (e : RouteTableEntry) (sorted : Sorted rtable)
    (uniform : All (λ a. a.mask ≡ mask) rtable) (at : get_elem? rtable i ≡ some e)
    (match : Matches dest_ip e) where
  probe-Finds :
      (m : ℕ) (lower upper : Run (Option RouteTableEntry))
      → m < length rtable
      → (i < m → Finds lower)
      → (m < i → Finds upper)
      → Finds (probe rtable dest_ip m lower upper)
  unfolding probe
  probe-Finds m lower upper inside below above =
      let (c, found) = get_elem?-lt rtable m inside in
      let same_c : c.mask ≡ mask = get_elem?-All (λ a. a.mask ≡ mask) rtable m c uniform found in
      let same_e : e.mask ≡ mask = get_elem?-All (λ a. a.mask ≡ mask) rtable i e uniform at in
      let wanted : bit_and dest_ip c.mask ≡ e.prefix =
        ap (λ (k : ℕ). bit_and dest_ip k) (same_c ∙ sym same_e) ∙ match in
      elim (Bool-cases (bit_and dest_ip c.mask == c.prefix)) [
        | inl hit ↦ (c, rw (found, hit, walk_down-Sorted rtable m c sorted inside found))
        | inr miss ↦ elim (Bool-cases (ltb (bit_and dest_ip c.mask) c.prefix)) [
          | inl left ↦
              rw (found, miss, left)
                (below (ground (arith, left, wanted, Sorted-le rtable m i c e sorted)))
          | inr right ↦
              rw (found, miss, right)
                (above (ground (arith, miss, right, wanted, Sorted-le rtable i m e c sorted)))
        ]
      ]

  search_route-Finds :
      (fuel l hi : ℕ)
      → hi ≤ length rtable
      → hi - l < fuel
      → l ≤ i
      → i < hi
      → Finds (search_route fuel rtable dest_ip l hi)
  unfolding search_route
  search_route-Finds zero l hi inside enough from to = absurd (omega arith)
  search_route-Finds (suc fuel) l hi inside enough from to =
      let m = l + (hi - 1 - l) / 2 in
      let more : leb hi l ≡ false = ground arith in
      rw more (
        probe-Finds m (search_route fuel rtable dest_ip l m)
          (search_route fuel rtable dest_ip (m + 1) hi) (omega arith)
          (λ left. search_route-Finds fuel l m (omega arith) (omega arith) from left)
          (λ right. search_route-Finds fuel (m + 1) hi inside (omega arith) (omega arith) to))

  -- In a sorted table whose entries all have one mask `get_best_route` returns a route whenever an
  -- entry matches the address.
  pub get_best_route-Finds : Finds (get_best_route rtable dest_ip)
  unfolding get_best_route
  get_best_route-Finds =
      search_route-Finds (length rtable + 1) 0 (length rtable) (omega arith) (omega arith)
        (omega arith) (get_elem?-inside rtable i e at)

module _ (a b : RouteTableEntry) (dest_ip : ℕ) where
  -- Of two entries, the second with the larger prefix, if the address under the first mask is below
  -- the first prefix and the second entry matches the address, the table is sorted and
  -- `get_best_route` finds no route.
  pub get_best_route-missed :
      bit_and dest_ip a.mask < a.prefix
      → a.prefix < b.prefix
      → Matches dest_ip b
      → Sorted (a ∷ b ∷ []) × (get_best_route (a ∷ b ∷ []) dest_ip ≡ ok none)
  unfolding get_best_route probe
  get_best_route-missed left order match =
      let miss : (bit_and dest_ip a.mask == a.prefix) ≡ false = ground arith in
      let low : ltb (bit_and dest_ip a.mask) a.prefix ≡ true = ground arith in
      ((inl order, tt), rw (miss, low))

  -- Two entries with one prefix, in the order of their different masks, which both match the
  -- address, are a sorted table in which `get_best_route` returns the one with the smaller mask.
  pub get_best_route-shortest :
      a.prefix ≡ b.prefix
      → a.mask < b.mask
      → Matches dest_ip a
      → Matches dest_ip b
      → Sorted (a ∷ b ∷ []) × (get_best_route (a ∷ b ∷ []) dest_ip ≡ ok (some a))
  unfolding get_best_route probe walk_down
  get_best_route-shortest same less match_a match_b =
      let hit : (bit_and dest_ip a.mask == a.prefix) ≡ true = (==_iff _ _).1 match_a in
      ((inr (same, omega arith), tt), rw hit)
