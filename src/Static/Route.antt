-- ===== src/Static/Route.antt =====
-- Which route `get_best_route` finds.
use pc_communication_protoco.Prelude.{
  ℕ, suc, ◌+◌, ◌≤◌, ◌<◌, ◌≡◌, refl, sym, ap, ◌∙◌, true, Bool-cases, inl, inr, Option, none, some,
  [], ◌∷◌, ◌++◌, if◌then◌else◌, length, length-append, get_elem?, All, arith, append_assoc, lt→ltb,
}
use pc_communication_protoco.Router.Route.{RouteTableEntry, Table}
use pc_communication_protoco.Static.{ntohl, matches, better, scan_routes, get_best_route}

-- The last entry of the table that matches, or the given one.
abbrev pub last_match : ℕ → Table → Option RouteTableEntry → Option RouteTableEntry
last_match dest_ip [] found = found
last_match dest_ip (r ∷ rtable) found =
    last_match dest_ip rtable (if matches dest_ip r then some r else found)

-- A mask of at least seven bits, in network order.
abbrev pub IsLong : RouteTableEntry → Type 0
IsLong r = 4261412864 ≤ ntohl r.mask

-- The entry that an index stands for.
abbrev chosen : Table → Option ℕ → Option RouteTableEntry
chosen rtable none = none
chosen rtable (some i) = get_elem? rtable i

-- An index is small, and in network order at most the first byte of it is not zero.
abbrev Small : Option ℕ → Type 0
Small none = Unit
Small (some i) = i < 100

better-IsLong :
    (best : Option ℕ) (r : RouteTableEntry) → Small best → IsLong r → better best r ≡ true
unfolding better ntohl
better-IsLong none r small long = refl
better-IsLong (some i) r small long = lt→ltb (ntohl i) (ntohl r.mask) (omega (arith, small, long))

get_elem?-middle :
    (front : Table) (r : RouteTableEntry) (back : Table)
    → get_elem? (front ++ r ∷ back) (length front) ≡ some r
get_elem?-middle [] r back = refl
get_elem?-middle (x ∷ front) r back = get_elem?-middle front r back

-- The loop over the rest of the table, after the `i` entries in front of it.
scan_routes-last :
    (dest_ip : ℕ) (whole front rtable : Table) (i : ℕ) (best : Option ℕ)
    (found : Option RouteTableEntry)
    → whole ≡ front ++ rtable
    → length front ≡ i
    → i + length rtable ≤ 100
    → Small best
    → All IsLong rtable
    → chosen whole best ≡ found
    → chosen whole (scan_routes dest_ip rtable i best) ≡ last_match dest_ip rtable found
unfolding scan_routes
scan_routes-last dest_ip whole front [] i best found split count room small long e = e
scan_routes-last dest_ip whole front (r ∷ rtable) i best found split count room small long e =
    let split' = split ∙ sym (append_assoc front (r ∷ []) rtable) in
    let count' : length (front ++ r ∷ []) ≡ suc i =
      omega (arith, count, length-append front (r ∷ [])) in
    let here : get_elem? whole i ≡ some r =
      ap (λ (t : Table). get_elem? t i) split
      ∙ ap (get_elem? (front ++ r ∷ rtable)) (sym count)
      ∙ get_elem?-middle front r rtable in
    elim (Bool-cases (matches dest_ip r)) [
      | inl hit ↦
          rw (hit, better-IsLong best r small long.0)
            (scan_routes-last dest_ip whole (front ++ r ∷ []) rtable (suc i) (some i) (some r)
              split' count' (omega (arith, room)) (omega (arith, room)) long.1 here)
      | inr miss ↦ rw miss (
          scan_routes-last dest_ip whole (front ++ r ∷ []) rtable (suc i) best found split' count'
            (omega (arith, room)) small long.1 e)
    ]

get_best_route-chosen :
    (rtable : Table) (dest_ip : ℕ)
    → get_best_route rtable dest_ip ≡ chosen rtable (scan_routes dest_ip rtable 0 none)
unfolding get_best_route
get_best_route-chosen rtable dest_ip = by_index (scan_routes dest_ip rtable 0 none)
  where
    by_index :
        (b : Option ℕ) → (elim b [ none ↦ none | some i ↦ get_elem? rtable i ]) ≡ chosen rtable b
    by_index none = refl
    by_index (some i) = refl

-- In a table of at most a hundred entries, whose masks are of seven bits or more, `get_best_route`
-- of the router with the fixed ARP table returns the last entry that matches, whatever the lengths
-- of the prefixes.
pub get_best_route-last :
    (rtable : Table) (dest_ip : ℕ)
    → length rtable ≤ 100
    → All IsLong rtable
    → get_best_route rtable dest_ip ≡ last_match dest_ip rtable none
get_best_route-last rtable dest_ip room long =
    get_best_route-chosen rtable dest_ip
    ∙ scan_routes-last dest_ip rtable [] rtable 0 none none refl refl (omega (arith, room)) tt long
        refl
