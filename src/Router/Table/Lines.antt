-- ===== src/Router/Table/Lines.antt =====
-- A line that is written for an entry is read back.
use pc_communication_protoco.Prelude.{
  zero, suc, Bool-cases, inl, inr, print_digits, ◌/◌, ◌%◌, NoNul, c_str-NoNul_eq, All-map, ℕ, ◌+◌,
  ◌≤◌, ◌<◌, ◌≡◌, ◌≢◌, refl, sym, ap, ◌∙◌, true, Option, some, [], ◌∷◌, ◌++◌, map, append-nil,
  append_assoc, Text, ltb, lt→ltb, length, length-append, All, All-append, ok, >>=-ok, deref,
  atoi-decimal, decimal, arith,
}
use pc_communication_protoco.Subscriber.{strtok}
use pc_communication_protoco.Subscriber.Commands.{IsWord, strtok-word, strtok-end, decimal-IsWord}
use pc_communication_protoco.Router.Route.{RouteTableEntry, Table}
use pc_communication_protoco.Router.Table.{read_address, read_route, read_routes}

-- Every address is a 32-bit number, and the interface an `int` from 0 on.
abbrev pub Is32Bit : RouteTableEntry → Type 0
Is32Bit r =
    (r.prefix < 4294967296)
    × (r.next_hop < 4294967296)
    × (r.mask < 4294967296)
    × (r.interface < 2147483648)

-- A text of bytes behind the space, such as digits and dots.
abbrev pub Visible : Text → Type 0
Visible = All (λ b. 32 < b)

-- What `inet_aton` reads as the address: a text of at least one visible byte.
abbrev pub Reads : (Text → Option ℕ) → Text → ℕ → Type 0
Reads inet_aton t address = (inet_aton t ≡ some address) × (0 < length t) × Visible t

print_digits-Visible : (fuel n : ℕ) (acc : Text) → Visible acc → Visible (print_digits fuel n acc)
unfolding print_digits
print_digits-Visible zero n acc shown = shown
print_digits-Visible (suc fuel) n acc shown = elim (Bool-cases (ltb n 10)) [
  | inl small ↦ rw small (omega arith, shown)
  | inr large ↦
      rw large (print_digits-Visible fuel (n / 10) ((48 + n % 10) ∷ acc) (omega arith, shown))
]

pub decimal-Visible : (n : ℕ) → Visible (decimal n)
unfolding decimal
decimal-Visible n = print_digits-Visible (n + 1) n [] tt

Visible-IsWord : (t : Text) → Visible t → IsWord t
Visible-IsWord t shown = All-map t (λ b above same. omega arith) shown

Visible-NoNul : (t : Text) → Visible t → NoNul t
Visible-NoNul t shown = All-map t (λ b above same. omega arith) shown

abbrev pub route_line : (ℕ → Text) → RouteTableEntry → Text
route_line inet_ntoa r =
    inet_ntoa r.prefix
    ++ (32
        ∷ (inet_ntoa r.next_hop
            ++ (32 ∷ (inet_ntoa r.mask ++ (32 ∷ (decimal r.interface ++ 10 ∷ []))))))

module _ (inet_aton : Text → Option ℕ) (inet_ntoa : ℕ → Text)
    (reads : (a : ℕ) → a < 4294967296 → Reads inet_aton (inet_ntoa a) a) where
  read_address-ok :
      (a : ℕ) (aux : Option ℕ) → a < 4294967296 → read_address inet_aton (inet_ntoa a) aux ≡ ok a
  unfolding read_address
  read_address-ok a aux small = rw ((reads a small).0, read_address) refl

  next_token :
      (a : ℕ) (rest : Text)
      → a < 4294967296
      → deref (strtok (inet_ntoa a ++ 32 ∷ rest)) ≡ ok (inet_ntoa a, rest)
  next_token a rest small =
      rw
        (strtok-word (inet_ntoa a) rest (reads a small).1
          (Visible-IsWord (inet_ntoa a) (reads a small).2))
        refl

  address-NoNul : (a : ℕ) (t : Text) → a < 4294967296 → NoNul t → NoNul (inet_ntoa a ++ 32 ∷ t)
  address-NoNul a t small no_nul =
      All-append (λ b. b ≢ 0) (inet_ntoa a) (32 ∷ t) (Visible-NoNul (inet_ntoa a) (reads a small).2)
        ((λ e. omega arith), no_nul)

  number-NoNul : (n : ℕ) → NoNul (decimal n ++ 10 ∷ [])
  number-NoNul n =
      All-append (λ b. b ≢ 0) (decimal n) (10 ∷ []) (Visible-NoNul (decimal n) (decimal-Visible n))
        ((λ e. omega arith), tt)

  route_line-NoNul : (r : RouteTableEntry) → Is32Bit r → NoNul (route_line inet_ntoa r)
  route_line-NoNul r (p, h, m, i) =
      address-NoNul r.prefix _ p
        (address-NoNul r.next_hop _ h (address-NoNul r.mask _ m (number-NoNul r.interface)))

  -- The entry that the line was written for.
  read_route-line :
      (r : RouteTableEntry) (aux : Option ℕ)
      → Is32Bit r
      → read_route inet_aton (route_line inet_ntoa r) aux ≡ ok r
  unfolding read_route
  read_route-line r aux (p, h, m, i) =
      let number = decimal r.interface ++ 10 ∷ [] in
      let long : 0 < length number = omega (arith, length-append (decimal r.interface) (10 ∷ [])) in
      let word : IsWord number =
        All-append (λ b. b ≢ 32) (decimal r.interface) (10 ∷ []) (decimal-IsWord r.interface)
          ((λ e. omega arith), tt) in
      let whole = c_str-NoNul_eq (route_line inet_ntoa r) (route_line-NoNul r (p, h, m, i)) in
      let wide : r.interface % 4294967296 ≡ r.interface = omega arith in
      rw whole (
        >>=-ok _ (next_token r.prefix _ p) (
          >>=-ok _ (read_address-ok r.prefix aux p) (
            >>=-ok _ (next_token r.next_hop _ h) (
              >>=-ok _ (read_address-ok r.next_hop (some r.prefix) h) (
                >>=-ok _ (next_token r.mask number m) (
                  >>=-ok _ (read_address-ok r.mask (some r.next_hop) m) (
                    rw (strtok-end number long word) (
                      ap (λ (n : ℕ). ok (record r { interface = n % 4294967296 }))
                        (atoi-decimal r.interface (10 ∷ []) refl)
                      ∙ ap (λ (n : ℕ). ok (record r { interface = n })) wide))))))))

  pub read_routes-rest :
      (n : ℕ) (table stored : Table) (aux : Option ℕ)
      → All Is32Bit table
      → length stored + length table ≤ n
      → read_routes inet_aton n (map (route_line inet_ntoa) table) aux stored ≡ ok (stored ++ table)
  unfolding read_routes
  read_routes-rest n [] stored aux small room = ap ok (sym (append-nil stored))
  read_routes-rest n (r ∷ table) stored aux small room =
      let free : ltb (length stored) n ≡ true = lt→ltb (length stored) n (omega (arith, room)) in
      >>=-ok _ (read_route-line r aux small.0) (
        rw free (
          read_routes-rest n table (stored ++ r ∷ []) (some r.mask) small.1
            (omega (arith, room, length-append stored (r ∷ [])))
          ∙ ap ok (append_assoc stored (r ∷ []) table)))
