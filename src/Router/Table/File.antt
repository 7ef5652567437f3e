-- ===== src/Router/Table/File.antt =====
-- A file with a line for each entry, read by `read_rtable` in `router/helper.c`.
use pc_communication_protoco.Prelude.{
  ℕ, zero, suc, ◌≤◌, ◌<◌, ◌≡◌, ◌≢◌, refl, ap, ◌∙◌, false, ◌⊎◌, inl, inr, Option, none, [], ◌∷◌,
  ◌++◌, map, All, Text, ◌==◌, length, length-append, ok, decimal, arith,
}
use pc_communication_protoco.Router.Route.{RouteTableEntry, Table}
use pc_communication_protoco.Router.Table.{take_line, read_lines, read_routes, read_table}
use pc_communication_protoco.Router.Table.Lines.{
  Is32Bit, Visible, Reads, route_line, decimal-Visible, read_routes-rest,
}

-- One line: a newline at its end and nowhere before.
abbrev IsLine : Text → Type 0
IsLine [] = ⊥
IsLine (b ∷ t) = ((b ≡ 10) × (t ≡ [])) ⊎ ((b ≢ 10) × IsLine t)

IsLine-behind : (w t : Text) → Visible w → IsLine t → IsLine (w ++ t)
IsLine-behind [] t shown line = line
IsLine-behind (b ∷ w) t (above, shown) line = inr ((λ e. omega arith), IsLine-behind w t shown line)

IsLine-some : (t : Text) → IsLine t → 0 < length t
IsLine-some [] line = absurd line
IsLine-some (b ∷ t) line = omega arith

-- `fgets` with room for a line stores the line.
take_line-IsLine :
    (room : ℕ) (line rest : Text)
    → IsLine line
    → length line ≤ room
    → take_line room (line ++ rest) ≡ (line, rest)
unfolding take_line
take_line-IsLine room [] rest line fits = absurd line
take_line-IsLine zero (b ∷ t) rest line fits = absurd (omega arith)
take_line-IsLine (suc room) (b ∷ t) rest (inl (newline, ended)) fits = rw (newline, ended) refl
take_line-IsLine (suc room) (b ∷ t) rest (inr (other, line)) fits =
    let on : (b == 10) ≡ false = ground arith in
    rw (on, take_line-IsLine room t rest line (omega arith)) refl

-- The text of a table, with a line for each entry.
abbrev pub table_text : (ℕ → Text) → Table → Text
table_text inet_ntoa [] = []
table_text inet_ntoa (r ∷ table) = route_line inet_ntoa r ++ table_text inet_ntoa table

read_lines-line :
    (fuel : ℕ) (line rest : Text)
    → IsLine line
    → length line < 100
    → read_lines (suc fuel) (line ++ rest) ≡ line ∷ read_lines fuel rest
unfolding read_lines
read_lines-line fuel [] rest line short = absurd line
read_lines-line fuel (b ∷ t) rest line short =
    rw (take_line-IsLine 99 (b ∷ t) rest line (omega arith)) refl

read_lines-end : (fuel : ℕ) → read_lines fuel [] ≡ []
unfolding read_lines
read_lines-end zero = refl
read_lines-end (suc fuel) = refl

module _ (inet_aton : Text → Option ℕ) (inet_ntoa : ℕ → Text)
    (reads : (a : ℕ) → a < 4294967296 → Reads inet_aton (inet_ntoa a) a) where
  address-IsLine : (a : ℕ) (t : Text) → a < 4294967296 → IsLine t → IsLine (inet_ntoa a ++ 32 ∷ t)
  address-IsLine a t small line =
      IsLine-behind (inet_ntoa a) (32 ∷ t) (reads a small).2 (inr ((λ e. omega arith), line))

  route_line-IsLine : (r : RouteTableEntry) → Is32Bit r → IsLine (route_line inet_ntoa r)
  route_line-IsLine r (p, h, m, i) = address-IsLine r.prefix _ p (
      address-IsLine r.next_hop _ h (
        address-IsLine r.mask _ m (
          IsLine-behind (decimal r.interface) (10 ∷ []) (decimal-Visible r.interface)
            (inl (refl, refl)))))

  read_lines-table :
      (fuel : ℕ) (table : Table)
      → All Is32Bit table
      → All (λ r. length (route_line inet_ntoa r) < 100) table
      → length (table_text inet_ntoa table) ≤ fuel
      → read_lines fuel (table_text inet_ntoa table) ≡ map (route_line inet_ntoa) table
  read_lines-table fuel [] small short enough = read_lines-end fuel
  read_lines-table zero (r ∷ table) small short enough =
      let some_line = IsLine-some (route_line inet_ntoa r) (route_line-IsLine r small.0) in
      absurd (
        omega
          (arith, length-append (route_line inet_ntoa r) (table_text inet_ntoa table), some_line))
  read_lines-table (suc fuel) (r ∷ table) small short enough =
      let line = route_line-IsLine r small.0 in
      let some_line = IsLine-some (route_line inet_ntoa r) line in
      let left : length (table_text inet_ntoa table) ≤ fuel =
        omega
          (arith, length-append (route_line inet_ntoa r) (table_text inet_ntoa table), some_line) in
      read_lines-line fuel (route_line inet_ntoa r) (table_text inet_ntoa table) line short.0
      ∙ ap (λ lines. route_line inet_ntoa r ∷ lines)
          (read_lines-table fuel table small.1 short.1 left)

  -- A file with one line for each entry of a table is read back entry by entry by the loop of
  -- `read_rtable`, if the table has no more entries than the array. The addresses are 32-bit
  -- numbers, the interfaces are below 2 ^ 31, and each line has fewer than 100 bytes, with its
  -- newline; `inet_aton` reads each written address back, and a written address is a text of at
  -- least one byte, all of them above the space.
  pub read_table-text :
      (n : ℕ) (table : Table)
      → All Is32Bit table
      → All (λ r. length (route_line inet_ntoa r) < 100) table
      → length table ≤ n
      → read_table inet_aton n (table_text inet_ntoa table) ≡ ok table
  unfolding read_table
  read_table-text n table small short room =
      ap (λ lines. read_routes inet_aton n lines none [])
        (read_lines-table (length (table_text inet_ntoa table)) table small short (omega arith))
      ∙ read_routes-rest inet_aton inet_ntoa reads n table [] none small (omega (arith, room))
