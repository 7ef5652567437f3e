-- ===== src/Router/Table/Examples.antt =====
-- A table of two lines, in which an address is one decimal number.
use pc_communication_protoco.Prelude.{
  ℕ, All, ◌+◌, ◌<◌, ◌≡◌, ◌∙◌, sym, ap, Option, some, [], ◌∷◌, append-nil, Text, length, ok, atoi,
  atoi-decimal, decimal, print_digits-first, arith,
}
use pc_communication_protoco.Router.Route.{Table}
use pc_communication_protoco.Router.Table.{read_table}
use pc_communication_protoco.Router.Table.Lines.{Reads, route_line, decimal-Visible}
use pc_communication_protoco.Router.Table.File.{table_text, read_table-text}

abbrev rtable : Table
rtable =
    record { prefix = 10; next_hop = 266; mask = 255; interface = 1 }
    ∷ record { prefix = 522; next_hop = 778; mask = 65535; interface = 12 }
    ∷ []

abbrev number : Text → Option ℕ
number t = some (atoi t)

decimal-some : (a : ℕ) → 0 < length (decimal a)
unfolding decimal
decimal-some a =
    let (d, rest, e, small) = print_digits-first (a + 1) a [] (omega arith) in
    omega (arith, ap length e)

decimal-Reads : (a : ℕ) → a < 4294967296 → Reads number (decimal a) a
decimal-Reads a small = (
  ap some (ap atoi (sym (append-nil (decimal a))) ∙ atoi-decimal a [] tt),
  decimal-some a,
  decimal-Visible a,
)

line_short : All (λ r. length (route_line decimal r) < 100) rtable
unfolding decimal
line_short = (omega arith, (omega arith, tt))

read_table-text_example : read_table number 2 (table_text decimal rtable) ≡ ok rtable
read_table-text_example =
    read_table-text number decimal decimal-Reads 2 rtable (omega arith) line_short (omega arith)
