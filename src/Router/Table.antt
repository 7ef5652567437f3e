-- ===== src/Router/Table.antt =====
-- The loop of `read_rtable` in `router/helper.c`, over the bytes of the file. `n` is the size `N` of
-- the table, and `inet_aton` that of the system; `none` is that it refuses the text.
pub mod Lines
pub mod File
mod Examples
use pc_communication_protoco.Prelude.{
  ℕ, zero, suc, ◌%◌, ◌==◌, c_str, Option, none, some, List, [], ◌∷◌, ◌++◌, Text, ltb, if◌then◌else◌,
  length, Run, ok, fault, ◌>>=◌, deref, atoi,
}
use pc_communication_protoco.Subscriber.{strtok}
use pc_communication_protoco.Router.Route.{RouteTableEntry, Table}

-- What `fgets` stores, which ends behind a newline or when there is no more room, and what it leaves.
unfoldable pub take_line : ℕ → Text → Text × Text
take_line zero bytes = ([], bytes)
take_line (suc room) [] = ([], [])
take_line (suc room) (b ∷ bytes) =
    let (line, rest) = take_line room bytes in if b == 10 then (b ∷ [], bytes) else (b ∷ line, rest)

-- The lines that `fgets` gives for a `buffer` of 100 bytes, one of them for the terminator. A call
-- takes at least one byte, so that the length of the text is fuel enough.
unfoldable pub read_lines : ℕ → Text → List Text
unfolding take_line
read_lines zero bytes = []
read_lines (suc fuel) [] = []
read_lines (suc fuel) (b ∷ bytes) =
    let (line, rest) = take_line 99 (b ∷ bytes) in line ∷ read_lines fuel rest

module _ (inet_aton : Text → Option ℕ) where
  -- What `aux` holds behind the call, which keeps it for a text that it refuses. To read it before
  -- anything is stored in it is a `fault`.
  unfoldable pub read_address : Text → Option ℕ → Run ℕ
  read_address s aux = elim (inet_aton s) [ none ↦ deref aux | some address ↦ ok address ]

  -- A line, with what `aux` holds; a missing token is a NULL pointer. The number of the interface is
  -- without a sign, and kept as the 32 bits of an `int`.
  unfoldable pub read_route : Text → Option ℕ → Run RouteTableEntry
  unfolding strtok read_address
  read_route buffer aux = do
    (s1, rest) ← deref (strtok (c_str buffer))
    prefix ← read_address s1 aux
    (s2, rest') ← deref (strtok rest)
    next_hop ← read_address s2 (some prefix)
    (s3, rest'') ← deref (strtok rest')
    mask ← read_address s3 (some next_hop)
    (s4, rest''') ← deref (strtok rest'')
    ok (record {
      prefix = prefix;
      next_hop = next_hop;
      mask = mask;
      interface = atoi s4 % 4294967296;
    })

  -- The loop, with the entries that it has stored; `aux` holds the last mask.
  unfoldable pub read_routes : ℕ → List Text → Option ℕ → Table → Run Table
  unfolding read_route
  read_routes n [] aux rtable = ok rtable
  read_routes n (buffer ∷ lines) aux rtable = do
    r ← read_route buffer aux
    stored ← (if ltb (length rtable) n then ok (rtable ++ r ∷ []) else fault)
    read_routes n lines (some r.mask) stored

  -- The table that a file gives, before it is sorted.
  unfoldable pub read_table : ℕ → Text → Run Table
  unfolding read_lines read_routes
  read_table n bytes = read_routes n (read_lines (length bytes) bytes) none []
