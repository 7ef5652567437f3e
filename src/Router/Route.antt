-- ===== src/Router/Route.antt =====
-- `cmp` and `get_best_route` of `router/helper.c`. An address or a mask is the `uint32_t` that the
-- little-endian machine reads. The table has the `N` entries of the file, N being its length here;
-- a read outside it is a `fault`.
pub mod Order
pub mod Search
pub mod Complete
use pc_communication_protoco.Prelude.{
  ℕ, zero, suc, ◌+◌, ◌-◌, ◌/◌, ◌%◌, Bool, true, false, not, Option, none, some, List, ◌==◌, ◌&&◌,
  ◌||◌, ltb, leb, if◌then◌else◌, length, get_elem?, Run, ok, fault, ◌>>=◌, deref,
}
use Prim.Native.Nat.{bit_and}

pub record RouteTableEntry : Type 0 where
  pub prefix : ℕ
  pub next_hop : ℕ
  pub mask : ℕ
  pub interface : ℕ

-- The sign of an `int`.
pub data Sign : Type 0 where
  negative nought positive : Sign

-- A difference of two `uint32_t`, returned as an `int`.
unfoldable pub int_difference : ℕ → ℕ → Sign
int_difference a b =
    let d = (a + 4294967296 - b) % 4294967296 in
    if d == 0 then nought else if ltb d 2147483648 then positive else negative

unfoldable pub cmp : RouteTableEntry → RouteTableEntry → Sign
unfolding int_difference
cmp a b =
    if not (a.prefix == b.prefix)
    then int_difference a.prefix b.prefix
    else int_difference a.mask b.mask

abbrev pub Table : Type 0
Table = List RouteTableEntry

-- The inner loop: `m` goes down while the entry below has the same prefix and a larger mask.
unfoldable pub walk_down : Table → ℕ → Run RouteTableEntry
walk_down rtable zero = deref (get_elem? rtable zero)
walk_down rtable (suc m) =
    let below = walk_down rtable m in
    do
      here ← deref (get_elem? rtable (suc m))
      before ← deref (get_elem? rtable m)
      if not (here.prefix == before.prefix) || leb before.mask here.mask then ok here else below

-- The body of the binary search at entry `m`, with the two ways to go on.
unfoldable pub probe :
    Table
    → ℕ
    → ℕ
    → Run (Option RouteTableEntry)
    → Run (Option RouteTableEntry)
    → Run (Option RouteTableEntry)
unfolding walk_down
probe rtable dest_ip m lower upper = do
  e ← deref (get_elem? rtable m)
  let prefix = bit_and dest_ip e.mask
  if prefix == e.prefix
      then (do found ← walk_down rtable m; ok (some found))
      else (if ltb prefix e.prefix then lower else upper)

-- The binary search. `hi` is `r + 1`, so `l > r` is `hi <= l`; `m` is `l + (r - l) / 2`.
unfoldable pub search_route : ℕ → Table → ℕ → ℕ → ℕ → Run (Option RouteTableEntry)
unfolding probe
search_route zero rtable dest_ip l hi = fault
search_route (suc fuel) rtable dest_ip l hi =
    let m = l + (hi - 1 - l) / 2 in
    let lower = search_route fuel rtable dest_ip l m in
    let upper = search_route fuel rtable dest_ip (m + 1) hi in
    let step = probe rtable dest_ip m lower upper in if leb hi l then ok none else step

-- The interval shrinks in each round, so that one round more than there are entries is enough.
unfoldable pub get_best_route : Table → ℕ → Run (Option RouteTableEntry)
unfolding search_route
get_best_route rtable dest_ip = search_route (length rtable + 1) rtable dest_ip 0 (length rtable)
