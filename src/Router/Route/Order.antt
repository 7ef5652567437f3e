-- ===== src/Router/Route/Order.antt =====
-- The order by which the routing table is sorted.
use pc_communication_protoco.Prelude.{ℕ, ◌+◌, ◌<◌, ◌≡◌, ◌⊎◌, ◌↔◌, arith}
use pc_communication_protoco.Router.Route.{RouteTableEntry, negative, positive, cmp}

-- An entry of 32-bit fields.
abbrev pub IsEntry : RouteTableEntry → Type 0
IsEntry e = (e.prefix < 4294967296) × (e.mask < 4294967296)

-- The order that the search wants: by prefix, then by mask, as unsigned numbers.
abbrev pub Below : RouteTableEntry → RouteTableEntry → Type 0
Below a b = (a.prefix < b.prefix) ⊎ ((a.prefix ≡ b.prefix) × (a.mask < b.mask))

abbrev pub Near : ℕ → ℕ → Type 0
Near a b = (a < b + 2147483648) × (b < a + 2147483648)

-- `cmp` is negative exactly if the first entry is below the second by prefix, then by mask, as
-- unsigned numbers, if the two prefixes and the two masks are 32-bit numbers less than 2 ^ 31
-- apart.
pub cmp-Below :
    (a b : RouteTableEntry)
    → IsEntry a
    → IsEntry b
    → Near a.prefix b.prefix
    → Near a.mask b.mask
    → (cmp a b ≡ negative) ↔ Below a b
unfolding cmp
cmp-Below a b ha hb near_prefix near_mask = ground arith

-- Two entries of 32-bit fields whose prefixes are more than 2 ^ 31 apart compare the wrong way
-- round.
pub cmp-wrong :
    (a b : RouteTableEntry)
    → IsEntry a
    → IsEntry b
    → b.prefix + 2147483648 < a.prefix
    → (cmp a b ≡ negative) × (cmp b a ≡ positive)
unfolding cmp
cmp-wrong a b ha hb far = ground arith
