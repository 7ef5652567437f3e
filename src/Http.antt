-- ===== src/Http.antt =====
-- The HTTP client helpers of `labs/HTTP-lab10`: `buffer.c`. A buffer is the bytes that `data`
-- points to, and `none` for NULL.
pub mod Find
pub mod Request
pub mod Response
mod Examples
use pc_communication_protoco.Prelude.{
  ℕ, zero, suc, ◌+◌, ◌-◌, ◌%◌, Bool, true, false, ◌&&◌, Option, none, some, List, [], ◌∷◌, ◌++◌,
  Text, ◌==◌, ltb, leb, if◌then◌else◌, length, take, drop, Run, ok, fault, ◌>>=◌, deref,
}

pub record Buffer : Type 0 where
  pub contents : Option Text
  pub size : ℕ

abbrev pub buffer : Option Text → ℕ → Buffer
buffer contents size = record { contents = contents; size = size }

unfoldable pub buffer_init : Buffer
buffer_init = buffer none 0

unfoldable pub buffer_destroy : Buffer → Buffer
buffer_destroy b = buffer none 0

unfoldable pub buffer_is_empty : Buffer → Bool
buffer_is_empty b = elim b.contents [ none ↦ true | some d ↦ false ]

-- The memory is made large enough and the new bytes are copied behind the `size` old ones. Reading
-- more of `data` than there is, or writing behind a NULL buffer that counts bytes, is a `fault`.
unfoldable pub buffer_add : Buffer → Text → ℕ → Run Buffer
buffer_add b bytes data_size =
    if leb data_size (length bytes)
    then elim b.contents [
      | some d ↦ ok (buffer (some (take b.size d ++ take data_size bytes)) (b.size + data_size))
      | none ↦
          if b.size == 0
          then ok (buffer (some (take data_size bytes)) (b.size + data_size))
          else fault
    ]
    else fault

-- The inner loop: whether the next `data_size` bytes are the wanted ones, as `fold` shows both.
unfoldable pub same_bytes : (ℕ → ℕ) → ℕ → Text → Text → Run Bool
same_bytes fold zero bytes wanted = ok true
same_bytes fold (suc n) [] wanted = fault
same_bytes fold (suc n) (x ∷ bytes) [] = fault
same_bytes fold (suc n) (x ∷ bytes) (y ∷ wanted) =
    if fold x == fold y then same_bytes fold n bytes wanted else ok false

-- The outer loop from position `i` on, for `tries` more positions.
unfoldable pub find_from : (ℕ → ℕ) → ℕ → ℕ → Text → Text → ℕ → Run (Option ℕ)
unfolding same_bytes
find_from fold zero i bytes wanted data_size = ok none
find_from fold (suc tries) i bytes wanted data_size =
    let rest = find_from fold tries (i + 1) (drop 1 bytes) wanted data_size in
    do hit ← same_bytes fold data_size bytes wanted; if hit then ok (some i) else rest

-- A position as the `int` that the searches return; `none` is a result below 0.
unfoldable pub as_int : Option ℕ → Option ℕ
as_int none = none
as_int (some i) = let low = i % 4294967296 in if ltb low 2147483648 then some low else none

unfoldable pub buffer_find_by : (ℕ → ℕ) → Buffer → Text → ℕ → Run (Option ℕ)
unfolding find_from as_int
buffer_find_by fold b wanted data_size = if ltb b.size data_size then ok none else (do
  bytes ← deref b.contents
  found ← find_from fold (b.size - data_size + 1) 0 bytes wanted data_size
  ok (as_int found))

unfoldable pub buffer_find : Buffer → Text → ℕ → Run (Option ℕ)
unfolding buffer_find_by
buffer_find b wanted data_size = buffer_find_by (λ c. c) b wanted data_size

abbrev pub tolower : ℕ → ℕ
tolower c = if leb 65 c && leb c 90 then c + 32 else c

unfoldable pub buffer_find_insensitive : Buffer → Text → ℕ → Run (Option ℕ)
unfolding buffer_find_by
buffer_find_insensitive b wanted data_size = buffer_find_by tolower b wanted data_size
