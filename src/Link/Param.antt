-- ===== src/Link/Param.antt =====
-- `split_param` of `link_emulator/link.c`. The local array `c` is written from its start on, so it
-- is the list of the bytes that have been written; to read on behind them is a `fault`, and so is to
-- write behind its 100 bytes.
pub mod Value
use pc_communication_protoco.Prelude.{
  ℕ, zero, suc, ◌+◌, Bool, true, false, ◌&&◌, Option, none, some, List, [], ◌∷◌, ◌++◌, map, Text,
  text_eq, ◌==◌, ltb, leb, if◌then◌else◌, take, drop, Run, ok, fault, ◌>>=◌, codes,
}

pub data ParamType : Type 0 where
  speed delay loss corrupt : ParamType

abbrev pub tolower : ℕ → ℕ
tolower b = if leb 65 b && leb b 90 then b + 32 else b

-- `!strcasecmp(a, b)`.
unfoldable pub same_name : Text → Text → Bool
same_name a b = text_eq (map tolower a) (map tolower b)

unfoldable pub param_type : Text → Option ParamType
unfolding same_name
param_type c =
    if same_name c (codes "speed")
    then some speed
    else if same_name c (codes "delay")
    then some delay
    else if same_name c (codes "loss")
    then some loss
    else if same_name c (codes "corrupt")
    then some corrupt
    else none

-- `c[crt] = b`.
unfoldable pub set_char : Text → ℕ → ℕ → Run Text
set_char c crt b = if ltb crt 100 then ok (take crt c ++ b ∷ drop (suc crt) c) else fault

-- The string at the start of `c`.
unfoldable pub read_chars : Text → Run Text
read_chars [] = fault
read_chars (b ∷ c) = let rest = read_chars c in if b == 0 then ok [] else (do t ← rest; ok (b ∷ t))

-- What a parameter gives: -1 for an unknown name, or its type, if there was a `=`, and the text that
-- `atof` reads its value from.
pub data Split : Type 0 where
  unknown : Split
  param : Option ParamType → Text → Split

-- Behind the first `=`.
unfoldable pub split_value : Text → Text → ℕ → ParamType → Run Split
unfolding set_char read_chars
split_value [] c crt type = do text ← read_chars c; ok (param (some type) text)
split_value (b ∷ p) c crt type = do c' ← set_char c crt b; split_value p c' (crt + 1) type

unfoldable pub start_value : Option ParamType → Text → Text → Run Split
unfolding split_value
start_value none p c = ok unknown
start_value (some type) p c = split_value p c 0 type

unfoldable pub split_name : Text → Text → ℕ → Run Split
unfolding start_value param_type
split_name [] c crt = do text ← read_chars c; ok (param none text)
split_name (b ∷ p) c crt =
    let rest = (do c' ← set_char c crt b; split_name p c' (crt + 1)) in
    if b == b'='
    then (do c' ← set_char c crt 0; name ← read_chars c'; start_value (param_type name) p c')
    else rest

unfoldable pub split_param : Text → Run Split
unfolding split_name
split_param p = split_name p [] 0
