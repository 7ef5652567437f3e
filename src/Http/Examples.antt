-- ===== src/Http/Examples.antt =====
-- The HTTP helpers at small inputs.
use pc_communication_protoco.Prelude.{
  ℕ, zero, suc, decimal, ◌≡◌, Option, some, [], ◌∷◌, ◌++◌, arith, ok, Text, codes,
}
use pc_communication_protoco.Http.{buffer, buffer_find, buffer_find_insensitive, tolower}
use pc_communication_protoco.Http.Find.{FirstOf, Occurs, buffer_find-first}
use pc_communication_protoco.Http.Request.{crlf, compute_post_request}
use pc_communication_protoco.Http.Request.Lines.{lines_text}
use pc_communication_protoco.Http.Request.Printed.{post_lines, compute_post_request-text}
use pc_communication_protoco.Http.Response.{Reads, content_length_name, receive_from_server}
use pc_communication_protoco.Http.Response.Whole.{NoLength, receive_from_server-whole}

abbrev text : Text
text = codes "ab: c"

buffer_find-first_example :
    ((r : Option ℕ) × (buffer_find (buffer (some text) 5) (codes "B:") 2 ≡ ok r)
      × FirstOf (λ c. c) (codes "B:") text r)
    × ((r : Option ℕ) × (buffer_find_insensitive (buffer (some text) 5) (codes "B:") 2 ≡ ok r)
        × FirstOf tolower (codes "B:") text r)
buffer_find-first_example = buffer_find-first text (codes "B:") (omega arith) (omega arith)

compute_post_request-text_example :
    compute_post_request
      (codes "h")
      (codes "/u")
      (codes "t")
      (some (codes "a=1" ∷ codes "b=2" ∷ []))
      []
    ≡ ok (
        lines_text (post_lines (codes "h") (codes "/u") (codes "t") (codes "a=1&b=2") [])
        ++ crlf
        ++ codes "a=1&b=2"
        ++ crlf)
unfolding decimal
compute_post_request-text_example =
    compute_post_request-text (codes "h") (codes "/u") (codes "t")
      (some (codes "a=1", codes "b=2" ∷ [])) [] (omega arith) ((omega arith), omega arith)

abbrev reads : Reads
reads = some (codes "O") ∷ some (codes "K") ∷ []

reads-NoLength : NoLength (codes "OK")
reads-NoLength zero (same, _) = omega (arith, same)
reads-NoLength (suc zero) (same, _) = omega (arith, same)
reads-NoLength (suc (suc i)) occurs = nowhere i occurs
  where
    nowhere : (i : ℕ) → Occurs tolower content_length_name [] i → ⊥
    nowhere zero occurs = occurs
    nowhere (suc i) occurs = occurs

receive_from_server-whole_example : receive_from_server reads ≡ ok (some (codes "OK" ++ 0 ∷ []), [])
receive_from_server-whole_example = receive_from_server-whole reads (omega arith) reads-NoLength
