-- ===== src/Mail/Examples.antt =====
-- The mail client with a server that answers briefly.
use pc_communication_protoco.Prelude.{◌≡◌, refl, List, [], ◌∷◌, Text, c_str, ok, codes, arith}
use pc_communication_protoco.Web.{begins}
use pc_communication_protoco.Mail.{script, send_mail}
use pc_communication_protoco.Mail.Dialogue.{lines_in, written, mail, send_mail-sent}

abbrev replies : List Text
replies =
    codes "250 a"
    ∷ codes "250 b"
    ∷ codes "250 c"
    ∷ codes "354 d"
    ∷ codes "250 e"
    ∷ codes "221 f"
    ∷ []

send_mail-sent_example :
    send_mail (lines_in (codes "220" ∷ replies) []) ≡ ok (written (script mail), [])
unfolding begins c_str
send_mail-sent_example = send_mail-sent (codes "220") replies [] (omega arith) (
    (
      omega arith,
      refl,
      (
        omega arith,
        refl,
        (omega arith, refl, (omega arith, refl, (omega arith, refl, (omega arith, refl, tt)))),
      ),
    ))
