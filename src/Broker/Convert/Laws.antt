-- ===== src/Broker/Convert/Laws.antt =====
-- When `udp_to_tcp` ends the server, how long a packet says that it is, and what is read back from
-- the text of a number.
use pc_communication_protoco.Prelude.{
  ℕ, ◌+◌, ◌-◌, ◌*◌, ◌/◌, ◌%◌, ◌<◌, ◌≡◌, ◌↔◌, ◌⊎◌, inl, inr, refl, sym, ◌∙◌, ap, false, [], ◌∷◌,
  ◌++◌, arith, Text, ltb, ◌==◌, Bool-cases, length, get_or, ok, died, Ends, Ends->>=, ==_iff,
  print_digits-first, if◌then◌else◌, take, c_str, decimal, atoi, atoi-decimal, append-nil,
}
use mathlib.Core.Path.{subst}
use pc_communication_protoco.Broker.Types.{TcpPacket, UdpPacket}
use pc_communication_protoco.Broker.Convert.{
  wrong_sign, print_signed, print_hundredths, header_len, payload_text, udp_to_tcp,
}

atoi-decimal_end : (n : ℕ) → atoi (decimal n) ≡ n
atoi-decimal_end n = ap atoi (sym (append-nil (decimal n))) ∙ atoi-decimal n [] tt

module _ (print_float : ℕ → ℕ → ℕ → Text) (u : UdpPacket) (ip : Text) (port : ℕ) where
  -- A datagram ends the server exactly if its type is above 3, or if its type is `INT` or `FLOAT`
  -- and its sign byte is from 2 to 127.
  pub udp_to_tcp-died_iff : (udp_to_tcp print_float u ip port ≡ died) ↔ (
      (3 < u.type)
      ⊎ (((u.type ≡ 0) ⊎ (u.type ≡ 2)) × (1 < get_or u.payload 0 0) × (get_or u.payload 0 0 < 128)))
  unfolding udp_to_tcp payload_text wrong_sign
  udp_to_tcp-died_iff = ground arith

  abbrev pub Framed : TcpPacket → Type 0
  Framed pkt =
      (atoi pkt.size ≡ header_len + length pkt.payload)
      × (pkt.ip ≡ ip)
      × (pkt.port ≡ port)
      × (pkt.topic ≡ c_str (take 50 u.topic))

  -- The size that a converted packet carries reads back as the length of its fields and of its
  -- text, and the packet carries the sender's address, its port and the first 50 bytes of the topic
  -- up to a terminator.
  pub udp_to_tcp-Framed : (pkt : TcpPacket) → udp_to_tcp print_float u ip port ≡ ok pkt → Framed pkt
  unfolding udp_to_tcp
  udp_to_tcp-Framed pkt e = subst (Ends Framed) e framed
    where
      framed : Ends Framed (udp_to_tcp print_float u ip port)
      framed = elim (Bool-cases (ltb 3 u.type)) [
        | inl wrong ↦ rw (wrong, Ends) tt
        | inr known ↦
            rw (known, Ends)
              (Ends->>= Framed (payload_text print_float u.type u.payload) _
                λ r _. (atoi-decimal_end (header_len + length r.1), refl, refl, refl))
      ]

-- The number that the text of an `INT` packet stands for: its sign and its size.
abbrev pub signed_value : Text → ℕ × ℕ
signed_value [] = (0, 0)
signed_value (b ∷ bs) = if b == b'-' then (1, atoi bs) else (0, atoi (b ∷ bs))

decimal-first : (n : ℕ) → (d : ℕ) × (rest : Text) × (decimal n ≡ (48 + d) ∷ rest) × (d < 10)
unfolding decimal
decimal-first n = print_digits-first (n + 1) n [] (omega arith)

-- the text of an `INT` packet reads back as the sign and the number of the datagram, with the sign
-- plus for the number 0.
pub print_signed-signed_value :
    (sign n : ℕ)
    → signed_value (print_signed sign n) ≡ (if sign == 0 then 0 else if n == 0 then 0 else 1, n)
unfolding print_signed
print_signed-signed_value sign n = elim (Bool-cases (sign == 0)) [
  | inl plus ↦ rw (plus) (plain n)
  | inr minus ↦ elim (Bool-cases (n == 0)) [
    | inl nil ↦ rw (minus, nil) (plain 0 ∙ (rw ((==_iff n 0).0 nil)))
    | inr some_n ↦ rw (minus, some_n) (ap {B = ℕ × ℕ} (λ (t : ℕ). (1, t)) (atoi-decimal_end n))
  ]
]
  where
    plain : (m : ℕ) → signed_value (decimal m) ≡ (0, m)
    plain m =
        let (d, rest, e, small) = decimal-first m in
        let digit : ((48 + d) == b'-') ≡ false = ground arith in
        rw (e, digit) (ap {B = ℕ × ℕ} (λ (t : ℕ). (0, t)) (rw e at (atoi-decimal_end m)))

-- the text of a `SHORT_REAL` packet is a whole number, a point and two digits, and reading them
-- back gives the hundredths of the datagram.
pub print_hundredths-value :
    (n : ℕ)
    → (tens units : ℕ) × (print_hundredths n ≡ decimal (n / 100) ++ b'.' ∷ tens ∷ units ∷ [])
      × (atoi (print_hundredths n) * 100 + (tens - 48) * 10 + (units - 48) ≡ n)
unfolding print_hundredths
print_hundredths-value n = (
  48 + n / 10 % 10,
  48 + n % 10,
  refl,
  omega (arith, atoi-decimal (n / 100) (b'.' ∷ (48 + n / 10 % 10) ∷ (48 + n % 10) ∷ []) refl),
)
