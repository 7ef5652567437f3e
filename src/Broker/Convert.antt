-- ===== src/Broker/Convert.antt =====
-- `udp_to_tcp` of `tcp & udp communication/helper.c`: a datagram of a UDP client becomes the
-- packet for the subscribers. A failed DIE ends the server.
pub mod Laws
use pc_communication_protoco.Prelude.{
  ℕ, ◌+◌, ◌*◌, ◌/◌, ◌%◌, [], ◌∷◌, ◌++◌, Text, ltb, ◌==◌, ◌&&◌, if◌then◌else◌, length, take, get_or,
  Run, Bool, ok, died, fault, ◌>>=◌, codes, c_str, decimal,
}
use pc_communication_protoco.Broker.Types.{TcpPacket, UdpPacket}

-- `payload[0] > 1` of a `char`, which is signed: the bytes from 128 on are negative.
unfoldable pub wrong_sign : ℕ → Bool
wrong_sign b = ltb 1 b && ltb b 128

-- `ntohl(*(uint32_t *)(payload + i))` and `ntohs(*(uint16_t *)payload)`.
unfoldable pub ntohl_at : Text → ℕ → ℕ
ntohl_at payload i =
    ((get_or payload i 0 * 256 + get_or payload (i + 1) 0) * 256 + get_or payload (i + 2) 0) * 256
    + get_or payload (i + 3) 0

unfoldable pub ntohs_at : Text → ℕ → ℕ
ntohs_at payload i = get_or payload i 0 * 256 + get_or payload (i + 1) 0

-- `sprintf("%lld")` of the product of a sign and a number.
unfoldable pub print_signed : ℕ → ℕ → Text
print_signed sign n =
    if (sign == 0) then decimal n else if n == 0 then decimal 0 else b'-' ∷ decimal n

-- `sprintf("%.2f", n / 100)`: a 16-bit number of hundredths is printed exactly.
unfoldable pub print_hundredths : ℕ → Text
print_hundredths n = decimal (n / 100) ++ b'.' ∷ (48 + n / 10 % 10) ∷ (48 + n % 10) ∷ []

-- `sprintf("%ld", sizeof(TCP_Packet) - MAX_LEN + strlen(payload))`: the fields before the payload
-- take 10 + 16 + 2 + 11 + 51 bytes.
abbrev pub header_len : ℕ
header_len = 90

module _ (print_float : ℕ → ℕ → ℕ → Text) where
  -- The switch on the type: the name of the type and the text of the value. `print_float` stands
  -- for `%lf` of a sign, a number and the decimal exponent `payload[5]`, computed in `double`.
  -- A text of 1501 bytes without a terminator is copied out of its array, a `fault`.
  unfoldable pub payload_text : ℕ → Text → Run (Text × Text)
  unfolding wrong_sign ntohl_at ntohs_at print_signed print_hundredths
  payload_text type payload =
      let sign = get_or payload 0 0 in
      if type == 0
      then (if wrong_sign sign
          then died
          else ok (codes "INT", print_signed sign (ntohl_at payload 1)))
      else if type == 1
      then ok (codes "SHORT_REAL", print_hundredths (ntohs_at payload 0))
      else if type == 2
      then (if wrong_sign sign
          then died
          else ok (codes "FLOAT", print_float sign (ntohl_at payload 1) (get_or payload 5 0)))
      else if ltb (length (c_str payload)) 1501
      then ok (codes "STRING", c_str payload)
      else fault

  unfoldable pub udp_to_tcp : UdpPacket → Text → ℕ → Run TcpPacket
  unfolding payload_text
  udp_to_tcp udp_packet ip port = if ltb 3 udp_packet.type then died else do
    (type, payload) ← payload_text udp_packet.type udp_packet.payload
    ok (record {
      size = decimal (header_len + length payload);
      ip = ip;
      port = port;
      type = type;
      topic = c_str (take 50 udp_packet.topic);
      payload = payload;
    })
