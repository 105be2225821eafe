-- ===== src/Message/Header/RoundTrip.antt =====
-- A fixed header that is written is read back.
use gofly_mqttv.Base.{
  ℕ, ◌+◌, ◌/◌, ◌%◌, ◌^◌, ◌≤◌, ◌≡◌, ◌≢◌, ◌⊎◌, refl, ap, ◌∙◌, bit_and, true, List, [], ◌∷◌, ◌++◌,
  length, get_or, arith, length-append,
}
use gofly_mqttv.Message.Kind.{default_flags, valid_type, valid_qos, publish}
use gofly_mqttv.Message.Wire.{ok, put_uvarint}
use gofly_mqttv.Message.Wire.Digits.{length-put_uvarint}
use gofly_mqttv.Message.Wire.Varint.{uvarint-put_uvarint}
use gofly_mqttv.Message.Header.{
  Header, touch, kind, flags, encode_header, may_be_bare, check_length, decode_rest, decode_header,
  header_len,
}

-- The first byte of a packet of the protocol.
pub record IsFirst (b : ℕ) : Type 0 where
  pub typed : valid_type (b / 16) ≡ true
  pub fixed : b / 16 ≢ publish → bit_and b 0x0f ≡ default_flags (b / 16)
  pub leveled : b / 16 ≡ publish → valid_qos (bit_and (bit_and b 0x0f / 2) 0x3) ≡ true

check_length-exact :
    (h : Header) (n : ℕ) (m : ℕ) (src : List ℕ)
    → n ≤ 268435455
    → (may_be_bare (kind h) ≡ true) ⊎ (1 ≤ n)
    → n + m ≤ length src
    → check_length h src n m ≡ ok (record h { remlen = n }, 1 + m)
unfolding check_length
check_length-exact h n m src hn hb hs = let e : n % 2 ^ 32 ≡ n = omega arith in ground (arith, e)

decode_rest-exact :
    (h : Header) (b n : ℕ) (body : List ℕ)
    → h.mtypeflags ≡ b ∷ []
    → IsFirst b
    → n ≤ 268435455
    → (may_be_bare (kind h) ≡ true) ⊎ (1 ≤ n)
    → n ≤ length body
    → decode_rest (b / 16) h (put_uvarint n ++ body)
      ≡ ok (record h { remlen = n }, 1 + length (put_uvarint n))
unfolding decode_rest
decode_rest-exact h b n body hf first hn hb hs =
    let u = uvarint-put_uvarint n body (omega arith) in
    let len = length-append (put_uvarint n) body in
    let c =
      check_length-exact h n (length (put_uvarint n)) (put_uvarint n ++ body) hn hb
        (omega (arith, len)) in
    let k : kind h ≡ b / 16 = ap (λ fs. get_or fs 0 0 / 16) hf in
    let f : flags h ≡ bit_and b 0x0f = ap (λ fs. bit_and (get_or fs 0 0) 0x0f) hf in
    ground (arith, k, f, u, c, first.typed, first.fixed, first.leveled)

pub encode_header-exact :
    (h : Header) (b : ℕ)
    → h.mtypeflags ≡ b ∷ []
    → IsFirst b
    → h.remlen ≤ 268435455
    → encode_header h ≡ ok (b ∷ put_uvarint h.remlen)
unfolding encode_header
encode_header-exact h b hf first hn =
    let t : touch h ≡ h = rw hf in
    let k : kind (touch h) ≡ b / 16 = ap kind t ∙ ap (λ fs. get_or fs 0 0 / 16) hf in
    let byte : get_or (touch h).mtypeflags 0 0 ≡ b =
      ap (λ x. get_or x.mtypeflags 0 0) t ∙ ap (λ fs. get_or fs 0 0) hf in
    ground (arith, k, byte, first.typed)

-- What `decode` makes of a receiver's header.
abbrev pub received : Header → ℕ → ℕ → List ℕ → Header
received r b n src = record (touch r) { dbuf = src; mtypeflags = b ∷ []; remlen = n }

-- A fixed header with a legal first byte and a remaining length up to the maximum, which is 0 only for
-- PINGREQ, PINGRESP, AUTH and DISCONNECT, is written in as many bytes as `msglen` says. A receiver of
-- the same packet type reads its first byte and length back, when the rest of the packet follows.
pub header-round_trip :
    (h r : Header) (b : ℕ) (body : List ℕ)
    → h.mtypeflags ≡ b ∷ []
    → IsFirst b
    → h.remlen ≤ 268435455
    → (may_be_bare (b / 16) ≡ true) ⊎ (1 ≤ h.remlen)
    → kind (touch r) ≡ b / 16
    → h.remlen ≤ length body
    → (encode_header h ≡ ok (b ∷ put_uvarint h.remlen))
      × (length (b ∷ put_uvarint h.remlen) ≡ header_len h.remlen)
      × (decode_header r (b ∷ put_uvarint h.remlen ++ body)
          ≡ ok (
            received r b h.remlen (b ∷ put_uvarint h.remlen ++ body),
            1 + length (put_uvarint h.remlen),
          ))
unfolding decode_header header_len
header-round_trip h r b body hf first hn hb hk hs = (
  encode_header-exact h b hf first hn,
  omega (arith, length-put_uvarint h.remlen (omega arith)),
  rw hk (
      decode_rest-exact
        (record (touch r) { dbuf = b ∷ put_uvarint h.remlen ++ body; mtypeflags = b ∷ [] }) b
        h.remlen body refl first hn hb hs),
)
