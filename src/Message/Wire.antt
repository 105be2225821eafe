-- ===== src/Message/Wire.antt =====
-- broker/core/message/util.go and message.go: variable byte integers, length-prefixed bytes and user
-- properties, as bytes of the wire. A slice's capacity is its length. An access past the end is a panic.
-- What a call leaves in its buffer beside an error is left out, and so is the count it returns then.
pub mod Digits
pub mod Varint
pub mod Prefixed
use gofly_mqttv.Base.{
  ℕ, zero, suc, ◌+◌, ◌*◌, ◌/◌, ◌%◌, ◌^◌, bit_and, bit_or, Bool, true, false, List, [], ◌∷◌, ◌++◌,
  ltb, leb, ◌==◌, if◌then◌else◌, length, take, drop, ◌&&◌,
}
use gofly_mqttv.Message.Reason.{user_property}

pub data Fault : Type 0 where
  invalid_message protocol_error malformed : Fault
  too_long out_of_bound invalid_type : Fault

pub data Outcome {ℓ} (A : Type ℓ) : Type ℓ where
  panic : Outcome A
  failed : Fault → Outcome A
  ok : A → Outcome A

infixl 5 ◌>>=◌
abbrev pub ◌>>=◌ {ℓ κ} : {A : Type ℓ} {B : Type κ} → Outcome A → (A → Outcome B) → Outcome B
panic >>= f = panic
failed e >>= f = failed e
ok a >>= f = f a

-- What is read, and the number of bytes that were used.
abbrev pub Read {ℓ} : Type ℓ → Type ℓ
Read A = Outcome (A × ℕ)

-- `CopyLen`, whose result is an empty slice for no bytes.
unfoldable pub copy_len : List ℕ → ℕ → List ℕ
copy_len data_bytes n = take n data_bytes

-- The digits that `lbEncode` writes; `uint32` has at most five.
unfoldable pub lb_digits : ℕ → ℕ → List ℕ
lb_digits zero x = []
lb_digits (suc n) x =
    let rest = lb_digits n (x / 128) in
    if ltb 0 (x / 128) then bit_or (x % 128) 128 ∷ rest else (x % 128) ∷ []

-- `lbEncode`, whose buffer has four bytes.
unfoldable pub lb_encode : ℕ → Outcome (List ℕ)
unfolding lb_digits
lb_encode x = let b = lb_digits 5 x in if leb (length b) 4 then ok b else panic

-- The loop of `lbDecode`. The first byte goes through it as well, where the test on `mu` passes.
unfoldable pub lb_loop : List ℕ → ℕ → ℕ → ℕ → Read ℕ
lb_loop [] value mu i = panic
lb_loop (ec ∷ b) value mu i =
    let rest = lb_loop b ((value + bit_and ec 127 * mu) % 2 ^ 32) (mu * 128 % 2 ^ 32) (suc i) in
    if ltb (128 * 128 * 128) mu
    then failed malformed
    else if bit_and ec 128 == 0
    then ok ((value + bit_and ec 127 * mu) % 2 ^ 32, suc i)
    else rest

-- `lbDecode`
unfoldable pub lb_decode : List ℕ → Read ℕ
unfolding lb_loop
lb_decode [] = ok (0, 0)
lb_decode (ec ∷ b) = lb_loop (ec ∷ b) 0 1 0

-- `BigEndianPutUvarint`, and `PutUvarint` of encoding/binary: `uint64` has at most ten digits.
unfoldable pub uvarint_digits : ℕ → ℕ → List ℕ
uvarint_digits zero x = []
uvarint_digits (suc n) x =
    let rest = uvarint_digits n (x / 128) in
    if leb 0x80 x then bit_or (x % 256) 0x80 ∷ rest else (x % 256) ∷ []

unfoldable pub put_uvarint : ℕ → List ℕ
unfolding uvarint_digits
put_uvarint x = uvarint_digits 10 x

-- The result of `binary.Uvarint`: a value and its length, a buffer that is too small, an overflow.
pub data Uvarint : Type 0 where
  value : ℕ → ℕ → Uvarint
  too_small overflow : Uvarint

-- The loop of `Uvarint` of encoding/binary; `unit` is `1 << s`.
unfoldable pub uvarint_loop : List ℕ → ℕ → ℕ → ℕ → Uvarint
uvarint_loop [] i x unit = too_small
uvarint_loop (b ∷ buf) i x unit =
    let rest = uvarint_loop buf (suc i) (x + bit_and b 0x7f * unit) (unit * 128) in
    if i == 10
    then overflow
    else if ltb b 0x80
    then (if i == 9 && ltb 1 b then overflow else value (x + b * unit) (suc i))
    else rest

unfoldable pub uvarint : List ℕ → Uvarint
unfolding uvarint_loop
uvarint buf = uvarint_loop buf 0 0 1

-- `BigEndianPutUint16`
unfoldable pub put_uint16 : ℕ → List ℕ
put_uint16 v = (v / 256 % 256) ∷ (v % 256) ∷ []

-- `BigEndianPutUint32`
unfoldable pub put_uint32 : ℕ → List ℕ
put_uint32 v = (v / 2 ^ 24 % 256) ∷ (v / 2 ^ 16 % 256) ∷ (v / 256 % 256) ∷ (v % 256) ∷ []

abbrev pub max_lp_string : ℕ
max_lp_string = 65535

-- `writeToBufLPBytes`
unfoldable pub write_lp : List ℕ → Outcome (List ℕ)
write_lp b =
    if ltb max_lp_string (length b)
    then failed too_long
    else ok ((length b / 256 % 256) ∷ (length b % 256) ∷ b)

-- The rest of `readLPBytes`, after the length.
unfoldable pub read_prefixed : ℕ → List ℕ → Read (List ℕ)
unfolding copy_len
read_prefixed n buf =
    if ltb (2 + length buf) n
    then failed invalid_message
    else if leb n (length buf)
    then ok (copy_len buf n, 2 + n)
    else panic

-- `readLPBytes`
unfoldable pub read_lp : List ℕ → Read (List ℕ)
unfolding read_prefixed
read_lp [] = failed invalid_message
read_lp (a ∷ []) = failed invalid_message
read_lp (a ∷ b ∷ buf) = read_prefixed (a * 256 + b) buf

-- The loop of `decodeUserProperty`. Each round uses bytes: their number is enough fuel.
unfoldable pub read_pairs : ℕ → List ℕ → Read (List (List ℕ))
unfolding read_lp
read_pairs zero src = ok ([], 0)
read_pairs (suc n) [] = ok ([], 0)
read_pairs (suc n) (c ∷ src) = elim (c == user_property) [
  | false ↦ ok ([], 0)
  | true ↦ read_lp src >>= λ a. read_lp (drop a.1 src) >>= λ b.
      read_pairs n (drop (a.1 + b.1) src) >>= λ r. ok (a.0 ∷ b.0 ∷ r.0, suc (a.1 + b.1 + r.1))
]

-- `decodeUserProperty`
unfoldable pub decode_user_property : List ℕ → Read (List (List ℕ))
unfolding read_pairs
decode_user_property src = read_pairs (length src) src

-- One part of a user property: an empty one is two zeros.
abbrev pub write_part : List ℕ → Outcome (List ℕ)
write_part [] = ok (0 ∷ 0 ∷ [])
write_part (c ∷ b) = write_lp (c ∷ b)

-- `writeUserPropertyByBuf`
unfoldable pub write_user_property : List (List ℕ) → Outcome (List ℕ)
unfolding write_lp
write_user_property [] = ok []
write_user_property (k ∷ []) = write_part k >>= λ a. ok (user_property ∷ a ++ (0 ∷ 0 ∷ []))
write_user_property (k ∷ v ∷ props) = write_part k >>= λ a.
    write_part v >>= λ b. write_user_property props >>= λ r. ok (user_property ∷ a ++ (b ++ r))

-- `buildUserPropertyLen`
unfoldable pub build_user_property_len : List (List ℕ) → ℕ
build_user_property_len [] = 0
build_user_property_len (k ∷ []) = 1 + 2 + length k + 2
build_user_property_len (k ∷ v ∷ props) =
    1 + 2 + length k + 2 + length v + build_user_property_len props
