-- ===== src/Message/Wire/Varint.antt =====
-- The readers of variable byte integers read back what the writers write.
use gofly_mqttv.Base.{
  ℕ, zero, suc, ◌+◌, ◌*◌, ◌/◌, ◌%◌, ◌^◌, ◌≤◌, ◌<◌, ◌≡◌, refl, sym, ap, ap₂, ◌∙◌, inl, inr, bit_and,
  List, ◌∷◌, ◌++◌, length, arith,
}
use gofly_mqttv.Base.Bits.{and-127, and-128}
use native.Mathlib.Nat.{pow-suc}
use gofly_mqttv.Message.Wire.{
  ok, Read, lb_encode, lb_loop, lb_decode, uvarint_digits, put_uvarint, value, uvarint_loop,
  uvarint,
}
use gofly_mqttv.Message.Wire.Digits.{
  small_or_large, uvarint_digits-last, uvarint_digits-more, put_uvarint_digits,
  lb_encode-put_uvarint,
}

-- The sum of a digit and the digits above it.
digit_sum : (x unit : ℕ) → x % 128 * unit + x / 128 * (unit * 128) ≡ x * unit
digit_sum x unit =
    let e : x ≡ x % 128 + 128 * (x / 128) = omega arith in
    sum (x % 128) (x / 128) ∙ ap (λ y. y * unit) (sym e)
  where
    sum : (r q : ℕ) → r * unit + q * (unit * 128) ≡ (r + 128 * q) * unit
    sum r q = omega arith

lb_loop-last :
    (x v mu i : ℕ) (rest : List ℕ)
    → x < 128
    → mu ≤ 2097152
    → v + x * mu < 2 ^ 32
    → lb_loop (x ∷ rest) v mu i ≡ ok (v + x * mu, suc i)
unfolding lb_loop
lb_loop-last x v mu i rest h small g =
    let low : bit_and x 127 ≡ x = omega (arith, and-127 x (omega arith)) in
    let high : bit_and x 128 ≡ 0 = omega (arith, and-128 x (omega arith)) in
    let wrap : (v + x * mu) % 2 ^ 32 ≡ v + x * mu = omega arith in ground (arith, low, high, wrap)

lb_loop-more :
    (d v mu i : ℕ) (rest : List ℕ)
    → d < 128
    → mu ≤ 2097152
    → v + d * mu < 2 ^ 32
    → lb_loop ((d + 128) ∷ rest) v mu i ≡ lb_loop rest (v + d * mu) (mu * 128) (suc i)
unfolding lb_loop
lb_loop-more d v mu i rest h small g =
    let low : bit_and (d + 128) 127 ≡ d = omega (arith, and-127 (d + 128) (omega arith)) in
    let high : bit_and (d + 128) 128 ≡ 128 = omega (arith, and-128 (d + 128) (omega arith)) in
    let wrap : (v + d * mu) % 2 ^ 32 ≡ v + d * mu = omega arith in
    let unit : mu * 128 % 2 ^ 32 ≡ mu * 128 = omega arith in ground (arith, low, high, wrap, unit)

unit_small : (k n : ℕ) → k + n ≤ 3 → 128 ^ k ≤ 2097152
unit_small zero n h = omega arith
unit_small (suc zero) n h = omega arith
unit_small (suc (suc zero)) n h = omega arith
unit_small (suc (suc (suc zero))) n h = omega arith
unit_small (suc (suc (suc (suc k)))) n h = absurd (omega arith)

abbrev reading : ℕ → ℕ → Read ℕ
reading a b = ok (a, b)

ok_pair : {a b c d : ℕ} → a ≡ b → c ≡ d → reading a c ≡ reading b d
ok_pair e f = ap₂ (λ x y. reading x y) e f

last_digit :
    (n k x v i : ℕ) (rest : List ℕ)
    → k + n ≤ 3
    → x < 128
    → v + x * 128 ^ k < 2 ^ 32
    → lb_loop (uvarint_digits (suc n) x ++ rest) v (128 ^ k) i
      ≡ ok (v + x * 128 ^ k, length (uvarint_digits (suc n) x) + i)
last_digit n k x v i rest hk g hv =
    rw (uvarint_digits-last n x g, lb_loop-last x v (128 ^ k) i rest g (unit_small k n hk) hv)
      (ok_pair refl (omega arith))

-- What `lbDecode` reads of the digits of `x`, from the digit of weight 128^k on.
lb_loop-digits :
    (n k x v i : ℕ) (rest : List ℕ)
    → k + n ≤ 3
    → x < 128 ^ suc n
    → v + x * 128 ^ k < 2 ^ 32
    → lb_loop (uvarint_digits (suc n) x ++ rest) v (128 ^ k) i
      ≡ ok (v + x * 128 ^ k, length (uvarint_digits (suc n) x) + i)
lb_loop-digits zero k x v i rest hk hx hv =
    last_digit zero k x v i rest hk (omega (arith, pow-suc 128 0)) hv
lb_loop-digits (suc n) k x v i rest hk hx hv = elim (small_or_large x) [
  | inl g ↦ last_digit (suc n) k x v i rest hk g hv
  | inr g ↦
      let unit : 128 ^ suc k ≡ 128 ^ k * 128 = omega (arith, pow-suc 128 k) in
      let sum : v + x % 128 * 128 ^ k + x / 128 * (128 ^ k * 128) ≡ v + x * 128 ^ k =
        omega (arith, digit_sum x (128 ^ k)) in
      let again =
        lb_loop-digits n (suc k) (x / 128) (v + x % 128 * 128 ^ k) (suc i) rest (omega arith)
          (omega (arith, pow-suc 128 (suc n))) (rw unit (omega (arith, sum, hv))) in
      rw
        (
          uvarint_digits-more (suc n) x g,
          lb_loop-more (x % 128) v (128 ^ k) i (uvarint_digits (suc n) (x / 128) ++ rest)
              (omega arith) (unit_small k (suc n) hk) (omega (arith, sum, hv)),
          sym unit,
          again,
          unit,
        )
        (ok_pair sum (omega arith))
]

lb_decode-loop :
    (n x : ℕ) (rest : List ℕ)
    → lb_decode (uvarint_digits (suc n) x ++ rest)
      ≡ lb_loop (uvarint_digits (suc n) x ++ rest) 0 1 0
unfolding lb_decode
lb_decode-loop n x rest = elim (small_or_large x) [
  | inl h ↦ rw (uvarint_digits-last n x h)
  | inr h ↦ rw (uvarint_digits-more n x h)
]

-- `lbDecode` reads back what `PutUvarint` writes for a number below 2^28, in front of any bytes.
pub lb_decode-put_uvarint :
    (x : ℕ) (rest : List ℕ)
    → x < 2 ^ 28
    → lb_decode (put_uvarint x ++ rest) ≡ ok (x, length (put_uvarint x))
lb_decode-put_uvarint x rest h =
    rw
      (
        put_uvarint_digits x h,
        lb_decode-loop 3 x rest,
        lb_loop-digits 3 0 x 0 0 rest (omega arith) h (omega arith),
      )
      (ok_pair (omega arith) (omega arith))

-- For a number below 2^28, `lbEncode` writes the bytes that `PutUvarint` writes, and `lbDecode` reads
-- the number back from them, in front of any bytes, and uses just those bytes.
pub lb_decode-lb_encode :
    (x : ℕ) (rest : List ℕ)
    → x < 2 ^ 28
    → (lb_encode x ≡ ok (put_uvarint x))
      × (lb_decode (put_uvarint x ++ rest) ≡ ok (x, length (put_uvarint x)))
lb_decode-lb_encode x rest h = (lb_encode-put_uvarint x h, lb_decode-put_uvarint x rest h)

uvarint_loop-last :
    (x i acc unit : ℕ) (rest : List ℕ)
    → x < 128
    → i ≤ 3
    → uvarint_loop (x ∷ rest) i acc unit ≡ value (acc + x * unit) (suc i)
unfolding uvarint_loop
uvarint_loop-last x i acc unit rest h hi = ground arith

uvarint_loop-more :
    (d i acc unit : ℕ) (rest : List ℕ)
    → d < 128
    → i ≤ 3
    → uvarint_loop ((d + 128) ∷ rest) i acc unit
      ≡ uvarint_loop rest (suc i) (acc + d * unit) (unit * 128)
unfolding uvarint_loop
uvarint_loop-more d i acc unit rest h hi =
    let low : bit_and (d + 128) 127 ≡ d = omega (arith, and-127 (d + 128) (omega arith)) in
    ground (arith, low)

last_uvarint_digit :
    (n i x acc unit : ℕ) (rest : List ℕ)
    → i + n ≤ 3
    → x < 128
    → uvarint_loop (uvarint_digits (suc n) x ++ rest) i acc unit
      ≡ value (acc + x * unit) (length (uvarint_digits (suc n) x) + i)
last_uvarint_digit n i x acc unit rest hi g =
    rw (uvarint_digits-last n x g, uvarint_loop-last x i acc unit rest g (omega arith))
      (ap₂ value refl (omega arith))

uvarint_loop-digits :
    (n i x acc unit : ℕ) (rest : List ℕ)
    → i + n ≤ 3
    → x < 128 ^ suc n
    → uvarint_loop (uvarint_digits (suc n) x ++ rest) i acc unit
      ≡ value (acc + x * unit) (length (uvarint_digits (suc n) x) + i)
uvarint_loop-digits zero i x acc unit rest hi hx =
    last_uvarint_digit zero i x acc unit rest hi (omega (arith, pow-suc 128 0))
uvarint_loop-digits (suc n) i x acc unit rest hi hx = elim (small_or_large x) [
  | inl g ↦ last_uvarint_digit (suc n) i x acc unit rest hi g
  | inr g ↦
      let sum : acc + x % 128 * unit + x / 128 * (unit * 128) ≡ acc + x * unit =
        omega (arith, digit_sum x unit) in
      let again =
        uvarint_loop-digits n (suc i) (x / 128) (acc + x % 128 * unit) (unit * 128) rest
          (omega arith) (omega (arith, pow-suc 128 (suc n))) in
      rw
        (
          uvarint_digits-more (suc n) x g,
          uvarint_loop-more (x % 128) i acc unit (uvarint_digits (suc n) (x / 128) ++ rest)
              (omega arith) (omega arith),
          again,
        )
        (ap₂ value sum (omega arith))
]

-- `Uvarint` reads back what `PutUvarint` writes for a number below 2^28.
pub uvarint-put_uvarint :
    (x : ℕ) (rest : List ℕ)
    → x < 2 ^ 28
    → uvarint (put_uvarint x ++ rest) ≡ value x (length (put_uvarint x))
unfolding uvarint
uvarint-put_uvarint x rest h =
    rw (put_uvarint_digits x h, uvarint_loop-digits 3 0 x 0 1 rest (omega arith) h)
      (ap₂ value (omega arith) (omega arith))
