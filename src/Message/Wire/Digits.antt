-- ===== src/Message/Wire/Digits.antt =====
-- The digits of variable byte integers: both writers write the same, and how many.
use gofly_mqttv.Base.{
  ℕ, zero, suc, ◌+◌, ◌/◌, ◌%◌, ◌^◌, ◌≤◌, ◌<◌, ◌≡◌, refl, sym, ap, ◌∙◌, ◌⊎◌, inl, inr, bit_or, [],
  ◌∷◌, ltb, leb, if◌then◌else◌, length, arith,
}
use gofly_mqttv.Base.Bits.{or-128, or-128_byte}
use native.Mathlib.Nat.{pow-suc}
use gofly_mqttv.Message.Wire.{ok, lb_digits, lb_encode, uvarint_digits, put_uvarint}

pub small_or_large : (x : ℕ) → (x < 128) ⊎ (128 ≤ x)
small_or_large x = ground arith

-- The digits of a number, the lowest first.
lb_digits-last : (n x : ℕ) → x < 128 → lb_digits (suc n) x ≡ x ∷ []
unfolding lb_digits
lb_digits-last n x h = ground arith

lb_digits-more : (n x : ℕ) → 128 ≤ x → lb_digits (suc n) x ≡ (x % 128 + 128) ∷ lb_digits n (x / 128)
unfolding lb_digits
lb_digits-more n x h = ground (arith, or-128 (x % 128) (omega arith))

pub uvarint_digits-last : (n x : ℕ) → x < 128 → uvarint_digits (suc n) x ≡ x ∷ []
unfolding uvarint_digits
uvarint_digits-last n x h = ground arith

pub uvarint_digits-more :
    (n x : ℕ) → 128 ≤ x → uvarint_digits (suc n) x ≡ (x % 128 + 128) ∷ uvarint_digits n (x / 128)
unfolding uvarint_digits
uvarint_digits-more n x h =
    let e : bit_or (x % 256) 128 ≡ x % 128 + 128 =
      omega (arith, or-128_byte (x % 256) (omega arith)) in
    ground (arith, e)

same_digits : (n x : ℕ) → lb_digits n x ≡ uvarint_digits n x
unfolding lb_digits uvarint_digits
same_digits zero x = refl
same_digits (suc n) x = elim (small_or_large x) [
  | inl h ↦ lb_digits-last n x h ∙ sym (uvarint_digits-last n x h)
  | inr h ↦
      lb_digits-more n x h
      ∙ ap (λ ds. (x % 128 + 128) ∷ ds) (same_digits n (x / 128))
      ∙ sym (uvarint_digits-more n x h)
]

-- Fuel beyond the number of digits changes nothing.
enough : (n m x : ℕ) → n ≤ m → x < 128 ^ suc n → uvarint_digits (suc m) x ≡ uvarint_digits (suc n) x
enough zero m x e h =
    uvarint_digits-last m x (omega (arith, pow-suc 128 0))
    ∙ sym (uvarint_digits-last zero x (omega (arith, pow-suc 128 0)))
enough (suc n) zero x e h = absurd (omega arith)
enough (suc n) (suc m) x e h = elim (small_or_large x) [
  | inl g ↦ uvarint_digits-last (suc m) x g ∙ sym (uvarint_digits-last (suc n) x g)
  | inr g ↦
      uvarint_digits-more (suc m) x g
      ∙ ap (λ ds. (x % 128 + 128) ∷ ds)
          (enough n m (x / 128) (omega arith) (omega (arith, pow-suc 128 (suc n))))
      ∙ sym (uvarint_digits-more (suc n) x g)
]

length-digits : (n x : ℕ) → length (uvarint_digits n x) ≤ n
unfolding uvarint_digits
length-digits zero x = omega arith
length-digits (suc n) x = elim (small_or_large x) [
  | inl h ↦ omega (arith, ap length (uvarint_digits-last n x h))
  | inr h ↦ omega (arith, ap length (uvarint_digits-more n x h), length-digits n (x / 128))
]

pub put_uvarint_digits : (x : ℕ) → x < 2 ^ 28 → put_uvarint x ≡ uvarint_digits 4 x
unfolding put_uvarint
put_uvarint_digits x h = enough 3 9 x (omega arith) h

-- For a number below 2^28 the hand-written `lbEncode` writes what `PutUvarint` writes.
pub lb_encode-put_uvarint : (x : ℕ) → x < 2 ^ 28 → lb_encode x ≡ ok (put_uvarint x)
unfolding lb_encode
lb_encode-put_uvarint x h =
    let e : lb_digits 5 x ≡ put_uvarint x =
      same_digits 5 x ∙ enough 3 4 x (omega arith) h ∙ sym (put_uvarint_digits x h) in
    let short : length (put_uvarint x) ≤ 4 =
      omega (arith, ap length (put_uvarint_digits x h), length-digits 4 x) in
    ground (arith, e, short)

-- The number of digits, in the ranges of `msglen`.
abbrev pub digit_count : ℕ → ℕ
digit_count x = if leb x 127 then 1 else if leb x 16383 then 2 else if leb x 2097151 then 3 else 4

length-digits_one : (y : ℕ) → length (uvarint_digits 1 y) ≡ 1
length-digits_one y = elim (small_or_large y) [
  | inl g ↦ ap length (uvarint_digits-last 0 y g)
  | inr g ↦ ap length (uvarint_digits-more 0 y g) ∙ unfold uvarint_digits in refl
]

length-digits_more :
    (n y : ℕ)
    → length (uvarint_digits (suc (suc n)) y)
      ≡ (if ltb y 128 then 1 else suc (length (uvarint_digits (suc n) (y / 128))))
length-digits_more n y = elim (small_or_large y) [
  | inl g ↦ ap length (uvarint_digits-last (suc n) y g) ∙ ground arith
  | inr g ↦ ap length (uvarint_digits-more (suc n) y g) ∙ ground arith
]

pub length-put_uvarint : (x : ℕ) → x < 2 ^ 28 → length (put_uvarint x) ≡ digit_count x
length-put_uvarint x h =
    let two = length-digits_more 1 (x / 128) in
    let three = length-digits_more 0 (x / 128 / 128) in
    ap length (put_uvarint_digits x h)
    ∙ length-digits_more 2 x
    ∙ ground (arith, two, three, length-digits_one (x / 128 / 128 / 128))
