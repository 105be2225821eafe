-- ===== src/Base/Bits.antt =====
-- Masks and single bits: tables over one byte, and `n & (2^k - 1)` for every width.
use Prim.Native.Nat.{
  ℕ, zero, suc, ◌+◌, ◌-◌, ◌*◌, ◌/◌, ◌%◌, ◌^◌, ◌≤◌, ◌<◌, min, bit_and, bit_or, digits,
  bit_and-bitwise,
}
use mathlib.Core.Path.{◌≡◌, refl, sym, ap, ◌∙◌}
use mathlib.Core.Logic.{◌⊎◌, inl, inr}
use mathlib.Core.Bool.{Bool, true, ◌&&◌}
use native.Mathlib.Omega.{arith}
use native.Mathlib.Nat.{
  pow-suc, one-le-pow, mod-lt, mod-eq_of_lt, mod-add-div', add-mul-mod_self_right, mul_assoc,
}
use gofly_mqttv.Base.Tests.{◌==◌, ==_iff, if◌then◌else◌}

-- A test that passes on every number under a bound.
passes : (ℕ → Bool) → ℕ → Bool
passes test zero = true
passes test (suc bound) = passes test bound && test bound

passes_at : (test : ℕ → Bool) (x bound : ℕ) → x < bound → passes test bound ≡ true → test x ≡ true
unfolding passes
passes_at test x zero l h = absurd (omega arith)
passes_at test x (suc bound) l h = ground (arith, passes_at test x bound)

-- `f` and `g` agree on a byte and two positions in it.
agree : (ℕ → ℕ → ℕ → ℕ) → (ℕ → ℕ → ℕ → ℕ) → Bool
unfolding passes
agree f g = passes (λ b. passes (λ p. passes (λ q. f b p q == g b p q) 8) 8) 256

agree→eq :
    (f g : ℕ → ℕ → ℕ → ℕ) (b p q : ℕ)
    → agree f g ≡ true
    → b < 256
    → p < 8
    → q < 8
    → f b p q ≡ g b p q
unfolding agree
agree→eq f g b p q h hb hp hq =
    let at_byte : passes (λ p. passes (λ q. f b p q == g b p q) 8) 8 ≡ true =
      passes_at (λ b. passes (λ p. passes (λ q. f b p q == g b p q) 8) 8) b 256 hb h in
    let at_bit : passes (λ q. f b p q == g b p q) 8 ≡ true =
      passes_at (λ p. passes (λ q. f b p q == g b p q) 8) p 8 hp at_byte in
    (==_iff _ _).0 (passes_at (λ q. f b p q == g b p q) q 8 hq at_bit)

-- One bit of a byte: read, set, cleared (Go's `&^=`).
abbrev pub bit_at : ℕ → ℕ → ℕ
bit_at b p = bit_and (b / 2 ^ p) 1

abbrev pub bit_on : ℕ → ℕ → ℕ
bit_on b p = bit_or b (2 ^ p)

abbrev pub bit_off : ℕ → ℕ → ℕ
bit_off b p = bit_and b (255 - 2 ^ p)

pub bit_at-on :
    (b p q : ℕ)
    → b < 256
    → p < 8
    → q < 8
    → bit_at (bit_on b p) q ≡ (if p == q then 1 else bit_at b q)
unfolding agree
bit_at-on b p q =
    agree→eq (λ b p q. bit_at (bit_on b p) q) (λ b p q. if p == q then 1 else bit_at b q) b p q refl

pub bit_at-off :
    (b p q : ℕ)
    → b < 256
    → p < 8
    → q < 8
    → bit_at (bit_off b p) q ≡ (if p == q then 0 else bit_at b q)
unfolding agree
bit_at-off b p q =
    agree→eq (λ b p q. bit_at (bit_off b p) q) (λ b p q. if p == q then 0 else bit_at b q) b p q
      refl

pub bit_on-lt : (b p : ℕ) → b < 256 → p < 8 → bit_on b p / 256 ≡ 0
unfolding agree
bit_on-lt b p hb hp =
    agree→eq (λ b p q. bit_on b p / 256) (λ b p q. 0) b p 0 refl hb hp (omega arith)

pub bit_off-lt : (b p : ℕ) → b < 256 → p < 8 → bit_off b p / 256 ≡ 0
unfolding agree
bit_off-lt b p hb hp =
    agree→eq (λ b p q. bit_off b p / 256) (λ b p q. 0) b p 0 refl hb hp (omega arith)

-- Masks on one byte.
abbrev one_byte : (f g : ℕ → ℕ) → Bool
unfolding passes
one_byte f g = passes (λ b. f b == g b) 256

one_byte→eq : (f g : ℕ → ℕ) (b : ℕ) → one_byte f g ≡ true → b < 256 → f b ≡ g b
unfolding passes
one_byte→eq f g b h hb = (==_iff _ _).0 (passes_at (λ b. f b == g b) b 256 hb h)

pub and-127 : (b : ℕ) → b < 256 → bit_and b 127 ≡ b % 128
unfolding passes
and-127 b = one_byte→eq (λ b. bit_and b 127) (λ b. b % 128) b refl

pub and-128 : (b : ℕ) → b < 256 → bit_and b 128 ≡ b / 128 * 128
unfolding passes
and-128 b = one_byte→eq (λ b. bit_and b 128) (λ b. b / 128 * 128) b refl

pub and-15 : (b : ℕ) → b < 256 → bit_and b 15 ≡ b % 16
unfolding passes
and-15 b = one_byte→eq (λ b. bit_and b 15) (λ b. b % 16) b refl

pub or-128 : (b : ℕ) → b < 128 → bit_or b 128 ≡ b + 128
unfolding passes
or-128 b h =
    let e : bit_or (b % 128) 128 ≡ b % 128 + 128 =
      one_byte→eq (λ b. bit_or (b % 128) 128) (λ b. b % 128 + 128) b refl (omega arith) in
    let m : b % 128 ≡ b = omega arith in rw m at e

pub or-128_byte : (b : ℕ) → b < 256 → bit_or b 128 ≡ b % 128 + 128
unfolding passes
or-128_byte b = one_byte→eq (λ b. bit_or b 128) (λ b. b % 128 + 128) b refl

-- `bit_and` by its lowest digit. `bits fuel x y` is what `bit_and x y` computes by.
abbrev bits : ℕ → ℕ → ℕ → ℕ
bits fuel x y = digits (λ d. 0) min fuel x y

one_more : (fuel x y : ℕ) → x ≤ fuel → bits (suc fuel) x y ≡ bits fuel x y
one_more zero zero y h = refl
one_more (suc fuel) zero y h = refl
one_more zero (suc x) y h = absurd (omega arith)
one_more (suc fuel) (suc x) y h = omega (arith, one_more fuel (suc x / 2) (y / 2) (omega arith))

same_or_less : (n m : ℕ) → n ≤ suc m → (n ≡ suc m) ⊎ (n ≤ m)
same_or_less n m h = ground arith

more_fuel : (fuel n x y : ℕ) → n ≤ fuel → x ≤ n → bits fuel x y ≡ bits n x y
more_fuel zero zero x y h g = refl
more_fuel zero (suc n) x y h g = absurd (omega arith)
more_fuel (suc fuel) n x y h g = elim (same_or_less n fuel h) [
  | inl e ↦ ap (λ m. bits m x y) (sym e)
  | inr l ↦ one_more fuel x y (omega (arith, l, g)) ∙ more_fuel fuel n x y l g
]

none_left : (y : ℕ) → bit_and 0 y ≡ 0
none_left y = bit_and-bitwise 0 y

pub low_digit : (x y : ℕ) → bit_and x y ≡ bit_and (x / 2) (y / 2) * 2 + min (x % 2) (y % 2)
low_digit zero y = omega (arith, none_left y, none_left (y / 2))
low_digit (suc x) y =
    let here = bit_and-bitwise (suc x) y in
    let above = bit_and-bitwise (suc x / 2) (y / 2) in
    omega
      (arith, here, above, more_fuel x (suc x / 2) (suc x / 2) (y / 2) (omega arith) (omega arith))

bits-zero : (fuel x : ℕ) → bits fuel x 0 ≡ 0
bits-zero zero x = refl
bits-zero (suc fuel) zero = refl
bits-zero (suc fuel) (suc x) = omega (arith, bits-zero fuel (suc x / 2))

none_right : (x : ℕ) → bit_and x 0 ≡ 0
none_right x = bit_and-bitwise x 0 ∙ bits-zero x x

pub and-1 : (a : ℕ) → bit_and a 1 ≡ a % 2
and-1 a = omega (arith, low_digit a 1, none_right (a / 2))

pub and-7 : (a : ℕ) → bit_and a 7 ≡ a % 8
and-7 a =
    omega (
      arith,
      low_digit a 7,
      low_digit (a / 2) 3,
      low_digit (a / 2 / 2) 1,
      none_right (a / 2 / 2 / 2),
    )

-- Masking by 2^k - 1 keeps what is below 2^k, and takes 2^k to 0.
pub pow_pos : (k : ℕ) → 1 ≤ 2 ^ k
pow_pos k = one-le-pow k 2 (omega arith)

pub mask_small : (k n : ℕ) → n < 2 ^ k → bit_and n (2 ^ k - 1) ≡ n
mask_small zero zero h = refl
mask_small zero (suc n) h = absurd (omega arith)
mask_small (suc k) n h = omega (
  arith,
  pow-suc 2 k,
  pow_pos k,
  low_digit n (2 ^ suc k - 1),
  half,
  mask_small k (n / 2) (omega (arith, pow-suc 2 k)),
)
  where
    half : bit_and (n / 2) ((2 ^ suc k - 1) / 2) ≡ bit_and (n / 2) (2 ^ k - 1)
    half = let e : (2 ^ suc k - 1) / 2 ≡ 2 ^ k - 1 = omega (arith, pow-suc 2 k, pow_pos k) in rw e

pub mask_full : (k : ℕ) → bit_and (2 ^ k) (2 ^ k - 1) ≡ 0
mask_full zero = refl
mask_full (suc k) =
    omega (arith, pow-suc 2 k, pow_pos k, low_digit (2 ^ suc k) (2 ^ suc k - 1), half, mask_full k)
  where
    half : bit_and (2 ^ suc k / 2) ((2 ^ suc k - 1) / 2) ≡ bit_and (2 ^ k) (2 ^ k - 1)
    half =
        let e : (2 ^ suc k - 1) / 2 ≡ 2 ^ k - 1 = omega (arith, pow-suc 2 k, pow_pos k) in
        let e' : 2 ^ suc k / 2 ≡ 2 ^ k = omega (arith, pow-suc 2 k) in rw (e, e')

-- A remainder is known by its range and a multiple.
pub mod_unique : (n m q r : ℕ) → n ≡ r + q * m → r < m → n % m ≡ r
mod_unique n m q r e h = rw e (add-mul-mod_self_right r q m ∙ mod-eq_of_lt h)

-- `n & (2^k - 1)` is the remainder, for every n.
pub mask_mod : (k n : ℕ) → bit_and n (2 ^ k - 1) ≡ n % 2 ^ k
mask_mod zero n = omega (arith, none_right n)
mask_mod (suc k) n =
    let e : (2 ^ suc k - 1) / 2 ≡ 2 ^ k - 1 = omega (arith, pow-suc 2 k, pow_pos k) in
    let half : bit_and (n / 2) ((2 ^ suc k - 1) / 2) ≡ n / 2 % 2 ^ k =
      (rw e) ∙ mask_mod k (n / 2) in
    let low : n % 2 ^ suc k ≡ n / 2 % 2 ^ k * 2 + n % 2 =
      mod_unique n (2 ^ suc k) (n / 2 / 2 ^ k) (n / 2 % 2 ^ k * 2 + n % 2)
        (omega (
          arith,
          pow-suc 2 k,
          mod-add-div' (n / 2) (2 ^ k),
          mul_assoc (n / 2 / 2 ^ k) (2 ^ k) 2,
          ap (λ x. n / 2 / 2 ^ k * x) (pow-suc 2 k),
        ))
        (omega (arith, pow-suc 2 k, mod-lt (n / 2) (pow_pos k))) in
    omega (arith, pow-suc 2 k, pow_pos k, low_digit n (2 ^ suc k - 1), half, low)
