-- ===== src/Base/Powers.antt =====
-- The test `n & (n - 1) == 0`, which passes on the powers of two alone.
use Prim.Native.Nat.{ℕ, zero, suc, ◌-◌, ◌/◌, ◌%◌, ◌^◌, ◌≤◌, ◌<◌, bit_and}
use mathlib.Core.Path.{◌≡◌, refl}
use mathlib.Core.Logic.{◌⊎◌, inl, inr}
use native.Mathlib.Omega.{arith}
use native.Mathlib.Nat.{pow-suc}
use gofly_mqttv.Base.Bits.{low_digit}

and_self : (fuel n : ℕ) → n ≤ fuel → bit_and n n ≡ n
and_self zero n h = let e : n ≡ 0 = omega arith in rw e refl
and_self (suc fuel) zero h = refl
and_self (suc fuel) (suc n) h =
    omega (arith, low_digit (suc n) (suc n), and_self fuel (suc n / 2) (omega arith))

parity : (n : ℕ) → (n % 2 ≡ 0) ⊎ (n % 2 ≡ 1)
parity n = ground arith

pub power_of_two_of_and :
    (fuel n : ℕ) → n ≤ fuel → 0 < n → bit_and n (n - 1) ≡ 0 → (k : ℕ) × (n ≡ 2 ^ k)
power_of_two_of_and zero n h pos e = absurd (omega arith)
power_of_two_of_and (suc fuel) n h pos e = elim (parity n) [
  | inl even ↦
      let m : (n - 1) / 2 ≡ n / 2 - 1 = omega (arith, even) in
      let half : bit_and (n / 2) (n / 2 - 1) ≡ 0 =
        let z : bit_and (n / 2) ((n - 1) / 2) ≡ 0 = omega (arith, e, low_digit n (n - 1)) in
        rw m at z in
      let (k, q) = power_of_two_of_and fuel (n / 2) (omega arith) (omega (arith, even)) half in
      (suc k, omega (arith, q, even, pow-suc 2 k))
  | inr odd ↦
      let m : (n - 1) / 2 ≡ n / 2 = omega (arith, odd) in
      let half : bit_and (n / 2) ((n - 1) / 2) ≡ n / 2 = rw m (and_self n (n / 2) (omega arith)) in
      (0, omega (arith, e, low_digit n (n - 1), half, odd))
]
