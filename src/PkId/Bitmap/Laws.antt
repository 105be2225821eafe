-- ===== src/PkId/Bitmap/Laws.antt =====
-- Reading back a bitmap after a write.
use gofly_mqttv.Base.{
  ℕ, zero, suc, ◌+◌, ◌/◌, ◌^◌, ◌≤◌, ◌<◌, ◌≡◌, inl, inr, ◌&&◌, List, [], ◌∷◌, arith, ltb, leb, ◌==◌,
  if◌then◌else◌, length, get_or, set, replicate, All, length-set, length-replicate, get_or-set_self,
  get_or-set_ne, get_or-replicate, Bool-cases, ==_refl, ==_of_ne, bit_and, ◌∙◌,
}
use gofly_mqttv.Base.Bits.{bit_at, bit_at-on, bit_at-off, bit_on-lt, bit_off-lt, and-7, and-1}
use native.Mathlib.Decide.{ℕ_discrete}
use gofly_mqttv.PkId.Bitmap.{Bitmap, rounded_size, new_bitmap, write_bit, set_bit, get_bit}

abbrev pub IsByte : ℕ → Type 0
IsByte b = b < 256

-- The slice reaches the byte of every offset up to `size`.
pub record IsValid (b : Bitmap) : Type 0 where
  pub fits : length b.vals ≡ b.size / 8 + 1
  pub bytes : All IsByte b.vals

get_or-IsByte : (xs : List ℕ) (i : ℕ) → All IsByte xs → IsByte (get_or xs i 0)
get_or-IsByte [] i h = omega arith
get_or-IsByte (x ∷ xs) zero h = h.0
get_or-IsByte (x ∷ xs) (suc i) h = get_or-IsByte xs i h.1

set-IsByte : (xs : List ℕ) (i v : ℕ) → All IsByte xs → IsByte v → All IsByte (set xs i v)
set-IsByte [] i v h k = h
set-IsByte (x ∷ xs) zero v h k = (k, h.1)
set-IsByte (x ∷ xs) (suc i) v h k = (h.0, set-IsByte xs i v h.1 k)

replicate-IsByte : (n : ℕ) → All IsByte (replicate n 0)
replicate-IsByte zero = tt
replicate-IsByte (suc n) = (omega arith, replicate-IsByte n)

pub new_bitmap-IsValid : (size : ℕ) → IsValid (new_bitmap size)
unfolding new_bitmap
new_bitmap-IsValid size = record {
  fits = length-replicate (rounded_size size / 8 + 1) 0;
  bytes = replicate-IsByte (rounded_size size / 8 + 1);
}

zero-bit_at : (p : ℕ) → bit_at 0 p ≡ 0
zero-bit_at p = omega (arith, and-1 (0 / 2 ^ p), zero_div)
  where
    zero_div : 0 / 2 ^ p ≡ 0
    zero_div = omega arith

-- A fresh bitmap has no bit set.
pub get_bit-new_bitmap : (size offset : ℕ) → get_bit (new_bitmap size) offset ≡ 0
unfolding new_bitmap get_bit
get_bit-new_bitmap size offset = elim (Bool-cases (ltb (rounded_size size) offset)) [
  | inl e ↦ rw e
  | inr e ↦
      rw (e, get_or-replicate {A = ℕ} (rounded_size size / 8 + 1) (offset / 8) 0)
        (zero-bit_at (bit_and offset 7))
]

write_bit-IsByte : (b p v : ℕ) → IsByte b → p < 8 → IsByte (write_bit b p v)
unfolding write_bit
write_bit-IsByte b p v hb hp = ground (arith, bit_on-lt b p hb hp, bit_off-lt b p hb hp)

bit_at-write_bit :
    (b p q v : ℕ)
    → IsByte b
    → p < 8
    → q < 8
    → bit_at (write_bit b p v) q ≡ (if p == q then (if v == 0 then 0 else 1) else bit_at b q)
unfolding write_bit
bit_at-write_bit b p q v hb hp hq =
    ground (arith, bit_at-on b p q hb hp hq, bit_at-off b p q hb hp hq)

pos-lt : (o : ℕ) → bit_and o 7 < 8
pos-lt o = omega (arith, and-7 o)

pub set_bit-IsValid : {b : Bitmap} (o v : ℕ) → IsValid b → IsValid (set_bit b o v).0
unfolding set_bit
set_bit-IsValid {b} o v h = elim (Bool-cases (ltb b.size o)) [
  | inl e ↦ rw e h
  | inr e ↦ rw e (record {
    fits = length-set b.vals (o / 8) _ ∙ h.fits;
    bytes =
        set-IsByte b.vals (o / 8) _ h.bytes
          (write_bit-IsByte _ _ v (get_or-IsByte b.vals (o / 8) h.bytes) (pos-lt o));
  })
]

pub size-set_bit : (b : Bitmap) (o v : ℕ) → (set_bit b o v).0.size ≡ b.size
unfolding set_bit
size-set_bit b o v = ground arith

-- The byte of `j` after the byte of `o` was written.
get_or-write :
    {b : Bitmap} (o j w : ℕ)
    → IsValid b
    → o ≤ b.size
    → get_or (set b.vals (o / 8) w) (j / 8) 0
      ≡ (if o / 8 == j / 8 then w else get_or b.vals (j / 8) 0)
get_or-write {b} o j w h le = elim (ℕ_discrete (o / 8) (j / 8)) [
  | yes e ↦
      rw (← e) (rw (==_refl (o / 8)) (get_or-set_self b.vals (o / 8) w 0 (omega (arith, h.fits))))
  | no ne ↦ rw (==_of_ne ne) (get_or-set_ne b.vals w 0 ne)
]

-- After `Set(o, v)`, `Get(j)` is unchanged unless `j` is `o` and within the size.
pub get_bit-set_bit :
    {b : Bitmap} (o v j : ℕ)
    → IsValid b
    → get_bit (set_bit b o v).0 j
      ≡ (if (o == j) && leb o b.size then (if v == 0 then 0 else 1) else get_bit b j)
unfolding set_bit get_bit
get_bit-set_bit {b} o v j h = ground (
  arith,
  get_or-write o j (write_bit (get_or b.vals (o / 8) 0) (bit_and o 7) v) h,
  bit_at-write_bit (get_or b.vals (o / 8) 0) (bit_and o 7) (bit_and j 7) v,
  get_or-IsByte b.vals (o / 8) h.bytes,
  and-7 o,
  and-7 j,
)

pub get_bit-le-one : (b : Bitmap) (j : ℕ) → get_bit b j ≤ 1
unfolding get_bit
get_bit-le-one b j = ground (arith, and-1 (get_or b.vals (j / 8) 0 / 2 ^ bit_and j 7))
