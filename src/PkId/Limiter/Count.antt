-- ===== src/PkId/Limiter/Count.antt =====
-- How many identifiers are locked, and that a free one is found when they are not all locked.
use gofly_mqttv.Base.{
  refl, ℕ, zero, suc, ◌+◌, ◌-◌, ◌^◌, ◌≤◌, ◌<◌, ◌≡◌, ap, ◌≢◌, inl, inr, true, some, arith, leb, ◌==◌,
  if◌then◌else◌, Bool-cases,
}
use gofly_mqttv.PkId.Bitmap.{Bitmap, new_bitmap, set_bit, get_bit}
use gofly_mqttv.PkId.Bitmap.Laws
use gofly_mqttv.PkId.Bitmap.Laws.{get_bit-set_bit, get_bit-le-one, get_bit-new_bitmap}
use gofly_mqttv.PkId.Limiter.{next_id, skip}

-- The locked identifiers among 1 … n.
pub count_locked : Bitmap → ℕ → ℕ
count_locked b zero = 0
count_locked b (suc n) = count_locked b n + get_bit b (suc n)

pub count_locked-le : (b : Bitmap) (n : ℕ) → count_locked b n ≤ n
unfolding count_locked
count_locked-le b zero = omega arith
count_locked-le b (suc n) = omega (arith, count_locked-le b n, get_bit-le-one b (suc n))

pub count_locked-new_bitmap : (size n : ℕ) → count_locked (new_bitmap size) n ≡ 0
unfolding count_locked
count_locked-new_bitmap size zero = refl
count_locked-new_bitmap size (suc n) =
    omega (arith, count_locked-new_bitmap size n, get_bit-new_bitmap size (suc n))

pub record Free (b : Bitmap) (limit : ℕ) (id : ℕ) : Type 0 where
  pub low : 1 ≤ id
  pub high : id ≤ limit
  pub unset : get_bit b id ≡ 0

-- Not all locked: one of them is free.
pub find-Free : (b : Bitmap) (n : ℕ) → count_locked b n < n → (id : ℕ) × Free b n id
unfolding count_locked
find-Free b zero h = absurd (omega arith)
find-Free b (suc n) h = elim (Bool-cases (get_bit b (suc n) == 1)) [
  | inl e ↦
      let (id, f) = find-Free b n (ground arith) in
      (id, record { low = f.low; high = omega (arith, f.high); unset = f.unset })
  | inr e ↦ (
    suc n,
    record {
      low = omega arith;
      high = omega arith;
      unset = ground (arith, get_bit-le-one b (suc n));
    },
  )
]

-- Steps of `next_id` from `pid` to `id`.
pub distance : ℕ → ℕ → ℕ → ℕ
distance limit pid id = if leb pid id then id - pid else limit - pid + id

pub next_id-range :
    (limit pid : ℕ)
    → limit < 2 ^ 16
    → 1 ≤ pid
    → pid ≤ limit
    → (1 ≤ next_id limit pid) × (next_id limit pid ≤ limit)
unfolding next_id
next_id-range limit pid hl h1 h2 = ground arith

-- One step keeps to 1 … limit, and comes nearer to every other identifier.
pub next_id_lem :
    (limit pid id : ℕ)
    → limit < 2 ^ 16
    → 1 ≤ pid
    → pid ≤ limit
    → 1 ≤ id
    → id ≤ limit
    → pid ≢ id
    → (1 ≤ next_id limit pid)
      × (next_id limit pid ≤ limit)
      × (distance limit (next_id limit pid) id + 1 ≡ distance limit pid id)
unfolding next_id distance
next_id_lem limit pid id hl h1 h2 h3 h4 ne = ground arith

set_ne_unset : (b : Bitmap) {pid id : ℕ} → (get_bit b pid == 1) ≡ true → get_bit b id ≡ 0 → pid ≢ id
set_ne_unset b {pid} {id} e u p =
    let q : get_bit b pid ≡ get_bit b id = ap (get_bit b) p in ground arith

-- The loop stops at a free identifier before its fuel runs out.
pub skip_lem :
    (fuel : ℕ) (b : Bitmap) (limit pid : ℕ) {id : ℕ}
    → Free b limit id
    → limit < 2 ^ 16
    → 1 ≤ pid
    → pid ≤ limit
    → distance limit pid id < fuel
    → (r : ℕ) × (skip fuel b limit pid ≡ some r) × Free b limit r
unfolding skip
skip_lem zero b limit pid f hl lo hi h = absurd (omega arith)
skip_lem (suc fuel) b limit pid {id} f hl lo hi h = elim (Bool-cases (get_bit b pid == 1)) [
  | inl e ↦
      let (l, u, d) = next_id_lem limit pid id hl lo hi f.low f.high (set_ne_unset b e f.unset) in
      let (r, q, g) = skip_lem fuel b limit (next_id limit pid) f hl l u (omega arith) in
      (r, ground arith, g)
  | inr e ↦ (
    pid,
    ground arith,
    record { low = lo; high = hi; unset = ground (arith, get_bit-le-one b pid) },
  )
]

pub distance-lt :
    (limit pid id : ℕ) → 1 ≤ pid → pid ≤ limit → 1 ≤ id → id ≤ limit → distance limit pid id < limit
unfolding distance
distance-lt limit pid id h1 h2 h3 h4 = ground arith

-- Setting one unset identifier counts one more; clearing a set one counts one less.
pub count_locked-on :
    {b : Bitmap} (id n : ℕ)
    → Laws.IsValid b
    → id ≤ b.size
    → 1 ≤ id
    → get_bit b id ≡ 0
    → count_locked (set_bit b id 1).0 n
      ≡ (if leb id n then count_locked b n + 1 else count_locked b n)
unfolding count_locked
count_locked-on id zero v h l e = ground arith
count_locked-on {b} id (suc n) v h l e =
    ground (arith, count_locked-on id n v h l e, get_bit-set_bit id 1 (suc n) v)

pub count_locked-off :
    {b : Bitmap} (id n : ℕ)
    → Laws.IsValid b
    → id ≤ b.size
    → 1 ≤ id
    → get_bit b id ≡ 1
    → count_locked (set_bit b id 0).0 n + (if leb id n then 1 else 0) ≡ count_locked b n
unfolding count_locked
count_locked-off id zero v h l e = ground arith
count_locked-off {b} id (suc n) v h l e =
    ground (arith, count_locked-off id n v h l e, get_bit-set_bit id 0 (suc n) v)
