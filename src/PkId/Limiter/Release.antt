-- ===== src/PkId/Limiter/Release.antt =====
-- A new limiter, and the operations that give back or mark one identifier.
use gofly_mqttv.Base.{
  ℕ, ◌+◌, ◌-◌, ◌%◌, ◌^◌, ◌≤◌, ◌<◌, ◌≡◌, refl, ◌⊎◌, inl, inr, true, false, List, [], ◌∷◌, arith,
  ◌==◌, if◌then◌else◌, Bool-cases,
}
use gofly_mqttv.PkId.Bitmap.{new_bitmap, set_bit, get_bit}
use gofly_mqttv.PkId.Bitmap.Laws.{
  get_bit-set_bit, set_bit-IsValid, size-set_bit, new_bitmap-IsValid, get_bit-new_bitmap,
  get_bit-le-one,
}
use gofly_mqttv.PkId.Limiter.{Limiter, new_limiter, release, batch_release, mark_used_locked}
use gofly_mqttv.PkId.Limiter.Count.{
  count_locked, count_locked-le, count_locked-on, count_locked-off, count_locked-new_bitmap,
}
use gofly_mqttv.PkId.Limiter.Poll.{IsValid, elem}

new_size :
    (limit : ℕ)
    → limit < 65528 ⊎ (65534 ≤ limit)
    → limit < 2 ^ 16
    → limit ≤ (new_bitmap ((limit + 1) % 2 ^ 16)).size
unfolding new_bitmap
new_size limit h w = ground arith

-- A limiter made with a limit from 1 to 65535 starts valid, with every identifier free, unless the
-- limit is one of 65528 to 65533.
pub new_limiter-IsValid :
    (limit : ℕ)
    → 1 ≤ limit
    → limit < 2 ^ 16
    → limit < 65528 ⊎ (65534 ≤ limit)
    → IsValid (new_limiter limit)
      × ((new_limiter limit).used ≡ 0)
      × ((id : ℕ) → get_bit (new_limiter limit).locked_pid id ≡ 0)
unfolding new_limiter
new_limiter-IsValid limit lo w h = (
  record {
    bits = new_bitmap-IsValid _;
    wide = new_size limit h w;
    word = w;
    free_low = omega arith;
    free_high = lo;
    counted = omega (arith, count_locked-new_bitmap ((limit + 1) % 2 ^ 16) limit);
  },
  refl,
  λ id. get_bit-new_bitmap _ id,
)

-- What one release does to a valid limiter: an identifier in use becomes free and is counted off;
-- any other call changes nothing.
pub record Released (p : Limiter) (id : ℕ) (q : Limiter) : Type 0 where
  pub valid : IsValid q
  pub used : q.used + get_bit p.locked_pid id ≡ p.used
  pub limit : q.limit ≡ p.limit
  pub locks : (j : ℕ) → get_bit q.locked_pid j ≡ (if id == j then 0 else get_bit p.locked_pid j)

release_kept :
    (p : Limiter) (id : ℕ) → IsValid p → (get_bit p.locked_pid id == 1) ≡ false → Released p id p
release_kept p id v e = record {
  valid = v;
  used = ground (arith, get_bit-le-one p.locked_pid id);
  limit = refl;
  locks = λ j. ground (arith, get_bit-le-one p.locked_pid id);
}

release_freed :
    (p : Limiter) (id : ℕ)
    → IsValid p
    → 1 ≤ id
    → id ≤ p.limit
    → (get_bit p.locked_pid id == 1) ≡ true
    → Released p id (record p {
      locked_pid = (set_bit p.locked_pid id 0).0;
      used = (p.used + 2 ^ 16 - 1) % 2 ^ 16;
    })
release_freed p id v lo hi e =
    let one : get_bit p.locked_pid id ≡ 1 = ground arith in
    let c : count_locked (set_bit p.locked_pid id 0).0 p.limit + 1
        ≡ count_locked p.locked_pid p.limit =
      ground (arith, count_locked-off id p.limit v.bits, v.wide) in
    let bound : p.used ≤ p.limit = omega (arith, v.counted, count_locked-le p.locked_pid p.limit) in
    record {
      valid = record {
        bits = set_bit-IsValid id 0 v.bits;
        wide = rw size-set_bit v.wide;
        word = v.word;
        free_low = v.free_low;
        free_high = v.free_high;
        counted = omega (arith, v.counted, v.word);
      };
      used = omega (arith, v.counted, v.word);
      limit = refl;
      locks = λ j. ground (arith, get_bit-set_bit id 0 j v.bits, v.wide);
    }

pub release-Released :
    (p : Limiter) (id : ℕ) → IsValid p → 1 ≤ id → id ≤ p.limit → Released p id (release p id)
unfolding release
release-Released p id v lo hi = elim (Bool-cases (get_bit p.locked_pid id == 1)) [
  | inl e ↦ rw e (release_freed p id v lo hi e)
  | inr e ↦ rw e (release_kept p id v e)
]

abbrev pub InRange : ℕ → List ℕ → Type 0
InRange limit [] = Unit
InRange limit (id ∷ ids) = (1 ≤ id) × (id ≤ limit) × InRange limit ids

-- `BatchRelease` of identifiers from 1 to the limit keeps the limiter valid, frees exactly the listed
-- identifiers, and leaves the others as they were.
pub batch_release_lem :
    (ids : List ℕ) (p : Limiter)
    → IsValid p
    → InRange p.limit ids
    → IsValid (batch_release p ids)
      × ((j : ℕ)
          → get_bit (batch_release p ids).locked_pid j
            ≡ (if elem j ids then 0 else get_bit p.locked_pid j))
unfolding batch_release
batch_release_lem [] p v h = (v, λ j. refl)
batch_release_lem (id ∷ ids) p v (lo, hi, rest) =
    let r = release-Released p id v lo hi in
    let (v', locks) = batch_release_lem ids (release p id) r.valid (rw r.limit rest) in
    (v', λ j. ground (arith, locks j, r.locks j))

-- `MarkUsedLocked` of a free identifier keeps the limiter valid and locks that identifier alone.
pub mark_used_locked_lem :
    (p : Limiter) (id : ℕ)
    → IsValid p
    → 1 ≤ id
    → id ≤ p.limit
    → get_bit p.locked_pid id ≡ 0
    → IsValid (mark_used_locked p id)
      × ((mark_used_locked p id).used ≡ p.used + 1)
      × ((j : ℕ)
          → get_bit (mark_used_locked p id).locked_pid j
            ≡ (if id == j then 1 else get_bit p.locked_pid j))
unfolding mark_used_locked
mark_used_locked_lem p id v lo hi e =
    let c : count_locked (set_bit p.locked_pid id 1).0 p.limit
        ≡ count_locked p.locked_pid p.limit + 1 =
      ground (arith, count_locked-on id p.limit v.bits, v.wide) in
    let bound : p.used + 1 ≤ p.limit =
      omega (arith, v.counted, c, count_locked-le (set_bit p.locked_pid id 1).0 p.limit) in
    (
      record {
        bits = set_bit-IsValid id 1 v.bits;
        wide = rw size-set_bit v.wide;
        word = v.word;
        free_low = v.free_low;
        free_high = v.free_high;
        counted = omega (arith, v.counted, c, v.word);
      },
      omega (arith, v.word),
      λ j. ground (arith, get_bit-set_bit id 1 j v.bits, v.wide),
    )
