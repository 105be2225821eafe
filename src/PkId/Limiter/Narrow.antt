-- ===== src/PkId/Limiter/Narrow.antt =====
-- Limits from 65528 to 65533: rounding `limit + 1` up to a multiple of 8 wraps to 0, and the bitmap
-- holds no bit of any identifier.
use gofly_mqttv.Base.{ℕ, ◌+◌, ◌%◌, ◌^◌, ◌≤◌, ◌≡◌, false, arith}
use gofly_mqttv.PkId.Bitmap.{Bitmap, new_bitmap, set_bit, get_bit}
use gofly_mqttv.PkId.Limiter.{new_limiter, release}

new_bitmap-narrow :
    (limit : ℕ) → 65528 ≤ limit → limit ≤ 65533 → (new_bitmap ((limit + 1) % 2 ^ 16)).size ≡ 0
unfolding new_bitmap
new_bitmap-narrow limit lo hi = ground arith

set_bit-narrow : (b : Bitmap) (id v : ℕ) → b.size ≡ 0 → 1 ≤ id → set_bit b id v ≡ (b, false)
unfolding set_bit
set_bit-narrow b id v h lo = ground arith

get_bit-narrow : (b : Bitmap) (id : ℕ) → b.size ≡ 0 → 1 ≤ id → get_bit b id ≡ 0
unfolding get_bit
get_bit-narrow b id h lo = ground arith

-- The bitmap forgets: no `Set` on an identifier has an effect, and `Get` answers 0 on each.
pub narrow_forgets :
    (limit id v : ℕ)
    → 65528 ≤ limit
    → limit ≤ 65533
    → 1 ≤ id
    → (set_bit (new_limiter limit).locked_pid id v ≡ ((new_limiter limit).locked_pid, false))
      × (get_bit (new_limiter limit).locked_pid id ≡ 0)
unfolding new_limiter
narrow_forgets limit id v lo hi h = (
  set_bit-narrow _ id v (new_bitmap-narrow limit lo hi) h,
  get_bit-narrow _ id (new_bitmap-narrow limit lo hi) h,
)

-- Then a released identifier is never counted off: with any number in use, a release leaves the
-- limiter as it is, so that after `limit` polls every further poll waits for ever.
pub narrow_release :
    (limit id used pid : ℕ)
    → 65528 ≤ limit
    → limit ≤ 65533
    → 1 ≤ id
    → release (record (new_limiter limit) { used = used; free_pid = pid }) id
      ≡ record (new_limiter limit) { used = used; free_pid = pid }
unfolding release
narrow_release limit id used pid lo hi h = ground (arith, narrow_forgets limit id 0 lo hi h)
