-- ===== src/PkId/Tests.antt =====
-- Runs of the limiter, and its theorems at concrete inputs.
use gofly_mqttv.Base.{ℕ, ◌+◌, ◌==◌, ◌-◌, ◌≡◌, refl, inl, List, [], ◌∷◌, arith, if◌then◌else◌, min}
use gofly_mqttv.PkId.Bitmap.{new_bitmap, write_bit, set_bit, get_bit}
use gofly_mqttv.PkId.Limiter.{
  Limiter, new_limiter, poll_packet_ids, Polled, granted, blocked, release, batch_release,
  mark_used_locked, poll_loop, skip, take_id, next_id,
}
use gofly_mqttv.PkId.Limiter.Poll.{IsValid, elem, Grants, poll_packet_ids-Grants}
use gofly_mqttv.PkId.Limiter.Release.{new_limiter-IsValid, batch_release_lem, mark_used_locked_lem}
use gofly_mqttv.PkId.Limiter.Narrow.{narrow_release}

abbrev ids_of : Polled → List ℕ
ids_of (granted ids p) = ids
ids_of _ = []

abbrev state_of : Polled → Limiter
state_of (granted ids p) = p
state_of _ = new_limiter 0

-- The repository's own test, at a limit of 5: poll all, release some, poll again.
five : Limiter
unfolding new_limiter poll_packet_ids poll_loop skip take_id set_bit get_bit release batch_release
    next_id new_bitmap write_bit
five = batch_release (state_of (poll_packet_ids (new_limiter 5) 9)) (1 ∷ 3 ∷ 5 ∷ [])

poll_again : ids_of (poll_packet_ids five 2) ≡ 1 ∷ 3 ∷ []
unfolding five
poll_again = refl

poll_when_full : poll_packet_ids (state_of (poll_packet_ids (new_limiter 5) 9)) 1 ≡ blocked
unfolding five
poll_when_full = refl

new_IsValid : IsValid (new_limiter 10)
new_IsValid = (new_limiter-IsValid 10 (omega arith) (omega arith) (inl (omega arith))).0

new_limiter-IsValid_example :
    IsValid (new_limiter 10)
    × ((new_limiter 10).used ≡ 0)
    × ((id : ℕ) → get_bit (new_limiter 10).locked_pid id ≡ 0)
new_limiter-IsValid_example = new_limiter-IsValid 10 (omega arith) (omega arith) (inl (omega arith))

abbrev ten : Limiter
unfolding new_limiter
ten = new_limiter 10

poll_packet_ids-Grants_example :
    (ids : List ℕ) × (q : Limiter) × (poll_packet_ids (new_limiter 10) 3 ≡ granted ids q)
    × Grants (new_limiter 10) (min 3 ((new_limiter 10).limit - (new_limiter 10).used)) ids q
unfolding new_limiter
poll_packet_ids-Grants_example =
    poll_packet_ids-Grants (new_limiter 10) 3 new_IsValid (omega arith) refl

batch_release_lem_example :
    IsValid (batch_release (new_limiter 10) (4 ∷ 2 ∷ []))
    × ((j : ℕ)
        → get_bit (batch_release (new_limiter 10) (4 ∷ 2 ∷ [])).locked_pid j
          ≡ (if elem j (4 ∷ 2 ∷ []) then 0 else get_bit (new_limiter 10).locked_pid j))
unfolding new_limiter
batch_release_lem_example =
    batch_release_lem (4 ∷ 2 ∷ []) (new_limiter 10) new_IsValid (omega arith)

mark_used_locked_lem_example :
    IsValid (mark_used_locked (new_limiter 10) 7)
    × ((mark_used_locked (new_limiter 10) 7).used ≡ (new_limiter 10).used + 1)
    × ((j : ℕ)
        → get_bit (mark_used_locked (new_limiter 10) 7).locked_pid j
          ≡ (if 7 == j then 1 else get_bit (new_limiter 10).locked_pid j))
unfolding new_limiter
mark_used_locked_lem_example =
    mark_used_locked_lem (new_limiter 10) 7 new_IsValid (omega arith) (omega arith)
      (new_limiter-IsValid_example.2 7)

narrow_release_example :
    release (record (new_limiter 65530) { used = 4; free_pid = 5 }) 3
    ≡ record (new_limiter 65530) { used = 4; free_pid = 5 }
narrow_release_example = narrow_release 65530 3 4 5 (omega arith) (omega arith) (omega arith)
