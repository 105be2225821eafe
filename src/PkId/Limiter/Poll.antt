-- ===== src/PkId/Limiter/Poll.antt =====
-- What `PollPacketIDs` hands out.
use gofly_mqttv.Base.{
  ℕ, zero, suc, ◌+◌, ◌-◌, ◌^◌, ◌≤◌, ◌<◌, ◌≡◌, refl, Bool, false, ◌||◌, some, List, [], ◌∷◌, arith,
  ◌==◌, if◌then◌else◌, min, length, All, ap, ◌∙◌, lt→leb_false,
}
use gofly_mqttv.PkId.Bitmap.{get_bit}
use gofly_mqttv.PkId.Bitmap.Laws
use gofly_mqttv.PkId.Bitmap.Laws.{get_bit-set_bit, set_bit-IsValid, size-set_bit}
use gofly_mqttv.PkId.Limiter.{
  Limiter, skip, take_id, poll_loop, granted, poll_count, poll_packet_ids,
}
use gofly_mqttv.PkId.Limiter.Count.{
  count_locked, Free, find-Free, skip_lem, distance-lt, count_locked-on, next_id-range,
}

-- The limiter's books balance: `used` counts the locked identifiers among 1 … limit, and the
-- bitmap has a bit for each of them.
pub record IsValid (p : Limiter) : Type 0 where
  pub bits : Laws.IsValid p.locked_pid
  pub wide : p.limit ≤ p.locked_pid.size
  pub word : p.limit < 2 ^ 16
  pub free_low : 1 ≤ p.free_pid
  pub free_high : p.free_pid ≤ p.limit
  pub counted : p.used ≡ count_locked p.locked_pid p.limit

-- Whether `id` is in the list.
abbrev pub elem : ℕ → List ℕ → Bool
elem id [] = false
elem id (x ∷ xs) = (x == id) || elem id xs

abbrev pub Distinct : List ℕ → Type 0
Distinct [] = Unit
Distinct (x ∷ xs) = (elem x xs ≡ false) × Distinct xs

-- What the caller is told of `n` identifiers handed out by `p`, which becomes `q`: they are different,
-- they were free, they are now locked, and no other identifier changed.
pub record Grants (p : Limiter) (n : ℕ) (ids : List ℕ) (q : Limiter) : Type 0 where
  pub valid : IsValid q
  pub number : length ids ≡ n
  pub used : q.used ≡ p.used + n
  pub limit : q.limit ≡ p.limit
  pub exit : q.exit ≡ p.exit
  pub free : All (Free p.locked_pid p.limit) ids
  pub distinct : Distinct ids
  pub locks : (j : ℕ) → get_bit q.locked_pid j ≡ (if elem j ids then 1 else get_bit p.locked_pid j)

take_id-IsValid :
    (p : Limiter) (id : ℕ)
    → IsValid p
    → Free p.locked_pid p.limit id
    → p.used < p.limit
    → IsValid (take_id p id)
      × ((take_id p id).used ≡ p.used + 1)
      × ((take_id p id).limit ≡ p.limit)
      × ((take_id p id).exit ≡ p.exit)
unfolding take_id
take_id-IsValid p id v f h = (
  record {
    bits = set_bit-IsValid id 1 v.bits;
    wide = rw size-set_bit v.wide;
    word = v.word;
    free_low = (next_id-range p.limit id v.word f.low f.high).0;
    free_high = (next_id-range p.limit id v.word f.low f.high).1;
    counted = ground (arith, count_locked-on id p.limit v.bits, v.wide, f.low, f.high, f.unset);
  },
  omega arith,
  refl,
  refl,
)

get_bit-take_id :
    (p : Limiter) (id j : ℕ)
    → IsValid p
    → id ≤ p.limit
    → get_bit (take_id p id).locked_pid j ≡ (if id == j then 1 else get_bit p.locked_pid j)
unfolding take_id
get_bit-take_id p id j v h = ground (arith, get_bit-set_bit id 1 j v.bits)

-- An identifier that is free after `id` was taken is another one, and was free before.
Free-before :
    (p : Limiter) (id j : ℕ)
    → IsValid p
    → id ≤ p.limit
    → Free (take_id p id).locked_pid p.limit j
    → ((id == j) ≡ false) × Free p.locked_pid p.limit j
Free-before p id j v h f = ground (arith, get_bit-take_id p id j v h)

All-before :
    (p : Limiter) (id : ℕ) (ids : List ℕ)
    → IsValid p
    → id ≤ p.limit
    → All (Free (take_id p id).locked_pid p.limit) ids
    → (elem id ids ≡ false) × All (Free p.locked_pid p.limit) ids
All-before p id [] v h f = (refl, tt)
All-before p id (j ∷ ids) v h (f, fs) =
    let (ne, g) = Free-before p id j v h f in
    let (out, gs) = All-before p id ids v h fs in (ground arith, (g, gs))

next-Free :
    (p : Limiter)
    → IsValid p
    → p.used < p.limit
    → (id : ℕ) × (skip p.limit p.locked_pid p.limit p.free_pid ≡ some id)
      × Free p.locked_pid p.limit id
next-Free p v h =
    let (spare, f) = find-Free p.locked_pid p.limit (omega (arith, v.counted)) in
    skip_lem p.limit p.locked_pid p.limit p.free_pid f v.word v.free_low v.free_high
      (distance-lt p.limit p.free_pid spare v.free_low v.free_high f.low f.high)

Grants-cons :
    (p : Limiter) (n id : ℕ) (ids : List ℕ) (q : Limiter)
    → IsValid p
    → Free p.locked_pid p.limit id
    → (take_id p id).used ≡ p.used + 1
    → (take_id p id).limit ≡ p.limit
    → (take_id p id).exit ≡ p.exit
    → Grants (take_id p id) n ids q
    → Grants p (suc n) (id ∷ ids) q
Grants-cons p n id ids q v f u l x g =
    let (out, free') = All-before p id ids v f.high (rw l at g.free) in
    record {
      valid = g.valid;
      number = ap suc g.number;
      used = omega (arith, g.used);
      limit = g.limit ∙ l;
      exit = g.exit ∙ x;
      free = (f, free');
      distinct = (out, g.distinct);
      locks = λ j. g.locks j ∙ ground (arith, get_bit-take_id p id j v f.high);
    }

poll_loop_step :
    (p : Limiter) (n id : ℕ) (ids : List ℕ) (q : Limiter)
    → skip p.limit p.locked_pid p.limit p.free_pid ≡ some id
    → poll_loop n (take_id p id) ≡ some (ids, q)
    → poll_loop (suc n) p ≡ some (id ∷ ids, q)
unfolding poll_loop
poll_loop_step p n id ids q e r = rw (e, poll_loop) (rw r)

-- The loop takes `n` identifiers when so many are free.
poll_loop-Grants :
    (n : ℕ) (p : Limiter)
    → IsValid p
    → p.used + n ≤ p.limit
    → (ids : List ℕ) × (q : Limiter) × (poll_loop n p ≡ some (ids, q)) × Grants p n ids q
poll_loop-Grants zero p v h = (
  [],
  p,
  unfold poll_loop in refl,
  record {
    valid = v;
    number = refl;
    used = omega arith;
    limit = refl;
    exit = refl;
    free = tt;
    distinct = tt;
    locks = λ j. refl;
  },
)
poll_loop-Grants (suc n) p v h =
    let (id, found, f) = next-Free p v (omega arith) in
    let (v', u, l, x) = take_id-IsValid p id v f (omega arith) in
    let (ids, q, run, g) = poll_loop-Grants n (take_id p id) v' (omega arith) in
    (id ∷ ids, q, poll_loop_step p n id ids q found run, Grants-cons p n id ids q v f u l x g)

poll_count-min : (p : Limiter) (max : ℕ) → poll_count p max ≡ min max (p.limit - p.used)
unfolding poll_count
poll_count-min p max = ground arith

poll_packet_ids_run :
    (p : Limiter) (max : ℕ) (ids : List ℕ) (q : Limiter)
    → p.used < p.limit
    → p.exit ≡ false
    → poll_loop (min max (p.limit - p.used)) p ≡ some (ids, q)
    → poll_packet_ids p max ≡ granted ids q
unfolding poll_packet_ids
poll_packet_ids_run p max ids q h e r =
    let c : poll_loop (poll_count p max) p ≡ some (ids, q) = rw poll_count-min r in
    cc (lt→leb_false p.limit p.used h, c, e)

-- A poll that finds room and no `Close` returns at once. It hands out min(max, limit - used)
-- identifiers, as `Grants` says.
pub poll_packet_ids-Grants :
    (p : Limiter) (max : ℕ)
    → IsValid p
    → p.used < p.limit
    → p.exit ≡ false
    → (ids : List ℕ) × (q : Limiter) × (poll_packet_ids p max ≡ granted ids q)
      × Grants p (min max (p.limit - p.used)) ids q
poll_packet_ids-Grants p max v h e =
    let (ids, q, run, g) = poll_loop-Grants (min max (p.limit - p.used)) p v (omega arith) in
    (ids, q, poll_packet_ids_run p max ids q h e run, g)
