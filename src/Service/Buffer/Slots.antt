-- ===== src/Service/Buffer/Slots.antt =====
-- The slots of the ring: the position `n` of the stream lies at `n % size`, and positions less than
-- `size` apart lie at different slots.
use gofly_mqttv.Base.{
  ℕ, zero, suc, ◌+◌, ◌-◌, ◌*◌, ◌/◌, ◌%◌, ◌≤◌, ◌<◌, min, ◌≡◌, refl, sym, ap, ap₂, ◌∙◌, ◌≢◌, inl, inr,
  le_or_lt, List, [], ◌∷◌, ◌++◌, arith, length, set, take, drop, length-set, length-drop,
  length-take,
}
use gofly_mqttv.Base.Positions.{take-append-drop, take_all, drop_all, set_outside}
use native.Mathlib.Nat.{
  mod-add-div', lt_of_mul-lt-mul_left, mul-le-mul_right, mul_comm, mod-eq_of_lt, add-mod_right,
  mod-add-mod, suc-mul,
}
use gofly_mqttv.Service.Buffer.{copy_bytes, ring_copy}

pub slots_apart : (s i j : ℕ) → i < j → j < i + s → i % s ≢ j % s
slots_apart s i j lt near e =
    let q : i / s < j / s =
      lt_of_mul-lt-mul_left s (
        omega
          (arith, mul_comm s (i / s), mul_comm s (j / s), mod-add-div' i s, mod-add-div' j s)) in
    let q' : suc (i / s) * s ≤ j / s * s = mul-le-mul_right s (omega arith) in
    absurd (omega (arith, suc-mul (i / s) s, mod-add-div' i s, mod-add-div' j s))

-- Each byte goes to the slot of its position: what `ringCopy` is to do.
abbrev pub ring_write : List ℕ → ℕ → List ℕ → List ℕ
ring_write dst s [] = dst
ring_write dst s (x ∷ xs) = ring_write (set dst (s % length dst) x) (s + 1) xs

pub length-ring_write :
    (dst : List ℕ) (s : ℕ) (xs : List ℕ) → length (ring_write dst s xs) ≡ length dst
length-ring_write dst s [] = refl
length-ring_write dst s (x ∷ xs) =
    length-ring_write (set dst (s % length dst) x) (s + 1) xs ∙ length-set dst (s % length dst) x

ring_write-append :
    (dst : List ℕ) (s : ℕ) (xs ys : List ℕ)
    → ring_write dst s (xs ++ ys) ≡ ring_write (ring_write dst s xs) (s + length xs) ys
ring_write-append dst s [] ys = ap (λ n. ring_write dst n ys) (omega arith)
ring_write-append dst s (x ∷ xs) ys =
    ring_write-append (set dst (s % length dst) x) (s + 1) xs ys
    ∙ ap (λ n. ring_write (ring_write (set dst (s % length dst) x) (s + 1) xs) n ys) (omega arith)

pub ring_write-mod :
    (dst : List ℕ) (s t : ℕ) (xs : List ℕ)
    → s % length dst ≡ t % length dst
    → ring_write dst s xs ≡ ring_write dst t xs
ring_write-mod dst s t [] e = refl
ring_write-mod dst s t (x ∷ xs) e =
    let l = length-set dst (s % length dst) x in
    let next : (s + 1) % length dst ≡ (t + 1) % length dst =
      sym (mod-add-mod s (length dst) 1)
      ∙ ap (λ n. (n + 1) % length dst) e
      ∙ mod-add-mod t (length dst) 1 in
    ring_write-mod (set dst (s % length dst) x) (s + 1) (t + 1) xs (rw l next)
    ∙ ap (λ n. ring_write (set dst n x) (t + 1) xs) e

copy_bytes-outside :
    (dst : List ℕ) (at : ℕ) (src : List ℕ) → length dst ≤ at → copy_bytes dst at src ≡ dst
unfolding copy_bytes
copy_bytes-outside dst at [] h = refl
copy_bytes-outside dst at (x ∷ src) h =
    rw (set_outside dst at x h) (copy_bytes-outside dst (at + 1) src (omega arith))

pub copy_bytes-ring_write :
    (k : ℕ) (dst : List ℕ) (at : ℕ) (src : List ℕ)
    → at + k ≡ length dst
    → copy_bytes dst at src ≡ ring_write dst at (take k src)
unfolding copy_bytes
copy_bytes-ring_write zero dst at src h = copy_bytes-outside dst at src (omega arith)
copy_bytes-ring_write (suc k) dst at [] h = refl
copy_bytes-ring_write (suc k) dst at (x ∷ src) h =
    let here : at % length dst ≡ at = mod-eq_of_lt (omega arith) in
    copy_bytes-ring_write k (set dst at x) (at + 1) src (omega (arith, length-set dst at x))
    ∙ ap (λ n. ring_write (set dst n x) (at + 1) (take k src)) (sym here)

-- Two rounds write what one pass round the ring would.
two_rounds :
    (k : ℕ) (dst : List ℕ) (start : ℕ) (src : List ℕ)
    → start + k ≡ length dst
    → ring_write (ring_write dst start (take k src)) 0 (drop k src) ≡ ring_write dst start src
two_rounds k dst start src h = elim (le_or_lt (length src) k) [
  | inl le ↦ rw (drop_all k src le, take_all k src le) refl
  | inr gt ↦
      let l : length (take k src) ≡ k = omega (arith, length-take k src) in
      let D = ring_write dst start (take k src) in
      let m : 0 + length D ≡ start + length (take k src) =
        omega (arith, l, h, length-ring_write dst start (take k src)) in
      let e : 0 % length D ≡ (start + length (take k src)) % length D =
        sym (add-mod_right 0 (length D)) ∙ ap (λ n. n % length D) m in
      ring_write-mod (ring_write dst start (take k src)) 0 (start + length (take k src))
        (drop k src) e
      ∙ sym (ring_write-append dst start (take k src) (drop k src))
      ∙ ap (ring_write dst start) (take-append-drop k src)
]

drop-min : (k : ℕ) (xs : List ℕ) → drop (min k (length xs)) xs ≡ drop k xs
drop-min k xs = elim (le_or_lt (length xs) k) [
  | inl le ↦ drop_all (min k (length xs)) xs (omega arith) ∙ sym (drop_all k xs le)
  | inr gt ↦ ap (λ n. drop n xs) (omega arith)
]

pub ring_copy-ring_write :
    (fuel : ℕ) (dst : List ℕ) (src : List ℕ) (start i : ℕ)
    → length src ≤ fuel
    → start < length dst
    → ring_copy fuel dst src start i ≡ (ring_write dst start src, i + length src)
unfolding ring_copy
ring_copy-ring_write zero dst [] start i h lt = ap (λ n. (dst, n)) (omega arith)
ring_copy-ring_write zero dst (x ∷ src) start i h lt = absurd (omega arith)
ring_copy-ring_write (suc fuel) dst [] start i h lt = ap (λ n. (dst, n)) (omega arith)
ring_copy-ring_write (suc fuel) dst (x ∷ src) start i h lt =
    let k = length dst - start in
    let room : start + k ≡ length dst = omega arith in
    let all = x ∷ src in
    let e : copy_bytes dst start all ≡ ring_write dst start (take k all) =
      copy_bytes-ring_write k dst start all room in
    let d : drop (min k (length all)) all ≡ drop k all = drop-min k all in
    let n : length (ring_write dst start (take k all)) ≡ length dst =
      length-ring_write dst start (take k all) in
    rw (e, d)
      (ring_copy-ring_write fuel (ring_write dst start (take k all)) (drop k all) 0
          (i + min k (length all)) (omega (arith, length-drop k all)) (omega (arith, n))
        ∙ ap₂ (λ a b. (a, b)) (two_rounds k dst start all room) (omega (arith, length-drop k all)))
