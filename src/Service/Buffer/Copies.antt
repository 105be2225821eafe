-- ===== src/Service/Buffer/Copies.antt =====
-- What `ringCopy` leaves in the ring: the bytes in the slots of their positions, and the rest as it was.
use gofly_mqttv.Base.{
  ℕ, zero, suc, ◌+◌, ◌%◌, ◌≤◌, ◌<◌, ◌≡◌, refl, sym, ap, ◌∙◌, ◌≢◌, List, [], ◌∷◌, arith, length,
  get_or, set, length-set, get_or-set_self, get_or-set_ne,
}
use native.Mathlib.Nat.{mod-lt}
use gofly_mqttv.Service.Buffer.{ring_copy}
use gofly_mqttv.Service.Buffer.Slots.{
  slots_apart, ring_write, length-ring_write, ring_copy-ring_write,
}

-- None of `n` positions from `s` on lies at the slot `at` of a ring of `size`.
abbrev pub Outside : ℕ → ℕ → ℕ → ℕ → Type 0
Outside size s n at = (j : ℕ) → j < n → (s + j) % size ≢ at

ring_write_untouched :
    (dst : List ℕ) (s : ℕ) (xs : List ℕ) (at : ℕ)
    → Outside (length dst) s (length xs) at
    → get_or (ring_write dst s xs) at 0 ≡ get_or dst at 0
ring_write_untouched dst s [] at h = refl
ring_write_untouched dst s (x ∷ xs) at h =
    let l = length-set dst (s % length dst) x in
    let here : s % length dst ≢ at =
      λ e. h 0 (omega arith) (ap (λ n. n % length dst) (omega arith) ∙ e) in
    let later : Outside (length (set dst (s % length dst) x)) (s + 1) (length xs) at =
      λ j lt e. h (suc j) (omega arith) (ap (λ n. n % length dst) (omega arith) ∙ (rw l at e)) in
    ring_write_untouched (set dst (s % length dst) x) (s + 1) xs at later
    ∙ get_or-set_ne dst x 0 here

ring_write-lays :
    (dst : List ℕ) (s : ℕ) (xs : List ℕ)
    → 0 < length dst
    → length xs ≤ length dst
    → (j : ℕ) → j < length xs
    → get_or (ring_write dst s xs) ((s + j) % length dst) 0 ≡ get_or xs j 0
ring_write-lays dst s [] pos fits j lt = absurd (omega arith)
ring_write-lays dst s (x ∷ xs) pos fits zero lt =
    let l = length-set dst (s % length dst) x in
    let safe : Outside (length (set dst (s % length dst) x)) (s + 1) (length xs) (s % length dst) =
      λ j below e.
        slots_apart (length dst) s (s + 1 + j) (omega arith) (omega arith) (sym (rw l at e)) in
    ap (λ n. get_or (ring_write dst s (x ∷ xs)) (n % length dst) 0) (omega arith)
    ∙ ring_write_untouched (set dst (s % length dst) x) (s + 1) xs (s % length dst) safe
    ∙ get_or-set_self dst (s % length dst) x 0 (mod-lt s pos)
ring_write-lays dst s (x ∷ xs) pos fits (suc j) lt =
    let l = length-set dst (s % length dst) x in
    let e : (s + suc j) % length dst ≡ (s + 1 + j) % length (set dst (s % length dst) x) =
      rw l (ap (λ n. n % length dst) (omega arith)) in
    ap (λ n. get_or (ring_write dst s (x ∷ xs)) n 0) e
    ∙ ring_write-lays (set dst (s % length dst) x) (s + 1) xs (omega (arith, l)) (omega (arith, l))
        j (omega arith)

-- `ringCopy` of at most as many bytes as the ring has, from one of its slots, ends within as many rounds as
-- there are bytes and has copied all of them: the ring has its length, each byte is in the slot of its
-- position, over the ring's end where need be, and every other slot is as it was.
pub ring_copy-lays :
    (fuel : ℕ) (dst src : List ℕ) (start i : ℕ)
    → length src ≤ fuel
    → start < length dst
    → length src ≤ length dst
    → (ring : List ℕ) × (ring_copy fuel dst src start i ≡ (ring, i + length src))
      × (length ring ≡ length dst)
      × ((j : ℕ) → j < length src → get_or ring ((start + j) % length dst) 0 ≡ get_or src j 0)
      × ((at : ℕ) → Outside (length dst) start (length src) at → get_or ring at 0 ≡ get_or dst at 0)
ring_copy-lays fuel dst src start i enough within fits = (
  ring_write dst start src,
  ring_copy-ring_write fuel dst src start i enough within,
  length-ring_write dst start src,
  ring_write-lays dst start src (omega arith) fits,
  λ at h. ring_write_untouched dst start src at h,
)
