-- ===== src/Session/AckQueue/Ring.antt =====
-- Positions in a ring of `size` slots, and the window of `n` slots from `h` on.
use gofly_mqttv.Base.{
  ℕ, zero, suc, ◌+◌, ◌-◌, ◌≤◌, ◌<◌, ◌≡◌, refl, sym, ap, ap₂, ◌∙◌, ◌≢◌, List, [], ◌∷◌, ◌++◌, arith,
  ltb, ◌==◌, if◌then◌else◌, length, get_or, set, get_or-set_self, get_or-set_ne,
}
use gofly_mqttv.Session.AckMsg.{Ackmsg, no_msg}

-- The slot after `h`, and the slot `j` steps after it.
abbrev pub next : ℕ → ℕ → ℕ
next size h = if h + 1 == size then 0 else h + 1

abbrev pub slot : ℕ → ℕ → ℕ → ℕ
slot size h j = if ltb (h + j) size then h + j else h + j - size

abbrev pub at : List Ackmsg → ℕ → Ackmsg
at ring i = get_or ring i no_msg

unfoldable pub window : List Ackmsg → ℕ → ℕ → ℕ → List Ackmsg
window ring size h zero = []
window ring size h (suc n) = at ring h ∷ window ring size (next size h) n

pub next-lt : (size h : ℕ) → h < size → next size h < size
next-lt size h lt = ground arith

pub slot-lt : (size h j : ℕ) → h < size → j < size → slot size h j < size
slot-lt size h j lt k = ground arith

pub slot-next :
    (size h j : ℕ) → h < size → suc j ≤ size → slot size (next size h) j ≡ slot size h (suc j)
slot-next size h j lt k = ground arith

pub slot-ne : (size h i j : ℕ) → h < size → i < j → j < size → slot size h i ≢ slot size h j
slot-ne size h i j lt k l = ground arith

pub length-window : (ring : List Ackmsg) (size h n : ℕ) → length (window ring size h n) ≡ n
unfolding window
length-window ring size h zero = refl
length-window ring size h (suc n) = ap suc (length-window ring size (next size h) n)

-- A write outside the window does not show.
pub window-set_out :
    (ring : List Ackmsg) (size h n i : ℕ) (v : Ackmsg)
    → h < size
    → n ≤ size
    → ((j : ℕ) → j < n → slot size h j ≢ i)
    → window (set ring i v) size h n ≡ window ring size h n
unfolding window
window-set_out ring size h zero i v lt le out = refl
window-set_out ring size h (suc n) i v lt le out =
    ap₂ ◌∷◌ (get_or-set_ne ring v no_msg (λ e. out 0 (omega arith) (ground arith))) (
      window-set_out ring size (next size h) n i v (next-lt size h lt) (omega arith)
        (λ j k e. out (suc j) (omega arith) (sym (slot-next size h j lt (omega arith)) ∙ e)))

-- One more slot at the end.
pub window_snoc :
    (ring : List Ackmsg) (size h n : ℕ)
    → h < size
    → n < size
    → window ring size h (suc n) ≡ window ring size h n ++ at ring (slot size h n) ∷ []
unfolding window
window_snoc ring size h zero lt le = let e : slot size h 0 ≡ h = ground arith in rw e
window_snoc ring size h (suc n) lt le =
    ap (λ l. at ring h ∷ l)
      (window_snoc ring size (next size h) n (next-lt size h lt) (omega arith)
        ∙ ap (λ i. window ring size (next size h) n ++ at ring i ∷ [])
            (slot-next size h n lt (omega arith)))

-- A write to slot `j` of the window replaces its element `j`.
pub window-set_in :
    (ring : List Ackmsg) (size h n j : ℕ) (v : Ackmsg)
    → h < size
    → n ≤ size
    → length ring ≡ size
    → j < n
    → window (set ring (slot size h j) v) size h n ≡ set (window ring size h n) j v
unfolding window
window-set_in ring size h zero j v lt le len k = absurd (omega arith)
window-set_in ring size h (suc n) zero v lt le len k =
    let e : slot size h 0 ≡ h = ground arith in
    ap (λ i. window (set ring i v) size h (suc n)) e
    ∙ ap₂ ◌∷◌ (get_or-set_self ring h v no_msg (omega arith)) (
        window-set_out ring size (next size h) n h v (next-lt size h lt) (omega arith) (λ i l p.
          slot-ne size h 0 (suc i) lt (omega arith) (omega arith)
            (e ∙ sym p ∙ slot-next size h i lt (omega arith))))
window-set_in ring size h (suc n) (suc j) v lt le len k =
    let e : slot size h 0 ≡ h = ground arith in
    ap₂ ◌∷◌
      (get_or-set_ne ring v no_msg
        (λ p. slot-ne size h 0 (suc j) lt (omega arith) (omega arith) (e ∙ sym p)))
      (ap (λ i. window (set ring i v) size (next size h) n)
          (sym (slot-next size h j lt (omega arith)))
        ∙ window-set_in ring size (next size h) n j v (next-lt size h lt) (omega arith) len
            (omega arith))

pub at-window :
    (ring : List Ackmsg) (size h n j : ℕ)
    → h < size
    → n ≤ size
    → j < n
    → at (window ring size h n) j ≡ at ring (slot size h j)
unfolding window
at-window ring size h zero j lt le k = absurd (omega arith)
at-window ring size h (suc n) zero lt le k = let e : slot size h 0 ≡ h = ground arith in rw e
at-window ring size h (suc n) (suc j) lt le k =
    at-window ring size (next size h) n j (next-lt size h lt) (omega arith) (omega arith)
    ∙ ap (at ring) (slot-next size h j lt (omega arith))
