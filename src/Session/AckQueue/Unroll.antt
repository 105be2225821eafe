-- ===== src/Session/AckQueue/Unroll.antt =====
-- The new slice of `grow`: a window of the ring, copied in two parts.
use gofly_mqttv.Base.{
  ℕ, zero, suc, ◌+◌, ◌-◌, ◌*◌, ◌≤◌, ◌<◌, ◌≡◌, refl, sym, ap, ap₂, ◌∙◌, List, [], ◌∷◌, ◌++◌, arith,
  length, set, take, drop, replicate, length-append, length-take, length-drop, length-replicate,
}
use mathlib.Core.List.{append_assoc}
use gofly_mqttv.Base.Positions.{take_all}
use gofly_mqttv.Session.AckMsg.{Ackmsg, no_msg}
use gofly_mqttv.Session.AckQueue.{AckQueue, copy, unrolled}
use gofly_mqttv.Session.AckQueue.Ring.{next, slot, at, window, next-lt, slot-next, length-window}
use gofly_mqttv.Session.AckQueue.Inv.{contents, IsValid}

pub drop_cons : (xs : List Ackmsg) (h : ℕ) → h < length xs → drop h xs ≡ at xs h ∷ drop (suc h) xs
drop_cons [] h lt = absurd (omega arith)
drop_cons (x ∷ xs) zero lt = refl
drop_cons (x ∷ xs) (suc h) lt = drop_cons xs h (omega arith)

-- A window that does not pass the end of the ring is a slice.
pub window_slice :
    (ring : List Ackmsg) (size h n : ℕ)
    → h + n ≤ size
    → size ≤ length ring
    → window ring size h n ≡ take n (drop h ring)
unfolding window
window_slice ring size h zero le len = refl
window_slice ring size h (suc zero) le len = rw (drop_cons ring h (omega arith)) refl
window_slice ring size h (suc (suc n)) le len =
    let e : next size h ≡ suc h = ground arith in
    rw (drop_cons ring h (omega arith)) (
      ap (λ l. at ring h ∷ l)
        (ap (λ i. window ring size i (suc n)) e
          ∙ window_slice ring size (suc h) (suc n) (omega arith) len))

window-split :
    (ring : List Ackmsg) (size h a b n : ℕ)
    → h < size
    → n ≡ a + b
    → n ≤ size
    → window ring size h n ≡ window ring size h a ++ window ring size (slot size h a) b
unfolding window
window-split ring size h zero b n lt e le =
    let e' : n ≡ b = omega arith in let s : slot size h 0 ≡ h = ground arith in rw (e', s)
window-split ring size h (suc a) b zero lt e le = absurd (omega arith)
window-split ring size h (suc a) b (suc n) lt e le =
    ap (λ l. at ring h ∷ l)
      (window-split ring size (next size h) a b n (next-lt size h lt) (omega arith) (omega arith)
        ∙ ap (λ i. window ring size (next size h) a ++ window ring size i b)
            (slot-next size h a lt (omega arith)))

-- The window of a full ring: from the head to the end, then up to the head.
window_full :
    (ring : List Ackmsg) (size h : ℕ)
    → h < size
    → length ring ≡ size
    → window ring size h size ≡ drop h ring ++ take h ring
window_full ring size h lt len =
    window-split ring size h (size - h) h size lt (omega arith) (omega arith)
    ∙ ap₂ ◌++◌
        (window_slice ring size h (size - h) (omega arith) (omega arith)
          ∙ take_all (size - h) (drop h ring) (omega (arith, length-drop h ring)))
        (ap (λ i. window ring size i h) (ground arith)
          ∙ window_slice ring size 0 h (omega arith) (omega arith))

set_middle : (xs ys : List Ackmsg) (y z : Ackmsg) → set (xs ++ y ∷ ys) (length xs) z ≡ xs ++ z ∷ ys
set_middle [] ys y z = refl
set_middle (x ∷ xs) ys y z = ap (λ l. x ∷ l) (set_middle xs ys y z)

-- `copy` overwrites what stands behind the first `at` elements.
copy_lem :
    (zs xs ys : List Ackmsg) (n : ℕ)
    → n ≡ length xs
    → length zs ≤ length ys
    → copy (xs ++ ys) n zs ≡ xs ++ (zs ++ drop (length zs) ys)
unfolding copy
copy_lem [] xs ys n e le = refl
copy_lem (z ∷ zs) xs [] n e le = absurd (omega arith)
copy_lem (z ∷ zs) xs (y ∷ ys) n e le =
    ap (λ l. copy l (n + 1) zs) (ap (λ i. set (xs ++ y ∷ ys) i z) e ∙ set_middle xs ys y z)
    ∙ ap (λ l. copy l (n + 1) zs) (sym (append_assoc xs (z ∷ []) ys))
    ∙ copy_lem zs (xs ++ z ∷ []) ys (n + 1) (omega (arith, length-append xs (z ∷ []))) (omega arith)
    ∙ append_assoc xs (z ∷ []) (zs ++ drop (length zs) ys)

-- Two copies, one behind the other, into a slice with room for both.
copy_twice :
    (xs ys new : List Ackmsg) (n : ℕ)
    → n ≡ length xs
    → length xs + length ys ≤ length new
    → copy (copy new 0 xs) n ys ≡ (xs ++ ys) ++ drop (length ys) (drop (length xs) new)
copy_twice xs ys new n e le =
    ap (λ l. copy l n ys) (copy_lem xs [] new 0 refl (omega arith))
    ∙ copy_lem ys xs (drop (length xs) new) n e (omega (arith, length-drop (length xs) new))
    ∙ sym (append_assoc xs ys (drop (length ys) (drop (length xs) new)))

pub record Unrolled (aq : AckQueue) : Type 0 where
  pub rest : List Ackmsg
  pub parts : unrolled aq ≡ contents aq ++ rest
  pub room : length (unrolled aq) ≡ aq.size * 2

unrolled-full :
    (aq : AckQueue)
    → IsValid aq
    → aq.count ≡ aq.size
    → unrolled aq
      ≡ copy
          (copy (replicate (aq.size * 2) no_msg) 0 (drop aq.head aq.ring))
          (aq.size - aq.head)
          (take aq.head aq.ring)
unfolding unrolled
unrolled-full aq v full =
    let t : aq.tail ≡ aq.head = ground (arith, v.tail_at, v.head_in) in ground (arith, t)

-- The new slice of a full ring holds the old window, and then zeros.
pub unrolled_lem : (aq : AckQueue) → IsValid aq → aq.count ≡ aq.size → Unrolled aq
unrolled_lem aq v full = record { rest = rest; parts = parts; room = room }
  where
    front : List Ackmsg
    front = drop aq.head aq.ring

    back : List Ackmsg
    back = take aq.head aq.ring

    new : List Ackmsg
    new = replicate (aq.size * 2) no_msg

    rest : List Ackmsg
    rest = drop (length back) (drop (length front) new)

    sizes :
        (length front ≡ aq.size - aq.head)
        × (length back ≡ aq.head)
        × (length new ≡ aq.size * 2)
        × (length rest ≡ aq.size)
    sizes =
        let a : length front ≡ aq.size - aq.head =
          omega (arith, length-drop aq.head aq.ring, v.slots) in
        let b : length back ≡ aq.head =
          omega (arith, length-take aq.head aq.ring, v.slots, v.head_in) in
        let c : length new ≡ aq.size * 2 = length-replicate (aq.size * 2) no_msg in
        (
          a,
          b,
          c,
          omega (
            arith,
            length-drop (length back) (drop (length front) new),
            length-drop (length front) new,
            v.head_in,
          ),
        )

    copied : unrolled aq ≡ (front ++ back) ++ rest
    copied =
        unrolled-full aq v full
        ∙ copy_twice front back new (aq.size - aq.head) (sym sizes.0)
            (omega (arith, sizes, v.head_in))

    parts : unrolled aq ≡ contents aq ++ rest
    parts =
        copied
        ∙ ap (λ l. l ++ rest) (sym (window_full aq.ring aq.size aq.head v.head_in v.slots))
        ∙ ap (λ n. window aq.ring aq.size aq.head n ++ rest) (sym full)

    room : length (unrolled aq) ≡ aq.size * 2
    room =
        ap length parts
        ∙ omega (
          arith,
          length-append (contents aq) rest,
          sizes,
          full,
          length-window aq.ring aq.size aq.head aq.count,
        )
