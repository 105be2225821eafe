-- ===== src/Message/Wire/Prefixed.antt =====
-- Length-prefixed bytes and user properties: what is written is read back.
use gofly_mqttv.Base.{
  ℕ, zero, suc, ◌+◌, ◌*◌, ◌/◌, ◌%◌, ◌≤◌, ◌≡◌, refl, sym, ap, ap₂, ◌∙◌, List, [], ◌∷◌, ◌++◌, length,
  drop, arith, length-append, take-append_left, drop-append_left,
}
use mathlib.Core.List.{append_assoc}
use gofly_mqttv.Message.Reason.{user_property}
use gofly_mqttv.Message.Wire.{
  ok, Read, copy_len, write_lp, read_prefixed, read_lp, read_pairs, decode_user_property,
  write_part, write_user_property, build_user_property_len,
}

abbrev pub lp : List ℕ → List ℕ
lp b = (length b / 256 % 256) ∷ (length b % 256) ∷ b

pub write_lp-fits : (b : List ℕ) → length b ≤ 65535 → write_lp b ≡ ok (lp b)
unfolding write_lp
write_lp-fits b h = ground arith

write_part-fits : (b : List ℕ) → length b ≤ 65535 → write_part b ≡ ok (lp b)
unfolding write_lp
write_part-fits [] h = ap ok (ap₂ (λ x y. x ∷ y ∷ []) (omega arith) (omega arith))
write_part-fits (c ∷ b) h = write_lp-fits (c ∷ b) h

-- `readLPBytes` reads back what `writeToBufLPBytes` writes, in front of any bytes.
pub read_lp-lp :
    (b rest : List ℕ) → length b ≤ 65535 → read_lp (lp b ++ rest) ≡ ok (b, 2 + length b)
unfolding read_lp read_prefixed copy_len
read_lp-lp b rest h =
    let n : length b / 256 % 256 * 256 + length b % 256 ≡ length b = omega arith in
    let len : length (b ++ rest) ≡ length b + length rest = length-append b rest in
    ground (arith, n, len, take-append_left b rest)

-- Keys and values in turn, each short enough for its prefix.
abbrev pub Paired : List (List ℕ) → Type 0
Paired [] = Unit
Paired (k ∷ []) = ⊥
Paired (k ∷ v ∷ props) = (length k ≤ 65535) × (length v ≤ 65535) × Paired props

abbrev pub pairs : List (List ℕ) → List ℕ
pairs [] = []
pairs (k ∷ []) = []
pairs (k ∷ v ∷ props) = user_property ∷ lp k ++ (lp v ++ pairs props)

pub write_user_property-pairs :
    (props : List (List ℕ)) → Paired props → write_user_property props ≡ ok (pairs props)
unfolding write_user_property
write_user_property-pairs [] h = refl
write_user_property-pairs (k ∷ []) h = absurd h
write_user_property-pairs (k ∷ v ∷ props) (hk, hv, h) =
    rw (write_part-fits k hk, write_part-fits v hv, write_user_property-pairs props h)

pub length-pairs :
    (props : List (List ℕ)) → Paired props → length (pairs props) ≡ build_user_property_len props
unfolding build_user_property_len
length-pairs [] h = refl
length-pairs (k ∷ []) h = absurd h
length-pairs (k ∷ v ∷ props) (hk, hv, h) = omega (
  arith,
  length-append (lp k) (lp v ++ pairs props),
  length-append (lp v) (pairs props),
  length-pairs props h,
)

pub drop_at : (n : ℕ) (xs ys : List ℕ) → n ≡ length xs → drop n (xs ++ ys) ≡ ys
drop_at n xs ys e = rw e (drop-append_left xs ys)

pub drop-lp : (b rest : List ℕ) → drop (2 + length b) (lp b ++ rest) ≡ rest
drop-lp b rest = drop_at (2 + length b) (lp b) rest (omega arith)

drop-lp-lp :
    (a b rest : List ℕ) → drop (2 + length a + (2 + length b)) (lp a ++ (lp b ++ rest)) ≡ rest
drop-lp-lp a b rest =
    ap (λ xs. drop (2 + length a + (2 + length b)) xs) (sym (append_assoc (lp a) (lp b) rest))
    ∙ drop_at (2 + length a + (2 + length b)) (lp a ++ lp b) rest
        (omega (arith, length-append (lp a) (lp b)))

read_pairs-pairs :
    (n : ℕ) (props : List (List ℕ))
    → length (pairs props) ≤ n
    → Paired props
    → read_pairs n (pairs props) ≡ ok (props, length (pairs props))
unfolding read_pairs
read_pairs-pairs zero [] hn h = refl
read_pairs-pairs (suc n) [] hn h = refl
read_pairs-pairs n (k ∷ []) hn h = absurd h
read_pairs-pairs zero (k ∷ v ∷ props) hn h = absurd (omega arith)
read_pairs-pairs (suc n) (k ∷ v ∷ props) hn (hk, hv, h) =
    let lens = length-append (lp k) (lp v ++ pairs props) in
    let lens' = length-append (lp v) (pairs props) in
    let again = read_pairs-pairs n props (omega (arith, lens, lens')) h in
    let first = read_lp-lp k (lp v ++ pairs props) hk in
    let second = read_lp-lp v (pairs props) hv in
    rw (first, drop-lp k (lp v ++ pairs props), second, drop-lp-lp k v (pairs props), again)
      (count (k ∷ v ∷ props) (omega (arith, lens, lens')))
  where
    count :
        (ps : List (List ℕ)) {i j : ℕ}
        → i ≡ j
        → ◌≡◌ {A = Read (List (List ℕ))} (ok (ps, i)) (ok (ps, j))
    count ps e = rw e

pub decode_user_property-pairs :
    (props : List (List ℕ))
    → Paired props
    → decode_user_property (pairs props) ≡ ok (props, length (pairs props))
unfolding decode_user_property
decode_user_property-pairs props h = read_pairs-pairs (length (pairs props)) props (omega arith) h

-- The three functions on user properties agree: what `writeUserPropertyByBuf` writes for properties
-- in pairs that fit their prefixes has the length that `buildUserPropertyLen` counts, and
-- `decodeUserProperty` reads the properties back from it.
pub user_property-round_trip :
    (props : List (List ℕ))
    → Paired props
    → (write_user_property props ≡ ok (pairs props))
      × (length (pairs props) ≡ build_user_property_len props)
      × (decode_user_property (pairs props) ≡ ok (props, build_user_property_len props))
user_property-round_trip props h = (
  write_user_property-pairs props h,
  length-pairs props h,
  rw (sym (length-pairs props h)) (decode_user_property-pairs props h),
)
