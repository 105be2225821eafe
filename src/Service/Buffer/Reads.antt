-- ===== src/Service/Buffer/Reads.antt =====
-- What the consumer sees: the bytes of the stream from its position on, in order, round the ring's end.
use gofly_mqttv.Base.{
  ℕ, zero, suc, ◌+◌, ◌-◌, ◌%◌, ◌≤◌, ◌<◌, min, ◌≡◌, refl, sym, ap, ◌∙◌, inl, inr, true, false, List,
  [], ◌∷◌, ◌++◌, arith, length, take, drop, ltb, if◌then◌else◌, Bool-cases, length-take,
  length-drop, le_or_lt, lt→ltb,
}
use gofly_mqttv.Base.Positions.{take_all, take-take}
use native.Mathlib.Nat.{mod-lt}
use gofly_mqttv.Service.Buffer.{blocked, failed, eof, slice, span, consumed, read_round}
use gofly_mqttv.Service.Buffer.World.{World, IsValid}
use gofly_mqttv.Service.Buffer.Stored.{straight, over_end}
use gofly_mqttv.Service.Buffer.Steps.{size_pos, masked}

-- The published bytes that the consumer has not taken.
abbrev pub unread : World → List ℕ
unread w = take (w.ring.pseq - w.ring.cseq) (drop w.ring.cseq w.stream)

exact : (n : ℕ) (xs : List ℕ) → take n xs ≡ take (length (take n xs)) xs
exact zero xs = refl
exact (suc n) [] = refl
exact (suc n) (x ∷ xs) = ap (λ l. x ∷ l) (exact n xs)

-- What a read hands out.
pub record IsPrefix (w : World) (n : ℕ) (p : List ℕ) : Type 0 where
  pub at_most : length p ≤ n
  pub inside : w.ring.cseq + length p ≤ w.ring.pseq
  pub bytes : p ≡ take (length p) (unread w)
  pub some_byte : 0 < n → 0 < length p

module _ (w : World) (v : IsValid w) where
  -- The slice, or the two slices, of a window of `m` bytes
  pub span-unread : (m : ℕ) → w.ring.cseq + m ≤ w.ring.pseq → span w.ring m ≡ take m (unread w)
  unfolding span
  span-unread m le = rw (masked w w.ring.cseq v) (
      cut ∙ sym (take-take m (w.ring.pseq - w.ring.cseq) (drop w.ring.cseq w.stream) (omega arith)))
    where
      size : ℕ
      size = w.ring.size

      buf : List ℕ
      buf = w.ring.buf

      cindex : ℕ
      cindex = w.ring.cseq % size

      cut :
          (if ltb size (cindex + m)
            then drop cindex buf ++ take (m - length (drop cindex buf)) buf
            else slice buf cindex (cindex + m))
          ≡ take m (drop w.ring.cseq w.stream)
      cut = elim (le_or_lt (cindex + m) size) [
        | inl fits ↦
            let e : ltb size (cindex + m) ≡ false = ground arith in
            let d : cindex + m - cindex ≡ m = omega arith in
            rw (e, d)
              (straight size w.ring.cseq (size_pos w v) buf w.stream m v.slots
                (omega (arith, v.published, le)) v.stored fits)
        | inr over ↦
            let e : ltb size (cindex + m) ≡ true = ground arith in
            rw e (
              over_end size w.ring.cseq (size_pos w v) buf w.stream m v.slots
                (omega (arith, v.published, le)) v.stored (omega arith)
                (omega (arith, le, v.published, v.inside, v.fits)))
      ]

  to_end :
      (n : ℕ)
      → w.ring.cseq < w.ring.pseq
      → w.ring.cseq + min n (w.ring.size - w.ring.cseq % w.ring.size) ≤ w.ring.pseq
      → IsPrefix w n (take n (drop (w.ring.cseq % w.ring.size) w.ring.buf))
  to_end n lt le =
      let at = w.ring.cseq % w.ring.size in
      let p = take n (drop at w.ring.buf) in
      let in_ring : at < w.ring.size = mod-lt w.ring.cseq (size_pos w v) in
      let l : length p ≡ min n (w.ring.size - at) =
        omega (arith, length-take n (drop at w.ring.buf), length-drop at w.ring.buf, v.slots) in
      let whole : p ≡ take (length p) (drop at w.ring.buf) = exact n (drop at w.ring.buf) in
      record {
        at_most = omega (arith, l);
        inside = omega (arith, l, le);
        bytes =
            whole
            ∙ straight w.ring.size w.ring.cseq (size_pos w v) w.ring.buf w.stream (length p) v.slots
                (omega (arith, l, le, v.published)) v.stored (omega (arith, l, in_ring))
            ∙ sym (
                take-take (length p) (w.ring.pseq - w.ring.cseq) (drop w.ring.cseq w.stream)
                  (omega (arith, l, le)));
        some_byte = λ h. omega (arith, l, in_ring);
      }

  all_unread :
      (n : ℕ)
      → ltb (w.ring.cseq + n) w.ring.pseq ≡ false
      → ltb (w.ring.cseq % w.ring.size + (w.ring.pseq - w.ring.cseq)) w.ring.size ≡ true
      → w.ring.cseq < w.ring.pseq
      → (p : List ℕ) × (read_round n w.ring ≡ consumed p w.ring) × IsPrefix w n p
  unfolding read_round
  all_unread n few fits lt =
      let b = w.ring.pseq - w.ring.cseq in
      let at = w.ring.cseq % w.ring.size in
      let X = drop at w.ring.buf in
      let l = length-take b X in
      let few' : b ≤ n = ground (arith, few) in
      let d : at + b - at ≡ b = omega arith in
      let t : take n (take b X) ≡ take b X = take_all n (take b X) (omega arith) in
      let h = to_end b lt (omega arith) in
      (
        take b X,
        rw (masked w w.ring.cseq v, few, lt→ltb _ _ lt, fits, d, t) refl,
        record {
          at_most = omega (arith, h.at_most);
          inside = h.inside;
          bytes = h.bytes;
          some_byte = λ q. h.some_byte (omega arith);
        },
      )

  -- With unread bytes, a round of `Read` takes a prefix of them.
  pub read_round-takes :
      (n : ℕ)
      → w.ring.cseq < w.ring.pseq
      → (p : List ℕ) × (read_round n w.ring ≡ consumed p w.ring) × IsPrefix w n p
  unfolding read_round
  read_round-takes n lt = elim (Bool-cases (ltb (w.ring.cseq + n) w.ring.pseq)) [
    | inl enough ↦ (
      take n (drop (w.ring.cseq % w.ring.size) w.ring.buf),
      rw (masked w w.ring.cseq v, enough) refl,
      to_end n lt (ground (arith, enough)),
    )
    | inr few ↦
        elim (Bool-cases
          (ltb (w.ring.cseq % w.ring.size + (w.ring.pseq - w.ring.cseq)) w.ring.size)) [
            | inl fits ↦ all_unread n few fits lt
            | inr over ↦ (
              take n (drop (w.ring.cseq % w.ring.size) w.ring.buf),
              rw (masked w w.ring.cseq v, few, lt→ltb _ _ lt, over) refl,
              to_end n lt (ground (arith, over)),
            )
          ]
  ]

  pub read_round-waits :
      (n : ℕ)
      → w.ring.pseq ≤ w.ring.cseq
      → read_round n w.ring ≡ (if w.ring.done then failed eof else blocked)
  unfolding read_round
  read_round-waits n le =
      let e : ltb (w.ring.cseq + n) w.ring.pseq ≡ false = ground arith in
      let e' : ltb w.ring.cseq w.ring.pseq ≡ false = ground arith in rw (e, e') refl
