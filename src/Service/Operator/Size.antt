-- ===== src/Service/Operator/Size.antt =====
-- peekMessageSize finds the size that the fixed header of the next packet states.
use gofly_mqttv.Base.{
  ℕ, zero, suc, ◌+◌, ◌-◌, ◌/◌, ◌%◌, ◌^◌, ◌≤◌, ◌<◌, ◌≡◌, refl, sym, ap, ap₂, ◌∙◌, inl, inr, Bool,
  true, false, some, List, [], ◌∷◌, ◌++◌, arith, ltb, leb, if◌then◌else◌, length, get_or, take,
  length-append, length-take, take-append_left, le→ltb_false, lt→leb_false,
}
use gofly_mqttv.Base.Positions.{get_or-append_right}
use mathlib.Core.List.{append_assoc, append-nil}
use native.Mathlib.Nat.{pow-suc}
use gofly_mqttv.Message.Wire.{value, uvarint, put_uvarint, uvarint_digits}
use gofly_mqttv.Message.Wire.Digits.{
  small_or_large, uvarint_digits-last, uvarint_digits-more, put_uvarint_digits,
}
use gofly_mqttv.Message.Wire.Varint.{uvarint-put_uvarint}
use gofly_mqttv.Service.Buffer.{pos, ok, Buffer, read_wait}
use gofly_mqttv.Service.Buffer.World.{World, Reach}
use gofly_mqttv.Service.Buffer.Reads.{unread}
use gofly_mqttv.Service.Buffer.Safety.{read_wait-unread}
use gofly_mqttv.Service.Operator.{
  Call, has, on_bytes, peek_loop, on_peeked, size_of, peek_message_size,
}

-- One round of the loop, when the ring has the bytes
peek_round :
    (fuel cnt : ℕ) (b : Buffer) (p : List ℕ)
    → cnt ≤ 5
    → read_wait (pos cnt) b ≡ ok p
    → cnt ≤ length p
    → peek_loop (suc fuel) cnt b
      ≡ (if leb 0x80 (get_or p (cnt - 1) 0) then peek_loop fuel (cnt + 1) b else has p)
unfolding peek_loop on_bytes
peek_round fuel cnt b p le e l =
    first (ltb 5 cnt) (le→ltb_false 5 cnt le) _ _
    ∙ ap (on_bytes cnt (peek_loop fuel cnt b) (peek_loop fuel (cnt + 1) b)) e
    ∙ first (ltb (length p) cnt) (le→ltb_false (length p) cnt l) _ _
  where
    first : (t : Bool) → t ≡ false → (x y : Call (List ℕ)) → (if t then x else y) ≡ y
    first true h x y = absurd (cc)
    first false h x y = refl

module _ (w : World) (r : Reach w) (big : 5 ≤ w.ring.size) where
  read_wait-take :
      (n : ℕ) → n ≤ 5 → n ≤ length (unread w) → read_wait (pos n) w.ring ≡ ok (take n (unread w))
  read_wait-take n le have =
      let e : ltb w.ring.size n ≡ false = le→ltb_false w.ring.size n (omega (arith, big)) in
      let e' : ltb (length (unread w)) n ≡ false = le→ltb_false (length (unread w)) n have in
      read_wait-unread w r n ∙ rw (e, e') refl

  -- A round that reads up to the byte `d`
  peek_byte :
      (fuel d : ℕ) (pre tail : List ℕ)
      → unread w ≡ pre ++ d ∷ tail
      → suc (length pre) ≤ 5
      → peek_loop (suc fuel) (suc (length pre)) w.ring
        ≡ (if leb 0x80 d then peek_loop fuel (suc (length pre) + 1) w.ring else has (pre ++ d ∷ []))
  peek_byte fuel d pre tail u le =
      let p = pre ++ d ∷ [] in
      let n : length p ≡ suc (length pre) = omega (arith, length-append pre (d ∷ [])) in
      let u' : unread w ≡ p ++ tail = u ∙ sym (append_assoc pre (d ∷ []) tail) in
      let t : take (suc (length pre)) (unread w) ≡ p =
        ap₂ take (sym n) u' ∙ take-append_left p tail in
      let l : suc (length pre) ≤ length (unread w) =
        omega (arith, ap length u', length-append p tail, n) in
      let e =
        peek_round fuel (suc (length pre)) w.ring (take (suc (length pre)) (unread w)) le
          (read_wait-take (suc (length pre)) le l)
          (omega (arith, l, length-take (suc (length pre)) (unread w))) in
      let i : suc (length pre) - 1 ≡ length pre + 0 = omega arith in
      let g : get_or p (suc (length pre) - 1) 0 ≡ d =
        ap (λ j. get_or p j 0) i ∙ get_or-append_right pre (d ∷ []) 0 0 in
      e
      ∙ ap
          (λ q.
            if leb 0x80 (get_or q (suc (length pre) - 1) 0)
            then peek_loop fuel (suc (length pre) + 1) w.ring
            else has q)
          t
      ∙ ap (λ y. if leb 0x80 y then peek_loop fuel (suc (length pre) + 1) w.ring else has p) g

  last_digit :
      (k x : ℕ) (pre rest : List ℕ)
      → unread w ≡ pre ++ (uvarint_digits (suc k) x ++ rest)
      → x < 128
      → suc (length pre) ≤ 5
      → peek_loop (suc k) (suc (length pre)) w.ring ≡ has (pre ++ uvarint_digits (suc k) x)
  last_digit k x pre rest u small le =
      let ds = uvarint_digits-last k x small in
      let e : leb 0x80 x ≡ false = lt→leb_false 128 x small in
      let u' : unread w ≡ pre ++ x ∷ rest = u ∙ ap (λ l. pre ++ (l ++ rest)) ds in
      peek_byte k x pre rest u' le ∙ rw (e, ds) refl

  peek_digits :
      (k x : ℕ) (pre rest : List ℕ)
      → unread w ≡ pre ++ (uvarint_digits (suc k) x ++ rest)
      → x < 128 ^ suc k
      → suc (length pre) + k ≤ 5
      → peek_loop (suc k) (suc (length pre)) w.ring ≡ has (pre ++ uvarint_digits (suc k) x)
  peek_digits zero x pre rest u lt le =
      last_digit zero x pre rest u (omega (arith, pow-suc 128 0)) (omega arith)
  peek_digits (suc k) x pre rest u lt le = elim (small_or_large x) [
    | inl small ↦ last_digit (suc k) x pre rest u small (omega arith)
    | inr large ↦
        let d = x % 128 + 128 in
        let ds : uvarint_digits (suc (suc k)) x ≡ d ∷ uvarint_digits (suc k) (x / 128) =
          uvarint_digits-more (suc k) x large in
        let u' : unread w ≡ pre ++ d ∷ (uvarint_digits (suc k) (x / 128) ++ rest) =
          u ∙ ap (λ l. pre ++ (l ++ rest)) ds in
        let e : leb 0x80 d ≡ true = ground arith in
        let n : length (pre ++ d ∷ []) ≡ length pre + 1 = length-append pre (d ∷ []) in
        let next =
          peek_digits k (x / 128) (pre ++ d ∷ []) rest
            (u' ∙ sym (append_assoc pre (d ∷ []) (uvarint_digits (suc k) (x / 128) ++ rest)))
            (omega (arith, pow-suc 128 (suc k))) (omega (arith, n)) in
        let c : suc (length pre) + 1 ≡ suc (length (pre ++ d ∷ [])) = omega (arith, n) in
        peek_byte (suc k) d pre (uvarint_digits (suc k) (x / 128) ++ rest) u' (omega arith)
        ∙ rw e (ap (λ m. peek_loop (suc k) m w.ring) c ∙ next)
        ∙ ap has (
            append_assoc pre (d ∷ []) (uvarint_digits (suc k) (x / 128))
            ∙ ap (λ l. pre ++ l) (sym ds))
  ]

  -- In a reachable world of a ring of five bytes at least, whose unread bytes begin with a first byte and a
  -- remaining length below 2^28 as PutUvarint writes it, peekMessageSize returns the type in the first byte and
  -- the size of the packet.
  pub peek_message_size-header :
      (first x : ℕ) (rest : List ℕ)
      → x < 2 ^ 28
      → unread w ≡ first ∷ (put_uvarint x ++ rest)
      → peek_message_size 4 (some w.ring) ≡ has (first / 16, x + 1 + length (put_uvarint x))
  unfolding peek_message_size on_peeked size_of
  peek_message_size-header first x rest lt u =
      let ds = put_uvarint_digits x lt in
      let all =
        peek_digits 3 x (first ∷ []) rest (u ∙ ap (λ l. first ∷ (l ++ rest)) ds) (omega (arith, lt))
          (omega arith) in
      let whole : uvarint (put_uvarint x) ≡ value x (length (put_uvarint x)) =
        ap uvarint (sym (append-nil (put_uvarint x))) ∙ uvarint-put_uvarint x [] lt in
      ap on_peeked (all ∙ ap (λ l. has (first ∷ l)) (sym ds))
      ∙ ap (size_of (first ∷ put_uvarint x)) whole
