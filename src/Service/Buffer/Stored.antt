-- ===== src/Service/Buffer/Stored.antt =====
-- What the ring holds of a stream of bytes: the positions from the consumer's on lie in their slots, and
-- stay there while the producer writes behind them.
use gofly_mqttv.Base.{
  ℕ, ◌+◌, ◌-◌, ◌%◌, ◌≤◌, ◌<◌, ◌≡◌, sym, ap, ◌∙◌, ◌≢◌, inl, inr, List, [], ◌∷◌, ◌++◌, arith, length,
  get_or, set, take, drop, length-append, length-set, length-drop, length-take, get_or-set_self,
  get_or-set_ne, le_or_lt,
}
use gofly_mqttv.Base.Positions.{
  get_or-drop, get_or-take, get_or-append_left, get_or-append_right, ext,
}
use mathlib.Core.List.{append-nil, append_assoc}
use native.Mathlib.Nat.{mod-lt, mod-eq_of_lt, mod-eq-sub-mod, mod-add-mod}
use gofly_mqttv.Service.Buffer.Slots.{slots_apart, ring_write}

abbrev pub Stored : ℕ → ℕ → List ℕ → List ℕ → Type 0
Stored size from buf stream =
    (j : ℕ) → from ≤ j → j < length stream → get_or buf (j % size) 0 ≡ get_or stream j 0

module _ (size from : ℕ) (pos : 0 < size) where
  -- One more byte, at the slot of its position.
  pub Stored-fill :
      (buf stream : List ℕ) (x : ℕ)
      → length buf ≡ size
      → length stream < from + size
      → Stored size from buf stream
      → Stored size from (set buf (length stream % size) x) (stream ++ x ∷ [])
  Stored-fill buf stream x l room s j ge lt = elim (le_or_lt (length stream) j) [
    | inl old ↦
        let e : length stream + 0 ≡ j = omega (arith, length-append stream (x ∷ [])) in
        let here : get_or (set buf (length stream % size) x) (length stream % size) 0 ≡ x =
          get_or-set_self buf (length stream % size) x 0
            (omega (arith, mod-lt (length stream) pos)) in
        let last : get_or (stream ++ x ∷ []) j 0 ≡ x =
          ap (λ n. get_or (stream ++ x ∷ []) n 0) (sym e)
          ∙ get_or-append_right stream (x ∷ []) 0 0 in
        let slot : j % size ≡ length stream % size = ap (λ n. n % size) (omega arith) in
        ap (λ n. get_or (set buf (length stream % size) x) n 0) slot ∙ here ∙ sym last
    | inr new ↦
        let apart : length stream % size ≢ j % size =
          λ e. slots_apart size j (length stream) new (omega arith) (sym e) in
        get_or-set_ne buf x 0 apart ∙ s j ge new ∙ sym (get_or-append_left stream (x ∷ []) j 0 new)
  ]

  pub Stored-write :
      (xs buf stream : List ℕ)
      → length buf ≡ size
      → length stream + length xs ≤ from + size
      → Stored size from buf stream
      → Stored size from (ring_write buf (length stream) xs) (stream ++ xs)
  Stored-write [] buf stream l room s = rw (append-nil stream) s
  Stored-write (x ∷ xs) buf stream l room s =
      let e : stream ++ x ∷ xs ≡ (stream ++ x ∷ []) ++ xs = sym (append_assoc stream (x ∷ []) xs) in
      let n : length (stream ++ x ∷ []) ≡ length stream + 1 = length-append stream (x ∷ []) in
      let one = Stored-fill buf stream x l (omega arith) s in
      let rest =
        Stored-write xs (set buf (length stream % size) x) (stream ++ x ∷ [])
          (omega (arith, length-set buf (length stream % size) x)) (omega (arith, n)) one in
      rw (e, l, sym n) rest

  pub Stored-take :
      (n : ℕ) (buf stream : List ℕ)
      → Stored size from buf stream
      → Stored size from buf (take n stream)
  Stored-take n buf stream s j ge lt =
      let l = length-take n stream in
      s j ge (omega arith) ∙ sym (get_or-take n j stream 0 (omega arith))

  pub Stored-later :
      (from' : ℕ) (buf stream : List ℕ)
      → from ≤ from'
      → Stored size from buf stream
      → Stored size from' buf stream
  Stored-later from' buf stream le s j ge lt = s j (omega arith) lt

  module _ (buf stream : List ℕ) (m : ℕ) (l : length buf ≡ size) (have : from + m ≤ length stream)
      (s : Stored size from buf stream) where
    at_slot :
        (i n : ℕ)
        → i < m
        → (from + i) % size ≡ n
        → get_or buf n 0 ≡ get_or (take m (drop from stream)) i 0
    at_slot i n lt e =
        ap (λ k. get_or buf k 0) (sym e)
        ∙ s (from + i) (omega arith) (omega arith)
        ∙ sym (get_or-drop from i stream 0)
        ∙ sym (get_or-take m i (drop from stream) 0 lt)

    length-unread : length (take m (drop from stream)) ≡ m
    length-unread = omega (arith, length-take m (drop from stream), length-drop from stream)

    before_end : (i : ℕ) → from % size + i < size → (from + i) % size ≡ from % size + i
    before_end i lt = sym (mod-add-mod from size i) ∙ mod-eq_of_lt lt

    behind_end :
        (i : ℕ) → size ≤ from % size + i → i < size → (from + i) % size ≡ from % size + i - size
    behind_end i le lt =
        sym (mod-add-mod from size i)
        ∙ mod-eq-sub-mod le
        ∙ mod-eq_of_lt (omega (arith, mod-lt from pos))

    -- Bytes up to the ring's end
    pub straight :
        from % size + m ≤ size → take m (drop (from % size) buf) ≡ take m (drop from stream)
    straight fits =
        ext (take m (drop (from % size) buf)) (take m (drop from stream)) 0
          (omega (
            arith,
            length-take m (drop (from % size) buf),
            length-unread,
            length-drop (from % size) buf,
          ))
          (λ i lt.
            let im : i < m = omega (arith, length-take m (drop (from % size) buf)) in
            get_or-take m i (drop (from % size) buf) 0 im
            ∙ get_or-drop (from % size) i buf 0
            ∙ at_slot i (from % size + i) im (before_end i (omega arith)))

    -- Bytes over the ring's end
    pub over_end :
        size ≤ from % size + m
        → m ≤ size
        → drop (from % size) buf ++ take (m - length (drop (from % size) buf)) buf
          ≡ take m (drop from stream)
    over_end over le =
        ext _ (take m (drop from stream)) 0
          (omega (arith, length-append front back, n, t, length-unread, mod-lt from pos))
          (λ i lt. elim (le_or_lt (length front) i) [
            | inr lt ↦
                get_or-append_left front back i 0 lt
                ∙ get_or-drop (from % size) i buf 0
                ∙ at_slot i (from % size + i) (omega (arith, n)) (before_end i (omega (arith, n)))
            | inl ge ↦
                let j = i - length front in
                let e : i ≡ length front + j = omega arith in
                let im : i < m = omega (arith, lt, length-append front back, t) in
                ap (λ k. get_or (front ++ back) k 0) e
                ∙ get_or-append_right front back j 0
                ∙ get_or-take (m - length front) j buf 0 (omega arith)
                ∙ at_slot i j im (
                    behind_end i (omega (arith, n, mod-lt from pos)) (omega arith)
                    ∙ (omega (arith, n, mod-lt from pos)))
          ])
      where
        front : List ℕ
        front = drop (from % size) buf

        back : List ℕ
        back = take (m - length front) buf

        n : length front ≡ size - from % size
        n = omega (arith, length-drop (from % size) buf)

        t : length back ≡ m - length front
        t = omega (arith, length-take (m - length front) buf, mod-lt from pos, n)
