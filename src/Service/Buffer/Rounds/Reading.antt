-- ===== src/Service/Buffer/Rounds/Reading.antt =====
-- A round of ReadFrom lays the reader's bytes behind the unread ones.
use gofly_mqttv.Base.{
  ℕ, ◌+◌, ◌-◌, ◌%◌, ◌≤◌, ◌<◌, bit_and, ◌≡◌, refl, sym, ap, ap₂, ◌∙◌, inl, Bool, true, false, none,
  List, [], ◌∷◌, ◌++◌, arith, ltb, if◌then◌else◌, length, set, take, drop, length-take,
  length-append, length-drop, lt→ltb,
}
use gofly_mqttv.Base.Positions.{take_all, take-drop, drop-append_within}
use mathlib.Core.Path.{subst}
use mathlib.Core.List.{append-nil, append_assoc}
use native.Mathlib.Nat.{mod-lt, mod-mod}
use gofly_mqttv.Service.Buffer.{◌>>=◌, wait_for_write_space, copy_bytes, write_commit, publish}
use gofly_mqttv.Service.Buffer.World.{World, reserve, fill, commit, Reach, next}
use gofly_mqttv.Service.Buffer.Slots.{ring_write, ring_write-mod, copy_bytes-ring_write}
use gofly_mqttv.Service.Buffer.Steps.{size_pos, masked}
use gofly_mqttv.Service.Buffer.Reads.{unread}
use gofly_mqttv.Service.Buffer.Invariant.{Reach-IsValid}
use gofly_mqttv.Service.Buffer.Safety.{enough_space}
use gofly_mqttv.Service.Buffer.Rounds.{
  Round, goes_on, read_from_round, commit_chunk, after_read, on_space, on_commit, slice_length,
}

-- The world after a chunk was laid down, byte by byte
abbrev laid : World → List ℕ → World
laid w xs = record w {
  ring = record w.ring { buf = ring_write w.ring.buf (length w.stream) xs };
  stream = w.stream ++ xs;
}

laid-Reach :
    (xs : List ℕ) (w : World) → Reach w → length w.stream + length xs ≤ w.room → Reach (laid w xs)
laid-Reach [] w r le = subst (λ s. Reach (record w { stream = s })) (sym (append-nil w.stream)) r
laid-Reach (x ∷ xs) w r le =
    let v = Reach-IsValid w r in
    let s = w.stream in
    let w' = record w {
      ring = record w.ring { buf = set w.ring.buf (bit_and (length s) w.ring.mask) x };
      stream = s ++ x ∷ [];
    } in
    let n : length (s ++ x ∷ []) ≡ length s + 1 = length-append s (x ∷ []) in
    let rest = laid-Reach xs w' (next w w' r (fill x (omega arith) refl)) (omega (arith, n)) in
    let at : bit_and (length s) w.ring.mask ≡ length s % length w.ring.buf =
      masked w (length s) v ∙ ap (λ k. length s % k) (sym v.slots) in
    let b = ap₂ (λ i k. ring_write (set w.ring.buf i x) k xs) at n in
    subst Reach
      (ap₂ (λ c t. record w { ring = record w.ring { buf = c }; stream = t }) b
        (append_assoc s (x ∷ []) xs))
      rest

module _ (w : World) (r : Reach w) where
  -- The reader's slice ends with the ring, so that nothing wraps.
  chunk-ring_write :
      (chunk kept : List ℕ)
      → length chunk ≤ slice_length w.ring (bit_and w.ring.pseq w.ring.mask) 1024
      → length kept ≡ w.ring.pseq
      → copy_bytes w.ring.buf (bit_and w.ring.pseq w.ring.mask) chunk
        ≡ ring_write w.ring.buf (length kept) chunk
  chunk-ring_write chunk kept fits n =
      let v = Reach-IsValid w r in
      let at = w.ring.pseq % w.ring.size in
      let m : bit_and w.ring.pseq w.ring.mask ≡ at = masked w w.ring.pseq v in
      let same : at % length w.ring.buf ≡ length kept % length w.ring.buf =
        rw (v.slots, n) (mod-mod w.ring.pseq w.ring.size) in
      let k : at + (w.ring.size - at) ≡ length w.ring.buf =
        omega (arith, v.slots, mod-lt w.ring.pseq (size_pos w v)) in
      rw m (
        copy_bytes-ring_write (w.ring.size - at) w.ring.buf at chunk k
        ∙ ap (ring_write w.ring.buf at) (take_all (w.ring.size - at) chunk (omega (arith, fits, m)))
        ∙ ring_write-mod w.ring.buf at (length kept) chunk same)

  unread-append :
      (u : World) (chunk : List ℕ)
      → u.ring.cseq ≡ w.ring.cseq
      → u.ring.pseq ≡ w.ring.pseq + length chunk
      → u.stream ≡ take w.ring.pseq w.stream ++ chunk
      → unread u ≡ unread w ++ chunk
  unread-append u chunk c p s =
      let v = Reach-IsValid w r in
      let kept = take w.ring.pseq w.stream in
      let n : length kept ≡ w.ring.pseq =
        omega (arith, length-take w.ring.pseq w.stream, v.published) in
      let old : unread w ≡ drop w.ring.cseq kept =
        take-drop w.ring.cseq (w.ring.pseq - w.ring.cseq) w.ring.pseq w.stream
          (omega (arith, v.read_le)) in
      let all : drop w.ring.cseq (kept ++ chunk) ≡ drop w.ring.cseq kept ++ chunk =
        drop-append_within w.ring.cseq kept chunk (omega (arith, n, v.read_le)) in
      rw (c, p, s, old, all)
        (take_all (w.ring.pseq + length chunk - w.ring.cseq) (drop w.ring.cseq kept ++ chunk) (
          omega (
            arith,
            length-append (drop w.ring.cseq kept) chunk,
            length-drop w.ring.cseq kept,
            n,
            v.read_le,
          )))

  -- In a reachable world that is not closed and has room for a block of 1024, a round of ReadFrom with a
  -- reader that delivers a chunk within its slice and no error goes on in a reachable world, in which the chunk
  -- follows the unread bytes.
  pub read_from_round-lays :
      w.ring.done ≡ false
      → w.ring.pseq + 1024 ≤ w.ring.cseq + w.ring.size
      → (chunk : List ℕ) → 0 < length chunk
      → length chunk ≤ slice_length w.ring (bit_and w.ring.pseq w.ring.mask) 1024
      → (total : ℕ)
      → (u : World) × Reach u
        × (read_from_round chunk none total w.ring ≡ goes_on (total + length chunk) u.ring)
        × (unread u ≡ unread w ++ chunk)
  unfolding read_from_round on_space commit_chunk write_commit on_commit after_read
  read_from_round-lays d free chunk some_byte fits total =
      let v = Reach-IsValid w r in
      let kept = take w.ring.pseq w.stream in
      let n : length kept ≡ w.ring.pseq =
        omega (arith, length-take w.ring.pseq w.stream, v.published) in
      let (gate, e) = enough_space w r 1024 free d in
      let b1 = record w.ring { gate = gate } in
      let w1 : World = record { ring = b1; room = w.ring.pseq + 1024; stream = kept } in
      let r1 : Reach w1 = next w w1 r (reserve 1024 w.ring.pseq 1024 b1 (inl e) refl) in
      let r2 = laid-Reach chunk w1 r1 (omega (arith, n, fits)) in
      let (gate', e') =
        enough_space (laid w1 chunk) r2 (length chunk) (omega (arith, free, fits)) d in
      let b2 = record (laid w1 chunk).ring { gate = gate' } in
      let u = record (laid w1 chunk) { ring = record b2 { pseq = w.ring.pseq + length chunk } } in
      let r3 : Reach u = next (laid w1 chunk) u r2 (
        commit (length chunk) (length chunk) b2 u.ring (w.ring.pseq, length chunk)
          (omega (arith, length-append kept chunk, n)) (inl e') refl refl) in
      let B = (laid w1 chunk).ring in
      let round =
        opened chunk total d
        ∙ ap (on_space chunk none total w.ring) e
        ∙ ap (λ c. commit_chunk (length chunk) none total (record b1 { buf = c }))
            (chunk-ring_write chunk kept fits n)
        ∙ tested (ltb 0 (length chunk))
            (on_commit (length chunk) none total B (write_commit (length chunk) B))
            (after_read none total B) (lt→ltb 0 (length chunk) some_byte)
        ∙ ap (λ x. on_commit (length chunk) none total B (x >>= λ q. publish q)) e' in
      (u, r3, round, unread-append u chunk refl refl refl)
    where
      opened :
          (chunk : List ℕ) (total : ℕ)
          → w.ring.done ≡ false
          → read_from_round chunk none total w.ring
            ≡ on_space chunk none total w.ring (wait_for_write_space 1024 w.ring)
      opened chunk total d = rw d refl

      tested : (b : Bool) (x y : Round) → b ≡ true → (if b then x else y) ≡ x
      tested true x y e = refl
      tested false x y e = absurd (cc)
