-- ===== src/Service/Buffer/Views.antt =====
-- A slice that the consumer peeked at lies in the ring itself, and keeps its bytes while the producer goes on;
-- and a producer that waits for space gets it once the consumer has taken what is unread.
use gofly_mqttv.Base.{
  ℕ, ◌+◌, ◌-◌, ◌≤◌, ◌<◌, ◌≡◌, refl, sym, ap, ◌∙◌, true, false, List, arith, length, take, drop,
  bit_and, length-append, length-take, ltb, leb,
}
use gofly_mqttv.Base.Positions.{take-take, take-append_within, take-drop}
use native.Mathlib.Nat.{mod-lt}
use gofly_mqttv.Service.Buffer.{
  pos, ok, ◌>>=◌, wait_for_write_space, Buffer, len, span, write, read_commit, fill_and_publish,
  ring_copy,
}
use gofly_mqttv.Service.Buffer.World.{World, Step, drop_some, Reach, next, IsValid}
use gofly_mqttv.Service.Buffer.Slots.{ring_copy-ring_write}
use gofly_mqttv.Service.Buffer.Steps.{size_pos, masked}
use gofly_mqttv.Service.Buffer.Reads.{unread, span-unread}
use gofly_mqttv.Service.Buffer.Fifo.{put, got, put-prefix, got-prefix}
use gofly_mqttv.Service.Buffer.Invariant.{Step-IsValid, Reach-IsValid}
use gofly_mqttv.Service.Buffer.Safety.{enough_space}

-- Steps of either side, in any order
pub data Runs (w : World) : World → Type 0 where
  still : Runs w w
  more : (u x : World) → Runs w u → Step u x → Runs w x

-- What later worlds keep of a stream.
record IsKept (w u : World) : Type 0 where
  valid : IsValid u
  published : w.ring.pseq ≤ u.ring.pseq
  consumed : w.ring.cseq ≤ u.ring.cseq
  prefix : take w.ring.pseq u.stream ≡ take w.ring.pseq w.stream

Step-IsKept : (w u : World) → IsValid w → Step w u → IsKept w u
Step-IsKept w u v s =
    let v' = Step-IsValid w u v s in
    let e = put-prefix w u v s in
    let n : u.ring.pseq ≡ w.ring.pseq + length (put w u s) = omega (
      arith,
      ap length e,
      length-append (take w.ring.pseq w.stream) (put w u s),
      length-take w.ring.pseq w.stream,
      length-take u.ring.pseq u.stream,
      v.published,
      v'.published,
    ) in
    let m : w.ring.cseq ≤ u.ring.cseq = omega (
      arith,
      ap length (got-prefix w u v s),
      length-append (take w.ring.cseq w.stream) (got w u s),
      length-take w.ring.cseq w.stream,
      length-take u.ring.cseq u.stream,
      v.published,
      v.read_le,
      v'.published,
      v'.read_le,
    ) in
    record {
      valid = v';
      published = omega (arith, n);
      consumed = m;
      prefix =
          sym (take-take w.ring.pseq u.ring.pseq u.stream (omega (arith, n)))
          ∙ ap (take w.ring.pseq) e
          ∙ take-append_within w.ring.pseq (take w.ring.pseq w.stream) (put w u s)
              (omega (arith, length-take w.ring.pseq w.stream, v.published))
          ∙ take-take w.ring.pseq w.ring.pseq w.stream (omega arith);
    }

Runs-IsKept : (w u : World) → IsValid w → Runs w u → IsKept w u
Runs-IsKept w _ v still = record {
  valid = v;
  published = omega arith;
  consumed = omega arith;
  prefix = refl;
}
Runs-IsKept w x v (more u _ r s) =
    let k = Runs-IsKept w u v r in
    let j = Step-IsKept u x k.valid s in
    record {
      valid = j.valid;
      published = omega (arith, k.published, j.published);
      consumed = omega (arith, k.consumed, j.consumed);
      prefix =
          sym (take-take w.ring.pseq u.ring.pseq x.stream k.published)
          ∙ ap (take w.ring.pseq) j.prefix
          ∙ take-take w.ring.pseq u.ring.pseq u.stream k.published
          ∙ k.prefix;
    }

-- While the consumer has not moved, a slice of `m` published bytes from its position on reads the same,
-- whatever steps were taken since.
pub span-stays :
    (w u : World)
    → Reach w
    → Runs w u
    → u.ring.cseq ≡ w.ring.cseq
    → (m : ℕ) → w.ring.cseq + m ≤ w.ring.pseq
    → span u.ring m ≡ span w.ring m
span-stays w u r run same m le =
    let v = Reach-IsValid w r in
    let k = Runs-IsKept w u v run in
    let here : take m (unread w) ≡ take m (drop w.ring.cseq w.stream) =
      take-take m _ (drop w.ring.cseq w.stream) (omega arith) in
    let there : take m (unread u) ≡ take m (drop u.ring.cseq u.stream) =
      take-take m _ (drop u.ring.cseq u.stream) (omega (arith, same, k.published, le)) in
    span-unread u k.valid m (omega (arith, same, k.published, le))
    ∙ there
    ∙ ap (λ c. take m (drop c u.stream)) same
    ∙ window u.stream
    ∙ ap (drop w.ring.cseq) (
        (sym (take-take (w.ring.cseq + m) w.ring.pseq u.stream le))
        ∙ ap (take (w.ring.cseq + m)) k.prefix
        ∙ take-take (w.ring.cseq + m) w.ring.pseq w.stream le)
    ∙ sym (window w.stream)
    ∙ sym here
    ∙ sym (span-unread w v m le)
  where
    window :
        (xs : List ℕ) → take m (drop w.ring.cseq xs) ≡ drop w.ring.cseq (take (w.ring.cseq + m) xs)
    window xs = take-drop w.ring.cseq m (w.ring.cseq + m) xs refl

write_here :
    (u : World)
    → Reach u
    → u.ring.done ≡ false
    → (p : List ℕ) → u.ring.pseq + length p ≤ u.ring.cseq + u.ring.size
    → (c : Buffer) × (write p u.ring ≡ ok (length p, c))
unfolding write fill_and_publish
write_here u r d p le =
    let v = Reach-IsValid u r in
    let (gate, e) = enough_space u r (length p) le d in
    let at : bit_and u.ring.pseq u.ring.mask < length u.ring.buf =
      rw (masked u u.ring.pseq v, v.slots) (mod-lt u.ring.pseq (size_pos u v)) in
    let copied =
      ring_copy-ring_write (length p) u.ring.buf p (bit_and u.ring.pseq u.ring.mask) 0 (omega arith)
        at in
    let c = record u.ring {
      gate = gate;
      buf = (ring_copy (length p) u.ring.buf p (bit_and u.ring.pseq u.ring.mask) 0).0;
      pseq = u.ring.pseq + length p;
    } in
    let whole : write p u.ring
        ≡ ok ((ring_copy (length p) u.ring.buf p (bit_and u.ring.pseq u.ring.mask) 0).1, c) =
      once d ∙ ap (λ x. x >>= λ q. fill_and_publish p q) e in
    let n : (ring_copy (length p) u.ring.buf p (bit_and u.ring.pseq u.ring.mask) 0).1 ≡ length p =
      omega (arith, ap (λ q. q.1) copied) in
    (c, whole ∙ ap (λ k. ok (k, c)) n)
  where
    once :
        u.ring.done ≡ false
        → write p u.ring ≡ (wait_for_write_space (length p) u.ring >>= λ q. fill_and_publish p q)
    once d = rw d refl

-- In a reachable world that is not closed, the consumer can commit all unread bytes, and then a Write of at
-- most the ring's size goes through at once.
pub write-goes_on :
    (w : World)
    → Reach w
    → w.ring.done ≡ false
    → (p : List ℕ) → length p ≤ w.ring.size
    → (b : Buffer) × (read_commit (pos (len w.ring)) w.ring ≡ ok (len w.ring, b))
      × (c : Buffer) × (write p b ≡ ok (length p, c))
unfolding read_commit len
write-goes_on w r d p le =
    let v = Reach-IsValid w r in
    let n = w.ring.pseq - w.ring.cseq in
    let b = record w.ring { cseq = w.ring.cseq + n } in
    let fits : ltb w.ring.size n ≡ false = ground (arith, v.published, v.inside, v.fits) in
    let have : leb (w.ring.cseq + n) w.ring.pseq ≡ true = ground (arith, v.read_le) in
    let taken : read_commit (pos n) w.ring ≡ ok (n, b) = rw (fits, have) refl in
    let r' : Reach (record w { ring = b }) = next w _ r (drop_some (pos n) n b taken refl) in
    let (c, e) = write_here (record w { ring = b }) r' d p (omega (arith, v.read_le, le)) in
    (b, taken, c, e)
