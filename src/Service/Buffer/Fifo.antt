-- ===== src/Service/Buffer/Fifo.antt =====
-- The buffer as a queue of bytes: what the consumer takes is what the producer published, in order.
use gofly_mqttv.Base.{
  ℕ, ◌+◌, ◌-◌, ◌≡◌, refl, sym, ap, ◌∙◌, List, [], ◌∷◌, ◌++◌, arith, length, take, drop, bit_and,
  length-append, length-take,
}
use gofly_mqttv.Base.Positions.{take_all, take-take, take-append_within, take-two}
use mathlib.Core.List.{append-nil}
use gofly_mqttv.Service.Buffer.{ok, Buffer, ring_copy, fill_and_publish, publish, close}
use gofly_mqttv.Service.Buffer.World.{
  World, Space, Step, reserve, fill, commit, write_all, take_some, drop_some, shut, Reach, fresh,
  next, IsValid,
}
use gofly_mqttv.Service.Buffer.Steps.{ok-injective, Space-Granted}
use gofly_mqttv.Service.Buffer.Reads.{unread}
use gofly_mqttv.Service.Buffer.Invariant.{read-Taken, read_commit-Dropped, Reach-IsValid}

-- The bytes that a step publishes, and those that it consumes.
unfoldable pub put : (w u : World) → Step w u → List ℕ
put w u (commit n m b c r le g h e) = take n (drop w.ring.pseq w.stream)
put w u (write_all p m b c r g h e) = p
put w u _ = []

unfoldable pub got : (w u : World) → Step w u → List ℕ
got w u (take_some n p b h e) = p
got w u (drop_some n m b h e) = take m (unread w)
got w u _ = []

-- The ring after a commit and after a write
committed_ring :
    (w : World)
    → IsValid w
    → (n m : ℕ) (b c : Buffer) (r : ℕ × ℕ) → Space n w.ring (r, b)
    → publish (r, b) ≡ ok (m, c)
    → (gate : ℕ) × (c ≡ record w.ring { gate = gate; pseq = w.ring.pseq + n })
committed_ring w v n m b c r g h =
    let t = Space-Granted n w.ring (r, b) v.gate_le g in
    (t.gate, sym (ap (λ q. q.1) (ok-injective (ap publish (sym t.same) ∙ h))))

written_ring :
    (w : World)
    → IsValid w
    → (p : List ℕ) (m : ℕ) (b c : Buffer) (r : ℕ × ℕ) → Space (length p) w.ring (r, b)
    → fill_and_publish p (r, b) ≡ ok (m, c)
    → (gate : ℕ) × (buf : List ℕ) × (c
        ≡ record w.ring { buf = buf; gate = gate; pseq = w.ring.pseq + length p })
unfolding fill_and_publish
written_ring w v p m b c r g h =
    let t = Space-Granted (length p) w.ring (r, b) v.gate_le g in
    (
      t.gate,
      (ring_copy (length p) w.ring.buf p (bit_and w.ring.pseq w.ring.mask) 0).0,
      sym (ap (λ q. q.1) (ok-injective (ap (fill_and_publish p) (sym t.same) ∙ h))),
    )

-- The published bytes, and the bytes that were consumed: both are prefixes of the stream, which a step
-- extends by `put` and `got`.
pub put-prefix :
    (w u : World) (v : IsValid w) (s : Step w u)
    → take u.ring.pseq u.stream ≡ take w.ring.pseq w.stream ++ put w u s
unfolding put fill_and_publish close
put-prefix w u v (reserve n first cnt b g e) =
    let t = Space-Granted n w.ring ((first, cnt), b) v.gate_le g in
    let q : b.pseq ≡ w.ring.pseq = ap (λ r. r.1.pseq) t.same in
    rw (e, q)
      (take-take w.ring.pseq w.ring.pseq w.stream (omega arith)
        ∙ sym (append-nil (take w.ring.pseq w.stream)))
put-prefix w u v (fill x lt e) = rw e (
    take-append_within w.ring.pseq w.stream (x ∷ []) v.published
    ∙ sym (append-nil (take w.ring.pseq w.stream)))
put-prefix w u v (commit n m b c r le g h e) =
    let (gate, q) = committed_ring w v n m b c r g h in
    rw (e, q) (take-two w.ring.pseq n (w.ring.pseq + n) w.stream refl)
put-prefix w u v (write_all p m b c r g h e) =
    let (gate, buf, q) = written_ring w v p m b c r g h in
    let kept = take w.ring.pseq w.stream in
    rw (e, q)
      (take_all (w.ring.pseq + length p) (kept ++ p)
        (omega (arith, length-append kept p, length-take w.ring.pseq w.stream)))
put-prefix w u v (take_some n p b h e) =
    let t = read-Taken w v n (p, b) h in
    let q : b.pseq ≡ w.ring.pseq = ap (λ r. r.pseq) t.after in
    rw (e, q) (sym (append-nil (take w.ring.pseq w.stream)))
put-prefix w u v (drop_some n m b h e) =
    let t = read_commit-Dropped w.ring n (m, b) h in
    let q : b.pseq ≡ w.ring.pseq = ap (λ r. r.pseq) t.after in
    rw (e, q) (sym (append-nil (take w.ring.pseq w.stream)))
put-prefix w u v (shut e) = rw e (sym (append-nil (take w.ring.pseq w.stream)))

pub got-prefix :
    (w u : World) (v : IsValid w) (s : Step w u)
    → take u.ring.cseq u.stream ≡ take w.ring.cseq w.stream ++ got w u s
unfolding got close
got-prefix w u v (reserve n first cnt b g e) =
    let t = Space-Granted n w.ring ((first, cnt), b) v.gate_le g in
    let q : b.cseq ≡ w.ring.cseq = ap (λ r. r.1.cseq) t.same in
    rw (e, q)
      (take-take w.ring.cseq w.ring.pseq w.stream v.read_le
        ∙ sym (append-nil (take w.ring.cseq w.stream)))
got-prefix w u v (fill x lt e) = rw e (
    take-append_within w.ring.cseq w.stream (x ∷ []) (omega (arith, v.read_le, v.published))
    ∙ sym (append-nil (take w.ring.cseq w.stream)))
got-prefix w u v (commit n m b c r le g h e) =
    let (gate, q) = committed_ring w v n m b c r g h in
    rw (e, q) (sym (append-nil (take w.ring.cseq w.stream)))
got-prefix w u v (write_all p m b c r g h e) =
    let (gate, buf, q) = written_ring w v p m b c r g h in
    let kept = take w.ring.pseq w.stream in
    rw (e, q)
      (take-append_within w.ring.cseq kept p
          (omega (arith, v.read_le, v.published, length-take w.ring.pseq w.stream))
        ∙ take-take w.ring.cseq w.ring.pseq w.stream v.read_le
        ∙ sym (append-nil (take w.ring.cseq w.stream)))
got-prefix w u v (take_some n p b h e) =
    let t = read-Taken w v n (p, b) h in
    rw (e, t.after)
      (take-two w.ring.cseq (length p) (w.ring.cseq + length p) w.stream refl
        ∙ ap (λ l. take w.ring.cseq w.stream ++ l)
            (sym (
              t.prefix.bytes
              ∙ take-take (length p) (w.ring.pseq - w.ring.cseq) (drop w.ring.cseq w.stream)
                  (omega (arith, t.prefix.inside)))))
got-prefix w u v (drop_some n m b h e) =
    let t = read_commit-Dropped w.ring n (m, b) h in
    rw (e, t.after)
      (take-two w.ring.cseq m (w.ring.cseq + m) w.stream refl
        ∙ ap (λ l. take w.ring.cseq w.stream ++ l)
            (sym (
              take-take m (w.ring.pseq - w.ring.cseq) (drop w.ring.cseq w.stream)
                (omega (arith, t.inside)))))
got-prefix w u v (shut e) = rw e (sym (append-nil (take w.ring.cseq w.stream)))

-- All that was published, and all that was consumed, on the way to a world.
unfoldable pub all_put : (w : World) → Reach w → List ℕ
unfolding put
all_put w (fresh n b e) = []
all_put w (next t _ r s) = all_put t r ++ put t w s

unfoldable pub all_got : (w : World) → Reach w → List ℕ
unfolding got
all_got w (fresh n b e) = []
all_got w (next t _ r s) = all_got t r ++ got t w s

all_put-prefix : (w : World) (r : Reach w) → all_put w r ≡ take w.ring.pseq w.stream
unfolding all_put
all_put-prefix w (fresh n b e) = sym (take_all b.pseq [] (omega arith))
all_put-prefix w (next t _ r s) =
    ap (λ l. l ++ put t w s) (all_put-prefix t r) ∙ sym (put-prefix t w (Reach-IsValid t r) s)

all_got-prefix : (w : World) (r : Reach w) → all_got w r ≡ take w.ring.cseq w.stream
unfolding all_got
all_got-prefix w (fresh n b e) = sym (take_all b.cseq [] (omega arith))
all_got-prefix w (next t _ r s) =
    ap (λ l. l ++ got t w s) (all_got-prefix t r) ∙ sym (got-prefix t w (Reach-IsValid t r) s)

-- Whatever the order of the steps, the bytes that were published are those that were consumed and then those
-- that are unread, in order.
pub put-is_got_and_unread : (w : World) (r : Reach w) → all_put w r ≡ all_got w r ++ unread w
put-is_got_and_unread w r =
    all_put-prefix w r
    ∙ take-two w.ring.cseq (w.ring.pseq - w.ring.cseq) w.ring.pseq w.stream
        (omega (arith, (Reach-IsValid w r).read_le))
    ∙ ap (λ l. l ++ unread w) (sym (all_got-prefix w r))
