-- ===== src/Service/Buffer/Safety.antt =====
-- What the producer and the consumer may rely on in every reachable world.
use gofly_mqttv.Base.{
  ℕ, ◌+◌, ◌-◌, ◌≤◌, ◌<◌, ◌≡◌, refl, sym, ap, ◌∙◌, inl, inr, Bool, true, false, ◌&&◌, ◌||◌, none,
  some, List, [], arith, length, take, drop, length-take, length-drop, ltb, leb, ◌==◌,
  if◌then◌else◌, Bool-cases, le_or_lt,
}
use gofly_mqttv.Base.Positions.{take-take, take_all}
use gofly_mqttv.Service.Buffer.{
  pos, Wait, blocked, failed, ok, Buffer, eof, buffer_full, insufficient_data, len, read,
  read_round, read_wait, read_peek, look_for_space, wait_for_write_space, write_commit, consumed,
}
use gofly_mqttv.Service.Buffer.World.{World, Reach, IsValid}
use gofly_mqttv.Service.Buffer.Reads.{
  unread, span-unread, IsPrefix, read_round-takes, read_round-waits,
}
use gofly_mqttv.Service.Buffer.Invariant.{Reach-IsValid}

module _ (w : World) (r : Reach w) where
  valid : IsValid w
  valid = Reach-IsValid w r

  length-unread : length (unread w) ≡ w.ring.pseq - w.ring.cseq
  length-unread = omega (
    arith,
    length-take (w.ring.pseq - w.ring.cseq) (drop w.ring.cseq w.stream),
    length-drop w.ring.cseq w.stream,
    valid.published,
    valid.read_le,
  )

  -- In a reachable world `Len` is the number of unread bytes, and at most the size.
  pub len-bounds : (len w.ring ≡ length (unread w)) × (len w.ring ≤ w.ring.size)
  unfolding len
  len-bounds = (sym length-unread, omega (arith, valid.published, valid.inside, valid.fits))

  -- In a reachable world, ReadWait reports a request above the size, waits or reports the end while fewer than
  -- `n` bytes are unread, and otherwise returns the first `n` unread bytes.
  pub read_wait-unread :
      (n : ℕ)
      → read_wait (pos n) w.ring ≡ (
          if ltb w.ring.size n
          then failed buffer_full
          else if ltb (length (unread w)) n
          then (if w.ring.done then failed eof else blocked)
          else ok (take n (unread w)))
  unfolding read_wait
  read_wait-unread n = elim (le_or_lt (w.ring.cseq + n) w.ring.pseq) [
    | inl have ↦
        let e : ltb w.ring.pseq (w.ring.cseq + n) ≡ false = ground arith in
        let e' : ltb (length (unread w)) n ≡ false = ground (arith, length-unread, have) in
        let t : take n (take n (unread w)) ≡ take n (unread w) =
          take-take n n (unread w) (omega arith) in
        rw (e, e', span-unread w valid n have, t) refl
    | inr few ↦
        let e : ltb w.ring.pseq (w.ring.cseq + n) ≡ true = ground arith in
        let e' : ltb (length (unread w)) n ≡ true =
          ground (arith, length-unread, few, valid.read_le) in
        rw (e, e') refl
  ]

  -- In a reachable world with unread bytes, ReadPeek of at most the size returns the first `n` of them, or all with the error that there are fewer.
  pub read_peek-unread :
      (n : ℕ)
      → n ≤ w.ring.size
      → 0 < length (unread w)
      → read_peek (pos n) w.ring
        ≡ ok (
          take n (unread w),
          (if leb n (length (unread w)) then none else some insufficient_data),
        )
  unfolding read_peek
  read_peek-unread n fits some_byte =
      let e : ltb w.ring.size n ≡ false = ground arith in
      let e' : leb w.ring.pseq w.ring.cseq ≡ false = ground (arith, length-unread, some_byte) in
      rw (e, e', length-unread)
        (elim (le_or_lt n (w.ring.pseq - w.ring.cseq)) [
          | inl have ↦
              let f : leb n (w.ring.pseq - w.ring.cseq) ≡ true = ground arith in
              let g : leb (w.ring.cseq + n) w.ring.pseq ≡ true =
                ground (arith, have, length-unread, some_byte) in
              rw (f, g, span-unread w valid n (omega (arith, have, valid.read_le))) refl
          | inr few ↦
              let m = w.ring.pseq - w.ring.cseq in
              let f : leb n m ≡ false = ground arith in
              let g : leb (w.ring.cseq + m) w.ring.pseq ≡ true = ground (arith, valid.read_le) in
              let all : take m (unread w) ≡ take n (unread w) =
                take_all m (unread w) (omega (arith, length-unread))
                ∙ sym (take_all n (unread w) (omega (arith, length-unread))) in
              rw (f, g, span-unread w valid m (omega (arith, valid.read_le)), all) refl
        ])

  -- In a reachable world with unread bytes, Read hands out a prefix of them, which is not empty unless its
  -- slice is, and moves the consumer behind it.
  pub read-unread :
      (n : ℕ)
      → 0 < length (unread w)
      → (p : List ℕ) × (read n w.ring ≡ consumed p w.ring) × IsPrefix w n p
  unfolding read len
  read-unread n some_byte =
      let (p, e, pre) = read_round-takes w valid n (omega (arith, length-unread)) in
      let lt : (w.ring.pseq - w.ring.cseq == 0) ≡ false =
        ground (arith, length-unread, some_byte) in
      (p, first_test (w.ring.pseq - w.ring.cseq == 0) w.ring.done lt (read_round n w.ring) ∙ e, pre)
    where
      first_test :
          (t d : Bool)
          → t ≡ false
          → (x : Wait (List ℕ × Buffer)) → (if d && t then failed eof else x) ≡ x
      first_test t false e x = refl
      first_test t true e x = rw e refl

  -- In a reachable world with no unread byte, Read waits, or reports the end once the buffer is closed.
  pub read-nothing :
      (n : ℕ) → unread w ≡ [] → read n w.ring ≡ (if w.ring.done then failed eof else blocked)
  unfolding read len
  read-nothing n nothing =
      let z : length (unread w) ≡ 0 = ap length nothing in
      let e = read_round-waits w valid n (omega (arith, length-unread, z)) in
      at_end (w.ring.pseq - w.ring.cseq == 0) w.ring.done (read_round n w.ring) e
    where
      at_end :
          (t d : Bool) (x : Wait (List ℕ × Buffer))
          → x ≡ (if d then failed eof else blocked)
          → (if d && t then failed eof else x) ≡ (if d then failed eof else blocked)
      at_end t false x e = e
      at_end false true x e = e
      at_end true true x e = refl

  pub enough_space :
      (n : ℕ)
      → w.ring.pseq + n ≤ w.ring.cseq + w.ring.size
      → w.ring.done ≡ false
      → (gate : ℕ) × (wait_for_write_space n w.ring
          ≡ ok ((w.ring.pseq, n), record w.ring { gate = gate }))
  unfolding wait_for_write_space look_for_space
  enough_space n le d =
      elim (Bool-cases
        (ltb (w.ring.gate + w.ring.size) (w.ring.pseq + n) || ltb w.ring.pseq w.ring.gate)) [
          | inl far ↦
              let e : ltb (w.ring.cseq + w.ring.size) (w.ring.pseq + n) ≡ false = ground arith in
              (w.ring.cseq, rw (d, far, e) refl)
          | inr near ↦ (w.ring.gate, rw (d, near) refl)
        ]

  -- In a reachable world that is not closed, WriteCommit of bytes within the reserved room does not wait, and
  -- publishes them.
  pub write_commit-goes_on :
      (n : ℕ)
      → w.ring.pseq + n ≤ w.room
      → w.ring.done ≡ false
      → (gate : ℕ) × (write_commit n w.ring
          ≡ ok (n, record w.ring { pseq = w.ring.pseq + n; gate = gate }))
  unfolding write_commit
  write_commit-goes_on n le d =
      let (gate, e) = enough_space n (omega (arith, le, valid.fits)) d in (gate, rw e refl)

  -- In a reachable world, more bytes than the ring has never get space: the call waits until the buffer is
  -- closed, and then reports the end.
  pub too_long-waits :
      (n : ℕ)
      → w.ring.size < n
      → (wait_for_write_space n w.ring ≡ (if w.ring.done then failed eof else blocked))
        × (look_for_space n w.ring ≡ (if w.ring.done then failed eof else blocked))
  unfolding wait_for_write_space look_for_space
  too_long-waits n lt =
      let e : ltb (w.ring.cseq + w.ring.size) (w.ring.pseq + n) ≡ true =
        ground (arith, valid.read_le, lt) in
      let e' : (ltb (w.ring.gate + w.ring.size) (w.ring.pseq + n) || ltb w.ring.pseq w.ring.gate)
          ≡ true =
        ground (arith, valid.read_le, valid.gate_le, lt) in
      (rw (e, e') (again w.ring.done (failed eof) blocked), rw e refl)
    where
      again :
          (d : Bool) (x y : Wait ((ℕ × ℕ) × Buffer))
          → (if d then x else (if d then x else y)) ≡ (if d then x else y)
      again true x y = refl
      again false x y = refl
