-- ===== src/Service/Buffer/Rounds/Laws.antt =====
-- Rounds of the loops in reachable worlds: the bytes go through in order.
use gofly_mqttv.Base.{
  ℕ, ◌+◌, ◌-◌, ◌≤◌, ◌<◌, min, ◌≡◌, refl, ap, ◌∙◌, Bool, true, false, Option, none, List, arith, ltb,
  leb, if◌then◌else◌, length, take, drop, length-take, length-drop, lt→ltb,
}
use gofly_mqttv.Service.Buffer.{pos, ok, read_peek, read_commit}
use gofly_mqttv.Service.Buffer.World.{World, Reach}
use gofly_mqttv.Service.Buffer.Reads.{unread}
use gofly_mqttv.Service.Buffer.Invariant.{Reach-IsValid}
use gofly_mqttv.Service.Buffer.Safety.{read_peek-unread}
use gofly_mqttv.Service.Buffer.Rounds.{
  goes_on, write_to_round, after_write, on_peek, on_read_commit,
}

module _ (w : World) (r : Reach w) where
  unread_bytes : length (unread w) ≡ w.ring.pseq - w.ring.cseq
  unread_bytes = omega (
    arith,
    length-take (w.ring.pseq - w.ring.cseq) (drop w.ring.cseq w.stream),
    length-drop w.ring.cseq w.stream,
    (Reach-IsValid w r).published,
  )

  read_commit-unread :
      (n : ℕ)
      → n ≤ length (unread w)
      → read_commit (pos n) w.ring ≡ ok (n, record w.ring { cseq = w.ring.cseq + n })
  unfolding read_commit
  read_commit-unread n le =
      let v = Reach-IsValid w r in
      let e : ltb w.ring.size n ≡ false =
        ground (arith, v.published, v.inside, v.fits, unread_bytes, le) in
      let e' : leb (w.ring.cseq + n) w.ring.pseq ≡ true =
        ground (arith, v.read_le, unread_bytes, le) in
      rw (e, e') refl

  -- In a reachable world that is not closed and has unread bytes, a round of WriteTo with a writer that takes
  -- all hands it the first unread bytes, up to a block of 1024, and moves behind them.
  pub write_to_round-drains :
      w.ring.done ≡ false
      → 1024 ≤ w.ring.size
      → 0 < length (unread w)
      → (writer : List ℕ → ℕ × Option ℕ)
      → writer (take 1024 (unread w)) ≡ (length (take 1024 (unread w)), none)
      → (total : ℕ)
      → write_to_round writer total w.ring
        ≡ goes_on
            (total + min 1024 (length (unread w)))
            (record w.ring { cseq = w.ring.cseq + min 1024 (length (unread w)) })
  unfolding write_to_round on_peek on_read_commit after_write
  write_to_round-drains d big some_byte writer takes total =
      let p = take 1024 (unread w) in
      let n : length p ≡ min 1024 (length (unread w)) = length-take 1024 (unread w) in
      let more_than_none : 0 < length p = omega (arith, n, some_byte) in
      let lt : ltb 0 (length p) ≡ true = lt→ltb 0 (length p) more_than_none in
      opened writer total d
      ∙ ap (on_peek writer total w.ring) (read_peek-unread w r 1024 big some_byte)
      ∙ taken (ltb 0 (length p)) lt
      ∙ ap (λ q. after_write q.0 q.1 total w.ring) takes
      ∙ ap (on_read_commit (length p) total w.ring)
          (read_commit-unread (length p) (omega (arith, n)))
      ∙ ap (λ k. goes_on (total + k) (record w.ring { cseq = w.ring.cseq + k })) n
    where
      opened :
          (writer : List ℕ → ℕ × Option ℕ) (total : ℕ)
          → w.ring.done ≡ false
          → write_to_round writer total w.ring
            ≡ on_peek writer total w.ring (read_peek (pos 1024) w.ring)
      opened writer total d = rw d refl

      taken :
          (b : Bool)
          → b ≡ true
          → (if b
              then after_write
                  (writer (take 1024 (unread w))).0
                  (writer (take 1024 (unread w))).1
                  total
                  w.ring
              else goes_on total w.ring)
            ≡ after_write
                (writer (take 1024 (unread w))).0
                (writer (take 1024 (unread w))).1
                total
                w.ring
      taken true e = refl
      taken false e = absurd (cc)
