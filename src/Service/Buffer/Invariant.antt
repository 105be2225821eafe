-- ===== src/Service/Buffer/Invariant.antt =====
-- Every world that is reachable from a new buffer is valid.
use gofly_mqttv.Base.{
  ℕ, ◌+◌, ◌/◌, ◌≤◌, ◌≡◌, refl, sym, ap, ◌∙◌, ◌⊎◌, inl, inr, Bool, true, false, ◌&&◌, List, ◌++◌,
  arith, length, take, length-replicate, ltb, leb, ◌==◌, if◌then◌else◌, Bool-cases, le_or_lt,
}
use gofly_mqttv.Base.Powers.{power_of_two_of_and}
use mathlib.Core.Path.{subst}
use gofly_mqttv.Session.AckQueue.{power_of_two64}
use gofly_mqttv.Service.Buffer.{
  ℤ, pos, negsuc, blocked, failed, ok, Buffer, eof, BufferError, default_buffer_size,
  default_read_block_size, empty_buffer, checked_size, new_buffer, fill_and_publish, publish, read,
  read_round, read_commit, close, len,
}
use gofly_mqttv.Service.Buffer.World.{
  World, start, Step, reserve, fill, commit, write_all, take_some, drop_some, shut, Reach, fresh,
  next, IsValid,
}
use gofly_mqttv.Service.Buffer.Steps.{
  ok-injective, Space-Granted, reserved, filled, committed, written, moved,
}
use gofly_mqttv.Service.Buffer.Reads.{read_round-takes, read_round-waits, IsPrefix}

-- `Read` that hands out bytes has handed out a prefix.
pub record Taken (w : World) (n : ℕ) (r : List ℕ × Buffer) : Type 0 where
  pub prefix : IsPrefix w n r.0
  pub after : r.1 ≡ record w.ring { cseq = w.ring.cseq + length r.0 }

read_round-Taken :
    (w : World)
    → IsValid w
    → (n : ℕ) (r : List ℕ × Buffer) → read_round n w.ring ≡ ok r
    → Taken w n r
read_round-Taken w v n r h = elim (le_or_lt w.ring.pseq w.ring.cseq) [
  | inl le ↦ absurd (none_taken w.ring.done (sym (read_round-waits w v n le) ∙ h))
  | inr lt ↦
      let (p, e, pre) = read_round-takes w v n lt in
      subst (Taken w n) (ok-injective (sym e ∙ h)) record { prefix = pre; after = refl }
]
  where
    none_taken : (d : Bool) → (if d then failed eof else blocked) ≡ ok r → ⊥
    none_taken true q = cc
    none_taken false q = cc

pub read-Taken :
    (w : World)
    → IsValid w
    → (n : ℕ) (r : List ℕ × Buffer) → (read n w.ring ≡ ok r) ⊎ (read_round n w.ring ≡ ok r)
    → Taken w n r
unfolding read len
read-Taken w v n r (inr h) = read_round-Taken w v n r h
read-Taken w v n r (inl h) = elim (Bool-cases (w.ring.done && len w.ring == 0)) [
  | inl e ↦ let h' = rw e at h in absurd (cc)
  | inr e ↦
      let skip : read n w.ring ≡ read_round n w.ring = rw e refl in
      read_round-Taken w v n r (sym skip ∙ h)
]

-- `ReadCommit` moves the consumer over published bytes.
pub record Dropped (b : Buffer) (r : ℕ × Buffer) : Type 0 where
  pub inside : b.cseq + r.0 ≤ b.pseq
  pub after : r.1 ≡ record b { cseq = b.cseq + r.0 }

pub read_commit-Dropped :
    (b : Buffer) (n : ℤ) (r : ℕ × Buffer) → read_commit n b ≡ ok r → Dropped b r
unfolding read_commit
read_commit-Dropped b (negsuc n) r h = absurd (cc)
read_commit-Dropped b (pos n) r h = elim (Bool-cases (ltb b.size n)) [
  | inl big ↦ let h' = rw big at h in absurd (cc)
  | inr fits ↦ elim (Bool-cases (leb (b.cseq + n) b.pseq)) [
    | inr few ↦ let h' = rw (fits, few) at h in absurd (cc)
    | inl enough ↦
        subst (Dropped b) (ok-injective (rw (fits, enough) at h))
          record { inside = ground (arith, enough); after = refl }
  ]
]

pub Step-IsValid : (w u : World) → IsValid w → Step w u → IsValid u
unfolding fill_and_publish close
Step-IsValid w u v (reserve n first cnt b g e) =
    let t = Space-Granted n w.ring ((first, cnt), b) v.gate_le g in
    rw e (
      subst
        (λ r.
          IsValid record { ring = r.1; room = r.0.0 + r.0.1; stream = take w.ring.pseq w.stream })
        (sym t.same) (reserved w v n t.gate t.behind t.free))
Step-IsValid w u v (fill x lt e) = subst IsValid (sym e) (filled w v x lt)
Step-IsValid w u v (commit n m b c r le g h e) =
    let t = Space-Granted n w.ring (r, b) v.gate_le g in
    let q = ok-injective (ap publish (sym t.same) ∙ h) in
    rw e (subst (λ r. IsValid record w { ring = r.1 }) q (committed w v n t.gate t.behind le))
Step-IsValid w u v (write_all p m b c r g h e) =
    let t = Space-Granted (length p) w.ring (r, b) v.gate_le g in
    let q = ok-injective (ap (fill_and_publish p) (sym t.same) ∙ h) in
    rw e (
      subst
        (λ r.
          IsValid record { ring = r.1; room = r.1.pseq; stream = take w.ring.pseq w.stream ++ p })
        q (written w v p t.gate t.behind t.free))
Step-IsValid w u v (take_some n p b h e) =
    let t = read-Taken w v n (p, b) h in rw (e, t.after) (moved w v (length p) t.prefix.inside)
Step-IsValid w u v (drop_some n m b h e) =
    let t = read_commit-Dropped w.ring n (m, b) h in rw (e, t.after) (moved w v m t.inside)
Step-IsValid w u v (shut e) = subst IsValid (sym e) record {
  power = v.power;
  mask = v.mask;
  slots = v.slots;
  gate_le = v.gate_le;
  read_le = v.read_le;
  published = v.published;
  inside = v.inside;
  fits = v.fits;
  stored = v.stored;
}

inr-injective : {b c : Buffer} → ◌≡◌ {A = BufferError ⊎ Buffer} (inr b) (inr c) → b ≡ c
inr-injective {b = b} h = ap content h
  where
    content : BufferError ⊎ Buffer → Buffer
    content (inl e) = b
    content (inr d) = d

empty_buffer-IsValid : (n : ℕ) → power_of_two64 n ≡ true → IsValid (start (empty_buffer n))
unfolding power_of_two64
empty_buffer-IsValid n h = record {
  power = power_of_two_of_and n n (omega arith) (ground (arith, h)) (ground (arith, h));
  mask = refl;
  slots = length-replicate n 0;
  gate_le = omega arith;
  read_le = omega arith;
  published = omega arith;
  inside = omega arith;
  fits = omega arith;
  stored = λ j ge lt. absurd (omega arith);
}

sized-IsValid : (n : ℕ) (b : Buffer) → checked_size n ≡ inr b → IsValid (start b)
unfolding checked_size
sized-IsValid n b h = elim (Bool-cases (power_of_two64 n)) [
  | inr other ↦ let h' = rw other at h in absurd (cc)
  | inl power ↦ elim (Bool-cases (ltb (n / 2) default_read_block_size)) [
    | inl small ↦ let h' = rw (power, small) at h in absurd (cc)
    | inr big ↦
        subst (λ c. IsValid (start c)) (inr-injective (rw (power, big) at h))
          (empty_buffer-IsValid n power)
  ]
]

fresh-IsValid : (n : ℤ) (b : Buffer) → new_buffer n ≡ inr b → IsValid (start b)
unfolding new_buffer power_of_two64
fresh-IsValid (negsuc n) b h = absurd (cc)
fresh-IsValid (pos n) b h = sized-IsValid (if n == 0 then default_buffer_size else n) b h

pub Reach-IsValid : (w : World) → Reach w → IsValid w
Reach-IsValid w (fresh n b e) = fresh-IsValid n b e
Reach-IsValid u (next w _ r s) = Step-IsValid w u (Reach-IsValid w r) s
