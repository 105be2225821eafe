-- ===== src/Service/Buffer/Steps.antt =====
-- Every step of the producer and of the consumer keeps the world valid.
use gofly_mqttv.Base.{
  ℕ, ◌+◌, ◌%◌, ◌≤◌, ◌<◌, ◌≡◌, refl, sym, ap, ◌∙◌, inl, inr, ◌||◌, List, [], ◌∷◌, ◌++◌, arith,
  length, set, take, bit_and, ltb, Bool-cases, length-set, length-append, length-take,
}
use gofly_mqttv.Base.Bits.{mask_mod, pow_pos}
use mathlib.Core.Path.{subst}
use native.Mathlib.Nat.{mod-lt, mod-mod}
use gofly_mqttv.Service.Buffer.{
  Wait, blocked, failed, ok, Buffer, look_for_space, wait_for_write_space, ring_copy,
}
use gofly_mqttv.Service.Buffer.Slots.{
  ring_write, length-ring_write, ring_write-mod, ring_copy-ring_write,
}
use gofly_mqttv.Service.Buffer.Stored.{Stored-fill, Stored-write, Stored-take, Stored-later}
use gofly_mqttv.Service.Buffer.World.{World, Space, IsValid}

pub ok-injective {ℓ} : {A : Type ℓ} {a b : A} → ok a ≡ ok b → a ≡ b
ok-injective {A = A} {a = a} h = ap content h
  where
    content : Wait A → A
    content blocked = a
    content (failed e) = a
    content (ok b) = b

-- What a grant of space says.
pub record Granted (n : ℕ) (b : Buffer) (r : (ℕ × ℕ) × Buffer) : Type 0 where
  pub gate : ℕ
  pub same : r ≡ ((b.pseq, n), record b { gate = gate })
  pub behind : gate ≤ b.cseq
  pub free : b.pseq + n ≤ b.cseq + b.size

look_for_space-Granted :
    (n : ℕ) (b : Buffer) (r : (ℕ × ℕ) × Buffer) → look_for_space n b ≡ ok r → Granted n b r
unfolding look_for_space
look_for_space-Granted n b r h = elim (Bool-cases (ltb (b.cseq + b.size) (b.pseq + n))) [
  | inl wrap ↦ elim (Bool-cases b.done) [
    | inl d ↦ let h' = rw (wrap, d) at h in absurd (cc)
    | inr d ↦ let h' = rw (wrap, d) at h in absurd (cc)
  ]
  | inr free ↦
      let e : ((b.pseq, n), record b { gate = b.cseq }) ≡ r = ok-injective (rw free at h) in
      subst (Granted n b) e
        record { gate = b.cseq; same = refl; behind = omega arith; free = ground (arith, free) }
]

pub Space-Granted :
    (n : ℕ) (b : Buffer) (r : (ℕ × ℕ) × Buffer) → b.gate ≤ b.cseq → Space n b r → Granted n b r
unfolding wait_for_write_space look_for_space
Space-Granted n b r g (inr h) = look_for_space-Granted n b r h
Space-Granted n b r g (inl h) = elim (Bool-cases b.done) [
  | inl d ↦ let h' = rw d at h in absurd (cc)
  | inr d ↦ elim (Bool-cases (ltb (b.gate + b.size) (b.pseq + n) || ltb b.pseq b.gate)) [
    | inl far ↦
        let skip : wait_for_write_space n b ≡ look_for_space n b = rw (d, far) refl in
        look_for_space-Granted n b r ((sym skip) ∙ h)
    | inr near ↦
        let skip : wait_for_write_space n b ≡ ok ((b.pseq, n), b) = rw (d, near) refl in
        let e : ((b.pseq, n), b) ≡ r = ok-injective ((sym skip) ∙ h) in
        subst (Granted n b) e
          record { gate = b.gate; same = refl; behind = g; free = ground (arith, near, g) }
  ]
]

pub size_pos : (w : World) → IsValid w → 0 < w.ring.size
size_pos w v = let (k, e) = v.power in rw e (pow_pos k)

pub masked : (w : World) (n : ℕ) → IsValid w → bit_and n w.ring.mask ≡ n % w.ring.size
masked w n v = let (k, e) = v.power in rw (v.mask, e) (mask_mod k n)

-- The new state of each kind of step, from what the step needs.
module _ (w : World) (v : IsValid w) where
  pub reserved :
      (n gate : ℕ)
      → gate ≤ w.ring.cseq
      → w.ring.pseq + n ≤ w.ring.cseq + w.ring.size
      → IsValid record {
        ring = record w.ring { gate = gate };
        room = w.ring.pseq + n;
        stream = take w.ring.pseq w.stream;
      }
  reserved n gate le free = record {
    power = v.power;
    mask = v.mask;
    slots = v.slots;
    gate_le = le;
    read_le = v.read_le;
    published = omega (arith, v.published, length-take w.ring.pseq w.stream);
    inside = omega (arith, length-take w.ring.pseq w.stream);
    fits = free;
    stored =
        Stored-take w.ring.size w.ring.cseq (size_pos w v) w.ring.pseq w.ring.buf w.stream v.stored;
  }

  pub filled :
      (x : ℕ)
      → length w.stream < w.room
      → IsValid record w {
        ring = record w.ring { buf = set w.ring.buf (bit_and (length w.stream) w.ring.mask) x };
        stream = w.stream ++ x ∷ [];
      }
  filled x lt = record {
    power = v.power;
    mask = v.mask;
    slots = length-set w.ring.buf (bit_and (length w.stream) w.ring.mask) x ∙ v.slots;
    gate_le = v.gate_le;
    read_le = v.read_le;
    published = omega (arith, v.published, length-append w.stream (x ∷ []));
    inside = omega (arith, length-append w.stream (x ∷ []));
    fits = v.fits;
    stored = rw (masked w (length w.stream) v) (
        Stored-fill w.ring.size w.ring.cseq (size_pos w v) w.ring.buf w.stream x v.slots
          (omega (arith, v.fits)) v.stored);
  }

  pub committed :
      (n gate : ℕ)
      → gate ≤ w.ring.cseq
      → w.ring.pseq + n ≤ length w.stream
      → IsValid record w { ring = record w.ring { gate = gate; pseq = w.ring.pseq + n } }
  committed n gate le have = record {
    power = v.power;
    mask = v.mask;
    slots = v.slots;
    gate_le = le;
    read_le = omega (arith, v.read_le);
    published = have;
    inside = v.inside;
    fits = v.fits;
    stored = v.stored;
  }

  copied :
      (p kept : List ℕ)
      → length kept ≡ w.ring.pseq
      → (ring_copy (length p) w.ring.buf p (bit_and w.ring.pseq w.ring.mask) 0).0
        ≡ ring_write w.ring.buf (length kept) p
  copied p kept n =
      let s = w.ring.pseq % w.ring.size in
      let same : s % length w.ring.buf ≡ length kept % length w.ring.buf =
        rw (v.slots, n) (mod-mod w.ring.pseq w.ring.size) in
      rw (masked w w.ring.pseq v) (
        ap (λ r. r.0)
          (ring_copy-ring_write (length p) w.ring.buf p s 0 (omega arith)
            (omega (arith, v.slots, mod-lt w.ring.pseq (size_pos w v)))))
      ∙ ring_write-mod w.ring.buf s (length kept) p same

  pub written :
      (p : List ℕ) (gate : ℕ)
      → gate ≤ w.ring.cseq
      → w.ring.pseq + length p ≤ w.ring.cseq + w.ring.size
      → IsValid record {
        ring = record w.ring {
          gate = gate;
          buf = (ring_copy (length p) w.ring.buf p (bit_and w.ring.pseq w.ring.mask) 0).0;
          pseq = w.ring.pseq + length p;
        };
        room = w.ring.pseq + length p;
        stream = take w.ring.pseq w.stream ++ p;
      }
  written p gate le free =
      let pos = size_pos w v in
      let kept = take w.ring.pseq w.stream in
      let n : length kept ≡ w.ring.pseq =
        omega (arith, v.published, length-take w.ring.pseq w.stream) in
      let e : (ring_copy (length p) w.ring.buf p (bit_and w.ring.pseq w.ring.mask) 0).0
          ≡ ring_write w.ring.buf (length kept) p =
        copied p kept n in
      rw e record {
        power = v.power;
        mask = v.mask;
        slots = length-ring_write w.ring.buf (length kept) p ∙ v.slots;
        gate_le = le;
        read_le = omega (arith, v.read_le);
        published = omega (arith, length-append kept p);
        inside = omega (arith, length-append kept p);
        fits = free;
        stored =
            Stored-write w.ring.size w.ring.cseq pos p w.ring.buf kept v.slots (omega (arith, n))
              (Stored-take w.ring.size w.ring.cseq pos w.ring.pseq w.ring.buf w.stream v.stored);
      }

  pub moved :
      (n : ℕ)
      → w.ring.cseq + n ≤ w.ring.pseq
      → IsValid record w { ring = record w.ring { cseq = w.ring.cseq + n } }
  moved n le = record {
    power = v.power;
    mask = v.mask;
    slots = v.slots;
    gate_le = omega (arith, v.gate_le);
    read_le = le;
    published = v.published;
    inside = v.inside;
    fits = omega (arith, v.fits);
    stored =
        Stored-later w.ring.size w.ring.cseq (size_pos w v) (w.ring.cseq + n) w.ring.buf w.stream
          (omega arith) v.stored;
  }
