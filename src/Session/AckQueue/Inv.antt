-- ===== src/Session/AckQueue/Inv.antt =====
-- The representation invariant, and the position of a packet identifier.
use gofly_mqttv.Base.{
  ℕ, zero, suc, ◌+◌, ◌-◌, ◌^◌, ◌≤◌, ◌<◌, ◌≡◌, refl, ap, ◌∙◌, true, false, ◌||◌, Option, none, some,
  List, [], ◌∷◌, ◌++◌, arith, ◌==◌, if◌then◌else◌, length, set, bit_and, Bool-cases, Option-cases,
  inl, inr,
}
use mathlib.Core.Option
use gofly_mqttv.Base.Bits.{mask_small, mask_full}
use gofly_mqttv.Session.AckMsg.{Msg, Ackmsg, Index, lookup, delete, put}
use gofly_mqttv.Session.AckQueue.{AckQueue, increment, acknowledged}
use gofly_mqttv.Session.AckQueue.Spec.{has_id, Distinct, acknowledge}
use gofly_mqttv.Session.AckQueue.Ring.{next, slot, at, window}

-- The place of an identifier in a list.
unfoldable pub find_id : ℕ → List Ackmsg → Option ℕ
find_id id [] = none
find_id id (m ∷ ms) = if m.pktid == id then some 0 else Option.map suc (find_id id ms)

abbrev pub contents : AckQueue → List Ackmsg
contents aq = window aq.ring aq.size aq.head aq.count

pub record IsValid (aq : AckQueue) : Type 0 where
  pub power : (k : ℕ) × (aq.size ≡ 2 ^ k)
  pub mask : aq.mask ≡ aq.size - 1
  pub slots : length aq.ring ≡ aq.size
  pub head_in : aq.head < aq.size
  pub count_in : aq.count ≤ aq.size
  pub tail_at : aq.tail ≡ slot aq.size aq.head aq.count
  pub distinct : Distinct (contents aq)
  pub index :
      (id : ℕ) → lookup id aq.emap ≡ Option.map (slot aq.size aq.head) (find_id id (contents aq))

pub lookup-delete :
    (id j : ℕ) (m : Index) → lookup j (delete id m) ≡ (if id == j then none else lookup j m)
unfolding lookup delete
lookup-delete id j [] = ground arith
lookup-delete id j ((k, v) ∷ m) = ground (arith, lookup-delete id j m)

pub lookup-put :
    (id j v : ℕ) (m : Index) → lookup j (put id v m) ≡ (if id == j then some v else lookup j m)
unfolding lookup
lookup-put id j v m = ground (arith, lookup-delete id j m)

-- `n & mask` steps round the ring.
pub increment-next :
    (aq : AckQueue) (h : ℕ) → IsValid aq → h < aq.size → increment aq h ≡ next aq.size h
unfolding increment
increment-next aq h v lt =
    let (k, e) = v.power in
    let m : bit_and (h + 1) aq.mask ≡ bit_and (h + 1) (2 ^ k - 1) = rw (v.mask, e) in m ∙ go k e
  where
    go : (k : ℕ) → aq.size ≡ 2 ^ k → bit_and (h + 1) (2 ^ k - 1) ≡ next aq.size h
    go k e = elim (Bool-cases (h + 1 == aq.size)) [
      | inl q ↦
          let r : h + 1 ≡ 2 ^ k = ground arith in
          rw q (ap (λ n. bit_and n (2 ^ k - 1)) r ∙ mask_full k)
      | inr q ↦ rw q (mask_small k (h + 1) (ground arith))
    ]

pub find_id-lt : (id : ℕ) (ms : List Ackmsg) {j : ℕ} → find_id id ms ≡ some j → j < length ms
unfolding find_id
find_id-lt id [] h = cc
find_id-lt id (m ∷ ms) {j} h = elim (Option-cases (find_id id ms)) [
  | inl e ↦ ground (arith, e)
  | inr (i, e) ↦ let lt = find_id-lt id ms e in ground (arith, e)
]

pub find_id-none : (id : ℕ) (ms : List Ackmsg) → has_id id ms ≡ false → find_id id ms ≡ none
unfolding find_id
find_id-none id [] h = refl
find_id-none id (m ∷ ms) h = ground (arith, find_id-none id ms)

pub find_id-some :
    (id : ℕ) (ms : List Ackmsg) → has_id id ms ≡ true → (j : ℕ) × (find_id id ms ≡ some j)
unfolding find_id
find_id-some id [] h = absurd (cc)
find_id-some id (m ∷ ms) h = elim (Bool-cases (m.pktid == id)) [
  | inl e ↦ (0, rw e)
  | inr e ↦ let (j, q) = find_id-some id ms (ground arith) in (suc j, rw (e, q))
]

pub find_id-append :
    (id : ℕ) (ms : List Ackmsg) (m : Ackmsg)
    → has_id m.pktid ms ≡ false
    → find_id id (ms ++ m ∷ []) ≡ (if m.pktid == id then some (length ms) else find_id id ms)
unfolding find_id
find_id-append id [] m h = ground arith
find_id-append id (x ∷ ms) m h = ground (arith, find_id-append id ms m)

has_id-append :
    (id : ℕ) (ms : List Ackmsg) (m : Ackmsg)
    → has_id id (ms ++ m ∷ []) ≡ (has_id id ms || (m.pktid == id))
has_id-append id [] m = ground arith
has_id-append id (x ∷ ms) m = ground (arith, has_id-append id ms m)

pub Distinct-append :
    (ms : List Ackmsg) (m : Ackmsg)
    → Distinct ms
    → has_id m.pktid ms ≡ false
    → Distinct (ms ++ m ∷ [])
Distinct-append [] m d h = (refl, tt)
Distinct-append (x ∷ ms) m (out, d) h =
    (ground (arith, has_id-append x.pktid ms m), Distinct-append ms m d (ground arith))

-- An acknowledgement changes no identifier.
has_id-acknowledge :
    (id : ℕ) (msg : Msg) (ms : List Ackmsg) → has_id id (acknowledge msg ms) ≡ has_id id ms
has_id-acknowledge id msg [] = refl
has_id-acknowledge id msg (m ∷ ms) = ground (arith, has_id-acknowledge id msg ms)

pub find_id-acknowledge :
    (id : ℕ) (msg : Msg) (ms : List Ackmsg) → find_id id (acknowledge msg ms) ≡ find_id id ms
unfolding find_id
find_id-acknowledge id msg [] = refl
find_id-acknowledge id msg (m ∷ ms) = ground (arith, find_id-acknowledge id msg ms)

pub Distinct-acknowledge :
    (msg : Msg) (ms : List Ackmsg) → Distinct ms → Distinct (acknowledge msg ms)
Distinct-acknowledge msg [] d = tt
Distinct-acknowledge msg (m ∷ ms) (out, d) =
    ground (arith, has_id-acknowledge m.pktid msg ms, Distinct-acknowledge msg ms d)

-- A write at the place of an identifier is the acknowledgement of its message.
pub set-acknowledge :
    (msg : Msg) (ms : List Ackmsg) (j : ℕ)
    → find_id msg.packet_id ms ≡ some j
    → set ms j (acknowledged msg (at ms j)) ≡ acknowledge msg ms
unfolding find_id
set-acknowledge msg [] j h = cc
set-acknowledge msg (m ∷ ms) zero h = elim (Option-cases (find_id msg.packet_id ms)) [
  | inl e ↦ ground (arith, e)
  | inr (i, e) ↦ ground (arith, e)
]
set-acknowledge msg (m ∷ ms) (suc j) h = elim (Option-cases (find_id msg.packet_id ms)) [
  | inl e ↦ ground (arith, e)
  | inr (i, e) ↦ ground (arith, e, set-acknowledge msg ms j)
]

pub acknowledge_absent :
    (msg : Msg) (ms : List Ackmsg) → find_id msg.packet_id ms ≡ none → acknowledge msg ms ≡ ms
unfolding find_id
acknowledge_absent msg [] h = refl
acknowledge_absent msg (m ∷ ms) h = elim (Option-cases (find_id msg.packet_id ms)) [
  | inl e ↦ let ih = acknowledge_absent msg ms e in ground (arith, ih, e)
  | inr (i, e) ↦ ground (arith, e)
]
