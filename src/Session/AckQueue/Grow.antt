-- ===== src/Session/AckQueue/Grow.antt =====
-- `grow` doubles a full ring and keeps its messages.
use gofly_mqttv.Base.{
  ℕ, zero, suc, ◌+◌, ◌-◌, ◌*◌, ◌^◌, ◌≤◌, ◌<◌, ◌≡◌, refl, sym, ap, ◌∙◌, false, Option, none, some,
  List, [], ◌∷◌, ◌++◌, arith, ◌==◌, if◌then◌else◌, length, take, drop, Bool-cases, inl, inr,
  take-append_left,
}
use mathlib.Core.Option
use native.Mathlib.Nat.{pow-suc}
use gofly_mqttv.Session.AckMsg.{Ackmsg, Index, lookup, put}
use gofly_mqttv.Session.AckQueue.{AckQueue, reindex, unrolled, grow}
use gofly_mqttv.Session.AckQueue.Spec.{has_id, Distinct}
use gofly_mqttv.Session.AckQueue.Ring.{slot, at, length-window}
use gofly_mqttv.Session.AckQueue.Inv.{
  find_id, find_id-lt, find_id-none, contents, IsValid, lookup-put,
}
use gofly_mqttv.Session.AckQueue.Unroll.{drop_cons, window_slice, unrolled_lem}

abbrev join : Option ℕ → ℕ → Option ℕ → Option ℕ
join none i o = o
join (some j) i o = some (i + j)

join-suc : (o : Option ℕ) (i : ℕ) (d : Option ℕ) → join (Option.map suc o) i d ≡ join o (suc i) d
join-suc none i d = refl
join-suc (some j) i d = ap some (omega arith)

first_entry :
    (a id i : ℕ) (ms : List Ackmsg) (m : Index)
    → has_id a ms ≡ false
    → join (find_id id ms) (suc i) (lookup id (put a i m))
      ≡ join (if a == id then some 0 else Option.map suc (find_id id ms)) i (lookup id m)
first_entry a id i ms m out = elim (Bool-cases (a == id)) [
  | inl e ↦
      let none_left : find_id id ms ≡ none = ground (arith, find_id-none id ms) in
      rw (lookup-put, e, none_left) (ap some (omega arith))
  | inr e ↦ rw (lookup-put, e) (sym (join-suc (find_id id ms) i (lookup id m)))
]

-- The rebuilt index sends the identifier of slot `i + j` there.
reindex_lem :
    (n i id : ℕ) (ring : List Ackmsg) (m : Index)
    → i + n ≤ length ring
    → Distinct (take n (drop i ring))
    → lookup id (reindex n i ring m) ≡ join (find_id id (take n (drop i ring))) i (lookup id m)
unfolding reindex find_id
reindex_lem zero i id ring m le d = refl
reindex_lem (suc n) i id ring m le d =
    let cons : drop i ring ≡ at ring i ∷ drop (suc i) ring = drop_cons ring i (omega arith) in
    let (out, d') : Distinct (take (suc n) (at ring i ∷ drop (suc i) ring)) = rw cons at d in
    let step : i + 1 ≡ suc i = omega arith in
    ap (λ j. lookup id (reindex n j ring (put (at ring i).pktid i m))) step
    ∙ reindex_lem n (suc i) id ring (put (at ring i).pktid i m) (omega arith) d'
    ∙ first_entry (at ring i).pktid id i (take n (drop (suc i) ring)) m out
    ∙ ap (λ l. join (find_id id (take (suc n) l)) i (lookup id m)) (sym cons)

-- What `grow` makes of a full queue: a valid one with room, and the same messages.
pub record Grown (aq new : AckQueue) : Type 0 where
  pub valid : IsValid new
  pub size : new.size ≡ aq.size * 2
  pub count : new.count ≡ aq.count
  pub same : contents new ≡ contents aq
  pub ping : new.ping ≡ aq.ping
  pub ackdone : new.ackdone ≡ aq.ackdone

pub grown : AckQueue → AckQueue
grown aq = record aq {
  size = aq.size * 2;
  mask = aq.size * 2 - 1;
  ring = unrolled aq;
  head = 0;
  tail = aq.count;
  emap = reindex aq.count 0 (unrolled aq) [];
}

slot_zero :
    (size : ℕ) (o : Option ℕ) (n : ℕ)
    → ((j : ℕ) → o ≡ some j → j < n)
    → n ≤ size
    → join o 0 none ≡ Option.map (slot size 0) o
slot_zero size none n lt le = refl
slot_zero size (some j) n lt le = let k = lt j refl in ap some (ground arith)

take-unrolled :
    (aq : AckQueue) → IsValid aq → aq.count ≡ aq.size → take aq.count (unrolled aq) ≡ contents aq
take-unrolled aq v full =
    let u = unrolled_lem aq v full in
    ap (take aq.count) u.parts
    ∙ ap (λ n. take n (contents aq ++ u.rest))
        (sym (length-window aq.ring aq.size aq.head aq.count))
    ∙ take-append_left (contents aq) u.rest

contents-grown :
    (aq : AckQueue) → IsValid aq → aq.count ≡ aq.size → contents (grown aq) ≡ contents aq
unfolding grown
contents-grown aq v full =
    let u = unrolled_lem aq v full in
    window_slice (unrolled aq) (aq.size * 2) 0 aq.count (omega arith) (omega (arith, u.room))
    ∙ take-unrolled aq v full

lookup-grown :
    (aq : AckQueue) (id : ℕ)
    → IsValid aq
    → aq.count ≡ aq.size
    → lookup id (grown aq).emap ≡ Option.map (slot (aq.size * 2) 0) (find_id id (contents aq))
unfolding grown lookup
lookup-grown aq id v full =
    let u = unrolled_lem aq v full in
    let t = take-unrolled aq v full in
    reindex_lem aq.count 0 id (unrolled aq) [] (omega (arith, u.room)) (rw t v.distinct)
    ∙ ap (λ l. join (find_id id l) 0 none) t
    ∙ slot_zero (aq.size * 2) (find_id id (contents aq)) aq.count
        (λ j e.
          omega
            (arith, find_id-lt id (contents aq) e, length-window aq.ring aq.size aq.head aq.count))
        (omega arith)

pub grown-Grown : (aq : AckQueue) → IsValid aq → aq.count ≡ aq.size → Grown aq (grown aq)
grown-Grown aq v full =
    let u = unrolled_lem aq v full in
    let same = contents-grown aq v full in
    record {
      valid = record {
        power =
            unfold grown in (suc v.power.0, ap (λ n. n * 2) v.power.1 ∙ sym (pow-suc 2 v.power.0));
        mask = unfold grown in refl;
        slots = unfold grown in u.room;
        head_in = unfold grown in omega (arith, v.head_in);
        count_in = unfold grown in omega (arith, v.count_in);
        tail_at = unfold grown in ground (arith, v.head_in);
        distinct = rw same v.distinct;
        index = λ id. rw same (unfold grown in lookup-grown aq id v full);
      };
      size = unfold grown in refl;
      count = unfold grown in refl;
      same = same;
      ping = unfold grown in refl;
      ackdone = unfold grown in refl;
    }

-- `grow` panics only from 2^62 slots on.
pub grow-grown : (aq : AckQueue) → aq.size < 2 ^ 62 → grow aq ≡ some (grown aq)
unfolding grow grown
grow-grown aq h = ground arith
