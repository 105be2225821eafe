-- ===== src/Session/AckQueue/Remove.antt =====
-- `removeHead` takes the first message off the ring.
use gofly_mqttv.Base.{
  ℕ, suc, ◌-◌, ◌≤◌, ◌<◌, ◌≡◌, refl, sym, ap, ◌∙◌, true, false, Option, none, some, List, ◌∷◌, arith,
  ◌==◌, if◌then◌else◌, length, get_or, set, Bool-cases, ==_iff, ◌⊎◌, inl, inr, length-set,
}
use mathlib.Core.Option
use gofly_mqttv.Session.AckMsg.{Ackmsg, no_msg, lookup, delete}
use gofly_mqttv.Session.AckQueue.{AckQueue, increment, remove_head}
use gofly_mqttv.Session.AckQueue.Spec.{has_id, Distinct}
use gofly_mqttv.Session.AckQueue.Ring.{
  next, next-lt, slot-next, slot, at, window, slot-ne, length-window, window-set_out,
}
use gofly_mqttv.Session.AckQueue.Inv.{
  find_id, find_id-lt, find_id-none, contents, IsValid, lookup-delete, increment-next,
}

-- The queue without its first message.
unfoldable pub dropped : AckQueue → AckQueue
dropped aq = record aq {
  ring = set aq.ring aq.head no_msg;
  head = increment aq aq.head;
  count = aq.count - 1;
  emap = delete (get_or aq.ring aq.head no_msg).pktid aq.emap;
}

pub remove_head-dropped : (aq : AckQueue) → 0 < aq.count → (remove_head aq).0 ≡ dropped aq
unfolding remove_head dropped
remove_head-dropped aq h = ground arith

-- The messages behind the first.
unfoldable pub behind : AckQueue → List Ackmsg
behind aq = window aq.ring aq.size (next aq.size aq.head) (aq.count - 1)

pub contents-cons : (aq : AckQueue) → 0 < aq.count → contents aq ≡ at aq.ring aq.head ∷ behind aq
unfolding behind window
contents-cons aq h =
    let e : aq.count ≡ suc (aq.count - 1) = omega arith in ap (window aq.ring aq.size aq.head) e

slot_self : (size h : ℕ) → h < size → slot size h 0 ≡ h
slot_self size h lt = ground arith

pub contents-dropped :
    (aq : AckQueue) → IsValid aq → 0 < aq.count → contents (dropped aq) ≡ behind aq
unfolding dropped behind
contents-dropped aq v h =
    ap (λ i. window (set aq.ring aq.head no_msg) aq.size i (aq.count - 1))
      (increment-next aq aq.head v v.head_in)
    ∙ window-set_out aq.ring aq.size (next aq.size aq.head) (aq.count - 1) aq.head no_msg
        (next-lt aq.size aq.head v.head_in) (omega (arith, v.count_in))
        (λ j k p.
          slot-ne aq.size aq.head 0 (suc j) v.head_in (omega arith) (omega (arith, v.count_in)) (
            slot_self aq.size aq.head v.head_in
            ∙ sym p
            ∙ slot-next aq.size aq.head j v.head_in (omega (arith, v.count_in))))

-- Places behind the first message, counted from either head.
shift_places :
    (size h n : ℕ) (o : Option ℕ)
    → h < size
    → suc n ≤ size
    → ((j : ℕ) → o ≡ some j → j < n)
    → Option.map (slot size h) (Option.map suc o) ≡ Option.map (slot size (next size h)) o
shift_places size h n none lt le k = refl
shift_places size h n (some j) lt le k =
    let b = k j refl in ap some (sym (slot-next size h j lt (omega arith)))

-- Only the first message has its identifier.
Distinct-behind :
    (aq : AckQueue)
    → IsValid aq
    → 0 < aq.count
    → (has_id (at aq.ring aq.head).pktid (behind aq) ≡ false) × Distinct (behind aq)
Distinct-behind aq v h = rw (contents-cons aq h) at v.distinct

find_id-other :
    (id : ℕ) (m : Ackmsg) (ms : List Ackmsg)
    → (m.pktid == id) ≡ false
    → find_id id (m ∷ ms) ≡ Option.map suc (find_id id ms)
unfolding find_id
find_id-other id m ms e = rw e

length-behind : (aq : AckQueue) → length (behind aq) ≡ aq.count - 1
unfolding behind
length-behind aq = length-window aq.ring aq.size (next aq.size aq.head) (aq.count - 1)

behind-index :
    (aq : AckQueue) (id : ℕ)
    → IsValid aq
    → 0 < aq.count
    → (((at aq.ring aq.head).pktid == id) ≡ true) ⊎ (((at aq.ring aq.head).pktid == id) ≡ false)
    → (if (at aq.ring aq.head).pktid == id then none else lookup id aq.emap)
      ≡ Option.map (slot aq.size (next aq.size aq.head)) (find_id id (behind aq))
behind-index aq id v h (inl e) =
    let same : (at aq.ring aq.head).pktid ≡ id = (==_iff _ _).0 e in
    let gone : find_id id (behind aq) ≡ none =
      find_id-none id (behind aq) (rw same at (Distinct-behind aq v h).0) in
    rw (e, gone)
behind-index aq id v h (inr e) = rw e (
    v.index id
    ∙ ap (λ l. Option.map (slot aq.size aq.head) (find_id id l)) (contents-cons aq h)
    ∙ ap (Option.map (slot aq.size aq.head)) (find_id-other id (at aq.ring aq.head) (behind aq) e)
    ∙ shift_places aq.size aq.head (aq.count - 1) (find_id id (behind aq)) v.head_in
        (omega (arith, v.count_in))
        (λ j q. omega (arith, find_id-lt id (behind aq) q, length-behind aq)))

dropped-index :
    (aq : AckQueue) (id : ℕ)
    → IsValid aq
    → 0 < aq.count
    → lookup id (dropped aq).emap
      ≡ Option.map (slot aq.size (next aq.size aq.head)) (find_id id (behind aq))
unfolding dropped
dropped-index aq id v h =
    lookup-delete (at aq.ring aq.head).pktid id aq.emap
    ∙ behind-index aq id v h (Bool-cases ((at aq.ring aq.head).pktid == id))

tail-dropped :
    (aq : AckQueue)
    → IsValid aq
    → 0 < aq.count
    → aq.tail ≡ slot aq.size (next aq.size aq.head) (aq.count - 1)
tail-dropped aq v h =
    let e : aq.count ≡ suc (aq.count - 1) = omega arith in
    v.tail_at
    ∙ ap (slot aq.size aq.head) e
    ∙ sym (slot-next aq.size aq.head (aq.count - 1) v.head_in (omega (arith, v.count_in)))

pub dropped-IsValid : (aq : AckQueue) → IsValid aq → 0 < aq.count → IsValid (dropped aq)
dropped-IsValid aq v h =
    let c = contents-dropped aq v h in
    let step = increment-next aq aq.head v v.head_in in
    record {
      power = unfold dropped in v.power;
      mask = unfold dropped in v.mask;
      slots = unfold dropped in length-set aq.ring _ _ ∙ v.slots;
      head_in = unfold dropped in rw step (next-lt aq.size aq.head v.head_in);
      count_in = unfold dropped in omega (arith, v.count_in);
      tail_at = unfold dropped in rw step (tail-dropped aq v h);
      distinct = rw c (Distinct-behind aq v h).1;
      index = λ id. rw c (unfold dropped in rw step (dropped-index aq id v h));
    }
