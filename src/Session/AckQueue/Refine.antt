-- ===== src/Session/AckQueue/Refine.antt =====
-- Every method of the ring behaves as the method of the list of messages that it holds.
use gofly_mqttv.Base.{
  ℕ, ◌^◌, ◌<◌, ◌≡◌, refl, sym, ap, ◌∙◌, true, false, Option, none, some, ◌==◌, get_or, set,
  Bool-cases, inl, inr, length-set,
}
use gofly_mqttv.Message.Kind
use gofly_mqttv.Session.AckMsg.{
  Class, publish, subscribe, unsubscribe, pingreq, other, Msg, Ackmsg, no_msg, Error, wait_message,
  ack_message,
}
use gofly_mqttv.Session.AckQueue.{
  AckQueue, acknowledged, insert, wait, wait_class, ack, acks_packet, drop_error,
}
use gofly_mqttv.Session.AckQueue.Spec.{has_id, enqueue, acknowledge, Queue, wait_queue, ack_queue}
use gofly_mqttv.Session.AckQueue.Ring.{slot, window-set_in, at-window}
use gofly_mqttv.Session.AckQueue.Inv.{
  find_id-none, find_id-acknowledge, Distinct-acknowledge, set-acknowledge, acknowledge_absent,
  contents, IsValid,
}
use gofly_mqttv.Session.AckQueue.Insert.{insert-Inserted, Found, lookup_absent, lookup_present}

abbrev pub view : AckQueue → Queue
view aq = record { items = contents aq; ping = aq.ping }

-- What a queue becomes, with the error of the method: it stays valid, and its list and error are those
-- of the specification.
pub record Refines (spec : Queue × Option Error) (new : AckQueue) (e : Option Error) : Type 0 where
  pub valid : IsValid new
  pub items : contents new ≡ spec.0.items
  pub ping : new.ping ≡ spec.0.ping
  pub error : e ≡ spec.1

pub with_ping : (aq : AckQueue) (m : Ackmsg) → IsValid aq → IsValid (record aq { ping = m })
with_ping aq m v = record {
  power = v.power;
  mask = v.mask;
  slots = v.slots;
  head_in = v.head_in;
  count_in = v.count_in;
  tail_at = v.tail_at;
  distinct = v.distinct;
  index = v.index;
}

abbrev enqueued : AckQueue → Msg → ℕ → Queue × Option Error
enqueued aq msg done = (record { items = enqueue msg done (contents aq); ping = aq.ping }, none)

wait_insert :
    (aq : AckQueue) (msg : Msg) (done : ℕ)
    → IsValid aq
    → aq.size < 2 ^ 62
    → (new : AckQueue) × (drop_error (insert aq msg done) ≡ some (new, none))
      × Refines (enqueued aq msg done) new none
wait_insert aq msg done v h =
    let (new, e, run, i) = insert-Inserted aq msg done v h in
    (new, dropped run, record { valid = i.valid; items = i.items; ping = i.ping; error = refl })
  where
    dropped :
        {r : Option (AckQueue × Option Error)} {n : AckQueue} {e : Option Error}
        → r ≡ some (n, e)
        → drop_error r ≡ some (n, none)
    dropped p = ap drop_error p

refused : (aq : AckQueue) (e : Error) → IsValid aq → Refines (view aq, some e) aq (some e)
refused aq e v = record { valid = v; items = refl; ping = refl; error = refl }

abbrev WaitRefines : Class → AckQueue → Msg → ℕ → Type 0
WaitRefines c aq msg done =
    (new : AckQueue) × (e : Option Error) × (wait_class c aq msg done ≡ some (new, e))
    × Refines (wait_queue c (view aq) msg done) new e

wait_class-Refines :
    (c : Class) (aq : AckQueue) (msg : Msg) (done : ℕ)
    → IsValid aq
    → aq.size < 2 ^ 62
    → WaitRefines c aq msg done
unfolding wait_class wait_queue
wait_class-Refines publish aq msg done v h = elim (Bool-cases (msg.qos == 0)) [
  | inl q ↦ rw q (aq, some wait_message, refl, refused aq wait_message v)
  | inr q ↦ let (new, run, r) = wait_insert aq msg done v h in rw q (new, none, run, r)
]
wait_class-Refines subscribe aq msg done v h =
    let (new, run, r) = wait_insert aq msg done v h in (new, none, run, r)
wait_class-Refines unsubscribe aq msg done v h =
    let (new, run, r) = wait_insert aq msg done v h in (new, none, run, r)
wait_class-Refines pingreq aq msg done v h = (
  record aq { ping = record no_msg { mtype = Kind.pingreq; on_complete = done } },
  none,
  refl,
  record { valid = with_ping aq _ v; items = refl; ping = refl; error = refl },
)
wait_class-Refines other aq msg done v h = (aq, some wait_message, refl, refused aq wait_message v)

-- Below 2^62 slots `Wait` does not panic. It refines `wait_queue`, whatever the message.
pub wait-Refines :
    (aq : AckQueue) (msg : Msg) (done : ℕ)
    → IsValid aq
    → aq.size < 2 ^ 62
    → (new : AckQueue) × (e : Option Error) × (wait aq msg done ≡ some (new, e))
      × Refines (wait_queue msg.class (view aq) msg done) new e
unfolding wait
wait-Refines aq msg done v h = wait_class-Refines msg.class aq msg done v h

-- The queue with an acknowledgement written to one slot.
marked : AckQueue → Msg → ℕ → AckQueue
marked aq msg i = record aq { ring = set aq.ring i (acknowledged msg (get_or aq.ring i no_msg)) }

contents-marked :
    (aq : AckQueue) (msg : Msg)
    → IsValid aq
    → (f : Found aq msg.packet_id)
    → contents (marked aq msg (slot aq.size aq.head f.place)) ≡ acknowledge msg (contents aq)
unfolding marked
contents-marked aq msg v f =
    window-set_in aq.ring aq.size aq.head aq.count f.place _ v.head_in v.count_in v.slots f.place_in
    ∙ ap (λ m. set (contents aq) f.place (acknowledged msg m))
        (sym (at-window aq.ring aq.size aq.head aq.count f.place v.head_in v.count_in f.place_in))
    ∙ set-acknowledge msg (contents aq) f.place f.at_place

marked-IsValid :
    (aq : AckQueue) (msg : Msg)
    → IsValid aq
    → (f : Found aq msg.packet_id) → IsValid (marked aq msg (slot aq.size aq.head f.place))
marked-IsValid aq msg v f =
    let c = contents-marked aq msg v f in
    record {
      power = unfold marked in v.power;
      mask = unfold marked in v.mask;
      slots = unfold marked in length-set aq.ring _ _ ∙ v.slots;
      head_in = unfold marked in v.head_in;
      count_in = unfold marked in v.count_in;
      tail_at = unfold marked in v.tail_at;
      distinct = rw c (Distinct-acknowledge msg (contents aq) v.distinct);
      index = λ id. rw (c, find_id-acknowledge) (unfold marked in v.index id);
    }

ack_packet :
    (aq : AckQueue) (msg : Msg)
    → IsValid aq
    → acks_packet msg.mtype ≡ true
    → Refines (ack_queue (view aq) msg) (ack aq msg).0 (ack aq msg).1
unfolding ack ack_queue
ack_packet aq msg v t = elim (Bool-cases (has_id msg.packet_id (contents aq))) [
  | inl h ↦
      let f = lookup_present aq msg.packet_id v h in
      rw (t, f.looked_up, h)
        (record {
          valid = unfold marked in marked-IsValid aq msg v f;
          items = unfold marked in contents-marked aq msg v f;
          ping = refl;
          error = refl;
        })
  | inr h ↦
      rw (t, lookup_absent aq msg.packet_id v h, h)
        (record {
          valid = v;
          items =
              sym
                (acknowledge_absent msg (contents aq) (find_id-none msg.packet_id (contents aq) h));
          ping = refl;
          error = refl;
        })
]

ack_other :
    (aq : AckQueue) (msg : Msg)
    → IsValid aq
    → acks_packet msg.mtype ≡ false
    → Refines (ack_queue (view aq) msg) (ack aq msg).0 (ack aq msg).1
unfolding ack ack_queue
ack_other aq msg v t = elim (Bool-cases (msg.mtype == Kind.pingresp)) [
  | inl p ↦ elim (Bool-cases (aq.ping.mtype == Kind.pingreq)) [
    | inl q ↦
        rw (t, p, q) (record { valid = with_ping aq _ v; items = refl; ping = refl; error = refl })
    | inr q ↦ rw (t, p, q) (record { valid = v; items = refl; ping = refl; error = refl })
  ]
  | inr p ↦ rw (t, p) (refused aq ack_message v)
]

-- `Ack` refines `ack_queue`, whatever the message.
pub ack-Refines :
    (aq : AckQueue) (msg : Msg)
    → IsValid aq
    → Refines (ack_queue (view aq) msg) (ack aq msg).0 (ack aq msg).1
ack-Refines aq msg v = elim (Bool-cases (acks_packet msg.mtype)) [
  | inl t ↦ ack_packet aq msg v t
  | inr t ↦ ack_other aq msg v t
]
