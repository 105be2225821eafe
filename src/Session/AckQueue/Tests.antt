-- ===== src/Session/AckQueue/Tests.antt =====
-- Runs of the queue, and its theorems at concrete inputs.
use gofly_mqttv.Base.{ℕ, ◌^◌, ◌≡◌, refl, true, false, Option, none, some, [], ◌∷◌, arith, map}
use gofly_mqttv.Message.Kind
use gofly_mqttv.Session.AckMsg.{
  publish, other, Msg, Ackmsg, no_msg, Error, lookup, delete, duplicate_dup,
}
use gofly_mqttv.Session.AckQueue.{AckQueue, new_ackqueue, wait, ack, acked, insert_room}
use gofly_mqttv.Session.AckQueue.Spec.{wait_queue, ack_queue, acked_queue}
use gofly_mqttv.Session.AckQueue.Inv.{IsValid, contents}
use gofly_mqttv.Session.AckQueue.Refine.{view, Refines, wait-Refines, ack-Refines}
use gofly_mqttv.Session.AckQueue.Acked.{acked-refines}
use gofly_mqttv.Session.AckQueue.Init.{new_ackqueue-IsValid}
use gofly_mqttv.Session.AckQueue.Ring.{window}

abbrev publish_msg : ℕ → Msg
publish_msg id = record {
  class = publish;
  mtype = Kind.publish;
  qos = 1;
  dup = false;
  packet_id = id;
  encoded = 0x32 ∷ id ∷ [];
  encode_fails = false;
}

abbrev ack_msg : ℕ → Msg
ack_msg id = record {
  class = other;
  mtype = Kind.puback;
  qos = 0;
  dup = false;
  packet_id = id;
  encoded = 0x40 ∷ id ∷ [];
  encode_fails = false;
}

abbrev or_new : Option (AckQueue × Option Error) → AckQueue
or_new none = new_ackqueue 2
or_new (some (aq, e)) = aq

abbrev push : AckQueue → ℕ → AckQueue
push aq id = or_new (wait aq (publish_msg id) 0)

-- Three messages in a ring of two slots, which grows; the second and the first are acknowledged.
three : AckQueue
unfolding wait new_ackqueue
three = push (push (push (new_ackqueue 2) 7) 8) 9

three_ids : map (λ (m : Ackmsg). m.pktid) (contents three) ≡ 7 ∷ 8 ∷ 9 ∷ []
unfolding three window lookup delete
three_ids = refl

acked_ids :
    map (λ (m : Ackmsg). m.pktid) (acked (ack (ack three (ack_msg 8)).0 (ack_msg 7)).0).ackdone
    ≡ 7 ∷ 8 ∷ []
unfolding three window lookup delete ack acked
acked_ids = refl

-- The first message is not acknowledged, and nothing is taken.
acked_in_order : (acked (ack three (ack_msg 8)).0).ackdone ≡ []
unfolding three window lookup delete ack acked
acked_in_order = refl

-- A duplicate is refused when its DUP flag is set, and taken when it is not.
dup_refused :
    ((insert_room three (record (publish_msg 8) { dup = true }) 0).1 ≡ some duplicate_dup)
    × ((insert_room three (publish_msg 8) 0).1 ≡ none)
unfolding three window lookup delete insert_room
dup_refused = (refl, refl)

new_IsValid : IsValid (new_ackqueue (2 ^ 5))
new_IsValid = (new_ackqueue-IsValid 5).0

new_ackqueue-IsValid_example :
    IsValid (new_ackqueue (2 ^ 9))
    × ((new_ackqueue (2 ^ 9)).size ≡ 512)
    × (view (new_ackqueue (2 ^ 9)) ≡ record { items = []; ping = no_msg })
new_ackqueue-IsValid_example = new_ackqueue-IsValid 9

wait-Refines_example :
    (new : AckQueue) × (e : Option Error) × (wait (new_ackqueue (2 ^ 5)) (publish_msg 7) 1
      ≡ some (new, e))
    × Refines (wait_queue publish (view (new_ackqueue (2 ^ 5))) (publish_msg 7) 1) new e
wait-Refines_example =
    wait-Refines (new_ackqueue (2 ^ 5)) (publish_msg 7) 1 new_IsValid
      (omega (arith, (new_ackqueue-IsValid 5).1))

one_waits : AckQueue
unfolding wait
one_waits =
    (wait-Refines (new_ackqueue (2 ^ 5)) (publish_msg 7) 1 new_IsValid
      (omega (arith, (new_ackqueue-IsValid 5).1))).0

one_waits-IsValid : IsValid one_waits
unfolding one_waits
one_waits-IsValid =
    (wait-Refines (new_ackqueue (2 ^ 5)) (publish_msg 7) 1 new_IsValid
      (omega (arith, (new_ackqueue-IsValid 5).1))).3.valid

ack-Refines_example :
    Refines
      (ack_queue (view one_waits) (ack_msg 7))
      (ack one_waits (ack_msg 7)).0
      (ack one_waits (ack_msg 7)).1
ack-Refines_example = ack-Refines one_waits (ack_msg 7) one_waits-IsValid

acked-refines_example :
    IsValid (acked one_waits)
    × ((view (acked one_waits), (acked one_waits).ackdone) ≡ acked_queue (view one_waits))
acked-refines_example = acked-refines one_waits one_waits-IsValid
