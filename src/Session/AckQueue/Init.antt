-- ===== src/Session/AckQueue/Init.antt =====
-- A new queue.
use gofly_mqttv.Base.{ℕ, ◌^◌, ◌≡◌, refl, true, [], arith, length-replicate}
use gofly_mqttv.Base.Bits.{mask_full, pow_pos}
use gofly_mqttv.Session.AckMsg.{no_msg, lookup}
use gofly_mqttv.Session.AckQueue.{power_of_two64, empty_queue, new_ackqueue}
use gofly_mqttv.Session.AckQueue.Ring.{window}
use gofly_mqttv.Session.AckQueue.Inv.{find_id, IsValid}
use gofly_mqttv.Session.AckQueue.Refine.{view}

power_of_two64-pow : (k : ℕ) → power_of_two64 (2 ^ k) ≡ true
unfolding power_of_two64
power_of_two64-pow k = ground (arith, pow_pos k, mask_full k)

empty_queue-IsValid : (k : ℕ) → IsValid (empty_queue (2 ^ k))
unfolding window find_id lookup
empty_queue-IsValid k = record {
  power = (k, refl);
  mask = refl;
  slots = length-replicate (2 ^ k) no_msg;
  head_in = pow_pos k;
  count_in = omega arith;
  tail_at = ground (arith, pow_pos k);
  distinct = tt;
  index = λ id. refl;
}

-- `newAckqueue` of a power of two makes a valid ring of that many slots, with nothing in it.
pub new_ackqueue-IsValid :
    (k : ℕ)
    → IsValid (new_ackqueue (2 ^ k))
      × ((new_ackqueue (2 ^ k)).size ≡ 2 ^ k)
      × (view (new_ackqueue (2 ^ k)) ≡ record { items = []; ping = no_msg })
unfolding new_ackqueue window
new_ackqueue-IsValid k = rw (power_of_two64-pow k) (empty_queue-IsValid k, refl, refl)
