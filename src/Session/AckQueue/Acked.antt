-- ===== src/Session/AckQueue/Acked.antt =====
-- `Acked` takes the completed messages off the front of the ring.
use gofly_mqttv.Base.{
  ℕ, zero, suc, ◌≤◌, ◌<◌, ◌≡◌, refl, sym, ap, ◌∙◌, true, false, List, [], ◌∷◌, ◌++◌, arith, ◌==◌,
  Bool-cases, ==_iff, inl, inr,
}
use mathlib.Core.List.{append-nil, append_assoc}
use gofly_mqttv.Message.Kind
use gofly_mqttv.Session.AckMsg.{Ackmsg, no_msg}
use gofly_mqttv.Session.AckQueue.{AckQueue, empty, is_done, drain, take_ping, acked}
use gofly_mqttv.Session.AckQueue.Spec.{acked_queue, finished, unfinished}
use gofly_mqttv.Session.AckQueue.Ring.{at, window}
use gofly_mqttv.Session.AckQueue.Inv.{contents, IsValid}
use gofly_mqttv.Session.AckQueue.Refine.{view, with_ping}
use gofly_mqttv.Session.AckQueue.Remove.{
  dropped, behind, contents-cons, contents-dropped, dropped-IsValid,
}

with_done : AckQueue → List Ackmsg → AckQueue
with_done aq ms = record aq { ackdone = ms }

with_done-IsValid : (aq : AckQueue) (ms : List Ackmsg) → IsValid aq → IsValid (with_done aq ms)
unfolding with_done
with_done-IsValid aq ms v = record {
  power = v.power;
  mask = v.mask;
  slots = v.slots;
  head_in = v.head_in;
  count_in = v.count_in;
  tail_at = v.tail_at;
  distinct = v.distinct;
  index = v.index;
}

-- What the loop of `Acked` has done when it stops.
record Drained (aq new : AckQueue) : Type 0 where
  valid : IsValid new
  items : contents new ≡ unfinished (contents aq)
  done : new.ackdone ≡ aq.ackdone ++ finished (contents aq)
  ping : new.ping ≡ aq.ping

stopped :
    (aq : AckQueue) (ms : List Ackmsg)
    → IsValid aq
    → contents aq ≡ ms
    → unfinished ms ≡ ms
    → finished ms ≡ []
    → Drained aq aq
stopped aq ms v e u f = record {
  valid = v;
  items = e ∙ sym u ∙ ap unfinished (sym e);
  done = sym (append-nil aq.ackdone) ∙ ap (λ l. aq.ackdone ++ l) (sym f ∙ ap finished (sym e));
  ping = refl;
}

-- One round: the first message is completed and goes to the result.
round : AckQueue → AckQueue
unfolding dropped with_done
round aq = dropped (with_done aq (aq.ackdone ++ at aq.ring aq.head ∷ []))

drain_step :
    (fuel : ℕ) (aq : AckQueue)
    → 0 < aq.count
    → is_done (at aq.ring aq.head).state ≡ true
    → drain (suc fuel) aq ≡ drain fuel (round aq)
unfolding drain empty round
drain_step fuel aq h d = let z : (aq.count == 0) ≡ false = ground arith in rw (z, d)

drain_stop :
    (fuel : ℕ) (aq : AckQueue)
    → is_done (at aq.ring aq.head).state ≡ false
    → drain (suc fuel) aq ≡ aq
unfolding drain empty
drain_stop fuel aq d = elim (Bool-cases (aq.count == 0)) [ inl z ↦ rw z | inr z ↦ rw (z, d) ]

drain_empty : (fuel : ℕ) (aq : AckQueue) → aq.count ≡ 0 → drain fuel aq ≡ aq
unfolding drain empty
drain_empty zero aq e = refl
drain_empty (suc fuel) aq e = let z : (aq.count == 0) ≡ true = ground arith in rw z

contents-empty : (aq : AckQueue) → aq.count ≡ 0 → contents aq ≡ []
unfolding window
contents-empty aq e = ap (window aq.ring aq.size aq.head) e

round-IsValid : (aq : AckQueue) → IsValid aq → 0 < aq.count → IsValid (round aq)
unfolding round
round-IsValid aq v h =
    dropped-IsValid (with_done aq (aq.ackdone ++ at aq.ring aq.head ∷ []))
      (with_done-IsValid aq (aq.ackdone ++ at aq.ring aq.head ∷ []) v) h

count-round : (aq : AckQueue) (fuel : ℕ) → aq.count ≤ suc fuel → (round aq).count ≤ fuel
unfolding round
count-round aq fuel h = omega arith

contents-round : (aq : AckQueue) → IsValid aq → 0 < aq.count → contents (round aq) ≡ behind aq
unfolding round behind
contents-round aq v h =
    contents-dropped (with_done aq (aq.ackdone ++ at aq.ring aq.head ∷ []))
      (with_done-IsValid aq (aq.ackdone ++ at aq.ring aq.head ∷ []) v) h

after_round :
    (aq new : AckQueue)
    → IsValid aq
    → 0 < aq.count
    → is_done (at aq.ring aq.head).state ≡ true
    → Drained (round aq) new
    → Drained aq new
after_round aq new v h d r =
    let m = at aq.ring aq.head in
    let c = contents-cons aq h in
    let b = contents-round aq v h in
    record {
      valid = r.valid;
      items = r.items ∙ ap unfinished b ∙ sym (ap unfinished c ∙ rw d);
      done =
          r.done
          ∙ ap (λ l. (round aq).ackdone ++ finished l) b
          ∙ unfold round in
            append_assoc aq.ackdone (m ∷ []) (finished (behind aq))
            ∙ ap (λ l. aq.ackdone ++ l) (sym (ap finished c ∙ rw d));
      ping = r.ping ∙ unfold round in refl;
    }

drain-Drained :
    (fuel : ℕ) (aq : AckQueue) → IsValid aq → aq.count ≤ fuel → Drained aq (drain fuel aq)
drain-Drained zero aq v h =
    let e : aq.count ≡ 0 = omega arith in
    rw (drain_empty 0 aq e) (stopped aq [] v (contents-empty aq e) refl refl)
drain-Drained (suc fuel) aq v h = elim (Bool-cases (aq.count == 0)) [
  | inl z ↦
      let e : aq.count ≡ 0 = (==_iff _ _).0 z in
      rw (drain_empty (suc fuel) aq e) (stopped aq [] v (contents-empty aq e) refl refl)
  | inr z ↦
      let some_left : 0 < aq.count = ground arith in
      elim (Bool-cases (is_done (at aq.ring aq.head).state)) [
        | inl d ↦ rw (drain_step fuel aq some_left d) (
            after_round aq _ v some_left d (
              drain-Drained fuel (round aq) (round-IsValid aq v some_left) (count-round aq fuel h)))
        | inr d ↦
            rw (drain_stop fuel aq d) (stopped aq _ v (contents-cons aq some_left) (rw d) (rw d))
      ]
]

acked_from :
    (aq t : AckQueue)
    → take_ping aq ≡ t
    → t.count ≡ aq.count
    → Drained t (drain t.count t)
    → Drained t (acked aq)
unfolding acked
acked_from aq t e n d = rw (e, ← n) d

-- `Acked` refines `acked_queue`: the queue stays valid, and it returns an answered ping and then the
-- completed messages at the front, in order, and keeps the others.
pub acked-refines :
    (aq : AckQueue)
    → IsValid aq
    → IsValid (acked aq) × ((view (acked aq), (acked aq).ackdone) ≡ acked_queue (view aq))
acked-refines aq v = elim (Bool-cases (aq.ping.state == Kind.pingresp)) [
  | inl e ↦
      let t : AckQueue = record aq { ackdone = aq.ping ∷ []; ping = no_msg } in
      let vt : IsValid t =
        unfold with_done in with_done-IsValid _ (aq.ping ∷ []) (with_ping aq no_msg v) in
      let d =
        acked_from aq t (unfold take_ping in rw e) refl
          (drain-Drained t.count t vt (omega arith)) in
      (d.valid, unfold acked_queue in ground (arith, d.items, d.done, d.ping))
  | inr e ↦
      let t : AckQueue = record aq { ackdone = [] } in
      let vt : IsValid t = unfold with_done in with_done-IsValid aq [] v in
      let d =
        acked_from aq t (unfold take_ping in rw e) refl
          (drain-Drained t.count t vt (omega arith)) in
      (d.valid, unfold acked_queue in ground (arith, d.items, d.done, d.ping))
]
