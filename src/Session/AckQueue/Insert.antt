-- ===== src/Session/AckQueue/Insert.antt =====
-- `insert` into the ring appends to the list of the messages that it holds.
use gofly_mqttv.Base.{
  ℕ, suc, ◌+◌, ◌^◌, ◌<◌, ◌≡◌, refl, sym, ap, ap₂, ◌∙◌, Bool, true, false, Option, none, some, [],
  ◌∷◌, ◌++◌, arith, ◌==◌, if◌then◌else◌, length, set, Bool-cases, inl, inr, length-set,
  get_or-set_self,
}
use mathlib.Core.Option
use gofly_mqttv.Session.AckMsg.{Msg, Ackmsg, no_msg, lookup, put, Error}
use gofly_mqttv.Session.AckQueue.{AckQueue, waiting, full, increment, insert_room, insert}
use gofly_mqttv.Session.AckQueue.Spec.{has_id, enqueue}
use gofly_mqttv.Session.AckQueue.Ring.{
  slot, at, window, slot-lt, slot-ne, length-window, window-set_out, window_snoc,
}
use gofly_mqttv.Session.AckQueue.Inv.{
  find_id, find_id-lt, find_id-none, find_id-some, find_id-append, Distinct-append, contents,
  IsValid, lookup-put, increment-next,
}
use gofly_mqttv.Session.AckQueue.Grow.{grown, grown-Grown, grow-grown}

-- The index finds an identifier exactly when a message with it waits.
pub lookup_absent :
    (aq : AckQueue) (id : ℕ)
    → IsValid aq
    → has_id id (contents aq) ≡ false
    → lookup id aq.emap ≡ none
lookup_absent aq id v h =
    v.index id ∙ ap (Option.map (slot aq.size aq.head)) (find_id-none id (contents aq) h)

pub record Found (aq : AckQueue) (id : ℕ) : Type 0 where
  pub place : ℕ
  pub at_place : find_id id (contents aq) ≡ some place
  pub looked_up : lookup id aq.emap ≡ some (slot aq.size aq.head place)
  pub place_in : place < aq.count

pub lookup_present :
    (aq : AckQueue) (id : ℕ) → IsValid aq → has_id id (contents aq) ≡ true → Found aq id
lookup_present aq id v h =
    let (j, e) = find_id-some id (contents aq) h in
    record {
      place = j;
      at_place = e;
      looked_up = v.index id ∙ ap (Option.map (slot aq.size aq.head)) e;
      place_in =
          omega
            (arith, find_id-lt id (contents aq) e, length-window aq.ring aq.size aq.head aq.count);
    }

pushed : AckQueue → Ackmsg → AckQueue
pushed aq m = record aq {
  ring = set aq.ring aq.tail m;
  emap = put m.pktid aq.tail aq.emap;
  tail = increment aq aq.tail;
  count = aq.count + 1;
}

contents-pushed :
    (aq : AckQueue) (m : Ackmsg)
    → IsValid aq
    → aq.count < aq.size
    → contents (pushed aq m) ≡ contents aq ++ m ∷ []
unfolding pushed
contents-pushed aq m v room =
    let e : aq.count + 1 ≡ suc aq.count = omega arith in
    let inside : aq.tail < length aq.ring =
      rw v.tail_at (rw v.slots (slot-lt aq.size aq.head aq.count v.head_in room)) in
    ap (window (set aq.ring aq.tail m) aq.size aq.head) e
    ∙ window_snoc (set aq.ring aq.tail m) aq.size aq.head aq.count v.head_in room
    ∙ ap₂ (λ l x. l ++ x ∷ [])
        (window-set_out aq.ring aq.size aq.head aq.count aq.tail m v.head_in v.count_in
          (λ j k p. slot-ne aq.size aq.head j aq.count v.head_in k room (p ∙ v.tail_at)))
        (ap (at (set aq.ring aq.tail m)) (sym v.tail_at)
          ∙ get_or-set_self aq.ring aq.tail m no_msg inside)

map_if :
    (b : Bool) (f : ℕ → ℕ) (x y l o : Option ℕ)
    → x ≡ Option.map f y
    → l ≡ Option.map f o
    → (if b then x else l) ≡ Option.map f (if b then y else o)
map_if true f x y l o e d = e
map_if false f x y l o e d = d

pushed-IsValid :
    (aq : AckQueue) (m : Ackmsg)
    → IsValid aq
    → aq.count < aq.size
    → has_id m.pktid (contents aq) ≡ false
    → IsValid (pushed aq m)
pushed-IsValid aq m v room out =
    let c = contents-pushed aq m v room in
    let tail_in : aq.tail < aq.size =
      rw v.tail_at (slot-lt aq.size aq.head aq.count v.head_in room) in
    record {
      power = unfold pushed in v.power;
      mask = unfold pushed in v.mask;
      slots = unfold pushed in length-set aq.ring aq.tail m ∙ v.slots;
      head_in = unfold pushed in v.head_in;
      count_in = unfold pushed in omega arith;
      tail_at =
          unfold pushed in
          increment-next aq aq.tail v tail_in ∙ ground (arith, v.tail_at, v.head_in);
      distinct = rw c (Distinct-append (contents aq) m v.distinct out);
      index = λ id.
          rw (c, find_id-append id (contents aq) m out, length-window)
            (unfold pushed in
              lookup-put m.pktid id aq.tail aq.emap
              ∙ map_if (m.pktid == id) _ _ _ _ _ (ap some v.tail_at) (v.index id));
    }

-- What one insertion into a queue with room does.
pub record Inserted (aq : AckQueue) (msg : Msg) (done : ℕ) (new : AckQueue) : Type 0 where
  pub valid : IsValid new
  pub items : contents new ≡ enqueue msg done (contents aq)
  pub ping : new.ping ≡ aq.ping
  pub ackdone : new.ackdone ≡ aq.ackdone

kept :
    (aq : AckQueue) (msg : Msg) (done : ℕ)
    → IsValid aq
    → enqueue msg done (contents aq) ≡ contents aq
    → Inserted aq msg done aq
kept aq msg done v e = record { valid = v; items = sym e; ping = refl; ackdone = refl }

insert_room-present :
    (aq : AckQueue) (msg : Msg) (done i : ℕ)
    → lookup msg.packet_id aq.emap ≡ some i
    → (insert_room aq msg done).0 ≡ aq
unfolding insert_room
insert_room-present aq msg done i e = ground (arith, e)

insert_room-failed :
    (aq : AckQueue) (msg : Msg) (done : ℕ)
    → lookup msg.packet_id aq.emap ≡ none
    → msg.encode_fails ≡ true
    → (insert_room aq msg done).0 ≡ aq
unfolding insert_room
insert_room-failed aq msg done e f = ground (arith, e)

insert_room-fresh :
    (aq : AckQueue) (msg : Msg) (done : ℕ)
    → lookup msg.packet_id aq.emap ≡ none
    → msg.encode_fails ≡ false
    → (insert_room aq msg done).0 ≡ pushed aq (waiting msg done)
unfolding insert_room pushed
insert_room-fresh aq msg done e f = ground (arith, e)

insert_room-Inserted :
    (aq : AckQueue) (msg : Msg) (done : ℕ)
    → IsValid aq
    → aq.count < aq.size
    → Inserted aq msg done (insert_room aq msg done).0
insert_room-Inserted aq msg done v room = elim (Bool-cases (has_id msg.packet_id (contents aq))) [
  | inl h ↦
      let f = lookup_present aq msg.packet_id v h in
      rw (insert_room-present aq msg done _ f.looked_up) (kept aq msg done v (rw h))
  | inr h ↦
      let e = lookup_absent aq msg.packet_id v h in
      elim (Bool-cases msg.encode_fails) [
        | inl f ↦ rw (insert_room-failed aq msg done e f) (kept aq msg done v (rw (h, f)))
        | inr f ↦ rw (insert_room-fresh aq msg done e f) (record {
          valid = pushed-IsValid aq (waiting msg done) v room h;
          items = contents-pushed aq (waiting msg done) v room ∙ rw (h, f);
          ping = unfold pushed in refl;
          ackdone = unfold pushed in refl;
        })
      ]
]

-- `insert` never panics below 2^62 slots, growing a full ring first.
pub insert-Inserted :
    (aq : AckQueue) (msg : Msg) (done : ℕ)
    → IsValid aq
    → aq.size < 2 ^ 62
    → (new : AckQueue) × (e : Option Error) × (insert aq msg done ≡ some (new, e))
      × Inserted aq msg done new
unfolding insert full
insert-Inserted aq msg done v h = elim (Bool-cases (aq.count == aq.size)) [
  | inl f ↦
      let g = grown-Grown aq v (ground arith) in
      let r =
        insert_room-Inserted (grown aq) msg done g.valid
          (omega (arith, g.count, g.size, v.head_in, v.count_in)) in
      (
        (insert_room (grown aq) msg done).0,
        (insert_room (grown aq) msg done).1,
        rw (f, grow-grown aq h) refl,
        record {
          valid = r.valid;
          items = r.items ∙ ap (enqueue msg done) g.same;
          ping = r.ping ∙ g.ping;
          ackdone = r.ackdone ∙ g.ackdone;
        },
      )
  | inr f ↦ (
    (insert_room aq msg done).0,
    (insert_room aq msg done).1,
    rw f refl,
    insert_room-Inserted aq msg done v (ground (arith, v.count_in)),
  )
]
