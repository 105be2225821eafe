-- ===== src/Session/AckQueue.antt =====
-- broker/impl/session/mem_ackqueue.go, with `Ackmsg` of broker/core/session/ackqueue.go: the ring of
-- messages that wait for an acknowledgement. An `int64` is a number; the sizes stay below 2^62, where
-- `grow` panics. The mutex makes each method one step. Go reuses the slice that `Acked` returns at the
-- next call; here it is a value.
pub mod Spec
pub mod Ring
pub mod Inv
pub mod Unroll
pub mod Grow
pub mod Insert
pub mod Refine
pub mod Remove
pub mod Acked
pub mod Init
mod Tests
use gofly_mqttv.Base.{
  ℕ, zero, suc, ◌+◌, ◌-◌, ◌*◌, ◌/◌, ◌^◌, Bool, true, false, not, ◌&&◌, ◌||◌, Option, none, some,
  List, [], ◌∷◌, ◌++◌, ltb, ◌==◌, if◌then◌else◌, length, get_or, set, take, drop, replicate,
  bit_and, bit_or,
}
use gofly_mqttv.Message.Kind
use gofly_mqttv.Session.AckMsg.{
  Class, publish, subscribe, unsubscribe, pingreq, other, Msg, Ackmsg, no_msg, Index, lookup,
  delete, put, Error, wait_message, ack_message, encode_failed, duplicate_id, duplicate_dup,
  queue_empty,
}

-- `ackqueue`
pub record AckQueue : Type 0 where
  pub size : ℕ
  pub mask : ℕ
  pub count : ℕ
  pub head : ℕ
  pub tail : ℕ
  pub ping : Ackmsg
  pub ring : List Ackmsg
  pub emap : Index
  pub ackdone : List Ackmsg

-- `powerOfTwo64`, for 1 ≤ n
unfoldable pub power_of_two64 : ℕ → Bool
power_of_two64 n = not (n == 0) && bit_and n (n - 1) == 0

-- `n |= n >> k`
abbrev pub smear : ℕ → ℕ → ℕ
smear k n = bit_or n (n / 2 ^ k)

-- `roundUpPowerOfTwo64`, for 1 ≤ n
unfoldable pub round_up_power_of_two64 : ℕ → ℕ
round_up_power_of_two64 n = smear 32 (smear 16 (smear 8 (smear 4 (smear 2 (smear 1 (n - 1)))))) + 1

abbrev pub empty_queue : ℕ → AckQueue
empty_queue m = record {
  size = m;
  mask = m - 1;
  count = 0;
  head = 0;
  tail = 0;
  ping = no_msg;
  ring = replicate m no_msg;
  emap = [];
  ackdone = [];
}

-- `newAckqueue`, for 1 ≤ n
unfoldable pub new_ackqueue : ℕ → AckQueue
unfolding power_of_two64 round_up_power_of_two64
new_ackqueue n = empty_queue (if power_of_two64 n then n else round_up_power_of_two64 n)

-- `full`, `empty`, `increment` by `index`
unfoldable pub full : AckQueue → Bool
full aq = aq.count == aq.size

unfoldable pub empty : AckQueue → Bool
empty aq = aq.count == 0

unfoldable pub increment : AckQueue → ℕ → ℕ
increment aq n = bit_and (n + 1) aq.mask

-- `copy(dst[at:], src)`
unfoldable pub copy : List Ackmsg → ℕ → List Ackmsg → List Ackmsg
copy dst at [] = dst
copy dst at (x ∷ src) = copy (set dst at x) (at + 1) src

-- `for i := 0; i < aq.tail; i++ { aq.emap[aq.ring[i].Pktid] = i }`: `n` rounds from `i` on.
unfoldable pub reindex : ℕ → ℕ → List Ackmsg → Index → Index
reindex zero i ring m = m
reindex (suc n) i ring m = reindex n (i + 1) ring (put (get_or ring i no_msg).pktid i m)

-- The ring that `grow` copies into the new slice.
unfoldable pub unrolled : AckQueue → List Ackmsg
unfolding copy
unrolled aq =
    let new = replicate (aq.size * 2) no_msg in
    if ltb aq.head aq.tail
    then copy new 0 (take (aq.tail - aq.head) (drop aq.head aq.ring))
    else copy (copy new 0 (drop aq.head aq.ring)) (aq.size - aq.head) (take aq.tail aq.ring)

-- `grow`; `none` is its panic.
unfoldable pub grow : AckQueue → Option AckQueue
unfolding unrolled reindex
grow aq =
    if ltb ((2 ^ 63 - 1) / 2) aq.size
    then none
    else some (record aq {
      size = aq.size * 2;
      mask = aq.size * 2 - 1;
      ring = unrolled aq;
      head = 0;
      tail = aq.count;
      emap = reindex aq.count 0 (unrolled aq) [];
    })

abbrev pub waiting : Msg → ℕ → Ackmsg
waiting msg done = record {
  mtype = msg.mtype;
  state = Kind.reserved;
  pktid = msg.packet_id;
  msgbuf = msg.encoded;
  ackbuf = [];
  on_complete = done;
}

-- `insert` in a queue with room
unfoldable pub insert_room : AckQueue → Msg → ℕ → AckQueue × Option Error
unfolding lookup increment
insert_room aq msg done = elim (lookup msg.packet_id aq.emap) [
  | none ↦ if msg.encode_fails then (aq, some encode_failed) else (
    record aq {
      ring = set aq.ring aq.tail (waiting msg done);
      emap = put msg.packet_id aq.tail aq.emap;
      tail = increment aq aq.tail;
      count = aq.count + 1;
    },
    none,
  )
  | some i ↦ elim msg.class [
    | publish ↦ if msg.dup then (aq, some duplicate_dup) else (aq, none)
    | _ ↦ (aq, some duplicate_id)
  ]
]

abbrev with_room : Option AckQueue → Msg → ℕ → Option (AckQueue × Option Error)
with_room none msg done = none
with_room (some aq) msg done = some (insert_room aq msg done)

-- `insert`; `none` is the panic of `grow`.
unfoldable pub insert : AckQueue → Msg → ℕ → Option (AckQueue × Option Error)
unfolding insert_room full grow
insert aq msg done = with_room (if full aq then grow aq else some aq) msg done

-- `Wait` drops the error of `insert`.
abbrev pub drop_error : Option (AckQueue × Option Error) → Option (AckQueue × Option Error)
drop_error none = none
drop_error (some (aq, e)) = some (aq, none)

-- The cases of `Wait`, by the Go type of the message.
unfoldable pub wait_class : Class → AckQueue → Msg → ℕ → Option (AckQueue × Option Error)
unfolding insert
wait_class publish aq msg done =
    if msg.qos == 0 then some (aq, some wait_message) else drop_error (insert aq msg done)
wait_class subscribe aq msg done = drop_error (insert aq msg done)
wait_class unsubscribe aq msg done = drop_error (insert aq msg done)
wait_class pingreq aq msg done =
    some (record aq { ping = record no_msg { mtype = Kind.pingreq; on_complete = done } }, none)
wait_class other aq msg done = some (aq, some wait_message)

-- `Wait`
unfoldable pub wait : AckQueue → Msg → ℕ → Option (AckQueue × Option Error)
unfolding wait_class
wait aq msg done = wait_class msg.class aq msg done

-- The types that `Ack` takes by packet identifier.
unfoldable pub acks_packet : ℕ → Bool
acks_packet t =
    t == Kind.puback
    || t == Kind.pubrec
    || t == Kind.pubrel
    || t == Kind.pubcomp
    || t == Kind.suback
    || t == Kind.unsuback

-- `aq.ring[i]` after an acknowledgement
abbrev pub acknowledged : Msg → Ackmsg → Ackmsg
acknowledged msg am = record am { state = msg.mtype; ackbuf = msg.encoded }

abbrev pub encode_error : Msg → Option Error
encode_error msg = if msg.encode_fails then some encode_failed else none

-- `Ack`
unfoldable pub ack : AckQueue → Msg → AckQueue × Option Error
unfolding lookup acks_packet
ack aq msg =
    if acks_packet msg.mtype
    then (elim (lookup msg.packet_id aq.emap) [
      | none ↦ (aq, none)
      | some i ↦ (
        record aq { ring = set aq.ring i (acknowledged msg (get_or aq.ring i no_msg)) },
        encode_error msg,
      )
    ])
    else if msg.mtype == Kind.pingresp
    then (if aq.ping.mtype == Kind.pingreq
        then (record aq { ping = record aq.ping { state = Kind.pingresp } }, none)
        else (aq, none))
    else (aq, some ack_message)

-- `removeHead`
unfoldable pub remove_head : AckQueue → AckQueue × Option Error
unfolding empty increment delete
remove_head aq = if empty aq then (aq, some queue_empty) else (
  record aq {
    ring = set aq.ring aq.head no_msg;
    head = increment aq aq.head;
    count = aq.count - 1;
    emap = delete (get_or aq.ring aq.head no_msg).pktid aq.emap;
  },
  none,
)

-- The states at which `Acked` takes a message off the queue.
unfoldable pub is_done : ℕ → Bool
is_done t =
    t == Kind.puback
    || t == Kind.pubrel
    || t == Kind.pubcomp
    || t == Kind.suback
    || t == Kind.unsuback

-- The loop of `Acked`; each round takes one message, so `count` rounds are enough.
unfoldable pub drain : ℕ → AckQueue → AckQueue
unfolding remove_head is_done
drain zero aq = aq
drain (suc fuel) aq =
    let m = get_or aq.ring aq.head no_msg in
    let rest = drain fuel (remove_head (record aq { ackdone = aq.ackdone ++ m ∷ [] })).0 in
    if empty aq then aq else if is_done m.state then rest else aq

-- The `PINGRESP` part of `Acked`
unfoldable pub take_ping : AckQueue → AckQueue
take_ping aq =
    if aq.ping.state == Kind.pingresp
    then record aq { ackdone = aq.ping ∷ []; ping = no_msg }
    else record aq { ackdone = [] }

-- `Acked`: the new queue, whose `ackdone` is the result.
unfoldable pub acked : AckQueue → AckQueue
unfolding drain take_ping
acked aq = drain aq.count (take_ping aq)
