-- ===== src/Session/AckQueue/Spec.antt =====
-- What the queue promises: the messages that wait, oldest first, one for each packet identifier.
use gofly_mqttv.Base.{
  ℕ, Bool, false, ◌||◌, Option, none, some, List, [], ◌∷◌, ◌++◌, ◌==◌, if◌then◌else◌, ◌≡◌,
}
use gofly_mqttv.Message.Kind
use gofly_mqttv.Session.AckMsg.{
  Class, publish, subscribe, unsubscribe, pingreq, other, Msg, Ackmsg, no_msg, Error, wait_message,
  ack_message,
}
use gofly_mqttv.Session.AckQueue.{waiting, acknowledged, is_done, acks_packet, encode_error}

abbrev pub has_id : ℕ → List Ackmsg → Bool
has_id id [] = false
has_id id (m ∷ ms) = m.pktid == id || has_id id ms

abbrev pub Distinct : List Ackmsg → Type 0
Distinct [] = Unit
Distinct (m ∷ ms) = (has_id m.pktid ms ≡ false) × Distinct ms

-- A message is appended unless its identifier waits already or it cannot be encoded.
abbrev pub enqueue : Msg → ℕ → List Ackmsg → List Ackmsg
enqueue msg done ms =
    if has_id msg.packet_id ms || msg.encode_fails then ms else ms ++ waiting msg done ∷ []

-- An acknowledgement is recorded in the message with its identifier.
abbrev pub acknowledge : Msg → List Ackmsg → List Ackmsg
acknowledge msg [] = []
acknowledge msg (m ∷ ms) =
    if m.pktid == msg.packet_id then acknowledged msg m ∷ ms else m ∷ acknowledge msg ms

-- The completed messages at the front, and what stays behind them.
abbrev pub finished : List Ackmsg → List Ackmsg
finished [] = []
finished (m ∷ ms) = if is_done m.state then m ∷ finished ms else []

abbrev pub unfinished : List Ackmsg → List Ackmsg
unfinished [] = []
unfinished (m ∷ ms) = if is_done m.state then unfinished ms else m ∷ ms

pub record Queue : Type 0 where
  pub items : List Ackmsg
  pub ping : Ackmsg

-- `Wait` on the list: it refuses what needs no acknowledgement, and reports no error of an insertion.
unfoldable pub wait_queue : Class → Queue → Msg → ℕ → Queue × Option Error
wait_queue publish q msg done =
    if msg.qos == 0
    then (q, some wait_message)
    else (record q { items = enqueue msg done q.items }, none)
wait_queue subscribe q msg done = (record q { items = enqueue msg done q.items }, none)
wait_queue unsubscribe q msg done = (record q { items = enqueue msg done q.items }, none)
wait_queue pingreq q msg done =
    (record q { ping = record no_msg { mtype = Kind.pingreq; on_complete = done } }, none)
wait_queue other q msg done = (q, some wait_message)

-- `Ack` on the list: an error of the encoding is reported only for a message that waits.
unfoldable pub ack_queue : Queue → Msg → Queue × Option Error
ack_queue q msg =
    if acks_packet msg.mtype
    then (
      record q { items = acknowledge msg q.items },
      if has_id msg.packet_id q.items then encode_error msg else none,
    )
    else if msg.mtype == Kind.pingresp
    then (if q.ping.mtype == Kind.pingreq
        then (record q { ping = record q.ping { state = Kind.pingresp } }, none)
        else (q, none))
    else (q, some ack_message)

-- `Acked` on the list: an answered ping, then the completed messages at the front.
unfoldable pub acked_queue : Queue → Queue × List Ackmsg
acked_queue q =
    if q.ping.state == Kind.pingresp
    then (record { items = unfinished q.items; ping = no_msg }, q.ping ∷ finished q.items)
    else (record q { items = unfinished q.items }, finished q.items)
