-- ===== src/Service/Tests.antt =====
-- Rounds of the loops and a packet on a ring of 2048 bytes, and the theorems at them.
use gofly_mqttv.Base.{
  ℕ, ◌≡◌, refl, inl, Option, none, some, List, [], ◌∷◌, ◌++◌, arith, length, set, if◌then◌else◌,
}
use gofly_mqttv.Session.AckQueue.{power_of_two64}
use gofly_mqttv.Message.Kind.{valid_topic}
use gofly_mqttv.Message.Wire.{put_uvarint}
use gofly_mqttv.Session.Memory.{Session, new_mem_session}
use gofly_mqttv.Service.Process.{topic_alice_in, aliased, taken, topic_alice_in-topic_alice_in}
use gofly_mqttv.Service.Buffer.{
  pos, Buffer, empty_buffer, new_buffer, wait_for_write_space, fill_and_publish, ring_copy,
  copy_bytes, eof, close,
}
use gofly_mqttv.Service.Buffer.World.{World, start, write_all, Reach, fresh, next}
use gofly_mqttv.Service.Buffer.Reads.{unread}
use gofly_mqttv.Service.Buffer.Rounds.{goes_on, returns, read_from_round, write_to_round}
use gofly_mqttv.Service.Buffer.Rounds.Laws.{write_to_round-drains}
use gofly_mqttv.Service.Buffer.Rounds.Reading.{read_from_round-lays}
use gofly_mqttv.Service.Operator.{has, fails, not_ready, peek_message_size}
use gofly_mqttv.Service.Operator.Size.{peek_message_size-header}

abbrev no_session : Session
unfolding new_mem_session
no_session = new_mem_session [] none

-- A PUBACK of the packet identifier 7
abbrev puback_bytes : List ℕ
puback_bytes = 64 ∷ 2 ∷ 0 ∷ 7 ∷ []

abbrev puback_ring : Buffer
puback_ring = record (empty_buffer 2048) {
  buf = set (set (set (set (empty_buffer 2048).buf 0 64) 1 2) 2 0) 3 7;
  pseq = 4;
}

abbrev puback_world : World
puback_world = record { ring = puback_ring; room = 4; stream = puback_bytes }

puback-reached : Reach puback_world
unfolding new_buffer power_of_two64 wait_for_write_space fill_and_publish ring_copy copy_bytes
puback-reached =
    next (start (empty_buffer 2048)) puback_world (fresh (pos 2048) (empty_buffer 2048) refl)
      (write_all puback_bytes 4 (empty_buffer 2048) puback_ring (0, 4) (inl refl) refl refl)

abbrev takes_all : List ℕ → ℕ × Option ℕ
takes_all p = (length p, none)

write_to_round-drains_example :
    write_to_round takes_all 0 puback_ring ≡ goes_on 4 (record puback_ring { cseq = 4 })
write_to_round-drains_example =
    write_to_round-drains puback_world puback-reached refl (omega arith) (omega arith) takes_all
      refl 0

read_from_round-lays_example :
    (u : World) × Reach u
    × (read_from_round (9 ∷ []) none 0 puback_ring ≡ goes_on 1 u.ring)
    × (unread u ≡ puback_bytes ++ 9 ∷ [])
read_from_round-lays_example =
    read_from_round-lays puback_world puback-reached refl (omega arith) (9 ∷ []) (omega arith)
      (omega arith) 0

closed_test : write_to_round takes_all 5 (close puback_ring) ≡ returns 5 eof (close puback_ring)
unfolding write_to_round close
closed_test = refl

no_ring_test : peek_message_size 4 none ≡ fails not_ready
unfolding peek_message_size
no_ring_test = refl

peek_message_size-header_example : peek_message_size 4 (some puback_ring) ≡ has (4, 4)
unfolding put_uvarint
peek_message_size-header_example =
    peek_message_size-header puback_world puback-reached (omega arith) 64 2 (0 ∷ 7 ∷ [])
      (omega arith) refl

topic_alice_in-topic_alice_in_example :
    ((topic_alice_in 5 (aliased (97 ∷ []) 2) no_session).1 ≡ taken (aliased (97 ∷ []) 0))
    × (topic_alice_in 5 (aliased [] 2) (topic_alice_in 5 (aliased (97 ∷ []) 2) no_session).0 ≡ (
      (topic_alice_in 5 (aliased (97 ∷ []) 2) no_session).0,
      taken (aliased (if valid_topic (97 ∷ []) then 97 ∷ [] else []) 0),
    ))
topic_alice_in-topic_alice_in_example =
    topic_alice_in-topic_alice_in 5 2 97 [] no_session (omega arith) (omega arith)

-- The topic `#`
wildcard_test :
    (topic_alice_in 5 (aliased [] 2) (topic_alice_in 5 (aliased (b'#' ∷ []) 2) no_session).0).1
    ≡ taken (aliased [] 0)
unfolding topic_alice_in valid_topic
wildcard_test = refl
