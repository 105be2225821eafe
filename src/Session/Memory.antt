-- ===== src/Session/Memory.antt =====
-- broker/impl/session/mem_session.go: what a session keeps of its client's topics, topic aliases and queues.
-- The CONNECT message, whose getters and setters the session passes on, and the offline messages that no
-- method sets are left out. The will is a pointer, here a number; each method holds the mutex and is one step.
pub mod Alias
mod Tests
use gofly_mqttv.Base.{
  ℕ, ◌*◌, ◌/◌, ◌^◌, Bool, true, false, Option, none, some, List, [], ◌∷◌, ◌==◌, if◌then◌else◌, map,
}
use gofly_mqttv.Collection.Entries.{Entries, nat_key, lookup, delete, put}
use gofly_mqttv.Session.AckQueue.{AckQueue, new_ackqueue}
use gofly_mqttv.Store.Table.{Str, string_key}
use gofly_mqttv.Topic.Tree.{Sub}

-- `Status` of broker/core/session/session.go
pub data Status : Type 0 where
  null online offline : Status

-- `defaultQueueSize`
abbrev pub default_queue_size : ℕ
default_queue_size = 1024 / 2 ^ 2

-- `AckQueues`
pub record AckQueues : Type 0 where
  pub queue_size : ℕ
  pub pub1ack : AckQueue
  pub pub2in : AckQueue
  pub pub2out : AckQueue
  pub suback : AckQueue
  pub unsuback : AckQueue
  pub pingack : AckQueue

abbrev pub new_ack_queues : ℕ → AckQueues
unfolding new_ackqueue
new_ack_queues n = record {
  queue_size = n;
  pub1ack = new_ackqueue (n * 2);
  pub2in = new_ackqueue (n * 2);
  pub2out = new_ackqueue (n * 2);
  suback = new_ackqueue (n / 2 ^ 2);
  unsuback = new_ackqueue (n / 2 ^ 2);
  pingack = new_ackqueue (n / 2 ^ 3);
}

-- `session`
pub record Session : Type 0 where
  pub sid : Str
  pub ack_queues : AckQueues
  pub status : Status
  pub offline_time : ℕ
  pub will : Option ℕ
  pub topics : Entries Str Sub
  pub topic_alice : Entries ℕ Str
  pub topic_alice_re : Entries Str ℕ
  pub initted : Bool
  pub stop : ℕ

-- `NewMemSession`, once the CONNECT message is encoded and its will is built
unfoldable pub new_mem_session : Str → Option ℕ → Session
unfolding new_ackqueue
new_mem_session sid will = record {
  sid = sid;
  ack_queues = new_ack_queues default_queue_size;
  status = online;
  offline_time = 0;
  will = will;
  topics = [];
  topic_alice = [];
  topic_alice_re = [];
  initted = true;
  stop = 0;
}

-- The end of `Update`, once the CONNECT message was read back
abbrev pub update : Session → Session
update s = record s { stop = 1 }

unfoldable pub add_topic_alice : Str → ℕ → Session → Session
unfolding put
add_topic_alice topic alice s = record s {
  topic_alice = put alice topic s.topic_alice;
  topic_alice_re = put topic alice s.topic_alice_re;
}

unfoldable pub get_topic_alice : Str → Session → Option ℕ
unfolding lookup
get_topic_alice topic s = lookup topic s.topic_alice_re

unfoldable pub get_alice_topic : ℕ → Session → Option Str
unfolding lookup
get_alice_topic alice s = lookup alice s.topic_alice

-- `AddTopic`; the error is that the session is not initialised.
unfoldable pub add_topic : Sub → Session → Session × Bool
unfolding put
add_topic sub s =
    if s.initted then (record s { topics = put sub.topic sub s.topics }, false) else (s, true)

unfoldable pub remove_topic : Str → Session → Session × Bool
unfolding delete
remove_topic topic s =
    if s.initted then (record s { topics = delete topic s.topics }, false) else (s, true)

-- `topic.Sub{}`
abbrev pub no_sub : Sub
no_sub = record {
  topic = [];
  qos = 0;
  no_local = false;
  retain_as_published = false;
  retain_handling = 0;
  sub_identifier = 0;
}

unfoldable pub sub_option : Str → Session → Sub
unfolding lookup
sub_option topic s = elim (lookup topic s.topics) [ none ↦ no_sub | some sub ↦ sub ]

-- `topic`; `none` is its error.
unfoldable pub all_topics : Session → Option (List Sub)
all_topics s = if s.initted then some (map (λ e. e.1) s.topics) else none

-- `Will`, which moves `stop` to 2 and back
unfoldable pub take_will : Session → Session × Option ℕ
take_will s = (record s { stop = if s.stop == 1 then 2 else 1 }, s.will)

abbrev pub set_status : Status → Session → Session
set_status status s = record s { status = status }

abbrev pub set_offline_time : ℕ → Session → Session
set_offline_time i s = record s { offline_time = i }

abbrev pub set_will : Option ℕ → Session → Session
set_will will s = record s { will = will }

-- The loop of `SetSub`, over what the message has for each of its topics
unfoldable pub set_sub : List Sub → Session → Session
unfolding add_topic
set_sub [] s = s
set_sub (sub ∷ subs) s = set_sub subs (add_topic sub s).0
