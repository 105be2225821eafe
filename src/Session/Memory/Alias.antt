-- ===== src/Session/Memory/Alias.antt =====
-- The two maps of topic aliases after `AddTopicAlice`.
use gofly_mqttv.Base.{ℕ, ◌≡◌, ◌==◌, if◌then◌else◌, some}
use gofly_mqttv.Collection.Entries.{nat_key, lookup-put}
use gofly_mqttv.Topic.Tree.{str_eq}
use gofly_mqttv.Store.Table.{Str, string_key}
use gofly_mqttv.Session.Memory.{Session, add_topic_alice, get_topic_alice, get_alice_topic}

-- AddTopicAlice names the topic by the alias and gives the topic that alias. No other topic loses its alias,
-- not even the one that the alias named before.
pub topic_alice-add :
    (topic t : Str) (alice k : ℕ) (s : Session)
    → (get_alice_topic k (add_topic_alice topic alice s)
        ≡ (if alice == k then some topic else get_alice_topic k s))
      × (get_topic_alice t (add_topic_alice topic alice s)
          ≡ (if str_eq topic t then some alice else get_topic_alice t s))
unfolding add_topic_alice get_topic_alice get_alice_topic
topic_alice-add topic t alice k s =
    (lookup-put alice k topic s.topic_alice, lookup-put topic t alice s.topic_alice_re)
