-- ===== src/Service/Process.antt =====
-- broker/core/service/v1/process.go: the aliases of topics in the PUBLISH packets that come in. Of a packet
-- its topic and its alias are read and changed. The greatest alias comes from the CONNECT packet.
use gofly_mqttv.Base.{
  ℕ, suc, ◌≤◌, ◌<◌, ◌≡◌, refl, ap, ◌∙◌, Bool, true, false, ◌&&◌, Option, none, some, [], ◌∷◌, arith,
  ltb, ◌==◌, if◌then◌else◌, length, lt→ltb, le→ltb_false, ==_refl, inl, inr, Bool-cases,
}
use gofly_mqttv.Message.Kind.{valid_topic}
use gofly_mqttv.Store.Table.{Str}
use gofly_mqttv.Session.Memory.{Session, add_topic_alice, get_alice_topic}
use gofly_mqttv.Session.Memory.Alias.{topic_alice-add}

pub record AliasedPublish : Type 0 where
  pub topic : Str
  pub topic_alias : ℕ

-- The errors with the code `InvalidTopicAlias`
pub data AliasError : Type 0 where
  no_topic_alias too_large beyond_max : AliasError

pub data AliasResult : Type 0 where
  refused : AliasError → AliasResult
  taken : AliasedPublish → AliasResult

-- `SetTopic` of broker/core/message/publish.go, and whether it succeeds: it leaves the packet as it is when
-- `ValidTopic` refuses the topic.
abbrev set_topic : Str → AliasedPublish → AliasedPublish × Bool
set_topic tp msg = if valid_topic tp then (record msg { topic = tp }, true) else (msg, false)

abbrev on_alias : AliasedPublish → Option Str → AliasResult
on_alias msg none = refused no_topic_alias
on_alias msg (some tp) = taken (record ((set_topic tp msg).0) { topic_alias = 0 })

-- `topicAliceIn`
unfoldable pub topic_alice_in : ℕ → AliasedPublish → Session → Session × AliasResult
unfolding add_topic_alice get_alice_topic
topic_alice_in max msg s =
    if ltb 0 msg.topic_alias && length msg.topic == 0
    then (s, on_alias msg (get_alice_topic msg.topic_alias s))
    else if ltb 0 msg.topic_alias && ltb 0 (length msg.topic)
    then (if ltb max msg.topic_alias
        then (s, refused too_large)
        else (add_topic_alice msg.topic msg.topic_alias s, taken (record msg { topic_alias = 0 })))
    else if ltb max msg.topic_alias
    then (s, refused beyond_max)
    else (s, taken msg)

abbrev pub aliased : Str → ℕ → AliasedPublish
aliased topic alias = record { topic = topic; topic_alias = alias }

stores_alias :
    (max alias first : ℕ) (rest : Str) (s : Session)
    → 0 < alias
    → alias ≤ max
    → topic_alice_in max (aliased (first ∷ rest) alias) s
      ≡ (add_topic_alice (first ∷ rest) alias s, taken (aliased (first ∷ rest) 0))
unfolding topic_alice_in
stores_alias max alias first rest s positive within =
    let a : ltb 0 alias ≡ true = lt→ltb 0 alias positive in
    let b : (suc (length rest) == 0) ≡ false = ground arith in
    let c : ltb 0 (suc (length rest)) ≡ true = ground arith in
    let d : ltb max alias ≡ false = le→ltb_false max alias within in rw (a, b, c, d) refl

finds_alias :
    (max alias : ℕ) (topic : Str) (s : Session)
    → 0 < alias
    → get_alice_topic alias s ≡ some topic
    → topic_alice_in max (aliased [] alias) s
      ≡ (s, taken (aliased (if valid_topic topic then topic else []) 0))
unfolding topic_alice_in
finds_alias max alias topic s positive h =
    let a : ltb 0 alias ≡ true = lt→ltb 0 alias positive in
    both (ltb 0 alias) a _
    ∙ ap (λ o. (s, on_alias (aliased [] alias) o)) h
    ∙ (elim (Bool-cases (valid_topic topic)) [ inl v ↦ rw v refl | inr v ↦ rw v refl ])
  where
    both :
        (b : Bool)
        → b ≡ true
        → (x : Session × AliasResult)
        → (if b && true then (s, on_alias (aliased [] alias) (get_alice_topic alias s)) else x)
          ≡ (s, on_alias (aliased [] alias) (get_alice_topic alias s))
    both true e x = refl
    both false e x = absurd (cc)

-- A PUBLISH with a topic and an alias from 1 to the greatest is taken with its topic, whether that is valid
-- or not. A next one with that alias and no topic is taken too and leaves the session as it is: with the
-- same topic where `ValidTopic` accepts it, and with an empty topic where not.
pub topic_alice_in-topic_alice_in :
    (max alias first : ℕ) (rest : Str) (s : Session)
    → 0 < alias
    → alias ≤ max
    → ((topic_alice_in max (aliased (first ∷ rest) alias) s).1 ≡ taken (aliased (first ∷ rest) 0))
      × (topic_alice_in max
            (aliased [] alias)
            (topic_alice_in max (aliased (first ∷ rest) alias) s).0
          ≡ (
            (topic_alice_in max (aliased (first ∷ rest) alias) s).0,
            taken (aliased (if valid_topic (first ∷ rest) then first ∷ rest else []) 0),
          ))
topic_alice_in-topic_alice_in max alias first rest s positive within =
    let stores = stores_alias max alias first rest s positive within in
    let names : get_alice_topic alias (add_topic_alice (first ∷ rest) alias s)
        ≡ some (first ∷ rest) =
      (topic_alice-add (first ∷ rest) [] alias alias s).0 ∙ rw (==_refl alias) refl in
    (
      ap (λ r. r.1) stores,
      rw stores (
          finds_alias max alias (first ∷ rest) (add_topic_alice (first ∷ rest) alias s) positive
            names),
    )
