-- ===== src/Session/Memory/Tests.antt =====
-- Runs of a session.
use gofly_mqttv.Base.{◌≡◌, refl, none, some, [], ◌∷◌}
use gofly_mqttv.Collection.Entries.{lookup, put, delete}
use gofly_mqttv.Session.Memory.{
  Session, new_mem_session, add_topic_alice, get_topic_alice, get_alice_topic, add_topic,
  remove_topic, sub_option, no_sub, take_will,
}

-- The alias 1 goes from the topic `a` to the topic `b`.
moved_alias : Session
unfolding new_mem_session add_topic_alice
moved_alias = add_topic_alice (98 ∷ []) 1 (add_topic_alice (97 ∷ []) 1 (new_mem_session [] none))

both_have_it :
    (get_topic_alice (97 ∷ []) moved_alias ≡ some 1)
    × (get_alice_topic 1 moved_alias ≡ some (98 ∷ []))
unfolding moved_alias get_topic_alice get_alice_topic lookup put delete
both_have_it = (refl, refl)

removed_topic_test :
    sub_option
      (97 ∷ [])
      (remove_topic
        (97 ∷ [])
        (add_topic (record no_sub { topic = 97 ∷ [] }) (new_mem_session [] none)).0).0
    ≡ no_sub
unfolding sub_option remove_topic add_topic new_mem_session lookup put delete
removed_topic_test = refl

will_test : (take_will (take_will (new_mem_session [] (some 3))).0).0.stop ≡ 2
unfolding take_will new_mem_session
will_test = refl
