-- ===== src/Store/Session/Tests.antt =====
-- Runs of the store of sessions, and its theorems at them.
use mathlib.Core.List.{Sublistᴰ}
use gofly_mqttv.Base.{
  ℕ, ◌+◌, ◌-◌, ◌≤◌, ◌≡◌, refl, none, some, List, [], ◌∷◌, ◌++◌, length, leb, if◌then◌else◌,
}
use gofly_mqttv.Collection.Entries.{nat_key}
use gofly_mqttv.Collection.SafeMap.{new_safe_map}
use gofly_mqttv.Store.Table.{Str, string_key}
use gofly_mqttv.Store.Table.Refine.{
  TableCall, cache_call, release_call, find, run_table, spec_table, run_table-refines,
}
use gofly_mqttv.Store.Session.{
  Message, SubscribeMessage, SessionStore, new_mem_sess_store, store_subscription, cache_inflow_msg,
  release_inflow_msg,
}
use gofly_mqttv.Store.Session.Offline.{
  store_offline_msg, clear_offline_msg_by_id, remove_ids, strike,
}
use gofly_mqttv.Store.Session.Offline.Removal.{listed, carried}
use gofly_mqttv.Store.Session.Offline.Queues.{
  queue, store_call, clear_by_id_call, run_offline, queue-store_offline_msg,
  queue-clear_offline_msg_by_id, queue-bounds,
}
use gofly_mqttv.Store.Session.Subscriptions.{subscription, named, subscription-store_subscription}

-- Client `c`, and topics `a` and `b`
abbrev client : Str
client = 99 ∷ []

abbrev hello : Message
hello = record { packet_id = 7; content = 1 }

-- One digit in decimal
abbrev digit : ℕ → Str
digit n = (48 + n) ∷ []

abbrev both_topics : SubscribeMessage
both_topics = record {
  topics = (97 ∷ []) ∷ (98 ∷ []) ∷ [];
  qos = 1 ∷ 2 ∷ [];
  subscription_identifier = 0;
}

inflow_test :
    (release_inflow_msg client 7 (cache_inflow_msg client hello new_mem_sess_store)).1 ≡ some hello
unfolding release_inflow_msg cache_inflow_msg
inflow_test = refl

clear_test : remove_ids digit (hello ∷ hello ∷ []) ((55 ∷ []) ∷ []) ≡ hello ∷ []
unfolding remove_ids strike
clear_test = refl

one_offline : SessionStore
unfolding store_offline_msg
one_offline = (store_offline_msg client hello new_mem_sess_store).0

queue-store_offline_msg_example :
    ((store_offline_msg client hello one_offline).1
      ≡ leb one_offline.msg_max_num (length (queue client one_offline)))
    × (queue client (store_offline_msg client hello one_offline).0 ≡ (
        if leb one_offline.msg_max_num (length (queue client one_offline))
        then queue client one_offline
        else queue client one_offline ++ hello ∷ []))
queue-store_offline_msg_example = queue-store_offline_msg client client hello one_offline

queue-clear_offline_msg_by_id_example :
    (carried digit
        (55 ∷ [])
        (queue client (clear_offline_msg_by_id digit client ((55 ∷ []) ∷ []) one_offline))
      ≡ carried digit (55 ∷ []) (queue client one_offline) - listed (55 ∷ []) ((55 ∷ []) ∷ []))
    × Sublistᴰ
        (queue client (clear_offline_msg_by_id digit client ((55 ∷ []) ∷ []) one_offline))
        (queue client one_offline)
    × (queue (98 ∷ []) (clear_offline_msg_by_id digit client ((55 ∷ []) ∷ []) one_offline)
        ≡ queue (98 ∷ []) one_offline)
queue-clear_offline_msg_by_id_example =
    queue-clear_offline_msg_by_id digit client (98 ∷ []) (55 ∷ []) ((55 ∷ []) ∷ []) one_offline refl
      refl

queue-bounds_example :
    length (
      queue client (
        run_offline digit
          (store_call client hello ∷ clear_by_id_call client ((55 ∷ []) ∷ []) ∷ [])
          new_mem_sess_store))
    ≤ 1000
queue-bounds_example =
    queue-bounds digit (store_call client hello ∷ clear_by_id_call client ((55 ∷ []) ∷ []) ∷ [])
      client

subscription-store_subscription_example :
    subscription client (97 ∷ []) (store_subscription client both_topics new_mem_sess_store)
    ≡ some both_topics
unfolding named
subscription-store_subscription_example =
    subscription-store_subscription client (97 ∷ []) both_topics new_mem_sess_store

abbrev table_calls : List (TableCall ℕ Message)
table_calls = cache_call client 7 hello ∷ release_call client 7 ∷ release_call client 7 ∷ []

run_table-refines_example :
    (find client 7 (run_table table_calls new_safe_map).0 ≡ none)
    × ((run_table table_calls new_safe_map).1 ≡ some hello ∷ none ∷ [])
unfolding spec_table
run_table-refines_example = run_table-refines table_calls client 7
