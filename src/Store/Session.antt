-- ===== src/Store/Session.antt =====
-- broker/impl/store/mem_session.go. A session is a pointer, here a number; of a message the store reads
-- the packet identifier. The context is not read, and no method
-- fails but where it says so. `Start` and `Stop` do nothing.
pub mod Offline
pub mod Subscriptions
mod Tests
use gofly_mqttv.Base.{
  ℕ, ◌+◌, Bool, true, false, not, ◌&&◌, ◌||◌, Option, none, some, List, [], ◌∷◌, ◌++◌, leb, ◌==◌,
  if◌then◌else◌, length, map,
}
use gofly_mqttv.Collection.Entries.{nat_key}
use gofly_mqttv.Collection.SafeMap.{SafeMap, new_safe_map, get, set, del, get_or_set, entries}
use gofly_mqttv.Topic.Tree.{str_eq}
use gofly_mqttv.Store.Table.{
  Str, string_key, change_or_new, Table, cache, release, release_list, all_of, release_all,
}

-- A `message.Message`: its packet identifier, and a number for the rest.
pub record Message : Type 0 where
  pub packet_id : ℕ
  pub content : ℕ

-- `SubscribeMessage`, as far as `Clone` looks at it
pub record SubscribeMessage : Type 0 where
  pub topics : List Str
  pub qos : List ℕ
  pub subscription_identifier : ℕ

-- `Clone`: for each topic the message itself is appended. The message for one topic that the loop builds
-- is dropped.
unfoldable pub clone : SubscribeMessage → List SubscribeMessage
clone sub = map (λ t. sub) sub.topics

-- `memSessionStore`
pub record SessionStore : Type 0 where
  pub db : SafeMap Str ℕ
  pub sub_cache : Table Str SubscribeMessage
  pub offline_table : SafeMap Str (List Message)
  pub msg_max_num : ℕ
  pub rec_cache : Table ℕ Message
  pub send_cache : Table ℕ Message
  pub sec_two_cache : Table ℕ Unit

-- `NewMemSessStore`
abbrev pub new_mem_sess_store : SessionStore
new_mem_sess_store = record {
  db = new_safe_map;
  sub_cache = new_safe_map;
  offline_table = new_safe_map;
  msg_max_num = 1000;
  rec_cache = new_safe_map;
  send_cache = new_safe_map;
  sec_two_cache = new_safe_map;
}

-- `GetSession`, with nil for none
unfoldable pub get_session : Str → SessionStore → Option ℕ
unfolding get
get_session c m = get c m.db

unfoldable pub store_session : Str → ℕ → SessionStore → SessionStore
unfolding set
store_session c session m = record m { db = set c session m.db }

unfoldable pub clear_offline_msgs : Str → SessionStore → SessionStore
unfolding del
clear_offline_msgs c m = record m { offline_table = (del c m.offline_table).0 }

unfoldable pub clear_session : Str → Bool → SessionStore → SessionStore
unfolding del clear_offline_msgs
clear_session c clear_offline_msg m =
    let m' = record m { db = (del c m.db).0 } in
    if clear_offline_msg then clear_offline_msgs c m' else m'

-- The loop of `StoreSubscription`: `vm.Set(string(topicS[i]), subs[i])`
unfoldable pub store_topics :
    List Str → List SubscribeMessage → SafeMap Str SubscribeMessage → SafeMap Str SubscribeMessage
unfolding set
store_topics [] subs vm = vm
store_topics (t ∷ ts) [] vm = vm
store_topics (t ∷ ts) (s ∷ subs) vm = store_topics ts subs (set t s vm)

unfoldable pub store_subscription : Str → SubscribeMessage → SessionStore → SessionStore
unfolding change_or_new store_topics clone
store_subscription c sub_msg m = record m {
  sub_cache =
      change_or_new c new_safe_map (λ vm. store_topics sub_msg.topics (clone sub_msg) vm)
        m.sub_cache;
}

unfoldable pub del_subscription : Str → Str → SessionStore → SessionStore
unfolding change_or_new del
del_subscription c topic m = record m {
  sub_cache = change_or_new c new_safe_map (λ vm. (del topic vm).0) m.sub_cache;
}

unfoldable pub clear_subscriptions : Str → SessionStore → SessionStore
unfolding release_all
clear_subscriptions c m = record m { sub_cache = release_all c m.sub_cache }

-- The values of entries, as a closure of `Range` appends them
abbrev pub values {ℓ} : {K V : Type ℓ} → List (K × V) → List V
values l = map (λ e. e.1) l

-- `GetSubscriptions`, with nil for no subscription
unfoldable pub get_subscriptions : Str → SessionStore → List SubscribeMessage
unfolding get
get_subscriptions c m = elim (get c m.sub_cache) [ none ↦ [] | some vm ↦ values (entries vm) ]

unfoldable pub cache_inflow_msg : Str → Message → SessionStore → SessionStore
unfolding cache
cache_inflow_msg c msg m = record m { rec_cache = cache c msg.packet_id msg m.rec_cache }

-- `ReleaseInflowMsg`; `none` is its error.
unfoldable pub release_inflow_msg : Str → ℕ → SessionStore → SessionStore × Option Message
unfolding release
release_inflow_msg c id m = let r = release c id m.rec_cache in (record m { rec_cache = r.0 }, r.1)

unfoldable pub release_inflow_msgs : Str → List ℕ → SessionStore → SessionStore
unfolding release_list
release_inflow_msgs c ids m = record m { rec_cache = release_list c ids m.rec_cache }

unfoldable pub release_all_inflow_msg : Str → SessionStore → SessionStore
unfolding release_all
release_all_inflow_msg c m = record m { rec_cache = release_all c m.rec_cache }

unfoldable pub get_all_inflow_msg : Str → SessionStore → SessionStore × List Message
unfolding all_of
get_all_inflow_msg c m = let r = all_of c m.rec_cache in (record m { rec_cache = r.0 }, values r.1)

unfoldable pub cache_outflow_msg : Str → Message → SessionStore → SessionStore
unfolding cache
cache_outflow_msg c msg m = record m { send_cache = cache c msg.packet_id msg m.send_cache }

unfoldable pub get_all_outflow_msg : Str → SessionStore → SessionStore × List Message
unfolding all_of
get_all_outflow_msg c m =
    let r = all_of c m.send_cache in (record m { send_cache = r.0 }, values r.1)

-- Whether a client has its object already, which `GetOrSet` reports
abbrev has_object : {K V : Type 0} → Str → Table K V → Bool
unfolding get_or_set
has_object c t = (get_or_set c new_safe_map t).0.1

abbrev with_object : {K V : Type 0} → Str → Table K V → Table K V
unfolding get_or_set
with_object c t = (get_or_set c new_safe_map t).1

unfoldable pub release_outflow_msg : Str → ℕ → SessionStore → SessionStore × Option Message
unfolding release get_or_set
release_outflow_msg c id m =
    if has_object c m.send_cache
    then (let r = release c id m.send_cache in (record m { send_cache = r.0 }, r.1))
    else (record m { send_cache = with_object c m.send_cache }, none)

unfoldable pub release_outflow_msgs : Str → List ℕ → SessionStore → SessionStore
unfolding release_list get_or_set
release_outflow_msgs c ids m =
    if has_object c m.send_cache
    then record m { send_cache = release_list c ids m.send_cache }
    else record m { send_cache = with_object c m.send_cache }

unfoldable pub release_all_outflow_msg : Str → SessionStore → SessionStore
unfolding release_all
release_all_outflow_msg c m = record m { send_cache = release_all c m.send_cache }

unfoldable pub cache_outflow_sec_msg_id : Str → ℕ → SessionStore → SessionStore
unfolding cache
cache_outflow_sec_msg_id c id m = record m { sec_two_cache = cache c id tt m.sec_two_cache }

-- `GetAllOutflowSecMsg`: the keys, which are the identifiers
unfoldable pub get_all_outflow_sec_msg : Str → SessionStore → SessionStore × List ℕ
unfolding all_of
get_all_outflow_sec_msg c m =
    let r = all_of c m.sec_two_cache in (record m { sec_two_cache = r.0 }, map (λ e. e.0) r.1)

unfoldable pub release_outflow_sec_msg_id : Str → ℕ → SessionStore → SessionStore
unfolding release get_or_set
release_outflow_sec_msg_id c id m =
    if has_object c m.sec_two_cache
    then record m { sec_two_cache = (release c id m.sec_two_cache).0 }
    else record m { sec_two_cache = with_object c m.sec_two_cache }

unfoldable pub release_outflow_sec_msg_ids : Str → List ℕ → SessionStore → SessionStore
unfolding release_list get_or_set
release_outflow_sec_msg_ids c ids m =
    if has_object c m.sec_two_cache
    then record m { sec_two_cache = release_list c ids m.sec_two_cache }
    else record m { sec_two_cache = with_object c m.sec_two_cache }

unfoldable pub release_all_outflow_sec_msg : Str → SessionStore → SessionStore
unfolding release_all
release_all_outflow_sec_msg c m = record m { sec_two_cache = release_all c m.sec_two_cache }
