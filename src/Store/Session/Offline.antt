-- ===== src/Store/Session/Offline.antt =====
-- The queues of offline messages of broker/impl/store/mem_session.go. `strconv.Itoa` is the parameter
-- `itoa`.
pub mod Queues
pub mod Removal
use gofly_mqttv.Base.{
  ℕ, Bool, true, false, not, ◌&&◌, Option, none, some, List, [], ◌∷◌, ◌++◌, leb, if◌then◌else◌,
  length, map,
}
use gofly_mqttv.Collection.SafeMap.{SafeMap, get_or_set}
use gofly_mqttv.Topic.Tree.{str_eq}
use gofly_mqttv.Store.Table.{Str, string_key, change_or_new}
use gofly_mqttv.Store.Session.{Message, SessionStore}

-- `StoreOfflineMsg`, and whether it fails with `too many msg`. The list is made in either case.
unfoldable pub store_offline_msg : Str → Message → SessionStore → SessionStore × Bool
unfolding get_or_set change_or_new
store_offline_msg c msg m =
    if leb m.msg_max_num (length (get_or_set c [] m.offline_table).0.0)
    then (record m { offline_table = (get_or_set c [] m.offline_table).1 }, true)
    else (
      record m { offline_table = change_or_new c [] (λ l. l ++ msg ∷ []) m.offline_table },
      false,
    )

-- `GetAllOfflineMsg`: the messages, and their identifiers in decimal
unfoldable pub get_all_offline_msg :
    (ℕ → Str) → Str → SessionStore → SessionStore × (List Message × List Str)
unfolding get_or_set
get_all_offline_msg itoa c m =
    let r = get_or_set c [] m.offline_table in
    (record m { offline_table = r.1 }, (r.0.0, map (λ msg. itoa msg.packet_id) r.0.0))

-- The inner loop of `ClearOfflineMsgById`: the first of `msgIds` that is `id` is emptied; `none` when there
-- is none.
unfoldable pub strike : Str → List Str → Option (List Str)
strike id [] = none
strike id (x ∷ xs) =
    let rest = strike id xs in
    if not (str_eq x []) && str_eq id x
    then some ([] ∷ xs)
    else elim rest [ none ↦ none | some ys ↦ some (x ∷ ys) ]

-- The outer loop: the messages that stay.
unfoldable pub remove_ids : (ℕ → Str) → List Message → List Str → List Message
unfolding strike
remove_ids itoa [] ids = []
remove_ids itoa (msg ∷ l) ids = elim (strike (itoa msg.packet_id) ids) [
  | some ids' ↦ remove_ids itoa l ids'
  | none ↦ msg ∷ remove_ids itoa l ids
]

unfoldable pub clear_offline_msg_by_id : (ℕ → Str) → Str → List Str → SessionStore → SessionStore
unfolding change_or_new remove_ids
clear_offline_msg_by_id itoa c ids m = record m {
  offline_table = change_or_new c [] (λ l. remove_ids itoa l ids) m.offline_table;
}
