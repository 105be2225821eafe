-- ===== src/Store/Message.antt =====
-- broker/impl/store/mem_message.go: the will messages of the clients and the retained messages of the topics.
-- A PUBLISH message is a pointer, here a number. After `Stop` both tables are nil.
use gofly_mqttv.Base.{ℕ, Option, none, List, map}
use gofly_mqttv.Collection.SafeMap.{SafeMap, new_safe_map, get, set, del, entries}
use gofly_mqttv.Store.Table.{Str, string_key}

-- `memMessageStore`
pub record MessageStore : Type 0 where
  pub will_table : SafeMap Str ℕ
  pub retain_table : SafeMap Str ℕ

-- `NewMemMsgStore`
abbrev pub new_mem_msg_store : MessageStore
new_mem_msg_store = record { will_table = new_safe_map; retain_table = new_safe_map }

-- `Stop`: `none` is the store whose tables are nil.
abbrev pub stop : MessageStore → Option MessageStore
stop m = none

unfoldable pub store_will_message : Str → ℕ → MessageStore → MessageStore
unfolding set
store_will_message c msg m = record m { will_table = set c msg m.will_table }

unfoldable pub clear_will_message : Str → MessageStore → MessageStore
unfolding del
clear_will_message c m = record m { will_table = (del c m.will_table).0 }

-- `none` is the error `no will msg`
unfoldable pub get_will_message : Str → MessageStore → Option ℕ
unfolding get
get_will_message c m = get c m.will_table

unfoldable pub store_retain_message : Str → ℕ → MessageStore → MessageStore
unfolding set
store_retain_message topic msg m = record m { retain_table = set topic msg m.retain_table }

unfoldable pub clear_retain_message : Str → MessageStore → MessageStore
unfolding del
clear_retain_message topic m = record m { retain_table = (del topic m.retain_table).0 }

-- `none` is the error `no retain msg`
unfoldable pub get_retain_message : Str → MessageStore → Option ℕ
unfolding get
get_retain_message topic m = get topic m.retain_table

unfoldable pub get_all_retain_msg : MessageStore → List ℕ
get_all_retain_msg m = map (λ e. e.1) (entries m.retain_table)
