-- ===== src/Store/Session/Offline/Queues.antt =====
-- What the methods do to the queues of offline messages, and their limit.
use gofly_mqttv.Base.{
  ℕ, ◌-◌, ◌≤◌, ◌≡◌, refl, sym, ap, ◌∙◌, inl, inr, Bool, true, false, none, List, [], ◌∷◌, ◌++◌,
  arith, leb, if◌then◌else◌, length, length-append, Bool-cases, Option-cases,
}
use mathlib.Core.List.{Sublistᴰ}
use gofly_mqttv.Collection.Entries.{lookup}
use gofly_mqttv.Collection.SafeMap.{get, del, get_or_set}
use gofly_mqttv.Collection.SafeMap.Laws.{IsMap, del_lem}
use gofly_mqttv.Collection.SafeMap.Refine.{new-IsMap}
use gofly_mqttv.Topic.Tree.{str_eq}
use gofly_mqttv.Topic.Tree.Paths.{str_eq→eq, str_eq_refl}
use gofly_mqttv.Store.Table.{Str, string_key, change_or_new}
use gofly_mqttv.Store.Table.Laws.{
  or_new, value-get_or_set, get-get_or_set, get_or_set-IsMap, object-change_or_new,
  change_or_new-IsMap,
}
use gofly_mqttv.Store.Session.{
  Message, SessionStore, new_mem_sess_store, clear_session, clear_offline_msgs,
}
use gofly_mqttv.Store.Session.Offline.{
  strike, remove_ids, store_offline_msg, get_all_offline_msg, clear_offline_msg_by_id,
}
use gofly_mqttv.Store.Session.Offline.Removal.{
  listed, carried, carried-remove_ids, sublist-remove_ids,
}

-- A client's queue, empty where there is none
abbrev pub queue : Str → SessionStore → List Message
queue c m = or_new [] (get c m.offline_table)

-- StoreOfflineMsg fails if and only if the client's queue has the most messages that it may have; otherwise
-- the message is its last. No other queue changes.
pub queue-store_offline_msg :
    (c j : Str) (msg : Message) (m : SessionStore)
    → ((store_offline_msg c msg m).1 ≡ leb m.msg_max_num (length (queue c m)))
      × (queue j (store_offline_msg c msg m).0 ≡ (
          if str_eq c j
          then (if leb m.msg_max_num (length (queue c m)) then queue c m else queue c m ++ msg ∷ [])
          else queue j m))
unfolding store_offline_msg
queue-store_offline_msg c j msg m = elim (Bool-cases (leb m.msg_max_num (length (queue c m)))) [
  | inl full ↦
      rw (full, value-get_or_set c [] m.offline_table, full)
        (
          refl,
          get-get_or_set c j [] m.offline_table
              ∙ own (str_eq c j) (λ e. ap (λ x. queue x m) (sym (str_eq→eq c j e))),
        )
  | inr room ↦
      rw (room, value-get_or_set c [] m.offline_table, room)
        (refl, object-change_or_new c j [] (λ l. l ++ msg ∷ []) m.offline_table)
]
  where
    own :
        (b : Bool)
        → (b ≡ true → queue j m ≡ queue c m)
        → queue j m ≡ (if b then queue c m else queue j m)
    own true h = h refl
    own false h = refl

-- ClearOfflineMsgById takes messages out of the client's queue and leaves the others in their order. Of each
-- identifier that is not empty as many stay as there were more than the list names it. The queue of any
-- other client is as it was.
pub queue-clear_offline_msg_by_id :
    (itoa : ℕ → Str) (c j s : Str) (ids : List Str) (m : SessionStore)
    → str_eq s [] ≡ false
    → str_eq c j ≡ false
    → (carried itoa s (queue c (clear_offline_msg_by_id itoa c ids m))
        ≡ carried itoa s (queue c m) - listed s ids)
      × Sublistᴰ (queue c (clear_offline_msg_by_id itoa c ids m)) (queue c m)
      × (queue j (clear_offline_msg_by_id itoa c ids m) ≡ queue j m)
unfolding clear_offline_msg_by_id
queue-clear_offline_msg_by_id itoa c j s ids m n other =
    let own : queue c (clear_offline_msg_by_id itoa c ids m) ≡ remove_ids itoa (queue c m) ids =
      object-change_or_new c c [] (λ l. remove_ids itoa l ids) m.offline_table
      ∙ rw (str_eq_refl c) refl in
    (
      ap (carried itoa s) own ∙ carried-remove_ids itoa s (queue c m) ids n,
      rw own (sublist-remove_ids itoa (queue c m) ids),
      object-change_or_new c j [] (λ l. remove_ids itoa l ids) m.offline_table ∙ rw other refl,
    )

-- The methods that reach the queues
pub data OfflineCall : Type 0 where
  store_call : Str → Message → OfflineCall
  get_all_call clear_call : Str → OfflineCall
  clear_by_id_call : Str → List Str → OfflineCall
  clear_session_call : Str → Bool → OfflineCall

unfoldable pub run_offline : (ℕ → Str) → List OfflineCall → SessionStore → SessionStore
unfolding store_offline_msg get_all_offline_msg clear_offline_msg_by_id clear_offline_msgs
    clear_session
run_offline itoa [] m = m
run_offline itoa (store_call c msg ∷ cs) m = run_offline itoa cs (store_offline_msg c msg m).0
run_offline itoa (get_all_call c ∷ cs) m = run_offline itoa cs (get_all_offline_msg itoa c m).0
run_offline itoa (clear_call c ∷ cs) m = run_offline itoa cs (clear_offline_msgs c m)
run_offline itoa (clear_by_id_call c ids ∷ cs) m =
    run_offline itoa cs (clear_offline_msg_by_id itoa c ids m)
run_offline itoa (clear_session_call c b ∷ cs) m = run_offline itoa cs (clear_session c b m)

record IsLimited (n : ℕ) (m : SessionStore) : Type 0 where
  is_map : IsMap m.offline_table
  max_num : m.msg_max_num ≡ n
  short : (c : Str) → length (queue c m) ≤ n

length-remove_ids :
    (itoa : ℕ → Str) (l : List Message) (ids : List Str) → length (remove_ids itoa l ids) ≤ length l
unfolding remove_ids
length-remove_ids itoa [] ids = omega arith
length-remove_ids itoa (msg ∷ l) ids = elim (Option-cases (strike (itoa msg.packet_id) ids)) [
  | inr (ids', there) ↦
      let r : remove_ids itoa (msg ∷ l) ids ≡ remove_ids itoa l ids' =
        rw (there, remove_ids) refl in
      rw r (omega (arith, length-remove_ids itoa l ids'))
  | inl gone ↦
      let r : remove_ids itoa (msg ∷ l) ids ≡ msg ∷ remove_ids itoa l ids =
        rw (gone, remove_ids) refl in
      rw r (omega (arith, length-remove_ids itoa l ids))
]

module _ (n : ℕ) (m : SessionStore) (i : IsLimited n m) where
  -- A queue that is one of two short ones is short.
  one_of :
      (b : Bool) (p q : List Message)
      → length p ≤ n
      → length q ≤ n
      → length (if b then p else q) ≤ n
  one_of true p q h k = h
  one_of false p q h k = k

  store-IsLimited : (c : Str) (msg : Message) → IsLimited n (store_offline_msg c msg m).0
  unfolding store_offline_msg
  store-IsLimited c msg = elim (Bool-cases (leb m.msg_max_num (length (queue c m)))) [
    | inl full ↦
        let e : leb m.msg_max_num (length (get_or_set c [] m.offline_table).0.0) ≡ true =
          ap (λ l. leb m.msg_max_num (length l)) (value-get_or_set c [] m.offline_table) ∙ full in
        let r : store_offline_msg c msg m
            ≡ (record m { offline_table = (get_or_set c [] m.offline_table).1 }, true) =
          rw e refl in
        rw r record {
          is_map = get_or_set-IsMap c [] m.offline_table i.is_map;
          max_num = i.max_num;
          short = λ j. rw (get-get_or_set c j [] m.offline_table) (i.short j);
        }
    | inr room ↦
        let e : leb m.msg_max_num (length (get_or_set c [] m.offline_table).0.0) ≡ false =
          ap (λ l. leb m.msg_max_num (length l)) (value-get_or_set c [] m.offline_table) ∙ room in
        let r : store_offline_msg c msg m ≡ (
          record m { offline_table = change_or_new c [] (λ l. l ++ msg ∷ []) m.offline_table },
          false,
        ) =
          rw e refl in
        rw r record {
          is_map = change_or_new-IsMap c [] (λ l. l ++ msg ∷ []) m.offline_table i.is_map;
          max_num = i.max_num;
          short = λ j. rw (object-change_or_new c j [] (λ l. l ++ msg ∷ []) m.offline_table) (
              one_of (str_eq c j) (queue c m ++ msg ∷ []) (queue j m)
                (ground (arith, room, i.max_num, length-append (queue c m) (msg ∷ [])))
                (i.short j));
        }
  ]

  clear-IsLimited : (c : Str) → IsLimited n (clear_offline_msgs c m)
  unfolding clear_offline_msgs
  clear-IsLimited c =
      let (is_map, g) = del_lem c m.offline_table i.is_map in
      record {
        is_map = is_map;
        max_num = i.max_num;
        short = λ j.
            rw (ap (or_new []) (g j) ∙ pull (str_eq c j) j)
              (one_of (str_eq c j) [] (queue j m) (omega arith) (i.short j));
      }
    where
      pull :
          (b : Bool) (j : Str)
          → or_new [] (if b then none else get j m.offline_table) ≡ (if b then [] else queue j m)
      pull true j = refl
      pull false j = refl

  by_id-IsLimited :
      (itoa : ℕ → Str) (c : Str) (ids : List Str)
      → IsLimited n (clear_offline_msg_by_id itoa c ids m)
  unfolding clear_offline_msg_by_id
  by_id-IsLimited itoa c ids = record {
    is_map = change_or_new-IsMap c [] (λ l. remove_ids itoa l ids) m.offline_table i.is_map;
    max_num = i.max_num;
    short = λ j. rw (object-change_or_new c j [] (λ l. remove_ids itoa l ids) m.offline_table) (
        one_of (str_eq c j) (remove_ids itoa (queue c m) ids) (queue j m)
          (omega (arith, length-remove_ids itoa (queue c m) ids, i.short c)) (i.short j));
  }

  get_all-IsLimited : (itoa : ℕ → Str) (c : Str) → IsLimited n (get_all_offline_msg itoa c m).0
  unfolding get_all_offline_msg
  get_all-IsLimited itoa c = record {
    is_map = get_or_set-IsMap c [] m.offline_table i.is_map;
    max_num = i.max_num;
    short = λ j. rw (get-get_or_set c j [] m.offline_table) (i.short j);
  }

clear_session-IsLimited :
    (n : ℕ) (m : SessionStore)
    → IsLimited n m
    → (c : Str) (b : Bool) → IsLimited n (clear_session c b m)
unfolding clear_session
clear_session-IsLimited n m i c true =
    clear-IsLimited n (record m { db = (del c m.db).0 })
      (record { is_map = i.is_map; max_num = i.max_num; short = i.short }) c
clear_session-IsLimited n m i c false = record {
  is_map = i.is_map;
  max_num = i.max_num;
  short = i.short;
}

run_offline-IsLimited :
    (itoa : ℕ → Str) (cs : List OfflineCall) (n : ℕ) (m : SessionStore)
    → IsLimited n m
    → IsLimited n (run_offline itoa cs m)
unfolding run_offline
run_offline-IsLimited itoa [] n m i = i
run_offline-IsLimited itoa (store_call c msg ∷ cs) n m i =
    run_offline-IsLimited itoa cs n _ (store-IsLimited n m i c msg)
run_offline-IsLimited itoa (get_all_call c ∷ cs) n m i =
    run_offline-IsLimited itoa cs n _ (get_all-IsLimited n m i itoa c)
run_offline-IsLimited itoa (clear_call c ∷ cs) n m i =
    run_offline-IsLimited itoa cs n _ (clear-IsLimited n m i c)
run_offline-IsLimited itoa (clear_by_id_call c ids ∷ cs) n m i =
    run_offline-IsLimited itoa cs n _ (by_id-IsLimited n m i itoa c ids)
run_offline-IsLimited itoa (clear_session_call c b ∷ cs) n m i =
    run_offline-IsLimited itoa cs n _ (clear_session-IsLimited n m i c b)

-- After any run of the methods that reach the queues on a new store, no queue of offline messages has more
-- than 1000.
pub queue-bounds :
    (itoa : ℕ → Str) (cs : List OfflineCall) (c : Str)
    → length (queue c (run_offline itoa cs new_mem_sess_store)) ≤ 1000
unfolding get lookup
queue-bounds itoa cs c =
    (run_offline-IsLimited itoa cs 1000 new_mem_sess_store
        record { is_map = new-IsMap; max_num = refl; short = λ j. omega arith }).short
      c
