-- ===== src/Store/Session/Subscriptions.antt =====
-- What StoreSubscription leaves for each topic of a SUBSCRIBE message.
use gofly_mqttv.Base.{
  ◌≡◌, refl, ap, ◌∙◌, Bool, true, false, ◌||◌, Option, some, List, [], ◌∷◌, if◌then◌else◌, map,
}
use gofly_mqttv.Collection.SafeMap.{SafeMap, new_safe_map, get}
use gofly_mqttv.Collection.SafeMap.Laws.{get-set}
use gofly_mqttv.Topic.Tree.{str_eq}
use gofly_mqttv.Topic.Tree.Paths.{str_eq_refl}
use gofly_mqttv.Store.Table.{Str, string_key}
use gofly_mqttv.Store.Table.Laws.{or_new, object-change_or_new}
use gofly_mqttv.Store.Session.{
  SubscribeMessage, SessionStore, clone, store_topics, store_subscription,
}

unfoldable pub named : Str → List Str → Bool
named t [] = false
named t (u ∷ us) = str_eq u t || named t us

-- The subscription that is stored for a client and a topic
abbrev pub subscription : Str → Str → SessionStore → Option SubscribeMessage
subscription c t m = get t (or_new new_safe_map (get c m.sub_cache))

get-store_topics :
    (sub : SubscribeMessage) (t : Str) (ts : List Str) (vm : SafeMap Str SubscribeMessage)
    → get t (store_topics ts (map (λ u. sub) ts) vm) ≡ (if named t ts then some sub else get t vm)
unfolding store_topics named
get-store_topics sub t [] vm = refl
get-store_topics sub t (u ∷ us) vm =
    get-store_topics sub t us _
    ∙ ap (λ o. if named t us then some sub else o) (get-set u t sub vm)
    ∙ join (str_eq u t) (named t us)
  where
    join :
        (a b : Bool)
        → (if b then some sub else (if a then some sub else get t vm))
          ≡ (if a || b then some sub else get t vm)
    join true true = refl
    join true false = refl
    join false true = refl
    join false false = refl

-- StoreSubscription keeps for each topic of the message the whole message, and changes no other
-- subscription of the client.
pub subscription-store_subscription :
    (c t : Str) (sub : SubscribeMessage) (m : SessionStore)
    → subscription c t (store_subscription c sub m)
      ≡ (if named t sub.topics then some sub else subscription c t m)
unfolding store_subscription clone
subscription-store_subscription c t sub m =
    let vm = or_new new_safe_map (get c m.sub_cache) in
    let e : or_new new_safe_map (get c (store_subscription c sub m).sub_cache)
        ≡ store_topics sub.topics (clone sub) vm =
      object-change_or_new c c new_safe_map (λ o. store_topics sub.topics (clone sub) o) m.sub_cache
      ∙ own (str_eq c c) (str_eq_refl c) _ _ in
    ap (get t) e ∙ get-store_topics sub t sub.topics vm
  where
    own : (b : Bool) → b ≡ true → (x y : SafeMap Str SubscribeMessage) → (if b then x else y) ≡ x
    own true h x y = refl
    own false h x y = absurd (cc)
