-- ===== src/Topic/Tree/Match/Runs.antt =====
-- Runs of subscriptions and unsubscriptions on a new tree, against a function from topic filters and clients
-- to subscriptions.
use gofly_mqttv.Base.{ℕ, ◌≡◌, true, ◌&&◌, Option, none, some, List, [], ◌∷◌, ◌==◌, if◌then◌else◌}
use gofly_mqttv.Topic.Level.{Levels}
use gofly_mqttv.Topic.Tree.{Sub, Entry, SNode, sinsert, sremove, capped}
use gofly_mqttv.Topic.Tree.Paths.{TopicPath, at, reaches}
use gofly_mqttv.Topic.Tree.Update.{stored}
use gofly_mqttv.Topic.Tree.Match.{filter_matches, IsTree}
use gofly_mqttv.Topic.Tree.Match.Clients.{held, IsOnce}

pub data TreeCall : Type 0 where
  subscribe : Levels → Sub → ℕ → TreeCall
  unsubscribe : Levels → Option ℕ → TreeCall

unfoldable pub run_tree : List TreeCall → SNode → SNode
unfolding sinsert sremove
run_tree [] t = t
run_tree (subscribe lv sub who ∷ cs) t = run_tree cs (sinsert lv sub who t).0
run_tree (unsubscribe lv who ∷ cs) t = run_tree cs (sremove lv who t).0

-- Which subscription a client has to a topic filter
abbrev pub Subscribed : Type 0
Subscribed = TopicPath → ℕ → Option Sub

abbrev pub dropped : Option ℕ → (ℕ → Option Sub) → ℕ → Option Sub
dropped none f j = none
dropped (some who) f j = if who == j then none else f j

abbrev pub replay : List TreeCall → Subscribed → Subscribed
replay [] f = f
replay (subscribe lv sub who ∷ cs) f =
    replay cs (λ q j. if reaches lv q && who == j then some (stored sub) else f q j)
replay (unsubscribe lv who ∷ cs) f =
    replay cs (λ q j. if reaches lv q then dropped who (f q) j else f q j)

record Holds (t : SNode) (f : Subscribed) : Type 0 where
  tree : IsTree t
  once : (q : TopicPath) → IsOnce (at t q)
  same : (q : TopicPath) (j : ℕ) → held j (at t q) ≡ f q j

-- A subscription to a filter that matches, reported as `x`
pub record Subscriber (f : Subscribed) (topic : TopicPath) (qos : ℕ) (x : Entry) : Type 0 where
  pub filter : TopicPath
  pub client : ℕ
  pub sub : Sub
  pub subscribed : f filter client ≡ some sub
  pub matching : filter_matches filter topic ≡ true
  pub reported : x ≡ capped qos (client, sub)
