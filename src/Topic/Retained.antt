-- ===== src/Topic/Retained.antt =====
-- The tree of retained messages of broker/impl/topic/topic.go: `rremove`, `rmatch`, `allRetained`. A
-- message is a pointer, here a number. `rinsert` is left out, with the PUBLISH packet that it copies. A
-- map is a list of entries in the order in which `range` visits them.
mod Tests
use gofly_mqttv.Base.{
  ℕ, Bool, true, false, Option, none, some, List, [], ◌∷◌, ◌++◌, if◌then◌else◌, ◌≡◌, refl,
}
use gofly_mqttv.Topic.Level.{Levels, end, last, more, bad, LevelError, multi, single}
use gofly_mqttv.Topic.Tree.{RemoveError, no_topic, level, str_eq}

mutual
  -- `rnode`: its message, and `map[string]*rnode`
  pub data RNode : Type 0 where
    rnode : Option ℕ → RKids → RNode

  pub data RKids : Type 0 where
    rnil : RKids
    rcons : List ℕ → RNode → RKids → RKids

-- `newRNode`
abbrev pub new_rnode : RNode
new_rnode = rnode none rnil

unfoldable pub find_rkid : List ℕ → RKids → Option RNode
find_rkid l rnil = none
find_rkid l (rcons k n ks) = if str_eq k l then some n else find_rkid l ks

-- The child at a level after a change of it.
unfoldable pub change_rkid : List ℕ → RNode → RKids → RKids
change_rkid l n rnil = rnil
change_rkid l n (rcons k m ks) = if str_eq k l then rcons k n ks else rcons k m (change_rkid l n ks)

-- `delete(t.rnodes, level)`
unfoldable pub delete_rkid : List ℕ → RKids → RKids
delete_rkid l rnil = rnil
delete_rkid l (rcons k n ks) =
    let rest = delete_rkid l ks in if str_eq k l then rest else rcons k n rest

-- The last part of `rremove`: a child is deleted when it has no children.
abbrev pub prune_rnode :
    List ℕ → Option ℕ → RKids → RNode × Option RemoveError → RNode × Option RemoveError
prune_rnode l msg ks (n, some e) = (rnode msg (change_rkid l n ks), some e)
prune_rnode l msg ks (rnode m rnil, none) = (rnode msg (delete_rkid l ks), none)
prune_rnode l msg ks (rnode m (rcons k n more_ks), none) =
    (rnode msg (change_rkid l (rnode m (rcons k n more_ks)) ks), none)

abbrev pub in_rkid :
    List ℕ
    → Option ℕ
    → RKids
    → (RNode → RNode × Option RemoveError)
    → Option RNode
    → RNode × Option RemoveError
in_rkid l msg ks f none = (rnode msg ks, some no_topic)
in_rkid l msg ks f (some n) = prune_rnode l msg ks (f n)

-- `rremove` at the end of the topic
abbrev pub clear_rnode : RNode → RNode × Option RemoveError
clear_rnode (rnode msg ks) = (rnode none ks, none)

-- `rremove`
unfoldable pub rremove : Levels → RNode → RNode × Option RemoveError
unfolding find_rkid change_rkid delete_rkid
rremove end t = clear_rnode t
rremove (last l) (rnode msg ks) = in_rkid l msg ks (λ n. clear_rnode n) (find_rkid l ks)
rremove (more l rest) (rnode msg ks) = in_rkid l msg ks (λ n. rremove rest n) (find_rkid l ks)
rremove (bad e) t = (t, some (level e))

abbrev pub own_message : Option ℕ → List ℕ
own_message none = []
own_message (some m) = m ∷ []

unfoldable mutual
  -- `allRetained`
  pub all_retained : RNode → List ℕ
  all_retained (rnode msg ks) = own_message msg ++ all_below_rnode ks

  pub all_below_rnode : RKids → List ℕ
  all_below_rnode rnil = []
  all_below_rnode (rcons k n ks) = all_retained n ++ all_below_rnode ks

-- The result of `rmatch`: an error, or the messages.
pub data RMatched : Type 0 where
  rfailed : LevelError → RMatched
  rmatched : List ℕ → RMatched

abbrev pub then_rmatch : RMatched → RMatched → RMatched
then_rmatch (rfailed e) m = rfailed e
then_rmatch (rmatched ms) (rfailed e) = rfailed e
then_rmatch (rmatched ms) (rmatched ns) = rmatched (ms ++ ns)

abbrev pub rmatch_end : RNode → RMatched
rmatch_end (rnode msg ks) = rmatched (own_message msg)

-- The loop of `rmatch` over the children, for `+`.
unfoldable pub rmatch_each : (RNode → RMatched) → RKids → RMatched
rmatch_each f rnil = rmatched []
rmatch_each f (rcons k n ks) = then_rmatch (f n) (rmatch_each f ks)

abbrev pub rmatch_kid : (RNode → RMatched) → Option RNode → RMatched
rmatch_kid f none = rmatched []
rmatch_kid f (some n) = f n

-- The cases of `rmatch` by the level, with `f` for the rest of the topic.
unfoldable pub rmatch_level : List ℕ → (RNode → RMatched) → RNode → RMatched
unfolding all_retained rmatch_each find_rkid
rmatch_level l f (rnode msg ks) =
    if str_eq l multi
    then rmatched (all_retained (rnode msg ks))
    else if str_eq l single
    then rmatch_each f ks
    else rmatch_kid f (find_rkid l ks)

-- `rmatch`
unfoldable pub rmatch : Levels → RNode → RMatched
unfolding rmatch_level
rmatch end t = rmatch_end t
rmatch (last l) t = rmatch_level l (λ n. rmatch_end n) t
rmatch (more l rest) t = rmatch_level l (λ n. rmatch rest n) t
rmatch (bad e) t = rfailed e
