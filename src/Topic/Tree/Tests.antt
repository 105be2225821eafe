-- ===== src/Topic/Tree/Tests.antt =====
-- The tree's theorems at concrete trees.
use gofly_mqttv.Base.{◌≡◌, refl, false, some, [], ◌∷◌, if◌then◌else◌}
use gofly_mqttv.Topic.Level.{Levels, more, last}
use gofly_mqttv.Topic.Tree.{Sub, SNode, new_snode, upsert, has_entry, sinsert, sremove}
use gofly_mqttv.Topic.Tree.Paths.{TopicPath, at, reaches, error_of}
use gofly_mqttv.Topic.Tree.Update.{stored, at-sinsert}
use gofly_mqttv.Base.{◌↔◌, List}
use gofly_mqttv.Topic.Tree.{Entry, matched, smatch}
use gofly_mqttv.Topic.Tree.Match.{In, IsTree, Hit, filter_matches}
use gofly_mqttv.Topic.Tree.Match.Answers.{level_path, smatch-answers}
use gofly_mqttv.Topic.Tree.Match.Runs.{TreeCall, subscribe, unsubscribe, run_tree}
use gofly_mqttv.Topic.Tree.Removal.{removed, at-sremove, sremove-sinsert}

abbrev quiet : Sub
quiet = record {
  topic = b'a' ∷ b'/' ∷ b'b' ∷ [];
  qos = 1;
  no_local = false;
  retain_as_published = false;
  retain_handling = 0;
  sub_identifier = 0;
}

-- "a/b"
abbrev a_b : Levels
a_b = more (b'a' ∷ []) (last (b'b' ∷ []))

abbrev to_a_b : TopicPath
to_a_b = (b'a' ∷ []) ∷ (b'b' ∷ []) ∷ []

abbrev one_subscriber : SNode
unfolding sinsert
one_subscriber = (sinsert a_b quiet 5 new_snode).0

at-sinsert_example :
    (at (sinsert a_b quiet 6 one_subscriber).0 to_a_b ≡ (
      if reaches a_b to_a_b
      then upsert 6 (stored quiet) (at one_subscriber to_a_b)
      else at one_subscriber to_a_b))
    × ((sinsert a_b quiet 6 one_subscriber).1 ≡ error_of a_b)
at-sinsert_example = at-sinsert a_b quiet 6 one_subscriber to_a_b

at-sremove_example : at (sremove a_b (some 5) one_subscriber).0 to_a_b ≡ (
    if reaches a_b to_a_b
    then removed (some 5) (at one_subscriber to_a_b)
    else at one_subscriber to_a_b)
at-sremove_example = at-sremove a_b (some 5) one_subscriber to_a_b

sremove-sinsert_example :
    at (sremove a_b (some 6) (sinsert a_b quiet 6 one_subscriber).0).0 to_a_b
    ≡ at one_subscriber to_a_b
sremove-sinsert_example =
    sremove-sinsert a_b quiet 6 one_subscriber to_a_b (λ h. unfold at sinsert has_entry in refl)

one_subscriber-IsTree : IsTree one_subscriber
unfolding IsTree sinsert
one_subscriber-IsTree = (refl, (refl, _, _), _)

smatch-answers_example :
    (answers : List Entry) × (smatch one_subscriber a_b 0 ≡ matched answers)
    × ((x : Entry)
        → In x answers ↔ Hit (at one_subscriber) (λ p. filter_matches p (level_path a_b)) 0 x)
smatch-answers_example = smatch-answers a_b 0 one_subscriber _ one_subscriber-IsTree

-- Client 5 subscribes to a/b and to +/b, and takes the first back; client 6 subscribes to a/#.
abbrev some_calls : List TreeCall
some_calls =
    subscribe a_b quiet 5
    ∷ subscribe (more (b'+' ∷ []) (last (b'b' ∷ []))) quiet 5
    ∷ subscribe (more (b'a' ∷ []) (last (b'#' ∷ []))) quiet 6
    ∷ unsubscribe a_b (some 5)
    ∷ []

some_calls_test :
    smatch (run_tree some_calls new_snode) a_b 0
    ≡ matched ((6, record (stored quiet) { qos = 0 }) ∷ (5, record (stored quiet) { qos = 0 }) ∷ [])
unfolding run_tree sinsert sremove smatch
some_calls_test = refl
