-- ===== src/Topic/Tree/Match.antt =====
-- What `smatch` collects, against the matching of topic filters in the MQTT specification.
pub mod Collect
pub mod Kept
pub mod Maps
pub mod Clients
pub mod Step
pub mod Answers
pub mod Runs
use gofly_mqttv.Base.{
  ℕ, ◌≡◌, ◌⊎◌, Bool, true, false, ◌&&◌, ◌||◌, Option, none, List, [], ◌∷◌, ◌++◌, if◌then◌else◌,
}
use gofly_mqttv.Topic.Level.{Levels, end, last, more, bad, multi, single}
use gofly_mqttv.Topic.Tree.{
  Entry, str_eq, SNode, node, Kids, nil, cons, find_kid, match_qos, match_kid, entries, kids,
  capped,
}
use gofly_mqttv.Topic.Tree.Paths.{TopicPath, at}

abbrev pub In : Entry → List Entry → Type 0
In x [] = ⊥
In x (y ∷ ys) = (x ≡ y) ⊎ In x ys

abbrev pub is_nil : TopicPath → Bool
is_nil [] = true
is_nil (k ∷ p) = false

-- A filter's first level and what follows it, against a topic's level and what follows that.
abbrev pub level_matches : List ℕ → List ℕ → Bool → Bool → Bool
level_matches k l nothing_more rest =
    if str_eq k multi then nothing_more else (str_eq k single || str_eq k l) && rest

-- MQTT 5, 4.7: `#` stands last and matches the rest of the topic, and also nothing; `+` matches one
-- level; any other level matches itself.
unfoldable pub filter_matches : TopicPath → TopicPath → Bool
filter_matches [] [] = true
filter_matches [] (l ∷ ls) = false
filter_matches (k ∷ p) [] = str_eq k multi && is_nil p
filter_matches (k ∷ p) (l ∷ ls) = level_matches k l (is_nil p) (filter_matches p ls)

-- The paths whose entries are reported for a topic as the code reads it. A topic that ends in a slash
-- (`end` behind a level) has no empty last level: filters that match without it match.
unfoldable pub matches : Levels → TopicPath → Bool
unfolding filter_matches
matches end [] = true
matches end (k ∷ p) = (str_eq k multi || str_eq k single) && is_nil p
matches (last l) [] = false
matches (last l) (k ∷ p) = level_matches k l (is_nil p) (filter_matches p [])
matches (more l rest) [] = false
matches (more l rest) (k ∷ p) = level_matches k l (is_nil p) (matches rest p)
matches (bad e) p = false

-- The tree is one of maps: no key stands twice.
unfoldable mutual
  unfolding find_kid

  pub IsTree : SNode → Type 0
  IsTree (node es ks) = IsMap ks

  pub IsMap : Kids → Type 0
  IsMap nil = Unit
  IsMap (cons k n ks) = (find_kid k ks ≡ none) × IsTree n × IsMap ks

-- The loop over the children, with `f` for what is collected below one of them.
unfoldable pub kids_loop : List ℕ → ℕ → (SNode → List Entry) → Kids → List Entry
kids_loop l qos f nil = []
kids_loop l qos f (cons k n ks) =
    if str_eq k multi
    then match_qos qos (entries n) ++ kids_loop l qos f ks
    else if str_eq k single || str_eq k l
    then f n ++ kids_loop l qos f ks
    else kids_loop l qos f ks

abbrev pub here_and_multi : ℕ → SNode → List Entry
here_and_multi qos n = match_qos qos (entries n) ++ match_kid multi qos (kids n)

-- What `smatch` returns where there is no error, by recursion on the topic.
unfoldable pub collect : Levels → ℕ → SNode → List Entry
unfolding kids_loop
collect end qos t =
    match_qos qos (entries t) ++ (match_kid multi qos (kids t) ++ match_kid single qos (kids t))
collect (last l) qos t = kids_loop l qos (here_and_multi qos) (kids t)
collect (more l rest) qos t = kids_loop l qos (collect rest qos) (kids t)
collect (bad e) qos t = []

-- An entry at a path that matches, reported as `x`.
pub record Hit (paths : TopicPath → List Entry) (m : TopicPath → Bool) (qos : ℕ) (x : Entry)
    : Type 0 where
  pub path : TopicPath
  pub entry : Entry
  pub there : In entry (paths path)
  pub matching : m path ≡ true
  pub reported : x ≡ capped qos entry
