-- ===== src/Topic/Tree/Match/Answers.antt =====
-- What `smatch` collects from a tree of maps: the entries at the paths that match the topic.
use gofly_mqttv.Base.{
  ℕ, ◌≡◌, refl, sym, ap, ◌∙◌, ◌↔◌, ◌⊎◌, inl, inr, true, false, ◌||◌, none, List, [], ◌∷◌, ◌++◌,
  Bool-cases,
}
use mathlib.Core.Path.{subst}
use gofly_mqttv.Topic.Level.{Levels, end, last, more, bad, multi, single}
use gofly_mqttv.Topic.Tree.{
  Entry, str_eq, SNode, node, Kids, match_qos, match_kid, capped, matched, smatch,
}
use gofly_mqttv.Topic.Tree.Paths.{TopicPath, at, error_of, str_eq→eq}
use gofly_mqttv.Topic.Tree.Match.{
  In, is_nil, level_matches, filter_matches, matches, IsTree, IsMap, here_and_multi, collect, Hit,
}
use gofly_mqttv.Topic.Tree.Match.Collect.{smatch-collect}
use gofly_mqttv.Topic.Tree.Match.Kept.{
  In-left, In-right, In-split, In-reported, at-nil, and_left, and_right, or_else,
}
use gofly_mqttv.Topic.Tree.Match.Step.{
  level_sound, level_complete, match_kid_sound, match_kid_complete, own_sound, last_sound,
  last_complete,
}

tree_kids : (es : List Entry) (ks : Kids) → IsTree (node es ks) → IsMap ks
unfolding IsTree
tree_kids es ks h = h

collect_sound :
    (lv : Levels) (qos : ℕ) (x : Entry) (t : SNode)
    → error_of lv ≡ none
    → IsTree t
    → In x (collect lv qos t)
    → Hit (at t) (matches lv) qos x
unfolding collect
collect_sound (bad e) qos x t h tree i = cc
collect_sound end qos x (node es ks) h tree i =
    go (In-split x (match_qos qos es) (match_kid multi qos ks ++ match_kid single qos ks) i)
  where
    go :
        In x (match_qos qos es) ⊎ In x (match_kid multi qos ks ++ match_kid single qos ks)
        → Hit (at (node es ks)) (matches end) qos x
    go (inl i) = own_sound (matches end) qos x es ks (unfold matches in refl) i
    go (inr i) = elim (In-split x (match_kid multi qos ks) (match_kid single qos ks) i) [
      | inl j ↦ match_kid_sound multi qos x es ks (matches end) (unfold matches in refl) j
      | inr j ↦ match_kid_sound single qos x es ks (matches end) (unfold matches in refl) j
    ]
collect_sound (last l) qos x (node es ks) h tree i =
    level_sound l qos x (here_and_multi qos) (λ p. filter_matches p []) es ks (matches (last l))
      (λ k p. unfold matches in refl) (tree_kids es ks tree) (λ n t j. last_sound qos x n j) i
collect_sound (more l rest) qos x (node es ks) h tree i =
    level_sound l qos x (collect rest qos) (matches rest) es ks (matches (more l rest))
      (λ k p. unfold matches in refl) (tree_kids es ks tree)
      (λ n t j. collect_sound rest qos x n h t j) i

collect_complete :
    (lv : Levels) (qos : ℕ) (x : Entry) (t : SNode)
    → (p : TopicPath) (e : Entry) → In e (at t p)
    → matches lv p ≡ true
    → x ≡ capped qos e
    → In x (collect lv qos t)
unfolding collect matches
collect_complete (bad e) qos x t p y i m r = cc
collect_complete end qos x (node es ks) [] e i m r =
    In-left x (match_qos qos es) (match_kid multi qos ks ++ match_kid single qos ks)
      (In-reported es qos x e (subst (λ ys. In e ys) (at-nil (node es ks)) i) r)
collect_complete end qos x (node es ks) (k ∷ []) e i m r =
    In-right x (match_qos qos es) (match_kid multi qos ks ++ match_kid single qos ks)
      (elim (Bool-cases (str_eq k multi)) [
        | inl a ↦
            In-left x (match_kid multi qos ks) (match_kid single qos ks)
              (match_kid_complete multi qos x es ks e (rw (str_eq→eq k multi a) at i) r)
        | inr a ↦
            let b : str_eq k single ≡ true =
              or_else (str_eq k multi) (str_eq k single)
                (and_left (str_eq k multi || str_eq k single) true m) a in
            In-right x (match_kid multi qos ks) (match_kid single qos ks)
              (match_kid_complete single qos x es ks e (rw (str_eq→eq k single b) at i) r)
      ])
collect_complete end qos x (node es ks) (k ∷ j ∷ p) e i m r =
    absurd (cc (and_right (str_eq k multi || str_eq k single) false m))
collect_complete (last l) qos x (node es ks) [] e i m r = cc
collect_complete (last l) qos x (node es ks) (k ∷ p) e i m r =
    level_complete l qos x (here_and_multi qos) (λ p. filter_matches p []) es ks (matches (last l))
      (λ k p. refl) (λ n j. last_complete qos x n j) k p e i m r
collect_complete (more l rest) qos x (node es ks) [] e i m r = cc
collect_complete (more l rest) qos x (node es ks) (k ∷ p) e i m r =
    level_complete l qos x (collect rest qos) (matches rest) es ks (matches (more l rest))
      (λ k p. refl)
      (λ n j. collect_complete rest qos x n j.path j.entry j.there j.matching j.reported) k p e i m
      r

-- A topic that is read without an error and does not end in a slash.
abbrev pub NoSlash : Levels → Type 0
NoSlash end = ⊥
NoSlash (last l) = Unit
NoSlash (more l rest) = NoSlash rest
NoSlash (bad e) = ⊥

abbrev pub level_path : Levels → TopicPath
level_path end = []
level_path (last l) = l ∷ []
level_path (more l rest) = l ∷ level_path rest
level_path (bad e) = []

no_error_there : (lv : Levels) → NoSlash lv → error_of lv ≡ none
no_error_there end h = absurd h
no_error_there (last l) h = refl
no_error_there (more l rest) h = no_error_there rest h
no_error_there (bad e) h = absurd h

matches_filter :
    (lv : Levels) (p : TopicPath) → NoSlash lv → matches lv p ≡ filter_matches p (level_path lv)
unfolding matches
matches_filter end p h = absurd h
matches_filter (last l) [] h = refl
matches_filter (last l) (k ∷ p) h = refl
matches_filter (more l rest) [] h = refl
matches_filter (more l rest) (k ∷ p) h =
    ap (λ b. level_matches k l (is_nil p) b) (matches_filter rest p h)
matches_filter (bad e) p h = absurd h

-- On a tree whose maps hold no key twice, and for a topic that is read without an error and does not
-- end in a slash, `smatch` succeeds. It reports just the entries at the paths that match the topic as
-- topic filters by the rules of MQTT 5, 4.7, each with the lower of the two QoS: one whose granted QoS is
-- below the message's is reported too.
pub smatch-answers :
    (lv : Levels) (qos : ℕ) (t : SNode)
    → NoSlash lv
    → IsTree t
    → (answers : List Entry) × (smatch t lv qos ≡ matched answers)
      × ((x : Entry) → In x answers ↔ Hit (at t) (λ p. filter_matches p (level_path lv)) qos x)
smatch-answers lv qos t h tree = (
  collect lv qos t,
  smatch-collect t lv qos (no_error_there lv h),
  λ x. (
    λ i.
        let r = collect_sound lv qos x t (no_error_there lv h) tree i in
        record {
          path = r.path;
          entry = r.entry;
          there = r.there;
          matching = sym (matches_filter lv r.path h) ∙ r.matching;
          reported = r.reported;
        },
    λ r.
        collect_complete lv qos x t r.path r.entry r.there (matches_filter lv r.path h ∙ r.matching)
          r.reported,
  ),
)
