-- ===== src/Topic/Tree/Match/Collect.antt =====
-- `smatch` returns `collect` on every topic that is read without an error.
use gofly_mqttv.Base.{ℕ, ◌≡◌, refl, ap, none, List, arith}
use mathlib.Core.List.{append_assoc}
use gofly_mqttv.Topic.Level.{Levels, end, last, more, bad, multi}
use gofly_mqttv.Topic.Tree.{
  SNode, node, Kids, nil, cons, match_qos, match_kid, match_last, entries, kids, matched, smatch,
  match_kids,
}
use gofly_mqttv.Topic.Tree.Paths.{error_of}
use gofly_mqttv.Topic.Tree.Match.{kids_loop, here_and_multi, collect}

match_last-loop :
    (l : List ℕ) (qos : ℕ) (ks : Kids)
    → match_last l qos ks ≡ kids_loop l qos (here_and_multi qos) ks
unfolding match_last kids_loop
match_last-loop l qos nil = refl
match_last-loop l qos (cons k n ks) = ground (
  arith,
  match_last-loop l qos ks,
  append_assoc (match_qos qos (entries n)) (match_kid multi qos (kids n))
      (kids_loop l qos (here_and_multi qos) ks),
)

mutual
  unfolding smatch match_kids collect kids_loop

  smatch-matched :
      (t : SNode) (lv : Levels) (qos : ℕ)
      → error_of lv ≡ none
      → smatch t lv qos ≡ matched (collect lv qos t)
  smatch-matched (node es ks) end qos h = refl
  smatch-matched (node es ks) (last l) qos h = ap matched (match_last-loop l qos ks)
  smatch-matched (node es ks) (more l rest) qos h = match_kids-matched ks l rest qos h
  smatch-matched (node es ks) (bad e) qos h = cc

  match_kids-matched :
      (ks : Kids) (l : List ℕ) (rest : Levels) (qos : ℕ)
      → error_of rest ≡ none
      → match_kids ks l rest qos ≡ matched (kids_loop l qos (collect rest qos) ks)
  match_kids-matched nil l rest qos h = refl
  match_kids-matched (cons k n ks) l rest qos h =
      ground (arith, smatch-matched n rest qos h, match_kids-matched ks l rest qos h)

-- A topic that is read without an error is matched without one.
pub smatch-collect :
    (t : SNode) (lv : Levels) (qos : ℕ)
    → error_of lv ≡ none
    → smatch t lv qos ≡ matched (collect lv qos t)
smatch-collect t lv qos h = smatch-matched t lv qos h
