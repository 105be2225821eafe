-- ===== src/Topic/Tree/Match/Maps.antt =====
-- The maps of the tree stay maps.
use gofly_mqttv.Base.{ℕ, ◌≡◌, refl, ◌∙◌, inl, inr, false, Option, none, some, List, Bool-cases}
use gofly_mqttv.Topic.Level.{Levels, end, last, more, bad}
use gofly_mqttv.Topic.Tree.{
  Sub, Entry, str_eq, SNode, node, Kids, nil, cons, find_kid, put_kid, delete_kid, or_new,
  insert_end, sinsert, RemoveError, is_bare, prune, at_end, in_kid, sremove, entries, kids,
  has_entry,
}
use gofly_mqttv.Topic.Tree.Paths.{find_kid-put_kid, find_kid-delete_kid, str_eq_comm}
use gofly_mqttv.Topic.Tree.Match.{IsTree, IsMap}
use gofly_mqttv.Topic.Tree.Match.Kept.{kid-IsTree}

put_kid-IsMap : (l : List ℕ) (n : SNode) (ks : Kids) → IsMap ks → IsTree n → IsMap (put_kid l n ks)
unfolding put_kid IsMap find_kid
put_kid-IsMap l n nil h t = (refl, t, _)
put_kid-IsMap l n (cons k m ks) (fresh, tree, rest) t = elim (Bool-cases (str_eq k l)) [
  | inl e ↦ rw e (fresh, t, rest)
  | inr e ↦
      let other : str_eq l k ≡ false = str_eq_comm l k ∙ e in
      let still : find_kid k (put_kid l n ks) ≡ none = find_kid-put_kid l k n ks ∙ rw other fresh in
      rw e (still, tree, put_kid-IsMap l n ks rest t)
]

delete_kid-IsMap : (l : List ℕ) (ks : Kids) → IsMap ks → IsMap (delete_kid l ks)
unfolding delete_kid IsMap find_kid
delete_kid-IsMap l nil h = _
delete_kid-IsMap l (cons k m ks) (fresh, tree, rest) = elim (Bool-cases (str_eq k l)) [
  | inl e ↦ rw e (delete_kid-IsMap l ks rest)
  | inr e ↦
      let other : str_eq l k ≡ false = str_eq_comm l k ∙ e in
      let still : find_kid k (delete_kid l ks) ≡ none =
        find_kid-delete_kid l k ks ∙ rw other fresh in
      rw e (still, tree, delete_kid-IsMap l ks rest)
]

kid_or_new :
    (l : List ℕ) (ks : Kids) → IsMap ks → (o : Option SNode) → find_kid l ks ≡ o → IsTree (or_new o)
kid_or_new l ks h none e = unfold IsTree IsMap in _
kid_or_new l ks h (some n) e = kid-IsTree ks l n h e

insert_end-IsTree : (sub : Sub) (who : ℕ) (t : SNode) → IsTree t → IsTree (insert_end sub who t).0
unfolding insert_end IsTree
insert_end-IsTree sub who (node es ks) h = h

pub sinsert-IsTree :
    (lv : Levels) (sub : Sub) (who : ℕ) (t : SNode) → IsTree t → IsTree (sinsert lv sub who t).0
unfolding sinsert IsTree
sinsert-IsTree end sub who (node es ks) h = insert_end-IsTree sub who (node es ks) h
sinsert-IsTree (bad e) sub who (node es ks) h = h
sinsert-IsTree (last l) sub who (node es ks) h =
    put_kid-IsMap l (insert_end sub who (or_new (find_kid l ks))).0 ks h
      (insert_end-IsTree sub who (or_new (find_kid l ks)) (kid_or_new l ks h (find_kid l ks) refl))
sinsert-IsTree (more l rest) sub who (node es ks) h =
    put_kid-IsMap l (sinsert rest sub who (or_new (find_kid l ks))).0 ks h (
      sinsert-IsTree rest sub who (or_new (find_kid l ks)) (kid_or_new l ks h (find_kid l ks) refl))

at_end-IsTree :
    (who : Option ℕ) (es : List Entry) (ks : Kids) → IsMap ks → IsTree (at_end who es ks).0
unfolding IsTree
at_end-IsTree none es ks h = h
at_end-IsTree (some who) es ks h = elim (Bool-cases (has_entry who es)) [
  | inl e ↦ rw e h
  | inr e ↦ rw e h
]

prune-IsTree :
    (l : List ℕ) (es : List Entry) (ks : Kids) (r : SNode × Option RemoveError)
    → IsMap ks
    → IsTree r.0
    → IsTree (prune l es ks r).0
unfolding IsTree
prune-IsTree l es ks (n, some e) h t = put_kid-IsMap l n ks h t
prune-IsTree l es ks (n, none) h t = elim (Bool-cases (is_bare n)) [
  | inl b ↦ rw b (delete_kid-IsMap l ks h)
  | inr b ↦ rw b (put_kid-IsMap l n ks h t)
]

in_kid-IsTree :
    (l : List ℕ) (es : List Entry) (ks : Kids) (f : SNode → SNode × Option RemoveError)
    → IsMap ks
    → ((n : SNode) → IsTree n → IsTree (f n).0)
    → (o : Option SNode) → find_kid l ks ≡ o
    → IsTree (in_kid l es ks f o).0
in_kid-IsTree l es ks f h g none e = unfold IsTree in h
in_kid-IsTree l es ks f h g (some n) e = prune-IsTree l es ks (f n) h (g n (kid-IsTree ks l n h e))

node_end-IsTree :
    (who : Option ℕ) (n : SNode) → IsTree n → IsTree (at_end who (entries n) (kids n)).0
node_end-IsTree who (node es ks) h = at_end-IsTree who es ks (unfold IsTree in h)

pub sremove-IsTree :
    (lv : Levels) (who : Option ℕ) (t : SNode) → IsTree t → IsTree (sremove lv who t).0
unfolding sremove
sremove-IsTree end who (node es ks) h = at_end-IsTree who es ks (unfold IsTree in h)
sremove-IsTree (bad e) who (node es ks) h = h
sremove-IsTree (last l) who (node es ks) h =
    in_kid-IsTree l es ks (λ n. at_end who (entries n) (kids n)) (unfold IsTree in h)
      (λ n t. node_end-IsTree who n t) (find_kid l ks) refl
sremove-IsTree (more l rest) who (node es ks) h =
    in_kid-IsTree l es ks (λ n. sremove rest who n) (unfold IsTree in h)
      (λ n t. sremove-IsTree rest who n t) (find_kid l ks) refl
