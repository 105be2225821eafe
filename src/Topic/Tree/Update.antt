-- ===== src/Topic/Tree/Update.antt =====
-- A subscription or its removal changes the entries at its own path alone.
use gofly_mqttv.Base.{
  ℕ, ◌≡◌, refl, sym, ap, ◌∙◌, inl, inr, Bool, true, ◌&&◌, none, List, [], ◌∷◌, if◌then◌else◌,
  Bool-cases,
}
use gofly_mqttv.Topic.Level.{Levels, end, last, more, bad}
use gofly_mqttv.Topic.Tree.{
  Sub, Entry, str_eq, SNode, node, Kids, find_kid, put_kid, or_new, upsert, insert_end, sinsert,
}
use gofly_mqttv.Topic.Tree.Paths.{
  TopicPath, at, at-cons, below, below-new, find_kid-put_kid, str_eq→eq, reaches, error_of,
}

-- The entry as it is stored.
abbrev pub stored : Sub → Sub
stored sub = record sub { topic = [] }

-- One child of a node was replaced: what stands at each path.
pub at-set_kid :
    (es : List Entry) (ks : Kids) (l k : List ℕ) (n : SNode) (q : TopicPath)
    → at (node es (put_kid l n ks)) (k ∷ q)
      ≡ (if str_eq l k then at n q else at (node es ks) (k ∷ q))
at-set_kid es ks l k n q =
    rw (at-cons, find_kid-put_kid, at-cons)
      (elim (Bool-cases (str_eq l k)) [ inl e ↦ rw e | inr e ↦ rw e ])

at-kid :
    (es : List Entry) (ks : Kids) (l k : List ℕ) (q : TopicPath)
    → str_eq l k ≡ true
    → at (or_new (find_kid l ks)) q ≡ at (node es ks) (k ∷ q)
at-kid es ks l k q e =
    below-new (find_kid l ks) q
    ∙ ap (λ j. below (find_kid j ks) q) (str_eq→eq l k e)
    ∙ sym (at-cons es ks k q)

no_error : (sub : Sub) (who : ℕ) (t : SNode) → (insert_end sub who t).1 ≡ none
unfolding insert_end
no_error sub who (node es ks) = refl

at-insert_end :
    (sub : Sub) (who : ℕ) (t : SNode) (q : TopicPath)
    → at (insert_end sub who t).0 q
      ≡ (if reaches end q then upsert who (stored sub) (at t q) else at t q)
unfolding insert_end at
at-insert_end sub who (node es ks) [] = refl
at-insert_end sub who (node es ks) (k ∷ q) = refl

-- A change of one child at its own paths is a change of the tree at the paths through that child.
insert_step :
    (f : List Entry → List Entry) (es : List Entry) (ks : Kids) (l k : List ℕ) (n : SNode)
    (b : Bool) (q : TopicPath)
    → at n q ≡ (if b then f (at (or_new (find_kid l ks)) q) else at (or_new (find_kid l ks)) q)
    → at (node es (put_kid l n ks)) (k ∷ q)
      ≡ (if str_eq l k && b then f (at (node es ks) (k ∷ q)) else at (node es ks) (k ∷ q))
insert_step f es ks l k n b q h = elim (Bool-cases (str_eq l k)) [
  | inl e ↦
      at-set_kid es ks l k n q ∙ rw e (h ∙ ap (λ x. if b then f x else x) (at-kid es ks l k q e))
  | inr e ↦ at-set_kid es ks l k n q ∙ rw e
]

-- After `sinsert` the entries at the topic's path have the subscriber's entry, new or replaced, and all
-- others are as they were; the error is that of the topic, and then nothing changed.
pub at-sinsert :
    (lv : Levels) (sub : Sub) (who : ℕ) (t : SNode) (q : TopicPath)
    → (at (sinsert lv sub who t).0 q
        ≡ (if reaches lv q then upsert who (stored sub) (at t q) else at t q))
      × ((sinsert lv sub who t).1 ≡ error_of lv)
unfolding sinsert
at-sinsert end sub who (node es ks) q =
    (at-insert_end sub who (node es ks) q, unfold insert_end in refl)
at-sinsert (bad e) sub who (node es ks) q = (refl, refl)
at-sinsert (last l) sub who (node es ks) [] =
    (unfold at in refl, no_error sub who (or_new (find_kid l ks)))
at-sinsert (last l) sub who (node es ks) (k ∷ q) = (
  insert_step (upsert who (stored sub)) es ks l k _ (reaches end q) q
      (at-insert_end sub who (or_new (find_kid l ks)) q),
  no_error sub who (or_new (find_kid l ks)),
)
at-sinsert (more l rest) sub who (node es ks) [] =
    (unfold at in refl, (at-sinsert rest sub who (or_new (find_kid l ks)) []).1)
at-sinsert (more l rest) sub who (node es ks) (k ∷ q) =
    let (ih, e) = at-sinsert rest sub who (or_new (find_kid l ks)) q in
    (insert_step (upsert who (stored sub)) es ks l k _ (reaches rest q) q ih, e)
