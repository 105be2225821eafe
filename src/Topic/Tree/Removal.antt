-- ===== src/Topic/Tree/Removal.antt =====
-- `sremove` takes the subscriber's entry from its path and changes no other.
use gofly_mqttv.Base.{
  ℕ, ◌≡◌, refl, sym, ap, ◌∙◌, ◌⊎◌, inl, inr, Bool, true, false, ◌&&◌, Option, none, some, List, [],
  ◌∷◌, arith, if◌then◌else◌, Bool-cases, ==_refl,
}
use gofly_mqttv.Topic.Level.{Levels, end, last, more, bad}
use gofly_mqttv.Topic.Tree.{
  Sub, Entry, str_eq, SNode, node, Kids, nil, cons, find_kid, put_kid, delete_kid, upsert, sinsert,
  sremove, has_entry, drop_entry, is_bare, prune, in_kid, at_end, RemoveError, entries, kids,
}
use gofly_mqttv.Topic.Tree.Paths.{
  TopicPath, at, at-cons, below, find_kid-delete_kid, str_eq→eq, reaches,
}
use gofly_mqttv.Topic.Tree.Update.{at-set_kid, stored, at-sinsert}

-- What `sremove` makes of the entries at its path.
abbrev pub removed : Option ℕ → List Entry → List Entry
removed none es = []
removed (some who) es = drop_entry who es

drop_entry-absent : (who : ℕ) (es : List Entry) → has_entry who es ≡ false → drop_entry who es ≡ es
unfolding drop_entry has_entry
drop_entry-absent who [] h = refl
drop_entry-absent who ((w, s) ∷ es) h = ground (arith, drop_entry-absent who es)

at-at_end :
    (who : Option ℕ) (es : List Entry) (ks : Kids) (q : TopicPath)
    → at (at_end who es ks).0 q
      ≡ (if reaches end q then removed who (at (node es ks) q) else at (node es ks) q)
unfolding at
at-at_end none es ks [] = refl
at-at_end none es ks (k ∷ q) = refl
at-at_end (some who) es ks [] = elim (Bool-cases (has_entry who es)) [
  | inl h ↦ rw h
  | inr h ↦ rw (h, drop_entry-absent who es h)
]
at-at_end (some who) es ks (k ∷ q) = elim (Bool-cases (has_entry who es)) [
  | inl h ↦ rw h
  | inr h ↦ rw h
]

at-bare : (n : SNode) (q : TopicPath) → is_bare n ≡ true → at n q ≡ []
unfolding at find_kid
at-bare (node [] nil) [] h = refl
at-bare (node [] nil) (k ∷ q) h = refl
at-bare (node [] (cons j m ks)) q h = cc
at-bare (node (e ∷ es) ks) q h = cc

-- Deleting a child with nothing left is the same, path by path, as keeping it.
at-prune :
    (es : List Entry) (ks : Kids) (l k : List ℕ) (n : SNode) (e : Option RemoveError)
    (q : TopicPath)
    → at (prune l es ks (n, e)).0 (k ∷ q) ≡ at (node es (put_kid l n ks)) (k ∷ q)
at-prune es ks l k n (some e) q = refl
at-prune es ks l k n none q = elim (Bool-cases (is_bare n)) [
  | inl b ↦ rw b (deleted (Bool-cases (str_eq l k)) b)
  | inr b ↦ rw b
]
  where
    deleted :
        ((str_eq l k ≡ true) ⊎ (str_eq l k ≡ false))
        → is_bare n ≡ true
        → at (node es (delete_kid l ks)) (k ∷ q) ≡ at (node es (put_kid l n ks)) (k ∷ q)
    deleted (inl h) b =
        at-cons es (delete_kid l ks) k q
        ∙ ap (λ o. below o q) (find_kid-delete_kid l k ks)
        ∙ rw h (sym (at-bare n q b) ∙ sym (at-set_kid es ks l k n q ∙ (rw h)))
    deleted (inr h) b =
        at-cons es (delete_kid l ks) k q
        ∙ ap (λ o. below o q) (find_kid-delete_kid l k ks)
        ∙ rw h (sym (at-set_kid es ks l k n q ∙ (rw h) ∙ at-cons es ks k q))

at-prune_nil :
    (es : List Entry) (ks : Kids) (l : List ℕ) (r : SNode × Option RemoveError)
    → at (prune l es ks r).0 [] ≡ es
unfolding at
at-prune_nil es ks l (n, some e) = refl
at-prune_nil es ks l (n, none) = refl

remove_step :
    (f : List Entry → List Entry) (es : List Entry) (ks : Kids) (l k : List ℕ) (n m : SNode)
    (b : Bool) (q : TopicPath)
    → find_kid l ks ≡ some m
    → at n q ≡ (if b then f (at m q) else at m q)
    → at (node es (put_kid l n ks)) (k ∷ q)
      ≡ (if str_eq l k && b then f (at (node es ks) (k ∷ q)) else at (node es ks) (k ∷ q))
remove_step f es ks l k n m b q found h = elim (Bool-cases (str_eq l k)) [
  | inl e ↦
      let same : at m q ≡ at (node es ks) (k ∷ q) =
        sym (ap (λ o. below o q) found)
        ∙ ap (λ j. below (find_kid j ks) q) (str_eq→eq l k e)
        ∙ sym (at-cons es ks k q) in
      at-set_kid es ks l k n q ∙ rw e (h ∙ ap (λ x. if b then f x else x) same)
  | inr e ↦ at-set_kid es ks l k n q ∙ rw e
]

-- Nothing stands below a child that is not there.
no_kid :
    (f : List Entry → List Entry) (es : List Entry) (ks : Kids) (l k : List ℕ) (b : Bool)
    (q : TopicPath)
    → f [] ≡ []
    → find_kid l ks ≡ none
    → at (node es ks) (k ∷ q)
      ≡ (if str_eq l k && b then f (at (node es ks) (k ∷ q)) else at (node es ks) (k ∷ q))
no_kid f es ks l k b q fe gone = elim (Bool-cases (str_eq l k)) [
  | inl e ↦
      let empty : at (node es ks) (k ∷ q) ≡ [] =
        at-cons es ks k q
        ∙ ap (λ j. below (find_kid j ks) q) (sym (str_eq→eq l k e))
        ∙ ap (λ o. below o q) gone in
      rw (e, empty) (elim (Bool-cases b) [ inl c ↦ rw c (sym fe) | inr c ↦ rw c ])
  | inr e ↦ rw e
]

removed-nil : (who : Option ℕ) → removed who [] ≡ []
unfolding drop_entry
removed-nil none = refl
removed-nil (some w) = refl

at-in_kid :
    (l : List ℕ) (es : List Entry) (ks : Kids) (f : SNode → SNode × Option RemoveError)
    (who : Option ℕ) (rest : Levels) (k : List ℕ) (q : TopicPath)
    → ((n : SNode) → at (f n).0 q ≡ (if reaches rest q then removed who (at n q) else at n q))
    → (o : Option SNode) → find_kid l ks ≡ o
    → at (in_kid l es ks f o).0 (k ∷ q) ≡ (
        if str_eq l k && reaches rest q
        then removed who (at (node es ks) (k ∷ q))
        else at (node es ks) (k ∷ q))
at-in_kid l es ks f who rest k q ih none found =
    no_kid (removed who) es ks l k (reaches rest q) q (removed-nil who) found
at-in_kid l es ks f who rest k q ih (some n) found =
    at-prune es ks l k (f n).0 (f n).1 q
    ∙ remove_step (removed who) es ks l k (f n).0 n (reaches rest q) q found (ih n)

at-kid_nil :
    (l : List ℕ) (es : List Entry) (ks : Kids) (f : SNode → SNode × Option RemoveError)
    (o : Option SNode)
    → at (in_kid l es ks f o).0 [] ≡ es
at-kid_nil l es ks f none = unfold at in refl
at-kid_nil l es ks f (some n) = at-prune_nil es ks l (f n)

end_node :
    (who : Option ℕ) (n : SNode) (q : TopicPath)
    → at (at_end who (entries n) (kids n)).0 q
      ≡ (if reaches end q then removed who (at n q) else at n q)
end_node who (node es ks) q = at-at_end who es ks q

-- After `sremove` the entries at the topic's path are without that of the subscriber (all of them, where
-- the subscriber is nil), and those at every other path are as they were.
pub at-sremove :
    (lv : Levels) (who : Option ℕ) (t : SNode) (q : TopicPath)
    → at (sremove lv who t).0 q ≡ (if reaches lv q then removed who (at t q) else at t q)
unfolding sremove at
at-sremove end who (node es ks) q = at-at_end who es ks q
at-sremove (bad e) who (node es ks) q = refl
at-sremove (last l) who (node es ks) [] =
    at-kid_nil l es ks (λ n. at_end who (entries n) (kids n)) (find_kid l ks)
at-sremove (last l) who (node es ks) (k ∷ q) =
    at-in_kid l es ks (λ n. at_end who (entries n) (kids n)) who end k q (λ n. end_node who n q)
      (find_kid l ks) refl
at-sremove (more l rest) who (node es ks) [] =
    at-kid_nil l es ks (λ n. sremove rest who n) (find_kid l ks)
at-sremove (more l rest) who (node es ks) (k ∷ q) =
    let ih : (n : SNode)
        → at (sremove rest who n).0 q ≡ (if reaches rest q then removed who (at n q) else at n q) =
      λ n. at-sremove rest who n q in
    at-in_kid l es ks (λ n. sremove rest who n) who rest k q ih (find_kid l ks) refl

drop_entry-upsert :
    (who : ℕ) (sub : Sub) (es : List Entry)
    → has_entry who es ≡ false
    → drop_entry who (upsert who sub es) ≡ es
unfolding drop_entry upsert has_entry
drop_entry-upsert who sub [] h = rw ==_refl
drop_entry-upsert who sub ((w, s) ∷ es) h = ground (arith, drop_entry-upsert who sub es)

-- Unsubscribing undoes a first subscription: if the subscriber had no entry at the topic's path, then
-- after both every path has the entries that it had.
pub sremove-sinsert :
    (lv : Levels) (sub : Sub) (who : ℕ) (t : SNode) (q : TopicPath)
    → (reaches lv q ≡ true → has_entry who (at t q) ≡ false)
    → at (sremove lv (some who) (sinsert lv sub who t).0).0 q ≡ at t q
sremove-sinsert lv sub who t q absent =
    at-sremove lv (some who) (sinsert lv sub who t).0 q
    ∙ ap (λ x. if reaches lv q then drop_entry who x else x) (at-sinsert lv sub who t q).0
    ∙ (elim (Bool-cases (reaches lv q)) [
      | inl r ↦ rw r (drop_entry-upsert who (stored sub) (at t q) (absent r))
      | inr r ↦ rw r
    ])
