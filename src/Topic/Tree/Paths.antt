-- ===== src/Topic/Tree/Paths.antt =====
-- A tree as a function from paths to entries.
use gofly_mqttv.Base.{
  ℕ, ◌≡◌, refl, ◌↔◌, Bool, true, false, ◌&&◌, Option, none, some, List, [], ◌∷◌, arith,
  if◌then◌else◌,
}
use gofly_mqttv.Topic.Level.{Levels, end, last, more, bad, LevelError}
use gofly_mqttv.Topic.Tree.{
  Entry, str_eq, SNode, node, Kids, nil, cons, find_kid, put_kid, delete_kid, or_new,
}

abbrev pub TopicPath : Type 0
TopicPath = List (List ℕ)

pub str_eq→eq : (xs ys : List ℕ) → str_eq xs ys ≡ true → xs ≡ ys
str_eq→eq [] [] h = refl
str_eq→eq [] (y ∷ ys) h = cc
str_eq→eq (x ∷ xs) [] h = cc
str_eq→eq (x ∷ xs) (y ∷ ys) h = ground (arith, str_eq→eq xs ys)

pub str_eq_refl : (xs : List ℕ) → str_eq xs xs ≡ true
str_eq_refl [] = refl
str_eq_refl (x ∷ xs) = ground (arith, str_eq_refl xs)

pub str_eq_iff : (xs ys : List ℕ) → (str_eq xs ys ≡ true) ↔ (xs ≡ ys)
str_eq_iff xs ys = (str_eq→eq xs ys, λ e. rw e (str_eq_refl ys))

pub str_eq_comm : (xs ys : List ℕ) → str_eq xs ys ≡ str_eq ys xs
str_eq_comm [] [] = refl
str_eq_comm [] (y ∷ ys) = refl
str_eq_comm (x ∷ xs) [] = refl
str_eq_comm (x ∷ xs) (y ∷ ys) = ground (arith, str_eq_comm xs ys)

-- The entries of the node at a path, none where there is no node.
unfoldable pub at : SNode → TopicPath → List Entry
at (node es ks) [] = es
at (node es ks) (l ∷ p) = elim (find_kid l ks) [ none ↦ [] | some n ↦ at n p ]

-- The entries below one child of a map.
abbrev pub below : Option SNode → TopicPath → List Entry
below none p = []
below (some n) p = at n p

pub at-cons :
    (es : List Entry) (ks : Kids) (l : List ℕ) (p : TopicPath)
    → at (node es ks) (l ∷ p) ≡ below (find_kid l ks) p
unfolding at
at-cons es ks l p = ground (arith)

pub below-new : (o : Option SNode) (p : TopicPath) → at (or_new o) p ≡ below o p
unfolding at find_kid
below-new none [] = refl
below-new none (l ∷ p) = refl
below-new (some n) p = refl

pub find_kid-put_kid :
    (l k : List ℕ) (n : SNode) (ks : Kids)
    → find_kid k (put_kid l n ks) ≡ (if str_eq l k then some n else find_kid k ks)
unfolding find_kid put_kid
find_kid-put_kid l k n nil = refl
find_kid-put_kid l k n (cons j m ks) =
    ground (arith, find_kid-put_kid l k n ks, str_eq_iff l k, str_eq_iff j l, str_eq_iff j k)

pub find_kid-delete_kid :
    (l k : List ℕ) (ks : Kids)
    → find_kid k (delete_kid l ks) ≡ (if str_eq l k then none else find_kid k ks)
unfolding find_kid delete_kid
find_kid-delete_kid l k nil = ground arith
find_kid-delete_kid l k (cons j m ks) =
    ground (arith, find_kid-delete_kid l k ks, str_eq_iff l k, str_eq_iff j l, str_eq_iff j k)

-- Whether reading a topic ends at the path.
abbrev pub reaches : Levels → TopicPath → Bool
reaches end [] = true
reaches end (k ∷ q) = false
reaches (last l) [] = false
reaches (last l) (k ∷ q) = str_eq l k && reaches end q
reaches (more l rest) [] = false
reaches (more l rest) (k ∷ q) = str_eq l k && reaches rest q
reaches (bad e) q = false

-- The error at the end of the reading, if there is one.
abbrev pub error_of : Levels → Option LevelError
error_of end = none
error_of (last l) = none
error_of (more l rest) = error_of rest
error_of (bad e) = some e
