-- ===== src/Topic/Tree/Match/Kept.antt =====
-- Membership in a list of reported entries, and which child a reported entry comes from.
use gofly_mqttv.Base.{
  ℕ, ◌≡◌, refl, sym, ap, ◌∙◌, ◌⊎◌, inl, inr, Bool, true, false, ◌&&◌, ◌||◌, none, some, List, [],
  ◌∷◌, ◌++◌, if◌then◌else◌, Bool-cases, arith,
}
use mathlib.Core.Path.{subst}
use gofly_mqttv.Topic.Level.{multi, single}
use gofly_mqttv.Topic.Tree.{
  Entry, str_eq, SNode, node, Kids, nil, cons, find_kid, match_qos, match_kid, entries, capped,
}
use gofly_mqttv.Topic.Tree.Paths.{TopicPath, at, at-cons, str_eq→eq, str_eq_refl}
use gofly_mqttv.Topic.Tree.Match.{In, IsTree, IsMap, kids_loop}

module _ (x : Entry) where
  pub In-left : (xs ys : List Entry) → In x xs → In x (xs ++ ys)
  In-left [] ys h = absurd h
  In-left (y ∷ xs) ys (inl e) = inl e
  In-left (y ∷ xs) ys (inr h) = inr (In-left xs ys h)

  pub In-right : (xs ys : List Entry) → In x ys → In x (xs ++ ys)
  In-right [] ys h = h
  In-right (y ∷ xs) ys h = inr (In-right xs ys h)

  pub In-split : (xs ys : List Entry) → In x (xs ++ ys) → In x xs ⊎ In x ys
  In-split [] ys h = inr h
  In-split (y ∷ xs) ys (inl e) = inl (inl e)
  In-split (y ∷ xs) ys (inr h) = elim (In-split xs ys h) [ inl g ↦ inl (inr g) | inr g ↦ inr g ]

-- The entries of a node, reported.
pub record Reported (es : List Entry) (qos : ℕ) (x : Entry) : Type 0 where
  pub entry : Entry
  pub there : In entry es
  pub reported : x ≡ capped qos entry

pub Reported-In :
    (es : List Entry) (qos : ℕ) (x : Entry) → In x (match_qos qos es) → Reported es qos x
unfolding match_qos
Reported-In [] qos x h = absurd h
Reported-In (e ∷ es) qos x (inl h) = record { entry = e; there = inl refl; reported = h }
Reported-In (e ∷ es) qos x (inr h) =
    let r = Reported-In es qos x h in
    record { entry = r.entry; there = inr r.there; reported = r.reported }

pub In-reported :
    (es : List Entry) (qos : ℕ) (x e : Entry) → In e es → x ≡ capped qos e → In x (match_qos qos es)
unfolding match_qos
In-reported [] qos x e h r = absurd h
In-reported (y ∷ es) qos x e (inl h) r = inl (r ∙ ap (λ z. capped qos z) h)
In-reported (y ∷ es) qos x e (inr h) r = inr (In-reported es qos x e h r)

-- One child's part of the loop.
abbrev pub part : List ℕ → ℕ → (SNode → List Entry) → List ℕ → SNode → List Entry
part l qos f k n =
    if str_eq k multi
    then match_qos qos (entries n)
    else if str_eq k single || str_eq k l
    then f n
    else []

kids_loop-part :
    (l : List ℕ) (qos : ℕ) (f : SNode → List Entry) (k : List ℕ) (n : SNode) (ks : Kids)
    → kids_loop l qos f (cons k n ks) ≡ part l qos f k n ++ kids_loop l qos f ks
unfolding kids_loop
kids_loop-part l qos f k n ks = elim (Bool-cases (str_eq k multi)) [
  | inl e ↦ rw e
  | inr e ↦ elim (Bool-cases (str_eq k single || str_eq k l)) [
    | inl g ↦ rw (e, g)
    | inr g ↦ rw (e, g)
  ]
]

-- A child with an entry that the loop reports.
pub record Kept (l : List ℕ) (qos : ℕ) (f : SNode → List Entry) (ks : Kids) (x : Entry)
    : Type 0 where
  pub key : List ℕ
  pub child : SNode
  pub found : find_kid key ks ≡ some child
  pub inside : In x (part l qos f key child)

other_key :
    (j k : List ℕ) (ks : Kids) (n : SNode)
    → find_kid j ks ≡ none
    → find_kid k ks ≡ some n
    → str_eq j k ≡ false
other_key j k ks n h g = elim (Bool-cases (str_eq j k)) [
  | inl e ↦ absurd (cc (str_eq→eq j k e))
  | inr e ↦ e
]

pub loop→kept :
    (l : List ℕ) (qos : ℕ) (f : SNode → List Entry) (ks : Kids) (x : Entry)
    → IsMap ks
    → In x (kids_loop l qos f ks)
    → Kept l qos f ks x
unfolding find_kid IsMap kids_loop
loop→kept l qos f nil x h g = absurd g
loop→kept l qos f (cons k n ks) x (fresh, tree, rest) h =
    one
      (In-split x (part l qos f k n) (kids_loop l qos f ks)
        (subst (λ ys. In x ys) (kids_loop-part l qos f k n ks) h))
      (λ g. loop→kept l qos f ks x rest g)
  where
    later : Kept l qos f ks x → Kept l qos f (cons k n ks) x
    later r =
        let other = other_key k r.key ks r.child fresh r.found in
        record {
          key = r.key;
          child = r.child;
          found = unfold find_kid in rw other r.found;
          inside = r.inside;
        }

    one :
        In x (part l qos f k n) ⊎ In x (kids_loop l qos f ks)
        → (In x (kids_loop l qos f ks) → Kept l qos f ks x)
        → Kept l qos f (cons k n ks) x
    one (inl g) again = record {
      key = k;
      child = n;
      found = unfold find_kid in rw (str_eq_refl k);
      inside = g;
    }
    one (inr g) again = later (again g)

pub kept→loop :
    (l : List ℕ) (qos : ℕ) (f : SNode → List Entry) (ks : Kids) (x : Entry) (key : List ℕ)
    (child : SNode)
    → find_kid key ks ≡ some child
    → In x (part l qos f key child)
    → In x (kids_loop l qos f ks)
kept→loop l qos f nil x key child h g = unfold find_kid in cc
kept→loop l qos f (cons k n ks) x key child h g =
    subst (λ ys. In x ys) (sym (kids_loop-part l qos f k n ks))
      (elim (Bool-cases (str_eq k key)) [
        | inl e ↦ In-left x (part l qos f k n) (kids_loop l qos f ks) (here e)
        | inr e ↦
            In-right x (part l qos f k n) (kids_loop l qos f ks)
              (kept→loop l qos f ks x key child (below_it e) g)
      ])
  where
    here : str_eq k key ≡ true → In x (part l qos f k n)
    here e = let same : n ≡ child = unfold find_kid in cc (e, h) in rw (same, str_eq→eq k key e) g

    below_it : str_eq k key ≡ false → find_kid key ks ≡ some child
    below_it e = unfold find_kid in rw e at h

pub kid-IsTree : (ks : Kids) (k : List ℕ) (n : SNode) → IsMap ks → find_kid k ks ≡ some n → IsTree n
unfolding IsMap IsTree find_kid
kid-IsTree nil k n h e = cc
kid-IsTree (cons j m ks) k n (fresh, tree, rest) e = elim (Bool-cases (str_eq j k)) [
  | inl g ↦ first g
  | inr g ↦ kid-IsTree ks k n rest (rw g at e)
]
  where
    first : str_eq j k ≡ true → IsTree n
    first g = let same : m ≡ n = cc (g, e) in rw (← same) tree

pub at-kid :
    (es : List Entry) (ks : Kids) (k : List ℕ) (p : TopicPath) (n : SNode)
    → find_kid k ks ≡ some n
    → at (node es ks) (k ∷ p) ≡ at n p
at-kid es ks k p n h = at-cons es ks k p ∙ rw h

pub at-missing :
    (es : List Entry) (ks : Kids) (k : List ℕ) (p : TopicPath)
    → find_kid k ks ≡ none
    → at (node es ks) (k ∷ p) ≡ []
at-missing es ks k p h = at-cons es ks k p ∙ rw h

pub match_kid-some :
    (k : List ℕ) (qos : ℕ) (ks : Kids) (n : SNode)
    → find_kid k ks ≡ some n
    → match_kid k qos ks ≡ match_qos qos (entries n)
match_kid-some k qos ks n h = rw (match_kid, h)

pub match_kid-none :
    (k : List ℕ) (qos : ℕ) (ks : Kids) → find_kid k ks ≡ none → match_kid k qos ks ≡ []
match_kid-none k qos ks h = rw (match_kid, h)

pub move : (xs ys : List Entry) (e : Entry) → ys ≡ xs → In e xs → In e ys
move xs ys e h g = rw h g

pub at-nil : (n : SNode) → at n [] ≡ entries n
unfolding at
at-nil (node es ks) = refl

pub and_left : (b c : Bool) → (b && c) ≡ true → b ≡ true
and_left b c h = ground arith

pub or_else : (b c : Bool) → (b || c) ≡ true → b ≡ false → c ≡ true
or_else b c h g = ground arith

pub and_right : (b c : Bool) → (b && c) ≡ true → c ≡ true
and_right b c h = ground arith
