-- ===== src/Topic/Tree/Match/Step.antt =====
-- One level of a topic: what is collected below a node, given what is collected below its children.
use gofly_mqttv.Base.{
  ℕ, ◌≡◌, refl, sym, ◌∙◌, ◌⊎◌, inl, inr, Bool, true, false, ◌||◌, Option, none, some, List, [], ◌∷◌,
  Bool-cases,
}
use mathlib.Core.Path.{subst}
use gofly_mqttv.Topic.Level.{multi, single}
use gofly_mqttv.Topic.Tree.{
  Entry, str_eq, SNode, node, Kids, find_kid, match_qos, match_kid, entries, capped,
}
use gofly_mqttv.Topic.Tree.Paths.{TopicPath, at, str_eq→eq}
use gofly_mqttv.Topic.Tree.Match.{
  In, is_nil, level_matches, filter_matches, IsTree, IsMap, kids_loop, here_and_multi, Hit,
}
use gofly_mqttv.Topic.Tree.Match.Kept.{
  In-left, In-right, In-split, Reported-In, In-reported, part, loop→kept, kept→loop, kid-IsTree,
  at-kid, at-missing, match_kid-some, match_kid-none, move, at-nil, and_left, and_right,
}

-- A level of the topic: `f` collects below a child the entries at the paths that `m` lets through.
module _ (l : List ℕ) (qos : ℕ) (x : Entry) (f : SNode → List Entry) (m : TopicPath → Bool)
    (es : List Entry) (ks : Kids) (all : TopicPath → Bool)
    (step : (k : List ℕ) (p : TopicPath) → all (k ∷ p) ≡ level_matches k l (is_nil p) (m p)) where
  pub level_sound :
      IsMap ks
      → ((n : SNode) → IsTree n → In x (f n) → Hit (at n) m qos x)
      → In x (kids_loop l qos f ks)
      → Hit (at (node es ks)) all qos x
  level_sound h below g =
      let r = loop→kept l qos f ks x h g in
      found_at r.key r.child r.found (kid-IsTree ks r.key r.child h r.found) r.inside
        (Bool-cases (str_eq r.key multi))
    where
      deeper :
          (k : List ℕ) (n : SNode)
          → find_kid k ks ≡ some n
          → str_eq k multi ≡ false
          → (str_eq k single || str_eq k l) ≡ true
          → Hit (at n) m qos x
          → Hit (at (node es ks)) all qos x
      deeper k n e a b r = record {
        path = k ∷ r.path;
        entry = r.entry;
        there =
            move (at n r.path) (at (node es ks) (k ∷ r.path)) r.entry (at-kid es ks k r.path n e)
              r.there;
        matching = step k r.path ∙ rw (a, b, r.matching);
        reported = r.reported;
      }

      found_at :
          (k : List ℕ) (n : SNode)
          → find_kid k ks ≡ some n
          → IsTree n
          → In x (part l qos f k n)
          → (str_eq k multi ≡ true) ⊎ (str_eq k multi ≡ false)
          → Hit (at (node es ks)) all qos x
      found_at k n e t i (inl a) =
          let r = Reported-In (entries n) qos x (rw a at i) in
          record {
            path = k ∷ [];
            entry = r.entry;
            there =
                move (entries n) (at (node es ks) (k ∷ [])) r.entry
                  (at-kid es ks k [] n e ∙ at-nil n) r.there;
            matching = step k [] ∙ rw a;
            reported = r.reported;
          }
      found_at k n e t i (inr a) = elim (Bool-cases (str_eq k single || str_eq k l)) [
        | inl b ↦ deeper k n e a b (below n t (rw (a, b) at i))
        | inr b ↦ absurd (rw (a, b) at i)
      ]

  pub level_complete :
      ((n : SNode) → Hit (at n) m qos x → In x (f n))
      → (k : List ℕ) (p : TopicPath) (e : Entry) → In e (at (node es ks) (k ∷ p))
      → all (k ∷ p) ≡ true
      → x ≡ capped qos e
      → In x (kids_loop l qos f ks)
  level_complete below k p e i h r = go (find_kid k ks) refl
    where
      multi_part :
          (n : SNode) (q : TopicPath)
          → In e (at n q)
          → is_nil q ≡ true
          → In x (match_qos qos (entries n))
      multi_part n [] i g = In-reported (entries n) qos x e (subst (λ ys. In e ys) (at-nil n) i) r
      multi_part n (j ∷ q) i g = cc

      in_part : (n : SNode) → In e (at n p) → In x (part l qos f k n)
      in_part n i = elim (Bool-cases (str_eq k multi)) [
        | inl a ↦ rw a (multi_part n p i (rw a at (sym (step k p) ∙ h)))
        | inr a ↦
            rw (a, and_left (str_eq k single || str_eq k l) (m p) (rw a at (sym (step k p) ∙ h)))
              (below n (record {
                path = p;
                entry = e;
                there = i;
                matching =
                    and_right (str_eq k single || str_eq k l) (m p) (rw a at (sym (step k p) ∙ h));
                reported = r;
              }))
      ]

      go : (o : Option SNode) → find_kid k ks ≡ o → In x (kids_loop l qos f ks)
      go none g = absurd (subst (λ ys. In e ys) (at-missing es ks k p g) i)
      go (some n) g =
          kept→loop l qos f ks x k n g (in_part n (subst (λ ys. In e ys) (at-kid es ks k p n g) i))

-- One child by its key, as `match_kid` looks it up.
module _ (k : List ℕ) (qos : ℕ) (x : Entry) (es : List Entry) (ks : Kids) where
  pub match_kid_sound :
      (all : TopicPath → Bool)
      → all (k ∷ []) ≡ true
      → In x (match_kid k qos ks)
      → Hit (at (node es ks)) all qos x
  match_kid_sound all h i = go (find_kid k ks) refl
    where
      go : (o : Option SNode) → find_kid k ks ≡ o → Hit (at (node es ks)) all qos x
      go none g = absurd (subst (λ ys. In x ys) (match_kid-none k qos ks g) i)
      go (some n) g =
          let r =
            Reported-In (entries n) qos x (subst (λ ys. In x ys) (match_kid-some k qos ks n g) i) in
          record {
            path = k ∷ [];
            entry = r.entry;
            there =
                move (entries n) (at (node es ks) (k ∷ [])) r.entry
                  (at-kid es ks k [] n g ∙ at-nil n) r.there;
            matching = h;
            reported = r.reported;
          }

  pub match_kid_complete :
      (e : Entry) → In e (at (node es ks) (k ∷ [])) → x ≡ capped qos e → In x (match_kid k qos ks)
  match_kid_complete e i r = go (find_kid k ks) refl
    where
      go : (o : Option SNode) → find_kid k ks ≡ o → In x (match_kid k qos ks)
      go none g = absurd (subst (λ ys. In e ys) (at-missing es ks k [] g) i)
      go (some n) g =
          move (match_qos qos (entries n)) (match_kid k qos ks) x (match_kid-some k qos ks n g) (
            In-reported (entries n) qos x e
              (subst (λ ys. In e ys) (at-kid es ks k [] n g ∙ at-nil n) i) r)

pub own_sound :
    (all : TopicPath → Bool) (qos : ℕ) (x : Entry) (es : List Entry) (ks : Kids)
    → all [] ≡ true
    → In x (match_qos qos es)
    → Hit (at (node es ks)) all qos x
own_sound all qos x es ks h i =
    let r = Reported-In es qos x i in
    record {
      path = [];
      entry = r.entry;
      there = move es (at (node es ks) []) r.entry (at-nil (node es ks)) r.there;
      matching = h;
      reported = r.reported;
    }

pub last_sound :
    (qos : ℕ) (x : Entry) (n : SNode)
    → In x (here_and_multi qos n)
    → Hit (at n) (λ p. filter_matches p []) qos x
last_sound qos x (node es ks) h = elim (In-split x (match_qos qos es) (match_kid multi qos ks) h) [
  | inl i ↦ own_sound (λ p. filter_matches p []) qos x es ks (unfold filter_matches in refl) i
  | inr i ↦
      match_kid_sound multi qos x es ks (λ p. filter_matches p []) (unfold filter_matches in refl) i
]

pub last_complete :
    (qos : ℕ) (x : Entry) (n : SNode)
    → Hit (at n) (λ p. filter_matches p []) qos x
    → In x (here_and_multi qos n)
last_complete qos x (node es ks) r = go r.path r.there r.matching
  where
    go :
        (p : TopicPath)
        → In r.entry (at (node es ks) p)
        → filter_matches p [] ≡ true
        → In x (here_and_multi qos (node es ks))
    go [] i h = In-left x (match_qos qos es) (match_kid multi qos ks) (
        In-reported es qos x r.entry (subst (λ ys. In r.entry ys) (at-nil (node es ks)) i)
          r.reported)
    go (k ∷ []) i h =
        let e : k ≡ multi =
          unfold filter_matches in str_eq→eq k multi (and_left (str_eq k multi) true h) in
        In-right x (match_qos qos es) (match_kid multi qos ks)
          (match_kid_complete multi qos x es ks r.entry (rw e at i) r.reported)
    go (k ∷ j ∷ p) i h = absurd (unfold filter_matches in cc (and_right (str_eq k multi) false h))
