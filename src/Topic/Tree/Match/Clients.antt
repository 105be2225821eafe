-- ===== src/Topic/Tree/Match/Clients.antt =====
-- The entries of a node as a function from clients to subscriptions: no client has two.
use gofly_mqttv.Base.{
  ℕ, ◌≡◌, refl, sym, ap, ap₂, ◌∙◌, inl, inr, true, false, ◌||◌, Option, none, some, List, [], ◌∷◌,
  arith, if◌then◌else◌, ◌==◌, ==_refl, Bool-cases,
}
use gofly_mqttv.Topic.Tree.{Sub, Entry, upsert, has_entry, drop_entry}
use gofly_mqttv.Topic.Tree.Match.{In}

-- The subscription of a client among entries
abbrev pub held : ℕ → List Entry → Option Sub
held who [] = none
held who ((w, s) ∷ es) = if w == who then some s else held who es

-- No client has two entries.
abbrev pub IsOnce : List Entry → Type 0
IsOnce [] = Unit
IsOnce ((w, s) ∷ es) = (has_entry w es ≡ false) × IsOnce es

pub held-upsert :
    (who j : ℕ) (sub : Sub) (es : List Entry)
    → held j (upsert who sub es) ≡ (if who == j then some sub else held j es)
unfolding upsert
held-upsert who j sub [] = refl
held-upsert who j sub ((w, s) ∷ es) = ground (arith, held-upsert who j sub es)

has_entry-upsert :
    (who w : ℕ) (sub : Sub) (es : List Entry)
    → has_entry w (upsert who sub es) ≡ (who == w || has_entry w es)
unfolding upsert has_entry
has_entry-upsert who w sub [] = refl
has_entry-upsert who w sub ((v, s) ∷ es) = ground (arith, has_entry-upsert who w sub es)

pub upsert-IsOnce : (who : ℕ) (sub : Sub) (es : List Entry) → IsOnce es → IsOnce (upsert who sub es)
unfolding upsert has_entry
upsert-IsOnce who sub [] h = (refl, _)
upsert-IsOnce who sub ((w, s) ∷ es) (fresh, once) = elim (Bool-cases (w == who)) [
  | inl e ↦ rw e (fresh, once)
  | inr e ↦
      let apart : (who == w) ≡ false = ground arith in
      rw e (has_entry-upsert who w sub es ∙ rw (apart, fresh) refl, upsert-IsOnce who sub es once)
]

held-absent : (j : ℕ) (es : List Entry) → has_entry j es ≡ false → held j es ≡ none
unfolding has_entry
held-absent j [] h = refl
held-absent j ((w, s) ∷ es) h = ground (arith, held-absent j es)

pub held-drop_entry :
    (who j : ℕ) (es : List Entry)
    → IsOnce es
    → held j (drop_entry who es) ≡ (if who == j then none else held j es)
unfolding drop_entry
held-drop_entry who j [] h = ground arith
held-drop_entry who j ((w, s) ∷ es) (fresh, once) =
    ground (arith, held-drop_entry who j es once, held-absent w es fresh)

has_entry-drop_entry :
    (who w : ℕ) (es : List Entry) → has_entry w es ≡ false → has_entry w (drop_entry who es) ≡ false
unfolding drop_entry has_entry
has_entry-drop_entry who w [] h = refl
has_entry-drop_entry who w ((v, s) ∷ es) h = ground (arith, has_entry-drop_entry who w es)

pub drop_entry-IsOnce : (who : ℕ) (es : List Entry) → IsOnce es → IsOnce (drop_entry who es)
unfolding drop_entry
drop_entry-IsOnce who [] h = _
drop_entry-IsOnce who ((w, s) ∷ es) (fresh, once) = elim (Bool-cases (w == who)) [
  | inl e ↦ rw e once
  | inr e ↦ rw e (has_entry-drop_entry who w es fresh, drop_entry-IsOnce who es once)
]

In-has_entry : (who : ℕ) (sub : Sub) (es : List Entry) → In (who, sub) es → has_entry who es ≡ true
unfolding has_entry
In-has_entry who sub [] i = absurd i
In-has_entry who sub ((w, s) ∷ es) (inl e) = let same : who ≡ w = ap (λ x. x.0) e in ground arith
In-has_entry who sub ((w, s) ∷ es) (inr i) = ground (arith, In-has_entry who sub es i)

-- Where no client has two entries, an entry is what its client holds.
pub In→held :
    (who : ℕ) (sub : Sub) (es : List Entry) → IsOnce es → In (who, sub) es → held who es ≡ some sub
In→held who sub [] h i = absurd i
In→held who sub ((w, s) ∷ es) h (inl e) =
    let same : who ≡ w = ap (λ x. x.0) e in
    let own : sub ≡ s = ap (λ x. x.1) e in rw (same, own, ==_refl w) refl
In→held who sub ((w, s) ∷ es) (fresh, once) (inr i) =
    let there = In-has_entry who sub es i in
    let ih = In→held who sub es once i in
    elim (Bool-cases (w == who)) [
      | inl e ↦
          let same : w ≡ who = ground arith in
          absurd (cc (ap (λ n. has_entry n es) same, fresh, there))
      | inr e ↦ rw e ih
    ]

some-sub : (d : Sub) {a b : Sub} → some a ≡ some b → a ≡ b
some-sub d h = ap content h
  where
    content : Option Sub → Sub
    content none = d
    content (some b) = b

pub held→In : (who : ℕ) (sub : Sub) (es : List Entry) → held who es ≡ some sub → In (who, sub) es
held→In who sub [] h = absurd (cc)
held→In who sub ((w, s) ∷ es) h = elim (Bool-cases (w == who)) [
  | inl e ↦
      let same : who ≡ w = ground arith in
      let own : s ≡ sub = some-sub s (rw e at h) in inl (ap₂ (λ a b. (a, b)) same (sym own))
  | inr e ↦ inr (held→In who sub es (rw e at h))
]
