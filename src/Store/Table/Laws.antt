-- ===== src/Store/Table/Laws.antt =====
-- A table against a plain map from clients and keys.
use gofly_mqttv.Base.{
  ◌≡◌, refl, sym, ap, ◌∙◌, inl, inr, Bool, true, false, Option, none, some, [], ◌∷◌, if◌then◌else◌,
  Option-cases, Bool-cases,
}
use mathlib.Core.Option
use mathlib.Core.Path.{subst}
use gofly_mqttv.Collection.Entries.{Entries, Distinct, lookup, or_else}
use gofly_mqttv.Collection.SafeMap.{SafeMap, get, set, get_or_set}
use gofly_mqttv.Collection.SafeMap.Laws.{IsMap, get-set, set-IsMap}
use gofly_mqttv.Topic.Tree.{str_eq}
use gofly_mqttv.Topic.Tree.Paths.{str_eq→eq, str_eq_comm}
use gofly_mqttv.Store.Table.{Str, string_key, change_entry, change, change_or_new}

module _ {V : Type 0} where
  lookup-change_entry :
      (k j : Str) (f : V → V) (m : Entries Str V)
      → lookup j (change_entry k f m)
        ≡ (if str_eq k j then Option.map f (lookup j m) else lookup j m)
  unfolding lookup change_entry
  lookup-change_entry k j f [] = same_both (str_eq k j)
    where
      same_both : (b : Bool) → ◌≡◌ {A = Option V} none (if b then none else none)
      same_both true = refl
      same_both false = refl
  lookup-change_entry k j f ((i, v) ∷ m) = elim (Bool-cases (str_eq i k)) [
    | inl e ↦
        let q : str_eq i j ≡ str_eq k j = ap (λ x. str_eq x j) (str_eq→eq i k e) in
        rw (e, q) (here (str_eq k j) (lookup j m))
    | inr e ↦ elim (Bool-cases (str_eq i j)) [
      | inl h ↦
          let q : str_eq k j ≡ false =
            ap (str_eq k) (sym (str_eq→eq i j h)) ∙ str_eq_comm k i ∙ e in
          rw (e, h, q) refl
      | inr h ↦ rw (e, h) (lookup-change_entry k j f m)
    ]
  ]
    where
      here :
          (b : Bool) (l : Option V)
          → (if b then some (f v) else l)
            ≡ (if b then Option.map f (if b then some v else l) else (if b then some v else l))
      here true l = refl
      here false l = refl

  still_none :
      (b : Bool) (f : V → V) (o : Option V) → o ≡ none → (if b then Option.map f o else o) ≡ none
  still_none true f o h = ap (Option.map f) h
  still_none false f o h = h

  change_entry-Distinct :
      (k : Str) (f : V → V) (m : Entries Str V) → Distinct m → Distinct (change_entry k f m)
  unfolding change_entry Distinct
  change_entry-Distinct k f [] d = d
  change_entry-Distinct k f ((i, v) ∷ m) d = elim (Bool-cases (str_eq i k)) [
    | inl e ↦ rw e d
    | inr e ↦ rw e (
      lookup-change_entry k i f m ∙ still_none (str_eq k i) f (lookup i m) d.0,
      change_entry-Distinct k f m d.1,
    )
  ]

  change-IsMap : (k : Str) (f : V → V) (m : SafeMap Str V) → IsMap m → IsMap (change k f m)
  unfolding change
  change-IsMap k f m i = elim (Option-cases (lookup k m.dirty_old)) [
    | inl gone ↦
        rw (gone, change)
          record {
            old = i.old;
            new = change_entry-Distinct k f m.dirty_new i.new;
            apart = λ j. elim (i.apart j) [
              | inl h ↦ inl h
              | inr h ↦ inr (
                  lookup-change_entry k j f m.dirty_new
                  ∙ still_none (str_eq k j) f (lookup j m.dirty_new) h)
            ];
          }
    | inr (v, there) ↦
        rw (there, change)
          record {
            old = change_entry-Distinct k f m.dirty_old i.old;
            new = i.new;
            apart = λ j. elim (i.apart j) [
              | inr h ↦ inr h
              | inl h ↦ inl (
                  lookup-change_entry k j f m.dirty_old
                  ∙ still_none (str_eq k j) f (lookup j m.dirty_old) h)
            ];
          }
  ]

  get-change :
      (k j : Str) (f : V → V) (m : SafeMap Str V)
      → get j (change k f m) ≡ (if str_eq k j then Option.map f (get j m) else get j m)
  unfolding get change
  get-change k j f m = elim (Option-cases (lookup k m.dirty_old)) [
    | inl gone ↦
        rw (gone, change)
          (ap (or_else (lookup j m.dirty_old)) (lookup-change_entry k j f m.dirty_new)
            ∙ in_new (str_eq k j)
                (λ e. ap (λ x. lookup x m.dirty_old) (sym (str_eq→eq k j e)) ∙ gone))
    | inr (v, there) ↦
        rw (there, change)
          (ap (λ o. or_else o (lookup j m.dirty_new)) (lookup-change_entry k j f m.dirty_old)
            ∙ in_old (str_eq k j) v
                (λ e. ap (λ x. lookup x m.dirty_old) (sym (str_eq→eq k j e)) ∙ there))
  ]
    where
      in_new :
          (b : Bool)
          → (b ≡ true → lookup j m.dirty_old ≡ none)
          → or_else
              (lookup j m.dirty_old)
              (if b then Option.map f (lookup j m.dirty_new) else lookup j m.dirty_new)
            ≡ (if b
                then Option.map f (or_else (lookup j m.dirty_old) (lookup j m.dirty_new))
                else or_else (lookup j m.dirty_old) (lookup j m.dirty_new))
      in_new true h = let e = h refl in rw e refl
      in_new false h = refl

      in_old :
          (b : Bool) (v : V)
          → (b ≡ true → lookup j m.dirty_old ≡ some v)
          → or_else
              (if b then Option.map f (lookup j m.dirty_old) else lookup j m.dirty_old)
              (lookup j m.dirty_new)
            ≡ (if b
                then Option.map f (or_else (lookup j m.dirty_old) (lookup j m.dirty_new))
                else or_else (lookup j m.dirty_old) (lookup j m.dirty_new))
      in_old true v h = let e = h refl in rw e refl
      in_old false v h = refl

  abbrev pub or_new : V → Option V → V
  or_new d none = d
  or_new d (some v) = v

  set_new :
      (c : Str) (d : V) (t : SafeMap Str V) → get c t ≡ none → (get_or_set c d t).1 ≡ set c d t
  unfolding get_or_set
  set_new c d t e = rw (e, get_or_set) refl

  keep_old : (c : Str) (d v : V) (t : SafeMap Str V) → get c t ≡ some v → (get_or_set c d t).1 ≡ t
  unfolding get_or_set
  keep_old c d v t e = rw (e, get_or_set) refl

  pub get-change_or_new :
      (c j : Str) (d : V) (f : V → V) (t : SafeMap Str V)
      → get j (change_or_new c d f t)
        ≡ (if str_eq c j then some (f (or_new d (get c t))) else get j t)
  unfolding change_or_new
  get-change_or_new c j d f t = elim (Option-cases (get c t)) [
    | inl gone ↦ rw gone (
        ap (λ m. get j (change c f m)) (set_new c d t gone)
        ∙ get-change c j f (set c d t)
        ∙ ap (λ o. if str_eq c j then Option.map f o else o) (get-set c j d t)
        ∙ made (str_eq c j))
    | inr (v, there) ↦ rw there (
        ap (λ m. get j (change c f m)) (keep_old c d v t there)
        ∙ get-change c j f t
        ∙ found (str_eq c j) v (λ e. ap (λ x. get x t) (sym (str_eq→eq c j e)) ∙ there))
  ]
    where
      made :
          (b : Bool)
          → (if b
              then Option.map f (if b then some d else get j t)
              else (if b then some d else get j t))
            ≡ (if b then some (f d) else get j t)
      made true = refl
      made false = refl

      found :
          (b : Bool) (v : V)
          → (b ≡ true → get j t ≡ some v)
          → (if b then Option.map f (get j t) else get j t) ≡ (if b then some (f v) else get j t)
      found true v h = ap (Option.map f) (h refl)
      found false v h = refl

  pub change_or_new-IsMap :
      (c : Str) (d : V) (f : V → V) (t : SafeMap Str V) → IsMap t → IsMap (change_or_new c d f t)
  unfolding change_or_new
  change_or_new-IsMap c d f t i = elim (Option-cases (get c t)) [
    | inl gone ↦
        subst (λ m. IsMap (change c f m)) (sym (set_new c d t gone))
          (change-IsMap c f (set c d t) (set-IsMap c d t i))
    | inr (v, there) ↦
        subst (λ m. IsMap (change c f m)) (sym (keep_old c d v t there)) (change-IsMap c f t i)
  ]

  -- A look with `GetOrSet` returns the object, or the new one, and changes no object.
  pub value-get_or_set :
      (c : Str) (d : V) (t : SafeMap Str V) → (get_or_set c d t).0.0 ≡ or_new d (get c t)
  unfolding get_or_set
  value-get_or_set c d t = elim (Option-cases (get c t)) [
    | inl gone ↦ rw (gone, get_or_set) refl
    | inr (m, there) ↦ rw (there, get_or_set) refl
  ]

  pub get-get_or_set :
      (c j : Str) (d : V) (t : SafeMap Str V)
      → or_new d (get j (get_or_set c d t).1) ≡ or_new d (get j t)
  get-get_or_set c j d t = elim (Option-cases (get c t)) [
    | inr (v, there) ↦ ap (λ m. or_new d (get j m)) (keep_old c d v t there)
    | inl gone ↦
        ap (λ m. or_new d (get j m)) (set_new c d t gone)
        ∙ ap (or_new d) (get-set c j d t)
        ∙ made (str_eq c j) (λ e. ap (λ x. get x t) (sym (str_eq→eq c j e)) ∙ gone)
  ]
    where
      made :
          (b : Bool)
          → (b ≡ true → get j t ≡ none)
          → or_new d (if b then some d else get j t) ≡ or_new d (get j t)
      made true h = ap (or_new d) (sym (h refl))
      made false h = refl

  pub get_or_set-IsMap :
      (c : Str) (d : V) (t : SafeMap Str V) → IsMap t → IsMap (get_or_set c d t).1
  get_or_set-IsMap c d t i = elim (Option-cases (get c t)) [
    | inr (v, there) ↦ subst IsMap (sym (keep_old c d v t there)) i
    | inl gone ↦ subst IsMap (sym (set_new c d t gone)) (set-IsMap c d t i)
  ]

  -- The objects after a change of one
  pub object-change_or_new :
      (c j : Str) (d : V) (f : V → V) (t : SafeMap Str V)
      → or_new d (get j (change_or_new c d f t))
        ≡ (if str_eq c j then f (or_new d (get c t)) else or_new d (get j t))
  object-change_or_new c j d f t = ap (or_new d) (get-change_or_new c j d f t) ∙ pull (str_eq c j)
    where
      pull :
          (b : Bool)
          → or_new d (if b then some (f (or_new d (get c t))) else get j t)
            ≡ (if b then f (or_new d (get c t)) else or_new d (get j t))
      pull true = refl
      pull false = refl
