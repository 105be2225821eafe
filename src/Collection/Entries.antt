-- ===== src/Collection/Entries.antt =====
-- Go's `map` as a list of entries, in the order in which `range` visits them, and its laws.
use gofly_mqttv.Base.{
  ℕ, ◌≡◌, refl, sym, ap, ◌∙◌, ◌↔◌, inl, inr, Bool, true, false, Option, none, some, List, [], ◌∷◌,
  if◌then◌else◌, ◌==◌, ==_iff, Bool-cases,
}

-- The keys of a map: Go's `==` on them.
pub record Key {ℓ} (K : Type ℓ) : Type ℓ where
  pub same : K → K → Bool
  pub same_iff : (a b : K) → (same a b ≡ true) ↔ (a ≡ b)

instance abbrev pub nat_key : Key ℕ
nat_key = record { same = ◌==◌; same_iff = ==_iff }

abbrev pub Entries {ℓ} : Type ℓ → Type ℓ → Type ℓ
Entries K V = List (K × V)

module _ {ℓ} {K : Type ℓ} ⦃key : Key K⦄ where
  pub same_refl : (k : K) → key.same k k ≡ true
  same_refl k = (key.same_iff k k).1 refl

  pub same_sym : (j k : K) → key.same j k ≡ key.same k j
  same_sym j k = elim (Bool-cases (key.same j k)) [
    | inl e ↦ e ∙ sym ((key.same_iff k j).1 (sym ((key.same_iff j k).0 e)))
    | inr e ↦ elim (Bool-cases (key.same k j)) [
      | inl f ↦ (key.same_iff j k).1 (sym ((key.same_iff k j).0 f)) ∙ sym f
      | inr f ↦ e ∙ sym f
    ]
  ]

-- The first of two finds
abbrev pub or_else {ℓ} : {V : Type ℓ} → Option V → Option V → Option V
or_else (some v) o = some v
or_else none o = o

module _ {ℓ} {K V : Type ℓ} ⦃key : Key K⦄ where
  unfoldable pub lookup : K → Entries K V → Option V
  lookup k [] = none
  lookup k ((j, v) ∷ m) = if key.same j k then some v else lookup k m

  -- `delete(m, k)`
  unfoldable pub delete : K → Entries K V → Entries K V
  delete k [] = []
  delete k ((j, v) ∷ m) = let rest = delete k m in if key.same j k then rest else (j, v) ∷ rest

  -- `m[k] = v`
  unfoldable pub put : K → V → Entries K V → Entries K V
  unfolding delete
  put k v m = (k, v) ∷ delete k m

  -- No key stands twice.
  unfoldable pub Distinct : Entries K V → Type ℓ
  unfolding lookup
  Distinct [] = Unit
  Distinct ((k, v) ∷ m) = (lookup k m ≡ none) × Distinct m

  pub lookup-delete :
      (k j : K) (m : Entries K V)
      → lookup j (delete k m) ≡ (if key.same k j then none else lookup j m)
  unfolding lookup delete
  lookup-delete k j [] = elim (Bool-cases (key.same k j)) [ inl e ↦ rw e refl | inr e ↦ rw e refl ]
  lookup-delete k j ((i, v) ∷ m) = elim (Bool-cases (key.same i k)) [
    | inl e ↦
        let q : key.same i j ≡ key.same k j = ap (λ x. key.same x j) ((key.same_iff i k).0 e) in
        rw (e, q) (lookup-delete k j m ∙ skip (key.same k j))
    | inr e ↦ elim (Bool-cases (key.same i j)) [
      | inl f ↦
          let q : key.same k j ≡ false =
            ap (key.same k) (sym ((key.same_iff i j).0 f)) ∙ same_sym k i ∙ e in
          rw (e, f, q) refl
      | inr f ↦ rw (e, f) (lookup-delete k j m)
    ]
  ]
    where
      skip :
          (b : Bool)
          → (if b then none else lookup j m)
            ≡ (if b then none else (if b then some v else lookup j m))
      skip true = refl
      skip false = refl

  pub lookup-put :
      (k j : K) (v : V) (m : Entries K V)
      → lookup j (put k v m) ≡ (if key.same k j then some v else lookup j m)
  unfolding put lookup
  lookup-put k j v m = elim (Bool-cases (key.same k j)) [
    | inl e ↦ rw e refl
    | inr e ↦ rw e (lookup-delete k j m ∙ rw e refl)
  ]

  pub delete-Distinct : (k : K) (m : Entries K V) → Distinct m → Distinct (delete k m)
  unfolding Distinct delete
  delete-Distinct k [] d = d
  delete-Distinct k ((j, v) ∷ m) d = elim (Bool-cases (key.same j k)) [
    | inl e ↦ rw e (delete-Distinct k m d.1)
    | inr e ↦ rw e (lookup-delete k j m ∙ absent (key.same k j) d.0, delete-Distinct k m d.1)
  ]
    where
      absent : (b : Bool) → lookup j m ≡ none → (if b then none else lookup j m) ≡ none
      absent true h = refl
      absent false h = h

  pub put-Distinct : (k : K) (v : V) (m : Entries K V) → Distinct m → Distinct (put k v m)
  unfolding Distinct put
  put-Distinct k v m d = (lookup-delete k k m ∙ rw (same_refl k) refl, delete-Distinct k m d)

  -- `for k, v := range from { into[k] = v }`
  unfoldable pub copy_into : Entries K V → Entries K V → Entries K V
  unfolding put
  copy_into [] into = into
  copy_into ((k, v) ∷ from) into = copy_into from (put k v into)

  pub copy_into-Distinct :
      (from into : Entries K V) → Distinct into → Distinct (copy_into from into)
  unfolding copy_into
  copy_into-Distinct [] into d = d
  copy_into-Distinct ((k, v) ∷ from) into d =
      copy_into-Distinct from (put k v into) (put-Distinct k v into d)

  pub lookup-copy_into :
      (from into : Entries K V) (j : K)
      → Distinct from
      → lookup j (copy_into from into) ≡ or_else (lookup j from) (lookup j into)
  unfolding copy_into Distinct lookup
  lookup-copy_into [] into j d = refl
  lookup-copy_into ((k, v) ∷ from) into j d =
      lookup-copy_into from (put k v into) j d.1
      ∙ ap (or_else (lookup j from)) (lookup-put k j v into)
      ∙ swap (key.same k j) (λ e. ap (λ x. lookup x from) (sym ((key.same_iff k j).0 e)) ∙ d.0)
    where
      swap :
          (b : Bool)
          → (b ≡ true → lookup j from ≡ none)
          → or_else (lookup j from) (if b then some v else lookup j into)
            ≡ or_else (if b then some v else lookup j from) (lookup j into)
      swap true h = let e = h refl in rw e refl
      swap false h = refl

  -- A delete of a key that is not there changes nothing.
  pub delete_absent : (k : K) (m : Entries K V) → lookup k m ≡ none → delete k m ≡ m
  unfolding lookup delete
  delete_absent k [] h = refl
  delete_absent k ((j, v) ∷ m) h = elim (Bool-cases (key.same j k)) [
    | inl e ↦ let h' = rw e at h in absurd (cc)
    | inr e ↦ let h' = rw e at h in rw e (ap (λ l. (j, v) ∷ l) (delete_absent k m h'))
  ]
