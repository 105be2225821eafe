-- ===== src/Collection/SafeMap/Refine.antt =====
-- Any run of the methods against a plain finite map, a function from keys to values.
use gofly_mqttv.Base.{
  ◌≡◌, refl, sym, ap, ◌∙◌, inl, inr, Option, none, some, List, [], ◌∷◌, if◌then◌else◌, Option-cases,
}
use gofly_mqttv.Collection.Entries.{Key, Distinct, lookup}
use gofly_mqttv.Collection.SafeMap.{SafeMap, new_safe_map, get, set, del, dels, get_or_set}
use gofly_mqttv.Collection.SafeMap.Laws.{IsMap, get-set, set-IsMap, del_lem}

pub data Call {ℓ} (K V : Type ℓ) : Type ℓ where
  set_call get_or_set_call : K → V → Call K V
  del_call : K → Call K V
  dels_call : List K → Call K V

module _ {ℓ} {K V : Type ℓ} ⦃key : Key K⦄ where
  unfoldable pub run : List (Call K V) → SafeMap K V → SafeMap K V
  unfolding set get_or_set del dels
  run [] m = m
  run (set_call k v ∷ cs) m = run cs (set k v m)
  run (get_or_set_call k v ∷ cs) m = run cs (get_or_set k v m).1
  run (del_call k ∷ cs) m = run cs (del k m).0
  run (dels_call ks ∷ cs) m = run cs (dels ks m)

  -- A finite map with a key changed
  abbrev pub update : K → Option V → (K → Option V) → K → Option V
  update k o f j = if key.same k j then o else f j

  abbrev pub remove_all : List K → (K → Option V) → K → Option V
  remove_all [] f = f
  remove_all (k ∷ ks) f = remove_all ks (update k none f)

  abbrev pub keep_or : K → V → Option V → (K → Option V) → K → Option V
  keep_or k v (some w) f = f
  keep_or k v none f = update k (some v) f

  unfoldable pub spec_run : List (Call K V) → (K → Option V) → K → Option V
  spec_run [] f = f
  spec_run (set_call k v ∷ cs) f = spec_run cs (update k (some v) f)
  spec_run (get_or_set_call k v ∷ cs) f = spec_run cs (keep_or k v (f k) f)
  spec_run (del_call k ∷ cs) f = spec_run cs (update k none f)
  spec_run (dels_call ks ∷ cs) f = spec_run cs (remove_all ks f)

  -- A safe map that stands for a finite map.
  abbrev pub Stands : SafeMap K V → (K → Option V) → Type ℓ
  Stands m f = IsMap m × ((j : K) → get j m ≡ f j)

  pub set-Stands :
      (k : K) (v : V) (m : SafeMap K V) (f : K → Option V)
      → Stands m f
      → Stands (set k v m) (update k (some v) f)
  set-Stands k v m f (i, g) =
      (set-IsMap k v m i, λ j. get-set k j v m ∙ ap (λ o. if key.same k j then some v else o) (g j))

  pub del-Stands :
      (k : K) (m : SafeMap K V) (f : K → Option V)
      → Stands m f
      → Stands (del k m).0 (update k none f)
  del-Stands k m f (i, g) =
      let (i', h) = del_lem k m i in
      (i', λ j. h j ∙ ap (λ o. if key.same k j then none else o) (g j))

  pub dels-Stands :
      (ks : List K) (m : SafeMap K V) (f : K → Option V)
      → Stands m f
      → Stands (dels ks m) (remove_all ks f)
  unfolding dels
  dels-Stands [] m f s = s
  dels-Stands (k ∷ ks) m f s = dels-Stands ks (del k m).0 (update k none f) (del-Stands k m f s)

  pub get_or_set-Stands :
      (k : K) (v : V) (m : SafeMap K V) (f : K → Option V)
      → Stands m f
      → Stands (get_or_set k v m).1 (keep_or k v (f k) f)
  unfolding get_or_set
  get_or_set-Stands k v m f s = elim (Option-cases (get k m)) [
    | inl gone ↦
        let e : f k ≡ none = sym (s.1 k) ∙ gone in rw (gone, e, get_or_set) (set-Stands k v m f s)
    | inr (w, there) ↦ let e : f k ≡ some w = sym (s.1 k) ∙ there in rw (there, e, get_or_set) s
  ]

  run-Stands :
      (cs : List (Call K V)) (m : SafeMap K V) (f : K → Option V)
      → Stands m f
      → Stands (run cs m) (spec_run cs f)
  unfolding run spec_run
  run-Stands [] m f s = s
  run-Stands (set_call k v ∷ cs) m f s = run-Stands cs _ _ (set-Stands k v m f s)
  run-Stands (get_or_set_call k v ∷ cs) m f s = run-Stands cs _ _ (get_or_set-Stands k v m f s)
  run-Stands (del_call k ∷ cs) m f s = run-Stands cs _ _ (del-Stands k m f s)
  run-Stands (dels_call ks ∷ cs) m f s = run-Stands cs _ _ (dels-Stands ks m f s)

  pub new-IsMap : IsMap (new_safe_map {K = K} {V = V})
  unfolding Distinct lookup
  new-IsMap = record { old = tt; new = tt; apart = λ k. inl refl }

  -- After any run of Set, GetOrSet, Del and Dels on a new map, Get finds at every key what a plain
  -- finite map has there after the same run.
  pub get-run :
      (cs : List (Call K V)) (j : K) → get j (run cs new_safe_map) ≡ spec_run cs (λ k. none) j
  unfolding lookup get
  get-run cs j = (run-Stands cs new_safe_map (λ k. none) (new-IsMap, λ k. refl)).1 j
