-- ===== src/Store/Table/Refine.antt =====
-- Any run of the methods on a table against a function from clients and keys to values.
use gofly_mqttv.Base.{
  ◌≡◌, refl, sym, ap, ap₂, ◌∙◌, inl, inr, Bool, true, false, Option, none, some, List, [], ◌∷◌,
  if◌then◌else◌, Option-cases,
}
use mathlib.Core.Path.{subst}
use gofly_mqttv.Collection.Entries.{Key, lookup}
use gofly_mqttv.Collection.SafeMap.{SafeMap, new_safe_map, get, set, del, dels, get_or_set}
use gofly_mqttv.Collection.SafeMap.Laws.{IsMap, set-IsMap, get-set, del_lem}
use gofly_mqttv.Collection.SafeMap.Refine.{
  update, remove_all, Stands, set-Stands, del-Stands, dels-Stands, new-IsMap,
}
use gofly_mqttv.Topic.Tree.{str_eq}
use gofly_mqttv.Topic.Tree.Paths.{str_eq→eq}
use gofly_mqttv.Store.Table.{
  Str, string_key, change_or_new, Table, cache, release, release_list, all_of, release_all,
}
use gofly_mqttv.Store.Table.Laws.{or_new, get-change_or_new, change_or_new-IsMap}

pub data TableCall (K V : Type 0) : Type 0 where
  cache_call : Str → K → V → TableCall K V
  release_call : Str → K → TableCall K V
  release_list_call : Str → List K → TableCall K V
  all_of_call release_all_call : Str → TableCall K V

module _ {K V : Type 0} ⦃key : Key K⦄ where
  -- What the table has for a client and a key
  unfoldable pub find : Str → K → Table K V → Option V
  unfolding get
  find c k t = get k (or_new new_safe_map (get c t))

  -- The run, with what `release` returned.
  unfoldable pub run_table : List (TableCall K V) → Table K V → Table K V × List (Option V)
  unfolding cache release release_list all_of release_all
  run_table [] t = (t, [])
  run_table (cache_call c k x ∷ cs) t = run_table cs (cache c k x t)
  run_table (release_call c k ∷ cs) t =
      let r = release c k t in let rest = run_table cs r.0 in (rest.0, r.1 ∷ rest.1)
  run_table (release_list_call c ks ∷ cs) t = run_table cs (release_list c ks t)
  run_table (all_of_call c ∷ cs) t = run_table cs (all_of c t).0
  run_table (release_all_call c ∷ cs) t = run_table cs (release_all c t)

  -- One client's part of the function changed
  abbrev pub change_for :
      Str → ((K → Option V) → K → Option V) → (Str → K → Option V) → Str → K → Option V
  change_for c g f j = if str_eq c j then g (f c) else f j

  unfoldable pub spec_table :
      List (TableCall K V) → (Str → K → Option V) → (Str → K → Option V) × List (Option V)
  spec_table [] f = (f, [])
  spec_table (cache_call c k x ∷ cs) f = spec_table cs (change_for c (update k (some x)) f)
  spec_table (release_call c k ∷ cs) f =
      let rest = spec_table cs (change_for c (update k none) f) in (rest.0, f c k ∷ rest.1)
  spec_table (release_list_call c ks ∷ cs) f = spec_table cs (change_for c (remove_all ks) f)
  spec_table (all_of_call c ∷ cs) f = spec_table cs f
  spec_table (release_all_call c ∷ cs) f = spec_table cs (change_for c (λ g k. none) f)

  -- A table that stands for a function, each client's object for its part.
  abbrev TableStands : Table K V → (Str → K → Option V) → Type 0
  TableStands t f = IsMap t × ((c : Str) → Stands (or_new new_safe_map (get c t)) (f c))

  change-TableStands :
      (c : Str) (op : SafeMap K V → SafeMap K V) (g : (K → Option V) → K → Option V) (t : Table K V)
      (f : Str → K → Option V)
      → ((m : SafeMap K V) (h : K → Option V) → Stands m h → Stands (op m) (g h))
      → TableStands t f
      → TableStands (change_or_new c new_safe_map op t) (change_for c g f)
  change-TableStands c op g t f keep (i, s) = (
    change_or_new-IsMap c new_safe_map op t i,
    λ j.
        subst (λ o. Stands (or_new new_safe_map o) (change_for c g f j))
          (sym (get-change_or_new c j new_safe_map op t)) (part (str_eq c j) j),
  )
    where
      part :
          (b : Bool) (j : Str)
          → Stands
              (or_new new_safe_map
                (if b then some (op (or_new new_safe_map (get c t))) else get j t))
              (if b then g (f c) else f j)
      part true j = keep (or_new new_safe_map (get c t)) (f c) (s c)
      part false j = s j

  new-Stands : Stands {K = K} {V = V} new_safe_map (λ k. none)
  unfolding get lookup
  new-Stands = (new-IsMap, λ k. refl)

  -- The look for a client's object makes an empty one at most.
  open-TableStands :
      (c : Str) (t : Table K V) (f : Str → K → Option V)
      → TableStands t f
      → TableStands (get_or_set c new_safe_map t).1 f
  unfolding get_or_set
  open-TableStands c t f (i, s) = elim (Option-cases (get c t)) [
    | inr (m, there) ↦ rw (there, get_or_set) (i, s)
    | inl gone ↦
        rw (gone, get_or_set)
          (
            set-IsMap c new_safe_map t i,
            λ j.
                subst (λ o. Stands (or_new new_safe_map o) (f j)) (sym (get-set c j new_safe_map t))
                  (part (str_eq c j) j (λ e. str_eq→eq c j e) gone),
          )
  ]
    where
      part :
          (b : Bool) (j : Str)
          → (b ≡ true → c ≡ j)
          → get c t ≡ none
          → Stands (or_new new_safe_map (if b then some new_safe_map else get j t)) (f j)
      part true j e gone =
          subst (λ o. Stands (or_new new_safe_map o) (f j))
            (ap (λ x. get x t) (sym (e refl)) ∙ gone) (s j)
      part false j e gone = s j

  close-TableStands :
      (c : Str) (t : Table K V) (f : Str → K → Option V)
      → TableStands t f
      → TableStands (del c t).0 (change_for c (λ g k. none) f)
  close-TableStands c t f (i, s) =
      let (i', g) = del_lem c t i in
      (
        i',
        λ j.
            subst (λ o. Stands (or_new new_safe_map o) (change_for c (λ h k. none) f j)) (sym (g j))
              (part (str_eq c j) j),
      )
    where
      part :
          (b : Bool) (j : Str)
          → Stands
              (or_new new_safe_map (if b then none else get j t))
              (if b then (λ k. none) else f j)
      part true j = new-Stands
      part false j = s j

  opened :
      (c : Str) (t : Table K V) → (get_or_set c new_safe_map t).0.0 ≡ or_new new_safe_map (get c t)
  unfolding get_or_set
  opened c t = elim (Option-cases (get c t)) [
    | inl gone ↦ rw (gone, get_or_set) refl
    | inr (m, there) ↦ rw (there, get_or_set) refl
  ]

  released :
      (c : Str) (k : K) (t : Table K V) (f : Str → K → Option V)
      → TableStands t f
      → (release c k t).1 ≡ f c k
  unfolding release del
  released c k t f (i, s) = ap (get k) (opened c t) ∙ (s c).1 k

  run_table-Stands :
      (cs : List (TableCall K V)) (t : Table K V) (f : Str → K → Option V)
      → TableStands t f
      → TableStands (run_table cs t).0 (spec_table cs f).0
        × ((run_table cs t).1 ≡ (spec_table cs f).1)
  unfolding run_table spec_table cache release release_list all_of release_all
  run_table-Stands [] t f s = (s, refl)
  run_table-Stands (cache_call c k x ∷ cs) t f s =
      run_table-Stands cs _ _
        (change-TableStands c (set k x) (update k (some x)) t f (set-Stands k x) s)
  run_table-Stands (release_call c k ∷ cs) t f s =
      let (s', e) =
        run_table-Stands cs _ _
          (change-TableStands c (λ m. (del k m).0) (update k none) t f (del-Stands k) s) in
      (s', ap₂ (λ a l. a ∷ l) (released c k t f s) e)
  run_table-Stands (release_list_call c ks ∷ cs) t f s =
      run_table-Stands cs _ _
        (change-TableStands c (dels ks) (remove_all ks) t f (dels-Stands ks) s)
  run_table-Stands (all_of_call c ∷ cs) t f s = run_table-Stands cs _ _ (open-TableStands c t f s)
  run_table-Stands (release_all_call c ∷ cs) t f s =
      run_table-Stands cs _ _ (close-TableStands c t f s)

  -- After any run on a new table, each release returned what a plain function of clients and keys had for them
  -- then, and the table holds for every client and key what the function has in the end.
  pub run_table-refines :
      (cs : List (TableCall K V)) (c : Str) (k : K)
      → (find c k (run_table cs new_safe_map).0 ≡ (spec_table cs (λ j i. none)).0 c k)
        × ((run_table cs new_safe_map).1 ≡ (spec_table cs (λ j i. none)).1)
  unfolding find get lookup
  run_table-refines cs c k =
      let (s, e) = run_table-Stands cs new_safe_map (λ j i. none) (new-IsMap, λ j. none_there j) in
      ((s.1 c).1 k, e)
    where
      none_there :
          (j : Str) → Stands {K = K} {V = V} (or_new new_safe_map (get j new_safe_map)) (λ i. none)
      none_there j = new-Stands
