-- ===== src/Collection/SafeMap/Laws.antt =====
-- The two maps behave as one: what `Get` finds after each method, and how many keys there are.
use gofly_mqttv.Base.{
  ◌≡◌, refl, sym, ap, ap₂, ◌∙◌, ◌⊎◌, inl, inr, Bool, true, false, ◌&&◌, Option, none, some, ltb,
  leb, if◌then◌else◌, length, Bool-cases, Option-cases,
}
use gofly_mqttv.Collection.Entries.{
  Key, lookup, delete, put, copy_into, or_else, Distinct, lookup-delete, lookup-put,
  delete-Distinct, put-Distinct, copy_into-Distinct, lookup-copy_into, delete_absent,
}
use gofly_mqttv.Collection.SafeMap.{
  SafeMap, max_deletion, copy_threshold, get, remove, give_up_old, give_up_new, del, set,
}

module _ {ℓ} {V : Type ℓ} where
  merged : (x y : Option V) → (x ≡ none) ⊎ (y ≡ none) → or_else (or_else y x) none ≡ or_else x y
  merged none none h = refl
  merged none (some y) h = refl
  merged (some x) none h = refl
  merged (some x) (some y) (inl h) = absurd (cc)
  merged (some x) (some y) (inr h) = absurd (cc)

  right_none : (x : Option V) → or_else x none ≡ x
  right_none none = refl
  right_none (some x) = refl

module _ {ℓ} {K V : Type ℓ} ⦃key : Key K⦄ where
  -- No key stands twice in a map, nor in both.
  pub record IsMap (m : SafeMap K V) : Type ℓ where
    pub old : Distinct m.dirty_old
    pub new : Distinct m.dirty_new
    pub apart : (k : K) → (lookup k m.dirty_old ≡ none) ⊎ (lookup k m.dirty_new ≡ none)

  -- The two maps after `Set`, on either side of the limit.
  set_in_old :
      (k : K) (v : V) (m : SafeMap K V)
      → leb m.deletion_old max_deletion ≡ true
      → ((set k v m).dirty_old ≡ put k v m.dirty_old)
        × ((set k v m).dirty_new ≡ delete k m.dirty_new)
  unfolding set
  set_in_old k v m e = elim (Option-cases (lookup k m.dirty_new)) [
    | inl none_there ↦ rw (e, none_there) (refl, sym (delete_absent k m.dirty_new none_there))
    | inr (w, there) ↦ rw (e, there) (refl, refl)
  ]

  set_in_new :
      (k : K) (v : V) (m : SafeMap K V)
      → leb m.deletion_old max_deletion ≡ false
      → ((set k v m).dirty_old ≡ delete k m.dirty_old)
        × ((set k v m).dirty_new ≡ put k v m.dirty_new)
  unfolding set
  set_in_new k v m e = elim (Option-cases (lookup k m.dirty_old)) [
    | inl none_there ↦ rw (e, none_there) (sym (delete_absent k m.dirty_old none_there), refl)
    | inr (w, there) ↦ rw (e, there) (refl, refl)
  ]

  -- `Set` changes what `Get` finds at its key alone.
  pub get-set :
      (k j : K) (v : V) (m : SafeMap K V)
      → get j (set k v m) ≡ (if key.same k j then some v else get j m)
  unfolding get
  get-set k j v m = elim (Bool-cases (leb m.deletion_old max_deletion)) [
    | inl few ↦
        let (old, new) = set_in_old k v m few in
        ap₂ (λ a b. or_else (lookup j a) (lookup j b)) old new
        ∙ ap₂ or_else (lookup-put k j v m.dirty_old) (lookup-delete k j m.dirty_new)
        ∙ in_old (key.same k j)
    | inr many ↦
        let (old, new) = set_in_new k v m many in
        ap₂ (λ a b. or_else (lookup j a) (lookup j b)) old new
        ∙ ap₂ or_else (lookup-delete k j m.dirty_old) (lookup-put k j v m.dirty_new)
        ∙ in_new (key.same k j)
  ]
    where
      a : Option V
      a = lookup j m.dirty_old

      b : Option V
      b = lookup j m.dirty_new

      in_old :
          (s : Bool)
          → or_else (if s then some v else a) (if s then none else b)
            ≡ (if s then some v else or_else a b)
      in_old true = refl
      in_old false = refl

      in_new :
          (s : Bool)
          → or_else (if s then none else a) (if s then some v else b)
            ≡ (if s then some v else or_else a b)
      in_new true = refl
      in_new false = refl

  both_none :
      (k j : K) (x y : Option V)
      → (x ≡ none) ⊎ (y ≡ none)
      → ((if key.same k j then none else x) ≡ none) ⊎ ((if key.same k j then none else y) ≡ none)
  both_none k j x y h = elim (Bool-cases (key.same k j)) [
    | inl e ↦ rw e (inl refl)
    | inr e ↦ rw e h
  ]

  one_side :
      (k j : K) (x y : Option V) (v : V)
      → (x ≡ none) ⊎ (y ≡ none)
      → ((if key.same k j then some v else x) ≡ none) ⊎ ((if key.same k j then none else y) ≡ none)
  one_side k j x y v h = elim (Bool-cases (key.same k j)) [
    | inl e ↦ rw e (inr refl)
    | inr e ↦ rw e h
  ]

  other_side :
      (k j : K) (x y : Option V) (v : V)
      → (x ≡ none) ⊎ (y ≡ none)
      → ((if key.same k j then none else x) ≡ none) ⊎ ((if key.same k j then some v else y) ≡ none)
  other_side k j x y v h = elim (Bool-cases (key.same k j)) [
    | inl e ↦ rw e (inl refl)
    | inr e ↦ rw e h
  ]

  pub set-IsMap : (k : K) (v : V) (m : SafeMap K V) → IsMap m → IsMap (set k v m)
  set-IsMap k v m i = elim (Bool-cases (leb m.deletion_old max_deletion)) [
    | inl few ↦
        let (old, new) = set_in_old k v m few in
        record {
          old = rw old (put-Distinct k v m.dirty_old i.old);
          new = rw new (delete-Distinct k m.dirty_new i.new);
          apart = λ j.
              rw (old, new, lookup-put k j v m.dirty_old, lookup-delete k j m.dirty_new)
                (one_side k j (lookup j m.dirty_old) (lookup j m.dirty_new) v (i.apart j));
        }
    | inr many ↦
        let (old, new) = set_in_new k v m many in
        record {
          old = rw old (delete-Distinct k m.dirty_old i.old);
          new = rw new (put-Distinct k v m.dirty_new i.new);
          apart = λ j.
              rw (old, new, lookup-delete k j m.dirty_old, lookup-put k j v m.dirty_new)
                (other_side k j (lookup j m.dirty_old) (lookup j m.dirty_new) v (i.apart j));
        }
  ]

  -- The two maps after the first part of `del`
  removed :
      (k : K) (m : SafeMap K V)
      → IsMap m
      → ((remove k m).dirty_old ≡ delete k m.dirty_old)
        × ((remove k m).dirty_new ≡ delete k m.dirty_new)
  unfolding remove
  removed k m i = elim (Option-cases (lookup k m.dirty_old)) [
    | inr (v, there) ↦ elim (i.apart k) [
      | inl gone ↦ let h' = rw there at gone in absurd (cc)
      | inr gone ↦ rw (there, remove) (refl, sym (delete_absent k m.dirty_new gone))
    ]
    | inl gone ↦ elim (Option-cases (lookup k m.dirty_new)) [
      | inr (v, there) ↦ rw (gone, there, remove) (sym (delete_absent k m.dirty_old gone), refl)
      | inl gone' ↦
          rw (gone, gone', remove)
            (sym (delete_absent k m.dirty_old gone), sym (delete_absent k m.dirty_new gone'))
    ]
  ]

  pub remove-IsMap : (k : K) (m : SafeMap K V) → IsMap m → IsMap (remove k m)
  remove-IsMap k m i =
      let (old, new) = removed k m i in
      record {
        old = rw old (delete-Distinct k m.dirty_old i.old);
        new = rw new (delete-Distinct k m.dirty_new i.new);
        apart = λ j.
            rw (old, new, lookup-delete k j m.dirty_old, lookup-delete k j m.dirty_new)
              (both_none k j (lookup j m.dirty_old) (lookup j m.dirty_new) (i.apart j));
      }

  get-remove :
      (k j : K) (m : SafeMap K V)
      → IsMap m
      → get j (remove k m) ≡ (if key.same k j then none else get j m)
  unfolding get
  get-remove k j m i =
      let (old, new) = removed k m i in
      ap₂ (λ a b. or_else (lookup j a) (lookup j b)) old new
      ∙ ap₂ or_else (lookup-delete k j m.dirty_old) (lookup-delete k j m.dirty_new)
      ∙ gone (key.same k j)
    where
      gone :
          (s : Bool)
          → or_else
              (if s then none else lookup j m.dirty_old)
              (if s then none else lookup j m.dirty_new)
            ≡ (if s then none else or_else (lookup j m.dirty_old) (lookup j m.dirty_new))
      gone true = refl
      gone false = refl

  -- Giving up a map leaves the map that the two make.
  give_up_old_lem :
      (m : SafeMap K V)
      → IsMap m
      → IsMap (give_up_old m) × ((j : K) → get j (give_up_old m) ≡ get j m)
  unfolding give_up_old get Distinct
  give_up_old_lem m i =
      elim (Bool-cases
        (leb max_deletion m.deletion_old && ltb (length m.dirty_old) copy_threshold)) [
          | inr keep ↦ rw keep (i, λ j. refl)
          | inl give ↦
              rw (give, give_up_old)
                (
                  record {
                    old = copy_into-Distinct m.dirty_old m.dirty_new i.new;
                    new = tt;
                    apart = λ j. inr refl;
                  },
                  λ j.
                      right_none (lookup j (copy_into m.dirty_old m.dirty_new))
                      ∙ lookup-copy_into m.dirty_old m.dirty_new j i.old,
                )
        ]

  give_up_new_lem :
      (m : SafeMap K V)
      → IsMap m
      → IsMap (give_up_new m) × ((j : K) → get j (give_up_new m) ≡ get j m)
  unfolding give_up_new get Distinct
  give_up_new_lem m i =
      elim (Bool-cases
        (leb max_deletion m.deletion_new && ltb (length m.dirty_new) copy_threshold)) [
          | inr keep ↦ rw keep (i, λ j. refl)
          | inl give ↦
              rw (give, give_up_new)
                (
                  record {
                    old = copy_into-Distinct m.dirty_new m.dirty_old i.old;
                    new = tt;
                    apart = λ j. inr refl;
                  },
                  λ j.
                      ap (λ x. or_else x none) (lookup-copy_into m.dirty_new m.dirty_old j i.new)
                      ∙ merged (lookup j m.dirty_old) (lookup j m.dirty_new) (i.apart j),
                )
        ]

  -- `Del` takes its key away and changes nothing else, whichever maps it gives up.
  pub del_lem :
      (k : K) (m : SafeMap K V)
      → IsMap m
      → IsMap (del k m).0 × ((j : K) → get j (del k m).0 ≡ (if key.same k j then none else get j m))
  unfolding del
  del_lem k m i =
      let (i1, g1) = give_up_old_lem (remove k m) (remove-IsMap k m i) in
      let (i2, g2) = give_up_new_lem (give_up_old (remove k m)) i1 in
      (i2, λ j. g2 j ∙ g1 j ∙ get-remove k j m i)
