-- ===== src/Store/Table.antt =====
-- The tables of broker/impl/store/mem_session.go: a safe map from clients to objects that are changed in
-- place, which are safe maps from packet identifiers or topics. Each method of the store is one step, so that
-- no other method drops an object between the look for it and its change.
pub mod Laws
pub mod Refine
use gofly_mqttv.Base.{
  ℕ, ◌+◌, ◌≡◌, refl, Bool, true, false, Option, none, some, List, [], ◌∷◌, ◌++◌, if◌then◌else◌,
  ◌==◌, map,
}
use gofly_mqttv.Collection.Entries.{Key, Entries, lookup}
use gofly_mqttv.Collection.SafeMap.{SafeMap, new_safe_map, get, set, del, dels, get_or_set, entries}
use gofly_mqttv.Topic.Tree.{str_eq}
use gofly_mqttv.Topic.Tree.Paths.{str_eq_iff}

-- A Go string as its bytes
abbrev pub Str : Type 0
Str = List ℕ

instance abbrev pub string_key : Key Str
string_key = record { same = str_eq; same_iff = str_eq_iff }

module _ {V : Type 0} where
  -- The object of a key changes in place: the map keeps its pointer.
  unfoldable pub change_entry : Str → (V → V) → Entries Str V → Entries Str V
  change_entry k f [] = []
  change_entry k f ((j, v) ∷ m) =
      let rest = change_entry k f m in if str_eq j k then (j, f v) ∷ m else (j, v) ∷ rest

  unfoldable pub change : Str → (V → V) → SafeMap Str V → SafeMap Str V
  unfolding lookup change_entry
  change k f m = elim (lookup k m.dirty_old) [
    | some v ↦ record m { dirty_old = change_entry k f m.dirty_old }
    | none ↦ record m { dirty_new = change_entry k f m.dirty_new }
  ]

  -- `v, _ := table.GetOrSet(clientId, d)`, and then a change of `v`
  unfoldable pub change_or_new : Str → V → (V → V) → SafeMap Str V → SafeMap Str V
  unfolding get_or_set change
  change_or_new c d f t = change c f (get_or_set c d t).1

-- A table from clients and keys to values
abbrev pub Table : Type 0 → Type 0 → Type 0
Table K V = SafeMap Str (SafeMap K V)

module _ {K V : Type 0} ⦃key : Key K⦄ where
  -- `v.Set(k, x)` on a client's object
  unfoldable pub cache : Str → K → V → Table K V → Table K V
  unfolding change_or_new set
  cache c k x t = change_or_new c new_safe_map (λ m. set k x m) t

  -- `v.GetDel(k)`
  unfoldable pub release : Str → K → Table K V → Table K V × Option V
  unfolding change_or_new get_or_set del
  release c k t = (
    change_or_new c new_safe_map (λ m. (del k m).0) t,
    (del k (get_or_set c new_safe_map t).0.0).1,
  )

  -- `v.Dels(ks)`
  unfoldable pub release_list : Str → List K → Table K V → Table K V
  unfolding change_or_new dels
  release_list c ks t = change_or_new c new_safe_map (λ m. dels ks m) t

  -- The entries of a client's object, which is made where there is none.
  unfoldable pub all_of : Str → Table K V → Table K V × Entries K V
  unfolding get_or_set
  all_of c t = let r = get_or_set c new_safe_map t in (r.1, if r.0.1 then entries r.0.0 else [])

  -- `table.Del(clientId)`
  unfoldable pub release_all : Str → Table K V → Table K V
  unfolding del
  release_all c t = (del c t).0
