-- ===== src/Collection/SafeMap.antt =====
-- util/collection/safe_map.go: a map kept in two Go maps, of which one is given up when many keys were
-- deleted from it. The lock makes each method one step. A key is looked up in the old map first.
pub mod Laws
pub mod Refine
mod Tests
use gofly_mqttv.Base.{
  ℕ, ◌+◌, ◌≡◌, refl, Bool, true, false, ◌&&◌, Option, none, some, List, [], ◌∷◌, ◌++◌, ltb, leb,
  if◌then◌else◌, length,
}
use gofly_mqttv.Collection.Entries.{Key, Entries, lookup, delete, put, copy_into, or_else}

-- `copyThreshold`, `maxDeletion`
abbrev pub copy_threshold : ℕ
copy_threshold = 1000

abbrev pub max_deletion : ℕ
max_deletion = 10000

-- `SafeMap`
pub record SafeMap {ℓ} (K V : Type ℓ) : Type ℓ where
  pub deletion_old : ℕ
  pub deletion_new : ℕ
  pub dirty_old : Entries K V
  pub dirty_new : Entries K V

module _ {ℓ} {K V : Type ℓ} where
  -- `NewSafeMap`
  abbrev pub new_safe_map : SafeMap K V
  new_safe_map = record { deletion_old = 0; deletion_new = 0; dirty_old = []; dirty_new = [] }

  -- `Size`
  unfoldable pub size : SafeMap K V → ℕ
  size m = length m.dirty_old + length m.dirty_new

  -- The entries that `Range` visits, in order
  abbrev pub entries : SafeMap K V → Entries K V
  entries m = m.dirty_old ++ m.dirty_new

  -- `Range`: the entries that `fn` was called on, and the error that it stopped with.
  unfoldable pub visit {κ} :
      {E : Type κ} → (K → V → Option E) → Entries K V → Entries K V × Option E
  visit fn [] = ([], none)
  visit fn ((k, v) ∷ m) =
      let rest = visit fn m in
      elim (fn k v) [ none ↦ ((k, v) ∷ rest.0, rest.1) | some e ↦ ((k, v) ∷ [], some e) ]

  unfoldable pub range {κ} :
      {E : Type κ} → (K → V → Option E) → SafeMap K V → Entries K V × Option E
  unfolding visit
  range fn m = visit fn (entries m)

module _ {ℓ} {K V : Type ℓ} ⦃key : Key K⦄ where
  -- `Get`
  unfoldable pub get : K → SafeMap K V → Option V
  unfolding lookup
  get k m = or_else (lookup k m.dirty_old) (lookup k m.dirty_new)

  -- `ContainsKey`
  unfoldable pub contains_key : K → SafeMap K V → Bool
  unfolding get
  contains_key k m = elim (get k m) [ none ↦ false | some v ↦ true ]

  -- The first part of `del`: the key is taken from the map that has it.
  unfoldable pub remove : K → SafeMap K V → SafeMap K V
  unfolding lookup delete
  remove k m = elim (lookup k m.dirty_old) [
    | some v ↦ record m { dirty_old = delete k m.dirty_old; deletion_old = m.deletion_old + 1 }
    | none ↦ elim (lookup k m.dirty_new) [
      | some v ↦ record m { dirty_new = delete k m.dirty_new; deletion_new = m.deletion_new + 1 }
      | none ↦ m
    ]
  ]

  -- The second part: the old map is given up, and the new one takes its entries and its place.
  unfoldable pub give_up_old : SafeMap K V → SafeMap K V
  unfolding copy_into
  give_up_old m =
      if leb max_deletion m.deletion_old && ltb (length m.dirty_old) copy_threshold
      then record {
        deletion_old = m.deletion_new;
        deletion_new = 0;
        dirty_old = copy_into m.dirty_old m.dirty_new;
        dirty_new = [];
      }
      else m

  -- The third part: the entries of the new map go to the old one.
  unfoldable pub give_up_new : SafeMap K V → SafeMap K V
  unfolding copy_into
  give_up_new m =
      if leb max_deletion m.deletion_new && ltb (length m.dirty_new) copy_threshold
      then record m {
        deletion_new = 0;
        dirty_old = copy_into m.dirty_new m.dirty_old;
        dirty_new = [];
      }
      else m

  -- `del`
  unfoldable pub del : K → SafeMap K V → SafeMap K V × Option V
  unfolding get remove give_up_old give_up_new
  del k m = (give_up_new (give_up_old (remove k m)), get k m)

  -- `GetDel`, `Del`, `Dels`
  unfoldable pub get_del : K → SafeMap K V → SafeMap K V × Option V
  unfolding del
  get_del k m = del k m

  unfoldable pub dels : List K → SafeMap K V → SafeMap K V
  unfolding del
  dels [] m = m
  dels (k ∷ ks) m = dels ks (del k m).0

  -- `Set`
  unfoldable pub set : K → V → SafeMap K V → SafeMap K V
  unfolding lookup delete put
  set k v m =
      if leb m.deletion_old max_deletion
      then elim (lookup k m.dirty_new) [
        | some w ↦ record m {
          dirty_old = put k v m.dirty_old;
          dirty_new = delete k m.dirty_new;
          deletion_new = m.deletion_new + 1;
        }
        | none ↦ record m { dirty_old = put k v m.dirty_old }
      ]
      else elim (lookup k m.dirty_old) [
        | some w ↦ record m {
          dirty_new = put k v m.dirty_new;
          dirty_old = delete k m.dirty_old;
          deletion_old = m.deletion_old + 1;
        }
        | none ↦ record m { dirty_new = put k v m.dirty_new }
      ]

  -- `GetOrSet`: the value that the map has now, and whether it had it before. Between the first look and
  -- the lock no other method runs here, so that the looks under the lock fail as well.
  unfoldable pub get_or_set : K → V → SafeMap K V → (V × Bool) × SafeMap K V
  unfolding get set
  get_or_set k v m = elim (get k m) [ some w ↦ ((w, true), m) | none ↦ ((v, false), set k v m) ]
