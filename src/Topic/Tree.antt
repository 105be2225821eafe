-- ===== src/Topic/Tree.antt =====
-- The subscription tree of broker/impl/topic/topic.go. The slices `subs` and `qos` of a node have one
-- length, and are one list of pairs. A subscriber is a pointer, here a number, which `equal` compares.
-- A map is a list of entries in the order in which `range` visits them, and a topic is what
-- `Level.levels` reads of it.
pub mod Paths
pub mod Update
pub mod Removal
pub mod Match
mod Tests
use gofly_mqttv.Base.{
  ℕ, Bool, true, false, ◌&&◌, ◌||◌, Option, none, some, List, [], ◌∷◌, ◌++◌, map, ◌==◌, leb,
  if◌then◌else◌,
}
use gofly_mqttv.Topic.Level.{Levels, end, last, more, bad, LevelError, multi, single}

-- `topic.Sub` of broker/core/topic/topic.go
pub record Sub : Type 0 where
  pub topic : List ℕ
  pub qos : ℕ
  pub no_local : Bool
  pub retain_as_published : Bool
  pub retain_handling : ℕ
  pub sub_identifier : ℕ

abbrev pub Entry : Type 0
Entry = ℕ × Sub

-- Equality of two Go strings.
abbrev pub str_eq : List ℕ → List ℕ → Bool
str_eq [] [] = true
str_eq [] (y ∷ ys) = false
str_eq (x ∷ xs) [] = false
str_eq (x ∷ xs) (y ∷ ys) = x == y && str_eq xs ys

mutual
  -- `snode`
  pub data SNode : Type 0 where
    node : List Entry → Kids → SNode

  -- `map[string]*snode`
  pub data Kids : Type 0 where
    nil : Kids
    cons : List ℕ → SNode → Kids → Kids

-- `newSNode`
abbrev pub new_snode : SNode
new_snode = node [] nil

abbrev pub entries : SNode → List Entry
entries (node es ks) = es

abbrev pub kids : SNode → Kids
kids (node es ks) = ks

unfoldable pub find_kid : List ℕ → Kids → Option SNode
find_kid l nil = none
find_kid l (cons k n ks) = if str_eq k l then some n else find_kid l ks

-- `t.snodes[level] = n`
unfoldable pub put_kid : List ℕ → SNode → Kids → Kids
put_kid l n nil = cons l n nil
put_kid l n (cons k m ks) = if str_eq k l then cons k n ks else cons k m (put_kid l n ks)

-- `delete(t.snodes, level)`
unfoldable pub delete_kid : List ℕ → Kids → Kids
delete_kid l nil = nil
delete_kid l (cons k n ks) =
    let rest = delete_kid l ks in if str_eq k l then rest else cons k n rest

abbrev pub or_new : Option SNode → SNode
or_new none = new_snode
or_new (some n) = n

-- The entries of a node after a subscription: the subscriber's own is replaced, or one is appended.
unfoldable pub upsert : ℕ → Sub → List Entry → List Entry
upsert who sub [] = (who, sub) ∷ []
upsert who sub ((w, s) ∷ es) = if w == who then (w, sub) ∷ es else (w, s) ∷ upsert who sub es

abbrev pub set_kid :
    List ℕ → List Entry → Kids → SNode × Option LevelError → SNode × Option LevelError
set_kid l es ks (n, e) = (node es (put_kid l n ks), e)

-- The end of `sinsert`. There `subs.Topic` is what is left of the topic, which is empty.
unfoldable pub insert_end : Sub → ℕ → SNode → SNode × Option LevelError
unfolding upsert
insert_end sub who (node es ks) = (node (upsert who (record sub { topic = [] }) es) ks, none)

-- `sinsert`; a node that was made before an error stays in the tree.
unfoldable pub sinsert : Levels → Sub → ℕ → SNode → SNode × Option LevelError
unfolding find_kid put_kid insert_end
sinsert end sub who t = insert_end sub who t
sinsert (last l) sub who (node es ks) =
    set_kid l es ks (insert_end sub who (or_new (find_kid l ks)))
sinsert (more l rest) sub who (node es ks) =
    set_kid l es ks (sinsert rest sub who (or_new (find_kid l ks)))
sinsert (bad e) sub who (node es ks) = (node es ks, some e)

-- The errors of `sremove`.
pub data RemoveError : Type 0 where
  no_topic no_subscriber : RemoveError
  level : LevelError → RemoveError

unfoldable pub has_entry : ℕ → List Entry → Bool
has_entry who [] = false
has_entry who ((w, s) ∷ es) = w == who || has_entry who es

-- The first entry of the subscriber is taken out.
unfoldable pub drop_entry : ℕ → List Entry → List Entry
drop_entry who [] = []
drop_entry who ((w, s) ∷ es) = if w == who then es else (w, s) ∷ drop_entry who es

abbrev pub is_bare : SNode → Bool
is_bare (node [] nil) = true
is_bare _ = false

-- The last part of `sremove`: a child with nothing left is deleted.
abbrev pub prune :
    List ℕ → List Entry → Kids → SNode × Option RemoveError → SNode × Option RemoveError
prune l es ks (n, some e) = (node es (put_kid l n ks), some e)
prune l es ks (n, none) = (node es (if is_bare n then delete_kid l ks else put_kid l n ks), none)

abbrev pub at_end : Option ℕ → List Entry → Kids → SNode × Option RemoveError
at_end none es ks = (node [] ks, none)
at_end (some who) es ks =
    if has_entry who es
    then (node (drop_entry who es) ks, none)
    else (node es ks, some no_subscriber)

-- The removal `f` in the child at a level, where there is one.
abbrev pub in_kid :
    List ℕ
    → List Entry
    → Kids
    → (SNode → SNode × Option RemoveError)
    → Option SNode
    → SNode × Option RemoveError
in_kid l es ks f none = (node es ks, some no_topic)
in_kid l es ks f (some n) = prune l es ks (f n)

-- `sremove`; `none` for the subscriber removes all of them.
unfoldable pub sremove : Levels → Option ℕ → SNode → SNode × Option RemoveError
unfolding find_kid put_kid delete_kid has_entry drop_entry
sremove end who (node es ks) = at_end who es ks
sremove (last l) who (node es ks) =
    in_kid l es ks (λ n. at_end who (entries n) (kids n)) (find_kid l ks)
sremove (more l rest) who (node es ks) = in_kid l es ks (λ n. sremove rest who n) (find_kid l ks)
sremove (bad e) who (node es ks) = (node es ks, some (level e))

-- One entry as `matchQos` reports it: the lower of the two QoS.
abbrev pub capped : ℕ → Entry → Entry
capped qos (who, sub) = (who, if leb qos sub.qos then record sub { qos = qos } else sub)

-- `matchQos`
unfoldable pub match_qos : ℕ → List Entry → List Entry
match_qos qos [] = []
match_qos qos (e ∷ es) = capped qos e ∷ match_qos qos es

-- `if v, ok := t.snodes[k]; ok { v.matchQos(qos, subs, qoss) }`
abbrev pub match_kid : List ℕ → ℕ → Kids → List Entry
match_kid k qos ks = elim (find_kid k ks) [ none ↦ [] | some n ↦ match_qos qos (entries n) ]

-- The loop of `smatch` at the last level of a topic (rem is nil).
unfoldable pub match_last : List ℕ → ℕ → Kids → List Entry
unfolding match_qos find_kid
match_last l qos nil = []
match_last l qos (cons k n ks) =
    if str_eq k multi
    then match_qos qos (entries n) ++ match_last l qos ks
    else if str_eq k single || str_eq k l
    then match_qos qos (entries n) ++ (match_kid multi qos (kids n) ++ match_last l qos ks)
    else match_last l qos ks

-- The result of `smatch`: an error, or the matching entries.
pub data Matched : Type 0 where
  failed : LevelError → Matched
  matched : List Entry → Matched

abbrev pub and_then : Matched → Matched → Matched
and_then (failed e) m = failed e
and_then (matched es) (failed e) = failed e
and_then (matched es) (matched fs) = matched (es ++ fs)

unfoldable mutual
  unfolding match_qos match_last find_kid

  -- `smatch`
  pub smatch : SNode → Levels → ℕ → Matched
  smatch (node es ks) end qos =
      matched (match_qos qos es ++ (match_kid multi qos ks ++ match_kid single qos ks))
  smatch (node es ks) (last l) qos = matched (match_last l qos ks)
  smatch (node es ks) (more l rest) qos = match_kids ks l rest qos
  smatch (node es ks) (bad e) qos = failed e

  -- The loop of `smatch` above the last level.
  pub match_kids : Kids → List ℕ → Levels → ℕ → Matched
  match_kids nil l rest qos = matched []
  match_kids (cons k n ks) l rest qos =
      if str_eq k multi
      then and_then (matched (match_qos qos (entries n))) (match_kids ks l rest qos)
      else if str_eq k single || str_eq k l
      then and_then (smatch n rest qos) (match_kids ks l rest qos)
      else match_kids ks l rest qos
