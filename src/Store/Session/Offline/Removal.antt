-- ===== src/Store/Session/Offline/Removal.antt =====
-- ClearOfflineMsgById takes away as many messages of an identifier as the list of identifiers names it.
use gofly_mqttv.Base.{
  ℕ, ◌+◌, ◌-◌, ◌≡◌, refl, sym, ap, ◌∙◌, inl, inr, Bool, true, false, not, ◌&&◌, Option, none, some,
  List, [], ◌∷◌, arith, if◌then◌else◌, Bool-cases, Option-cases,
}
use mathlib.Core.List.{Sublistᴰ}
use mathlib.Core.List.Sublistᴰ.{slnil, cons-cons}
use gofly_mqttv.Topic.Tree.{str_eq}
use gofly_mqttv.Topic.Tree.Paths.{str_eq→eq}
use gofly_mqttv.Store.Table.{Str}
use gofly_mqttv.Store.Session.{Message}
use gofly_mqttv.Store.Session.Offline.{strike, remove_ids}

-- How often an identifier is listed
unfoldable pub listed : Str → List Str → ℕ
listed id [] = 0
listed id (x ∷ xs) = (if str_eq id x then 1 else 0) + listed id xs

-- How many messages have it
unfoldable pub carried : (ℕ → Str) → Str → List Message → ℕ
carried itoa id [] = 0
carried itoa id (msg ∷ l) = (if str_eq id (itoa msg.packet_id) then 1 else 0) + carried itoa id l

some-content : {a b : List Str} → some a ≡ some b → a ≡ b
some-content {a} h = ap content h
  where
    content : Option (List Str) → List Str
    content none = a
    content (some b) = b

second : (a b : Bool) → (not a && b) ≡ true → b ≡ true
second a true h = refl
second true false h = h
second false false h = h

both_false : (a b : Bool) → b ≡ false → (not a && b) ≡ false
both_false true b h = refl
both_false false b h = h

strike-some :
    (t s : Str) (ids ids' : List Str)
    → str_eq s [] ≡ false
    → strike t ids ≡ some ids'
    → listed s ids ≡ (if str_eq s t then 1 else 0) + listed s ids'
unfolding strike listed
strike-some t s [] ids' n h = absurd (cc)
strike-some t s (x ∷ xs) ids' n h = elim (Bool-cases (not (str_eq x []) && str_eq t x)) [
  | inl e ↦
      let q : t ≡ x = str_eq→eq t x (second (str_eq x []) (str_eq t x) e) in
      let i : [] ∷ xs ≡ ids' = some-content (rw e at h) in
      let l : listed s ids' ≡ listed s ([] ∷ xs) = ap (listed s) (sym i) in
      let z : (if◌then◌else◌ {A = ℕ} (str_eq s []) 1 0) ≡ 0 = rw n refl in
      rw (l, q) (omega (arith, z))
  | inr e ↦ elim (Option-cases (strike t xs)) [
    | inl gone ↦ let h' = rw (e, gone) at h in absurd (cc)
    | inr (ys, there) ↦
        let i : x ∷ ys ≡ ids' = some-content (rw (e, there) at h) in
        let l : listed s ids' ≡ listed s (x ∷ ys) = ap (listed s) (sym i) in
        let r = strike-some t s xs ys n there in rw l (omega (arith, r))
  ]
]

strike-none :
    (t : Str) (ids : List Str) → str_eq t [] ≡ false → strike t ids ≡ none → listed t ids ≡ 0
unfolding strike listed
strike-none t [] n h = refl
strike-none t (x ∷ xs) n h = elim (Bool-cases (str_eq t x)) [
  | inl e ↦
      let q : str_eq x [] ≡ false = ap (λ y. str_eq y []) (sym (str_eq→eq t x e)) ∙ n in
      let h' = rw (e, q) at h in absurd (cc)
  | inr e ↦ elim (Option-cases (strike t xs)) [
    | inl gone ↦ rw e (omega (arith, strike-none t xs n gone))
    | inr (ys, there) ↦
        let h' = rw (both_false (str_eq x []) (str_eq t x) e, there) at h in absurd (cc)
  ]
]

-- For an identifier that is not empty, ClearOfflineMsgById leaves as many of its messages as there were
-- more than the list names it.
pub carried-remove_ids :
    (itoa : ℕ → Str) (s : Str) (l : List Message) (ids : List Str)
    → str_eq s [] ≡ false
    → carried itoa s (remove_ids itoa l ids) ≡ carried itoa s l - listed s ids
unfolding remove_ids carried
carried-remove_ids itoa s [] ids n = omega arith
carried-remove_ids itoa s (msg ∷ l) ids n = elim (Option-cases (strike (itoa msg.packet_id) ids)) [
  | inr (ids', there) ↦
      let e : remove_ids itoa (msg ∷ l) ids ≡ remove_ids itoa l ids' =
        rw (there, remove_ids) refl in
      rw e (
        omega (
          arith,
          carried-remove_ids itoa s l ids' n,
          strike-some (itoa msg.packet_id) s ids ids' n there,
        ))
  | inl gone ↦
      let r : remove_ids itoa (msg ∷ l) ids ≡ msg ∷ remove_ids itoa l ids =
        rw (gone, remove_ids) refl in
      rw r (elim (Bool-cases (str_eq s (itoa msg.packet_id))) [
        | inl e ↦
            let q : s ≡ itoa msg.packet_id = str_eq→eq s (itoa msg.packet_id) e in
            let z : listed s ids ≡ 0 = strike-none s ids n (ap (λ t. strike t ids) q ∙ gone) in
            rw e (omega (arith, z, carried-remove_ids itoa s l ids n))
        | inr e ↦ rw e (omega (arith, carried-remove_ids itoa s l ids n))
      ])
]

-- The messages that stay are those of the queue, in its order.
pub sublist-remove_ids :
    (itoa : ℕ → Str) (l : List Message) (ids : List Str) → Sublistᴰ (remove_ids itoa l ids) l
unfolding remove_ids
sublist-remove_ids itoa [] ids = slnil
sublist-remove_ids itoa (msg ∷ l) ids = elim (Option-cases (strike (itoa msg.packet_id) ids)) [
  | inr (ids', there) ↦
      let r : remove_ids itoa (msg ∷ l) ids ≡ remove_ids itoa l ids' =
        rw (there, remove_ids) refl in
      rw r (Sublistᴰ.cons (sublist-remove_ids itoa l ids'))
  | inl gone ↦
      let r : remove_ids itoa (msg ∷ l) ids ≡ msg ∷ remove_ids itoa l ids =
        rw (gone, remove_ids) refl in
      rw r (cons-cons refl (sublist-remove_ids itoa l ids))
]
