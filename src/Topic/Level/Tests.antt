-- ===== src/Topic/Level/Tests.antt =====
use gofly_mqttv.Base.{[], ◌∷◌, ◌≡◌, refl}
use gofly_mqttv.Topic.Level.{levels, more, last, end, bad, multi_not_last, single, system_topic}
use gofly_mqttv.Topic.Level.Laws.{RanOut, levels_ends}

-- "a/b", "a/", "/a", "#/a", "a/$b"
plain : levels (b'a' ∷ b'/' ∷ b'b' ∷ []) ≡ more (b'a' ∷ []) (last (b'b' ∷ []))
unfolding levels
plain = refl

trailing : levels (b'a' ∷ b'/' ∷ []) ≡ more (b'a' ∷ []) end
unfolding levels
trailing = refl

-- A topic that starts with a slash has the wildcard `+` for its first level.
leading : levels (b'/' ∷ b'a' ∷ []) ≡ more single (last (b'a' ∷ []))
unfolding levels
leading = refl

multi_first : levels (b'#' ∷ b'/' ∷ b'a' ∷ []) ≡ bad multi_not_last
unfolding levels
multi_first = refl

system_below : levels (b'a' ∷ b'/' ∷ b'$' ∷ b'b' ∷ []) ≡ more (b'a' ∷ []) (bad system_topic)
unfolding levels
system_below = refl

levels_ends_example : ¬ RanOut (levels (b'a' ∷ b'/' ∷ []))
levels_ends_example = levels_ends (b'a' ∷ b'/' ∷ [])
