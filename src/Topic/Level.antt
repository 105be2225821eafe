-- ===== src/Topic/Level.antt =====
-- `nextTopicLevel` of broker/impl/topic/topic.go, and the levels of a whole topic. A topic is a list of
-- bytes, and a level, a Go string, too.
mod Laws
mod Tests
use gofly_mqttv.Base.{
  ℕ, zero, suc, ◌+◌, Bool, true, false, not, ◌&&◌, ◌||◌, Option, none, some, List, [], ◌∷◌, ◌++◌,
  ◌==◌, if◌then◌else◌, length,
}

-- `constant.MWC`, `constant.SWC`
abbrev pub multi : List ℕ
multi = b'#' ∷ []

abbrev pub single : List ℕ
single = b'+' ∷ []

-- The states of the scan: StateCHR, StateMWC, StateSWC, StateSYS.
pub data ScanState : Type 0 where
  chr mwc swc sys : ScanState

abbrev is_mwc : ScanState → Bool
is_mwc mwc = true
is_mwc _ = false

abbrev is_wild : ScanState → Bool
is_wild mwc = true
is_wild swc = true
is_wild _ = false

-- The errors of the scan, in the order of the source, and the fuel of `levels_fuel` running out.
pub data LevelError : Type 0 where
  multi_not_last multi_not_level single_not_level system_topic wild_not_level out_of_fuel :
      LevelError

-- `rem` is `none` where the source returns nil.
pub data Next : Type 0 where
  found : List ℕ → Option (List ℕ) → Next
  failed : LevelError → Next

-- One round of the loop: it returns, or goes on in a new state.
pub data Round : Type 0 where
  stop : Next → Round
  go_on : ScanState → Round

-- The switch on the byte `c` at index `i`; `seen` is `topic[:i]`, and `rest` is `topic[i+1:]`.
unfoldable pub scan_byte : ℕ → ℕ → List ℕ → List ℕ → ScanState → Round
scan_byte c i seen rest s =
    if c == b'/'
    then (if is_mwc s
        then stop (failed multi_not_last)
        else if i == 0
        then stop (found single (some rest))
        else stop (found seen (some rest)))
    else if c == b'#'
    then (if not (i == 0) then stop (failed multi_not_level) else go_on mwc)
    else if c == b'+'
    then (if not (i == 0) then stop (failed single_not_level) else go_on swc)
    else if c == b'$'
    then (if i == 0 then stop (failed system_topic) else go_on sys)
    else if is_wild s
    then stop (failed wild_not_level)
    else go_on chr

-- The loop over the bytes from index `i` on.
unfoldable pub scan : List ℕ → ℕ → List ℕ → ScanState → Next
unfolding scan_byte
scan [] i seen s = found seen none
scan (c ∷ rest) i seen s = elim (scan_byte c i seen rest s) [
  | stop n ↦ n
  | go_on s' ↦ scan rest (i + 1) (seen ++ c ∷ []) s'
]

-- `nextTopicLevel`
unfoldable pub next_topic_level : List ℕ → Next
unfolding scan
next_topic_level topic = scan topic 0 [] chr

-- What the methods of the trees read of a topic, call after call of `nextTopicLevel`: the empty topic, a
-- level with nothing behind it (rem is nil), a level and the rest, or an error.
pub data Levels : Type 0 where
  end : Levels
  last : List ℕ → Levels
  more : List ℕ → Levels → Levels
  bad : LevelError → Levels

abbrev levels_next : Next → (List ℕ → Levels) → Levels
levels_next (failed e) rest = bad e
levels_next (found l none) rest = last l
levels_next (found l (some rem)) rest = more l (rest rem)

unfoldable pub levels_fuel : ℕ → List ℕ → Levels
unfolding next_topic_level
levels_fuel zero topic = bad out_of_fuel
levels_fuel (suc fuel) [] = end
levels_fuel (suc fuel) (c ∷ topic) =
    levels_next (next_topic_level (c ∷ topic)) (λ rem. levels_fuel fuel rem)

-- Each call takes a byte at least (`Laws`).
unfoldable pub levels : List ℕ → Levels
unfolding levels_fuel
levels topic = levels_fuel (length topic + 1) topic

-- The levels as a path, where there is no error.
abbrev pub cons_level : List ℕ → Option (List (List ℕ)) → Option (List (List ℕ))
cons_level l none = none
cons_level l (some p) = some (l ∷ p)

abbrev pub path_of : Levels → Option (List (List ℕ))
path_of end = some []
path_of (last l) = some (l ∷ [])
path_of (more l rest) = cons_level l (path_of rest)
path_of (bad e) = none
