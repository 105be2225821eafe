-- ===== src/Topic/Level/Laws.antt =====
-- The scan of a topic ends, and what it answers on plain topics.
use gofly_mqttv.Base.{
  ℕ, zero, suc, ◌+◌, ◌<◌, ◌≡◌, refl, sym, ap, ◌∙◌, ◌⊎◌, inl, inr, ◌≢◌, none, some, List, [], ◌∷◌,
  ◌++◌, arith, length,
}
use gofly_mqttv.Topic.Level.{
  ScanState, Round, stop, go_on, scan_byte, chr, out_of_fuel, Next, found, failed, scan,
  next_topic_level, Levels, end, last, more, bad, levels_fuel, levels, levels_next,
}

Round-cases : (r : Round) → ((n : Next) × (r ≡ stop n)) ⊎ ((s : ScanState) × (r ≡ go_on s))
Round-cases (stop n) = inl (n, refl)
Round-cases (go_on s) = inr (s, refl)

scan-stop :
    (c i : ℕ) (rest seen : List ℕ) (s : ScanState) {n : Next}
    → scan_byte c i seen rest s ≡ stop n
    → scan (c ∷ rest) i seen s ≡ n
unfolding scan
scan-stop c i rest seen s e = rw (e, scan)

scan_go :
    (c i : ℕ) (rest seen : List ℕ) (s : ScanState) {s' : ScanState}
    → scan_byte c i seen rest s ≡ go_on s'
    → scan (c ∷ rest) i seen s ≡ scan rest (i + 1) (seen ++ c ∷ []) s'
unfolding scan
scan_go c i rest seen s e = rw (e, scan)

scan_byte-found :
    (c i : ℕ) (seen rest : List ℕ) (s : ScanState) (l rem : List ℕ)
    → scan_byte c i seen rest s ≡ stop (found l (some rem))
    → rem ≡ rest
unfolding scan_byte
scan_byte-found c i seen rest s l rem e = ground (arith, e)

scan_byte-failed :
    (c i : ℕ) (seen rest : List ℕ) (s : ScanState)
    → scan_byte c i seen rest s ≢ stop (failed out_of_fuel)
unfolding scan_byte
scan_byte-failed c i seen rest s e = ground (arith, e)

-- Behind a level there is less than the scan was given.
scan-shorter :
    (topic : List ℕ) (i : ℕ) (seen : List ℕ) (s : ScanState) (l rem : List ℕ)
    → scan topic i seen s ≡ found l (some rem)
    → length rem < length topic
scan-shorter [] i seen s l rem e = unfold scan in cc
scan-shorter (c ∷ rest) i seen s l rem e = elim (Round-cases (scan_byte c i seen rest s)) [
  | inl (n, q) ↦ omega (
    arith,
    ap length (
        scan_byte-found c i seen rest s l rem
          (q ∙ ap stop (sym (scan-stop c i rest seen s q) ∙ e))),
  )
  | inr (s', q) ↦
      let h =
        scan-shorter rest (i + 1) (seen ++ c ∷ []) s' l rem (sym (scan_go c i rest seen s q) ∙ e) in
      omega arith
]

scan-ne-fuel :
    (topic : List ℕ) (i : ℕ) (seen : List ℕ) (s : ScanState)
    → scan topic i seen s ≢ failed out_of_fuel
scan-ne-fuel [] i seen s e = unfold scan in cc
scan-ne-fuel (c ∷ rest) i seen s e = elim (Round-cases (scan_byte c i seen rest s)) [
  | inl (n, q) ↦
      scan_byte-failed c i seen rest s (q ∙ ap stop (sym (scan-stop c i rest seen s q) ∙ e))
  | inr (s', q) ↦
      scan-ne-fuel rest (i + 1) (seen ++ c ∷ []) s' (sym (scan_go c i rest seen s q) ∙ e)
]

-- Whether the reading ran out of fuel anywhere.
abbrev pub RanOut : Levels → Type 0
RanOut end = ⊥
RanOut (last l) = ⊥
RanOut (more l rest) = RanOut rest
RanOut (bad e) = e ≡ out_of_fuel

next_ends :
    (n : Next) (rest : List ℕ → Levels) (size : ℕ)
    → n ≢ failed out_of_fuel
    → ((l rem : List ℕ) → n ≡ found l (some rem) → length rem < size)
    → ((rem : List ℕ) → length rem < size → ¬ RanOut (rest rem))
    → ¬ RanOut (levels_next n rest)
next_ends (failed e) rest size ne short ih r = ne (ap failed r)
next_ends (found l none) rest size ne short ih r = r
next_ends (found l (some rem)) rest size ne short ih r = ih rem (short l rem refl) r

levels_fuel-ends :
    (fuel : ℕ) (topic : List ℕ) → length topic < fuel → ¬ RanOut (levels_fuel fuel topic)
unfolding levels_fuel
levels_fuel-ends zero topic h = absurd (omega arith)
levels_fuel-ends (suc fuel) [] h = λ r. r
levels_fuel-ends (suc fuel) (c ∷ topic) h =
    next_ends (next_topic_level (c ∷ topic)) _ (length (c ∷ topic))
      (unfold next_topic_level in scan-ne-fuel (c ∷ topic) 0 [] chr)
      (unfold next_topic_level in λ l rem e. scan-shorter (c ∷ topic) 0 [] chr l rem e)
      (λ rem k. levels_fuel-ends fuel rem (omega arith))

-- Whatever the topic, the calls of `nextTopicLevel` on what is left of it come to an end: to the end of
-- the topic or to one of the errors of the source.
pub levels_ends : (topic : List ℕ) → ¬ RanOut (levels topic)
unfolding levels
levels_ends topic = levels_fuel-ends (length topic + 1) topic (omega arith)
