-- ===== src/Fractal/Consistency/Episodes.antt =====
-- The episodes of a list of observations.
use mathlib.Core.List.{append_assoc, append-nil}
use forex_platform.Fractal.Consistency.{
  ConsistencyEpisode, ConsistencyObservation, SetPair, Verdict, add_observation, aligned,
  build_episodes, conflicted, continues, pair_eq, verdict_eq, waiting,
}
use forex_platform.Prelude.{
  ℕ, zero, suc, ◌+◌, true, false, ◌&&◌, Bool-cases, List, [], ◌∷◌, ◌++◌, map, foldl, text_eq_sound,
  ◌≡◌, ◌∙◌, refl, ap, sym, arith, inl, inr,
}

-- What an episode groups by.
abbrev Label : Type 0
Label = SetPair × Verdict

abbrev pub label_of : ConsistencyObservation → Label
label_of o = (o.set_pair, o.verdict)

abbrev repeat : ℕ → Label → List Label
repeat zero l = []
repeat (suc n) l = l ∷ repeat n l

-- The labels of the observations that the episodes stand for.
abbrev pub expand : List ConsistencyEpisode → List Label
expand [] = []
expand (e ∷ es) = repeat e.observation_count (e.set_pair, e.verdict) ++ expand es

-- Neighbours differ in the pair or the verdict.
abbrev pub Maximal : List ConsistencyEpisode → Type 0
Maximal [] = Unit
Maximal (e ∷ []) = Unit
Maximal (e ∷ f ∷ es) =
    (pair_eq e.set_pair f.set_pair && verdict_eq e.verdict f.verdict ≡ false) × Maximal (f ∷ es)

verdict_eq_sound : (v w : Verdict) → verdict_eq v w ≡ true → v ≡ w
unfolding verdict_eq
verdict_eq_sound aligned aligned h = refl
verdict_eq_sound aligned conflicted h = absurd (ground arith)
verdict_eq_sound aligned waiting h = absurd (ground arith)
verdict_eq_sound conflicted aligned h = absurd (ground arith)
verdict_eq_sound conflicted conflicted h = refl
verdict_eq_sound conflicted waiting h = absurd (ground arith)
verdict_eq_sound waiting aligned h = absurd (ground arith)
verdict_eq_sound waiting conflicted h = absurd (ground arith)
verdict_eq_sound waiting waiting h = refl

continues-label :
    (e : ConsistencyEpisode) (o : ConsistencyObservation)
    → continues e o ≡ true
    → (e.set_pair, e.verdict) ≡ label_of o
continues-label e o h =
    let a : e.set_pair.0 ≡ o.set_pair.0 = text_eq_sound e.set_pair.0 o.set_pair.0 (ground arith) in
    let b : e.set_pair.1 ≡ o.set_pair.1 = text_eq_sound e.set_pair.1 o.set_pair.1 (ground arith) in
    let v : e.verdict ≡ o.verdict = verdict_eq_sound e.verdict o.verdict (ground arith) in cc

repeat-suc : (n : ℕ) (l : Label) → repeat (n + 1) l ≡ repeat n l ++ l ∷ []
repeat-suc zero l = refl
repeat-suc (suc n) l = ground (arith, repeat-suc n l)

expand-add_observation :
    (es : List ConsistencyEpisode) (o : ConsistencyObservation)
    → expand (add_observation es o) ≡ expand es ++ label_of o ∷ []
unfolding add_observation
expand-add_observation [] o = refl
expand-add_observation (e ∷ []) o = elim (Bool-cases (continues e o)) [
  | inl same ↦
      let l : (e.set_pair, e.verdict) ≡ label_of o = continues-label e o same in
      ground (
        arith,
        l,
        append-nil (repeat (e.observation_count + 1) (e.set_pair, e.verdict)),
        append-nil (repeat e.observation_count (e.set_pair, e.verdict)),
        repeat-suc e.observation_count (e.set_pair, e.verdict),
      )
  | inr other ↦
      rw other (
        sym
          (append_assoc (repeat e.observation_count (e.set_pair, e.verdict)) [] (label_of o ∷ [])))
]
expand-add_observation (e ∷ f ∷ es) o =
    ap (λ (ls : List Label). repeat e.observation_count (e.set_pair, e.verdict) ++ ls)
      (expand-add_observation (f ∷ es) o)
    ∙ sym (
        append_assoc (repeat e.observation_count (e.set_pair, e.verdict)) (expand (f ∷ es))
          (label_of o ∷ []))

add_observation-Maximal :
    (es : List ConsistencyEpisode) (o : ConsistencyObservation)
    → Maximal es
    → Maximal (add_observation es o)
unfolding add_observation
add_observation-Maximal [] o h = tt
add_observation-Maximal (e ∷ []) o h = elim (Bool-cases (continues e o)) [
  | inl same ↦ rw same tt
  | inr other ↦ rw other (other, tt)
]
add_observation-Maximal (e ∷ f ∷ []) o h = elim (Bool-cases (continues f o)) [
  | inl same ↦ rw same (h.0, tt)
  | inr other ↦ rw other (h.0, (other, tt))
]
add_observation-Maximal (e ∷ f ∷ g ∷ es) o h = (h.0, add_observation-Maximal (f ∷ g ∷ es) o h.1)

build-expand :
    (es : List ConsistencyEpisode) (os : List ConsistencyObservation)
    → Maximal es
    → (expand (foldl add_observation es os) ≡ expand es ++ map label_of os)
      × Maximal (foldl add_observation es os)
build-expand es [] h = (sym (append-nil (expand es)), h)
build-expand es (o ∷ os) h =
    let (e, m) = build-expand (add_observation es o) os (add_observation-Maximal es o h) in
    (
      e
          ∙ ap (λ (ls : List Label). ls ++ map label_of os) (expand-add_observation es o)
          ∙ append_assoc (expand es) (label_of o ∷ []) (map label_of os),
      m,
    )

-- The episodes are the run-length encoding of the pairs and verdicts of the observations: written out, each
-- as often as it counts, they give these in order, and neighbours differ in the pair or the verdict.
pub build_episodes_runs :
    (os : List ConsistencyObservation)
    → (expand (build_episodes os) ≡ map label_of os) × Maximal (build_episodes os)
unfolding build_episodes
build_episodes_runs os = build-expand [] os tt
