-- ===== src/Runtime/Fallback/Nearest.antt =====
-- internal/runtime/fallback/matcher.go: the loop of `nearestMatch`.
use staging_platform.Base.{
  ◌≡◌, refl, ap, ◌∙◌, true, false, Option, none, some, List, [], ◌∷◌, All, Bool-cases, inl, inr,
}
use staging_platform.Recorder.{Interaction, Header}
use staging_platform.Standard.{Standard, Net, Laws}
use staging_platform.Runtime.Fallback.{
  Best, improve, best_of, no_best, nearest_match, or_not, minimum_nearest_score,
}
use staging_platform.Runtime.Fallback.Similarity.{nearest_score}

module _ (g : Standard) (net : Net Header) (laws : Laws g) (request : Interaction) where
  -- `y` does not lie below `x`.
  abbrev NotLess : g.Float → g.Float → Type 0
  NotLess y x = g.is_less y x ≡ false

  NotLess-trans : (x y z : g.Float) → NotLess x z → g.is_less x y ≡ true → NotLess y z
  NotLess-trans x y z h lt = elim (Bool-cases (g.is_less y z)) [
    | inl t ↦ cc (laws.is_less_trans x y z lt t, h)
    | inr f ↦ f
  ]

  -- A score that the loop has reached is not lost again.
  best_of-NotLess :
      (x : g.Float) (b : Best g net) (cs : List Interaction)
      → NotLess b.score x
      → NotLess (best_of g net request b cs).score x
  unfolding best_of improve
  best_of-NotLess x b [] h = h
  best_of-NotLess x b (c ∷ cs) h =
      best_of-NotLess x (improve g net request b c) cs
        (elim (Bool-cases (g.is_less b.score (nearest_score g net c request))) [
          | inl t ↦ rw (improve, t) (NotLess-trans b.score _ x h t)
          | inr f ↦ rw (improve, f) h
        ])

  improve-NotLess :
      (b : Best g net) (c : Interaction)
      → NotLess (improve g net request b c).score (nearest_score g net c request)
  unfolding improve
  improve-NotLess b c = elim (Bool-cases (g.is_less b.score (nearest_score g net c request))) [
    | inl t ↦ rw (improve, t) (laws.is_less_irrefl _)
    | inr f ↦ rw (improve, f) f
  ]

  best_of-best :
      (b : Best g net) (cs : List Interaction)
      → All (λ c. NotLess (best_of g net request b cs).score (nearest_score g net c request)) cs
  unfolding best_of
  best_of-best b [] = tt
  best_of-best b (c ∷ cs) = (
    best_of-NotLess (nearest_score g net c request) (improve g net request b c) cs
        (improve-NotLess b c),
    best_of-best (improve g net request b c) cs,
  )

  -- The score is that of the candidate, if there is one.
  abbrev IsScored : g.Float → Option Interaction → Type 0
  IsScored score none = Unit
  IsScored score (some i) = score ≡ nearest_score g net i request

  best_of-IsScored :
      (b : Best g net) (cs : List Interaction)
      → IsScored b.score b.best
      → IsScored (best_of g net request b cs).score (best_of g net request b cs).best
  unfolding best_of improve
  best_of-IsScored b [] h = h
  best_of-IsScored b (c ∷ cs) h =
      best_of-IsScored (improve g net request b c) cs
        (elim (Bool-cases (g.is_less b.score (nearest_score g net c request))) [
          | inl t ↦ rw (improve, t) refl
          | inr f ↦ rw (improve, f) h
        ])

  or_not-IsScored :
      (b : Best g net) (o : Option Interaction) {i : Interaction} {score : g.Float}
      → IsScored b.score o
      → or_not g net b o ≡ some (i, score)
      → (score ≡ b.score) × (b.score ≡ nearest_score g net i request)
  or_not-IsScored b none s h = cc
  or_not-IsScored b (some j) {i} {score} s h =
      (cc, s ∙ ap (λ x. nearest_score g net x request) (cc h))

  -- The nearest match has the score that it is given with, which reaches the minimum and which no
  -- candidate exceeds.
  pub nearest_match-best :
      (candidates : List Interaction) {i : Interaction} {score : g.Float}
      → nearest_match g net candidates request ≡ some (i, score)
      → (score ≡ nearest_score g net i request)
        × NotLess score (minimum_nearest_score g net)
        × All (λ c. NotLess score (nearest_score g net c request)) candidates
  unfolding nearest_match
  nearest_match-best candidates {i} {score} h =
      let b = best_of g net request (no_best g net) candidates in
      elim (Bool-cases (g.is_less b.score (minimum_nearest_score g net))) [
        | inl t ↦ cc (rw (nearest_match, t) at h)
        | inr f ↦
            let (same, scored) =
              or_not-IsScored b b.best (best_of-IsScored (no_best g net) candidates tt)
                (rw (nearest_match, f) at h) in
            (same ∙ scored, rw same f, rw same (best_of-best (no_best g net) candidates))
      ]
