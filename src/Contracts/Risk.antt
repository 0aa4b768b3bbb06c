-- ===== src/Contracts/Risk.antt =====
-- internal/analysis/contracts/risk.go: the risk of a review. `diffActionLabel` is in diff_render.go.
use staging_platform.Base.{
  String, ◌≡◌, refl, ◌∙◌, Bool, true, false, not, ◌&&◌, ◌||◌, List, [], ◌∷◌, ◌++◌, any, str_eq,
  append_text, if◌then◌else◌, is_blank, trim_space, ltb, Bool-cases, inl, inr, arith,
}
use staging_platform.Base.Int.{pos}
use staging_platform.Base.Problems.{is_empty}
use staging_platform.Recorder.{contains}
use staging_platform.Standard.{Standard}
use staging_platform.Contracts.{
  side_effect_write, side_effect_destructive, side_effect_financial, side_effect_external_message,
}
use staging_platform.Contracts.Enforce.{EvaluationResult}
use staging_platform.Contracts.Compare.{DiffChange, DiffResult, is_new}

pub data RiskLevel : Type 0 where
  low medium high blocked : RiskLevel

pub record RiskAssessment : Type 0 where
  pub level : RiskLevel
  pub reasons : List String

unfoldable pub diff_action_label : DiffChange → String
diff_action_label c =
    if is_blank c.tool
    then trim_space (append_text c.service (append_text " " c.operation))
    else append_text "tool:" c.tool

abbrev pub is_high_risk : DiffChange → Bool
is_high_risk c =
    is_new c.type
    && contains
        (side_effect_financial ∷ side_effect_destructive ∷ side_effect_external_message ∷ [])
        c.candidate_side_effect

abbrev pub is_medium_risk : DiffChange → Bool
is_medium_risk c =
    is_new c.type && not (is_high_risk c) && str_eq c.candidate_side_effect side_effect_write

pub record Reasons : Type 0 where
  pub high_reasons : List String
  pub medium_reasons : List String

abbrev not_in_base : String
not_in_base = " was not present in the base run"

-- One change of the loop.
unfoldable pub add_reason : DiffChange → Reasons → Reasons
unfolding diff_action_label
add_reason c r =
    if is_high_risk c
    then record r {
      high_reasons =
          r.high_reasons
          ++ append_text "new " (
              append_text c.candidate_side_effect
                (append_text " action " (append_text (diff_action_label c) not_in_base)))
            ∷ [];
    }
    else if is_medium_risk c
    then record r {
      medium_reasons =
          r.medium_reasons
          ++ append_text "new write action " (append_text (diff_action_label c) not_in_base) ∷ [];
    }
    else r

-- The loop over the changes.
unfoldable pub collect_reasons : List DiffChange → Reasons → Reasons
unfolding add_reason
collect_reasons [] r = r
collect_reasons (c ∷ cs) r = collect_reasons cs (add_reason c r)

and_true : (b : Bool) → b ≡ (b && true)
and_true true = refl
and_true false = refl

and_false : (b : Bool) → false ≡ (b && false)
and_false true = refl
and_false false = refl

-- Does the loop find no reason?
abbrev Emptied : List DiffChange → Reasons → Type 0
Emptied cs r =
    (is_empty (collect_reasons cs r).high_reasons
      ≡ (is_empty r.high_reasons && not (any is_high_risk cs)))
    × (is_empty (collect_reasons cs r).medium_reasons
        ≡ (is_empty r.medium_reasons && not (any is_medium_risk cs)))

is_empty-snoc : (xs : List String) (x : String) → is_empty (xs ++ x ∷ []) ≡ false
is_empty-snoc [] x = refl
is_empty-snoc (y ∷ ys) x = refl

add_reason-empty :
    (c : DiffChange) (r : Reasons)
    → (is_empty (add_reason c r).high_reasons ≡ (is_empty r.high_reasons && not (is_high_risk c)))
      × (is_empty (add_reason c r).medium_reasons
          ≡ (is_empty r.medium_reasons && not (is_medium_risk c)))
unfolding add_reason
add_reason-empty c r = elim (Bool-cases (is_high_risk c)) [
  | inl t ↦ rw (add_reason, t) (is_empty-snoc r.high_reasons _ ∙ and_false _, ground (arith, t))
  | inr f ↦ elim (Bool-cases (is_medium_risk c)) [
    | inl t ↦ rw (add_reason, t, f) (and_true _, is_empty-snoc r.medium_reasons _ ∙ and_false _)
    | inr f' ↦ rw (add_reason, f', f) (and_true _, and_true _)
  ]
]

and_not_or : (a b c : Bool) → ((a && not b) && not c) ≡ (a && not (b || c))
and_not_or false b c = refl
and_not_or true true c = refl
and_not_or true false c = refl

collect_reasons-empty : (cs : List DiffChange) (r : Reasons) → Emptied cs r
unfolding collect_reasons any
collect_reasons-empty [] r = (and_true _, and_true _)
collect_reasons-empty (c ∷ cs) r =
    let (high_step, medium_step) = add_reason-empty c r in
    let (high_rest, medium_rest) = collect_reasons-empty cs (add_reason c r) in
    (
      high_rest
          ∙ rw high_step
              (and_not_or (is_empty r.high_reasons) (is_high_risk c) (any is_high_risk cs)),
      medium_rest
          ∙ rw medium_step
              (and_not_or (is_empty r.medium_reasons) (is_medium_risk c) (any is_medium_risk cs)),
    )

module _ (g : Standard) where
  unfoldable pub score_risk : DiffResult → EvaluationResult → RiskAssessment
  unfolding collect_reasons
  score_risk diff evaluation =
      let r = collect_reasons diff.changes (record { high_reasons = []; medium_reasons = [] }) in
      if ltb 0 evaluation.summary.total
      then record {
        level = blocked;
        reasons =
            append_text (g.sprint_int (pos evaluation.summary.total))
              " contract violation(s) must be resolved before this run can be approved"
            ∷ [];
      }
      else if not (is_empty r.high_reasons)
      then record { level = high; reasons = r.high_reasons }
      else if not (is_empty r.medium_reasons)
      then record { level = medium; reasons = r.medium_reasons }
      else if ltb 0 diff.summary.new_actions
      then record { level = low; reasons = "new actions observed are read-only" ∷ [] }
      else record {
        level = low;
        reasons = "no new actions observed; changes are read-only or absent" ∷ [];
      }

  -- What the level is, by what there is: a violation, or else a new action of high risk, or else one
  -- of medium risk.
  abbrev pub level_of : Bool → Bool → Bool → RiskLevel
  level_of violated has_high has_medium =
      if violated then blocked else if has_high then high else if has_medium then medium else low

  -- The level is that of the worst that there is: a violation blocks; else a new action that is
  -- financial, destructive or an external message makes it high; else a new one that writes, medium;
  -- else it is low.
  pub score_risk-level :
      (diff : DiffResult) (evaluation : EvaluationResult)
      → (score_risk diff evaluation).level
        ≡ level_of
            (ltb 0 evaluation.summary.total)
            (any is_high_risk diff.changes)
            (any is_medium_risk diff.changes)
  unfolding score_risk
  score_risk-level diff evaluation =
      let (no_high, no_medium) =
        collect_reasons-empty diff.changes (record { high_reasons = []; medium_reasons = [] }) in
      ground (arith, no_high, no_medium)
