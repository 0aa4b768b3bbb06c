-- ===== src/Contracts/Compare/Counts.antt =====
-- internal/analysis/contracts/diff.go: the counts of a comparison.
use staging_platform.Base.{
  ℕ, suc, ◌+◌, String, ◌≡◌, refl, ap, Bool, true, false, not, ◌&&◌, Option, none, some, List, [],
  ◌∷◌, keep, any, length, str_eq, if◌then◌else◌, arith,
}
use staging_platform.Standard.{Standard}
use staging_platform.Contracts.Compare.{
  ActionSnapshot, Tracked, DiffChange, DiffChangeType, DiffSummary, new_action, removed_action,
  side_effect_changed, fallback_tiers_changed, models_changed, prompts_changed, is_new, is_removed,
  count, is_tracked, summarize_diff_changes,
}

-- The sum of the counts of all types of change.
abbrev pub by_type : DiffSummary → ℕ
by_type s =
    s.new_actions + s.removed_actions + s.side_effect_changes + s.fallback_tier_changes
    + s.model_changes + s.prompt_changes

-- What the counts of a list of changes are.
abbrev Counted : List DiffChange → Type 0
Counted cs =
    ((summarize_diff_changes cs).total_changes ≡ length cs)
    × ((summarize_diff_changes cs).total_changes ≡ by_type (summarize_diff_changes cs))
    × ((summarize_diff_changes cs).new_actions ≡ count is_new cs)
    × ((summarize_diff_changes cs).removed_actions ≡ count is_removed cs)

Counted-step :
    (t : DiffChangeType) (c : DiffChange) (cs : List DiffChange)
    → c.type ≡ t
    → Counted cs
    → Counted (c ∷ cs)
unfolding summarize_diff_changes keep
Counted-step new_action c cs e (h, hs, hn, hr) = rw e (ap suc h, omega (arith, hs), ap suc hn, hr)
Counted-step removed_action c cs e (h, hs, hn, hr) =
    rw e (ap suc h, omega (arith, hs), hn, ap suc hr)
Counted-step side_effect_changed c cs e (h, hs, hn, hr) = rw e (ap suc h, omega (arith, hs), hn, hr)
Counted-step fallback_tiers_changed c cs e (h, hs, hn, hr) =
    rw e (ap suc h, omega (arith, hs), hn, hr)
Counted-step models_changed c cs e (h, hs, hn, hr) = rw e (ap suc h, omega (arith, hs), hn, hr)
Counted-step prompts_changed c cs e (h, hs, hn, hr) = rw e (ap suc h, omega (arith, hs), hn, hr)

pub summarize_diff_changes-counts : (cs : List DiffChange) → Counted cs
unfolding summarize_diff_changes keep
summarize_diff_changes-counts [] = (refl, refl, refl, refl)
summarize_diff_changes-counts (c ∷ cs) =
    Counted-step c.type c cs refl (summarize_diff_changes-counts cs)

abbrev is_there : Option ActionSnapshot → Bool
is_there none = false
is_there (some a) = true

only_in : List Tracked → List Tracked → String → Bool
only_in here there key = is_tracked here key && not (is_tracked there key)

-- The keys that only the one list has.
abbrev own_keys : List String → List String → List String
own_keys here there =
    keep (λ key. any (λ k. str_eq k key) here && not (any (λ k. str_eq k key) there)) here

module _ (g : Standard) where
  -- The keys with one more.
  abbrev with_key : String → List String → List String
  with_key key [] = key ∷ []
  with_key key (k ∷ ks) = let rest = with_key key ks in if str_eq k key then k ∷ ks else k ∷ rest
