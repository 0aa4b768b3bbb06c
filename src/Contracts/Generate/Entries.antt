-- ===== src/Contracts/Generate/Entries.antt =====
-- internal/analysis/contracts/generate.go: the keys of the actions that a run gives rise to.
use text.Mathlib.TextEquality.{eq_iff}
use staging_platform.Base.{
  String, ◌≡◌, refl, sym, ap, ◌∙◌, Bool, true, false, not, ◌||◌, Option, none, some, List, [], ◌∷◌,
  map, any, keep, All, str_eq, Bool-cases, Option-cases, inl, inr, arith,
}
use staging_platform.Base.Order.{text_le}
use staging_platform.Base.Members.{any-map, any-sort_by, All-sort_by}
use staging_platform.Recorder.{Run, Interaction}
use staging_platform.Standard.{Standard}
use staging_platform.Contracts.{
  Action, ActionSelector, selector_from_interaction, selector_key, action_selector, is_listed,
}
use staging_platform.Contracts.Classify.{ClassificationOverride}
use staging_platform.Contracts.Generate.{
  GenerateOptions, Entry, update_entry, observe, accumulate, settle, actions_by_key, is_read,
  with_approval, generate_from_run,
}

any-keep_or :
    {A : Type 0} (p q : A → Bool) (xs : List A)
    → (any q (keep p xs) || any q (keep (λ x. not (p x)) xs)) ≡ any q xs
unfolding any keep
any-keep_or p q [] = refl
any-keep_or p q (x ∷ xs) = ground (arith, any-keep_or p q xs)

or_again : (b c : Bool) → (b || c) ≡ (b || (b || c))
or_again true c = refl
or_again false c = refl

or_nothing : (b : Bool) → (b || false) ≡ b
or_nothing true = refl
or_nothing false = refl

or_swap : (a b c : Bool) → (a || (b || c)) ≡ (b || (a || c))
or_swap true true c = refl
or_swap true false c = refl
or_swap false b c = refl

or_move : (a b c : Bool) → (a || (b || c)) ≡ ((b || a) || c)
or_move true true c = refl
or_move true false c = refl
or_move false true c = refl
or_move false false c = refl

any-same :
    {A : Type 0} (p q : A → Bool) (xs : List A) → All (λ x. p x ≡ q x) xs → any p xs ≡ any q xs
unfolding any
any-same p q [] h = refl
any-same p q (x ∷ xs) h = rw (h.0, any-same p q xs h.1) refl

module _ (g : Standard) where
  -- The entry's key is that of its action.
  abbrev IsKeyed : Entry g → Type 0
  IsKeyed e = selector_key (action_selector e.action) ≡ e.key

  has_key : String → List (Entry g) → Bool
  has_key key es = any (λ (e : Entry g). str_eq e.key key) es

  has_key-update :
      (key : String) (s : ActionSelector) (f : Action g.Float → Action g.Float)
      (es : List (Entry g))
      → has_key key (update_entry g s f es) ≡ (str_eq (selector_key s) key || has_key key es)
  unfolding update_entry has_key any
  has_key-update key s f [] = refl
  has_key-update key s f (e ∷ es) = elim (Bool-cases (str_eq e.key (selector_key s))) [
    | inl t ↦ rw (t, sym ((eq_iff _ _).0 t)) (or_again (str_eq e.key key) (has_key key es))
    | inr n ↦ rw (n, has_key-update key s f es) (or_swap (str_eq e.key key) _ _)
  ]

  IsKeyed-update :
      (s : ActionSelector) (f : Action g.Float → Action g.Float) (es : List (Entry g))
      → ((a : Action g.Float) → action_selector (f a) ≡ action_selector a)
      → All IsKeyed es
      → All IsKeyed (update_entry g s f es)
  unfolding update_entry
  IsKeyed-update s f [] keeps h = (ap selector_key (keeps _), tt)
  IsKeyed-update s f (e ∷ es) keeps h = elim (Bool-cases (str_eq e.key (selector_key s))) [
    | inl t ↦ rw t (ap selector_key (keeps e.action) ∙ h.0, h.1)
    | inr n ↦ rw n (h.0, IsKeyed-update s f es keeps h.1)
  ]

  abbrev pub selects : String → Option ActionSelector → Bool
  selects key none = false
  selects key (some s) = str_eq (selector_key s) key

  accumulate-IsKeyed :
      (overrides : List ClassificationOverride) (is : List Interaction) (es : List (Entry g))
      → All IsKeyed es
      → All IsKeyed (accumulate g overrides is es)
  unfolding accumulate observe
  accumulate-IsKeyed overrides [] es h = h
  accumulate-IsKeyed overrides (i ∷ is) es h = elim (Option-cases (selector_from_interaction g i)) [
    | inl e ↦ rw (accumulate, e) (accumulate-IsKeyed overrides is es h)
    | inr (s, e) ↦
        rw (accumulate, e)
          (accumulate-IsKeyed overrides is _
            (IsKeyed-update s (observe g overrides i) es (λ a. refl) h))
  ]

  has_key-accumulate :
      (key : String) (overrides : List ClassificationOverride) (is : List Interaction)
      (es : List (Entry g))
      → has_key key (accumulate g overrides is es)
        ≡ (any (λ i. selects key (selector_from_interaction g i)) is || has_key key es)
  unfolding accumulate any
  has_key-accumulate key overrides [] es = refl
  has_key-accumulate key overrides (i ∷ is) es =
      elim (Option-cases (selector_from_interaction g i)) [
        | inl e ↦ rw (accumulate, e) (has_key-accumulate key overrides is es)
        | inr (s, e) ↦
            rw (accumulate, e, has_key-accumulate key overrides is, has_key-update key s)
              (or_move (any (λ j. selects key (selector_from_interaction g j)) is)
                (str_eq (selector_key s) key) (has_key key es))
      ]

  settle-selector : (a : Action g.Float) → action_selector (settle g a) ≡ action_selector a
  settle-selector a = elim (Bool-cases (str_eq a.side_effect "")) [
    | inl t ↦ rw t refl
    | inr f ↦ rw f refl
  ]

  settled-key :
      (key : String) (es : List (Entry g))
      → All IsKeyed es
      → is_listed key (map (λ (e : Entry g). settle g e.action) es) ≡ has_key key es
  unfolding has_key any
  settled-key key [] h = refl
  settled-key key (e ∷ es) h = rw (settle-selector e.action, h.0, settled-key key es h.1) refl

  -- An action is listed among those of the run when the selector of an interaction has its key.
  listed-actions :
      (key : String) (run : Run) (opts : GenerateOptions)
      → is_listed key (actions_by_key g run opts)
        ≡ any (λ i. selects key (selector_from_interaction g i)) run.interactions
  unfolding actions_by_key has_key any
  listed-actions key run opts =
      rw
        (
          settled-key key _ (
              All-sort_by IsKeyed _ _
                (accumulate-IsKeyed opts.classification_overrides run.interactions [] tt)),
          any-sort_by (λ (a b : Entry g). text_le a.key b.key) (λ e. str_eq e.key key)
              (accumulate g opts.classification_overrides run.interactions []),
          has_key-accumulate key opts.classification_overrides run.interactions [],
        )
        (or_nothing _)

  -- So it is in the contract, allowed or restricted.
  pub listed-generated :
      (key : String) (run : Run) (opts : GenerateOptions)
      → (is_listed key (generate_from_run g run opts).0.allowed_actions
          || is_listed key (generate_from_run g run opts).0.restricted_actions)
        ≡ any (λ i. selects key (selector_from_interaction g i)) run.interactions
  unfolding generate_from_run
  listed-generated key run opts =
      rw (any-map (with_approval g) (λ a. str_eq (selector_key (action_selector a)) key) _)
        (any-keep_or (is_read g) _ (actions_by_key g run opts) ∙ listed-actions key run opts)
