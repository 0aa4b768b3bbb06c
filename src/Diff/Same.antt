-- ===== src/Diff/Same.antt =====
-- internal/analysis/diff/diff.go: a run compared with itself.
use text.Mathlib.TextEquality.{eq_iff}
use mathlib.Core.List.{append_assoc, append-nil}
use staging_platform.Base.{
  String, ◌≡◌, refl, Bool, true, false, ◌||◌, some, List, [], ◌∷◌, ◌++◌, map, any, All, Pairwise,
  update_where, if◌then◌else◌, is_blank, Bool-cases, inl, inr, arith,
}
use staging_platform.Base.Int.{eqb_ℤ, ℤ}
use staging_platform.Base.Sorting.{sort_by}
use staging_platform.Base.Members.{any-append, All-append, All-sort_by, All-mono, All-map}
use staging_platform.Json.{Value}
use staging_platform.Result.{ok, err, rejected}
use staging_platform.Recorder.{Run, Interaction, Header}
use staging_platform.Standard.{Standard, Net}
use staging_platform.Diff.{
  Key, Options, IndexedInteraction, AlignedInteraction, eqb_key, of_base, with_candidate, has_key,
  join, index_interactions, align_interactions, compare_matched, changes_of_pairs, compare_runs,
  report, fallback_regressed, pair_le, by_sequence, canonical_interaction,
}
use staging_platform.Diff.Distinct.{Apart, number_all-Pairwise}
use staging_platform.Diff.Ignoring.{ServiceIgnored, ignored_for_interaction}

update_where-append :
    {A : Type 0} (p : A → Bool) (f : A → A) (xs ys : List A)
    → update_where p f (xs ++ ys) ≡ update_where p f xs ++ update_where p f ys
unfolding update_where
update_where-append p f [] ys = refl
update_where-append p f (x ∷ xs) ys = rw (update_where-append p f xs ys) refl

update_where-none :
    {A : Type 0} (p : A → Bool) (f : A → A) (xs : List A)
    → All (λ x. p x ≡ false) xs
    → update_where p f xs ≡ xs
unfolding update_where
update_where-none p f [] h = refl
update_where-none p f (x ∷ xs) h = rw (h.0, update_where-none p f xs h.1) refl

eqb_key_refl : (k : Key) → eqb_key k k ≡ true
eqb_key_refl k = rw ((eq_iff k.identity k.identity).1 refl) (ground arith)

-- Both runs have the interaction.
abbrev IsBoth : AlignedInteraction → Type 0
IsBoth p = (i : Interaction) × (p.base ≡ some i) × (p.candidate ≡ some i)

abbrev both : IndexedInteraction → AlignedInteraction
both x = with_candidate x (of_base x)

-- No later item has the key of the pair.
abbrev IsDone : List IndexedInteraction → AlignedInteraction → Type 0
IsDone xs p = All (λ (x : IndexedInteraction). has_key x.key p ≡ false) xs

or_true : (b : Bool) → (b || true) ≡ true
or_true true = refl
or_true false = refl

any_here :
    (x : IndexedInteraction) (xs : List IndexedInteraction)
    → any (has_key x.key) (map of_base (x ∷ xs)) ≡ true
unfolding any
any_here x xs = rw (eqb_key_refl x.key) refl

updated :
    (x : IndexedInteraction) (xs : List IndexedInteraction)
    → All (Apart x) xs
    → update_where (has_key x.key) (with_candidate x) (map of_base (x ∷ xs))
      ≡ both x ∷ map of_base xs
unfolding update_where
updated x xs a =
    rw
      (
        eqb_key_refl x.key,
        update_where-none (has_key x.key) (with_candidate x) (map of_base xs) (
            All-map of_base (λ p. has_key x.key p ≡ false) xs
              (All-mono (Apart x) _ xs (λ y apart. apart.1) a)),
      )
      refl

join-step :
    (done : List AlignedInteraction) (x : IndexedInteraction) (xs : List IndexedInteraction)
    → All (λ p. has_key x.key p ≡ false) done
    → All (Apart x) xs
    → join (done ++ map of_base (x ∷ xs)) (x ∷ xs)
      ≡ join ((done ++ both x ∷ []) ++ map of_base xs) xs
unfolding join
join-step done x xs h a =
    rw
      (
        join,
        any-append (has_key x.key) done (map of_base (x ∷ xs)),
        update_where-append (has_key x.key) (with_candidate x) done (map of_base (x ∷ xs)),
        update_where-none (has_key x.key) (with_candidate x) done h,
        any_here x xs,
        updated x xs a,
        or_true (any (has_key x.key) done),
        append_assoc done (both x ∷ []) (map of_base xs),
      )
      refl

join-IsBoth :
    (done : List AlignedInteraction) (xs : List IndexedInteraction)
    → All IsBoth done
    → All (IsDone xs) done
    → Pairwise Apart xs
    → All IsBoth (join (done ++ map of_base xs) xs)
unfolding join
join-IsBoth done [] b d a = rw (append-nil done) b
join-IsBoth done (x ∷ xs) b d a =
    rw (join-step done x xs (All-mono (IsDone (x ∷ xs)) _ done (λ p h. h.0) d) a.0) (
      join-IsBoth (done ++ both x ∷ []) xs
        (All-append IsBoth done (both x ∷ []) b ((x.interaction, refl, refl), tt))
        (All-append (IsDone xs) done (both x ∷ [])
          (All-mono (IsDone (x ∷ xs)) (IsDone xs) done (λ p h. h.1) d)
          (All-mono (Apart x) _ xs (λ y apart. apart.0) a.0, tt))
        a.1)

eqb_ℤ_refl : (a : ℤ) → eqb_ℤ a a ≡ true
eqb_ℤ_refl a = ground arith

fallback_regressed_refl : (tier : String) → fallback_regressed tier tier ≡ false
unfolding fallback_regressed
fallback_regressed_refl tier = ground arith

module _ (g : Standard) (net : Net Header) (decoded : Interaction → Value) where
  compare_matched_same :
      (ignored : List String) (services : List ServiceIgnored) (i : Interaction)
      → compare_matched g net decoded ignored services i i ≡ []
  unfolding compare_matched
  compare_matched_same ignored services i =
      rw
        (
          compare_matched,
          eqb_ℤ_refl i.sequence,
          fallback_regressed_refl i.fallback_tier,
          (eq_iff
                (canonical_interaction g net decoded (ignored_for_interaction i ignored services) i)
                (canonical_interaction g net decoded (ignored_for_interaction i ignored services)
                  i)).1
              refl,
        )
        refl

  changes_of_both :
      (ignored : List String) (services : List ServiceIgnored) (ps : List AlignedInteraction)
      → All IsBoth ps
      → changes_of_pairs g net decoded ignored services ps ≡ []
  unfolding changes_of_pairs
  changes_of_both ignored services [] h = refl
  changes_of_both ignored services (p ∷ ps) h =
      rw
        (
          h.0.1,
          h.0.2,
          compare_matched_same ignored services h.0.0,
          changes_of_both ignored services ps h.1,
        )
        refl

  align_interactions-IsBoth :
      (ignored : List String) (services : List ServiceIgnored) (is : List Interaction)
      → All IsBoth (align_interactions g net decoded ignored services is is)
  unfolding align_interactions index_interactions
  align_interactions-IsBoth ignored services is =
      All-sort_by IsBoth (pair_le g) _
        (join-IsBoth [] _ tt tt (number_all-Pairwise _ [] (sort_by by_sequence is)))

  -- A run compared with itself shows no change, whatever fields are ignored. Only where its session
  -- has no name is the comparison refused.
  pub compare_runs-same :
      (run : Run) (opts : Options)
      → compare_runs g net decoded run run opts ≡ (
          if is_blank run.session_name
          then err (rejected "run session_name is required")
          else ok (report g net decoded run run []))
  unfolding compare_runs
  compare_runs-same run opts = elim (Bool-cases (is_blank run.session_name)) [
    | inl t ↦ rw t refl
    | inr f ↦
        rw
          (
            f,
            (eq_iff run.session_name run.session_name).1 refl,
            changes_of_both _ _ _ (align_interactions-IsBoth _ _ run.interactions),
          )
          refl
  ]
