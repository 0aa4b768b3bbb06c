-- ===== src/Contracts/Classify/Verb.antt =====
-- internal/analysis/contracts/generate.go: the loop of `sqlVerb` comes to an end.
use Prim.Native.Char.{code}
use staging_platform.Base.{
  ℕ, zero, suc, ◌≤◌, ◌<◌, String, ◌≡◌, refl, Option, none, some, str_eq, Bool-cases, Option-cases,
  ◌⊎◌, inl, inr, arith, is_space, trim_left, trim_right, push_left, trim_space,
}
use staging_platform.Standard.{Standard}
use staging_platform.Contracts.Classify.{
  Comment, unclosed, before, absent, drop_prefix, after_first, text_length, skip_comment, closed_by,
  sql_verb_within, sql_verb, first_word, or_later,
}

text_length-trim_left : (s : String) → text_length (trim_left s) ≤ text_length s
unfolding trim_left text_length
text_length-trim_left String.[] = omega arith
text_length-trim_left (String.◌∷◌ c s) = ground (arith, text_length-trim_left s)

text_length-push_left : (c : _) (s : String) → text_length (push_left c s) ≤ suc (text_length s)
unfolding text_length
text_length-push_left c String.[] = elim (Bool-cases (is_space (code c))) [
  | inl t ↦ rw t (omega arith)
  | inr f ↦ rw f (omega arith)
]
text_length-push_left c (String.◌∷◌ d s) = omega arith

text_length-trim_right : (s : String) → text_length (trim_right s) ≤ text_length s
unfolding trim_right text_length
text_length-trim_right String.[] = omega arith
text_length-trim_right (String.◌∷◌ c s) =
    omega (arith, text_length-push_left c (trim_right s), text_length-trim_right s)

text_length-trim_space : (s : String) → text_length (trim_space s) ≤ text_length s
unfolding trim_space
text_length-trim_space s =
    omega (arith, text_length-trim_left s, text_length-trim_right (trim_left s))

-- The length of what is there.
abbrev measure : Option String → ℕ
measure none = 0
measure (some s) = suc (text_length s)

measure-drop_prefix : (p s : String) → measure (drop_prefix p s) ≤ suc (text_length s)
unfolding text_length
measure-drop_prefix String.[] s = omega arith
measure-drop_prefix (String.◌∷◌ c p) String.[] = omega arith
measure-drop_prefix (String.◌∷◌ c p) (String.◌∷◌ d s) =
    elim (Bool-cases (str_eq (String.◌∷◌ c "") (String.◌∷◌ d ""))) [
      | inl t ↦ rw t (omega (arith, measure-drop_prefix p s))
      | inr f ↦ rw f (omega arith)
    ]

or_later-le :
    {n : ℕ} (o later : Option String)
    → measure o ≤ suc n
    → measure later ≤ n
    → measure (or_later o later) ≤ suc n
or_later-le none later h h' = omega (arith, h')
or_later-le (some s) later h h' = h

measure-after_first :
    (c : _) (p s : String) → measure (after_first (String.◌∷◌ c p) s) ≤ text_length s
unfolding after_first text_length
measure-after_first c p String.[] = omega arith
measure-after_first c p (String.◌∷◌ d s) =
    elim (Bool-cases (str_eq (String.◌∷◌ c "") (String.◌∷◌ d ""))) [
      | inl t ↦
          rw t
            (or_later-le (drop_prefix p s) _ (measure-drop_prefix p s) (measure-after_first c p s))
      | inr f ↦ rw f (omega (arith, measure-after_first c p s))
    ]

-- The length of what follows a comment.
abbrev after_comment : Comment → ℕ
after_comment (before s) = suc (text_length s)
after_comment c = 0

after_comment-closed : (o : Option String) → after_comment (closed_by o) ≤ measure o
after_comment-closed none = omega arith
after_comment-closed (some s) = omega (arith, text_length-trim_space s)

after_comment-skip : (q : String) → after_comment (skip_comment q) ≤ text_length q
unfolding skip_comment
after_comment-skip q = elim (Option-cases (drop_prefix "--" q)) [
  | inr (rest, e) ↦
      rw (skip_comment, e)
        (omega (arith, after_comment-closed (after_first "\n" q), measure-after_first _ "" q))
  | inl e ↦ elim (Option-cases (drop_prefix "/*" q)) [
    | inr (rest, e') ↦
        rw (skip_comment, e, e')
          (omega (arith, after_comment-closed (after_first "*/" q), measure-after_first _ "/" q))
    | inl e' ↦ rw (skip_comment, e, e') (omega arith)
  ]
]

Comment-cases :
    (c : Comment) → (c ≡ unclosed) ⊎ ((c ≡ absent) ⊎ (rest : String) × (c ≡ before rest))
Comment-cases unclosed = inl refl
Comment-cases absent = inr (inl refl)
Comment-cases (before rest) = inr (inr (rest, refl))

module _ (g : Standard) where
  within-both :
      (n m : ℕ) (q : String)
      → text_length q < n
      → text_length q < m
      → (v : String) × (sql_verb_within g n q ≡ some v) × (sql_verb_within g m q ≡ some v)
  unfolding sql_verb_within
  within-both zero m q h h' = elim (let f : ⊥ = omega arith in f) [ ]
  within-both (suc n) zero q h h' = elim (let f : ⊥ = omega arith in f) [ ]
  within-both (suc n) (suc m) q h h' = elim (Comment-cases (skip_comment q)) [
    | inl e ↦ ("", rw (sql_verb_within, e) refl, rw (sql_verb_within, e) refl)
    | inr (inl e) ↦ (first_word g q, rw (sql_verb_within, e) refl, rw (sql_verb_within, e) refl)
    | inr (inr (rest, e)) ↦
        let shorter : suc (text_length rest) ≤ text_length q = rw e at (after_comment-skip q) in
        let (v, here, there) =
          within-both n m rest (omega (arith, shorter, h)) (omega (arith, shorter, h')) in
        (v, rw (sql_verb_within, e) here, rw (sql_verb_within, e) there)
  ]

  -- With more fuel than the trimmed query has characters the loop ends, and with the verb of
  -- `sql_verb`.
  pub sql_verb_within-ends :
      (q : String) (n : ℕ)
      → text_length (trim_space q) < n
      → sql_verb_within g n (trim_space q) ≡ some (sql_verb g q)
  unfolding sql_verb
  sql_verb_within-ends q n h =
      let (v, here, there) =
        within-both n (suc (text_length (trim_space q))) (trim_space q) h (omega arith) in
      rw (sql_verb, there) here
