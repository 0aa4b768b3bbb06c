-- ===== src/Gates/Translating.antt =====
-- internal/analysis/gates: gates that are valid translate to assertions that are.
use text.Mathlib.TextEquality.{eq_iff}
use mathlib.Core.List.{flatten, append-eq-nil_iff, map-eq-nil_iff}
use staging_platform.Base.{
  ℕ, suc, ◌≤◌, String, ◌≡◌, refl, sym, ap, ◌∙◌, Bool, true, false, not, ◌&&◌, ◌||◌, Option, none,
  some, List, [], ◌∷◌, All, any, map, arith, str_eq, is_blank, trim_space, if◌then◌else◌,
  Bool-cases, inl, inr,
}
use staging_platform.Base.Empty.{flatten-All-IsNil}
use staging_platform.Base.Problems.{Problem, within, item, item_problems, adds-nil, is_empty}
use staging_platform.Recorder.{contains}
use staging_platform.Standard.{Standard}
use staging_platform.Contracts.{valid_side_effects}
use staging_platform.Contracts.Schema.{string_set_problems}
use staging_platform.Assertions.Matching.{Selection}
use staging_platform.Assertions.Validation.{has_match, match_problems, below_zero}
use staging_platform.Gates.Schema.{
  GateSelector, BlockIf, RequireOrder, RequireApproval, MaxAmount, AllowedValues, Gate,
  has_selector, selector_problems, allowed_problems, order_problems, block_problems,
  require_approval_problems, max_amount_problems, gate_problems, is_set, clauses_set, count_clauses,
  if_there,
}
use staging_platform.Gates.{
  Condition, match_from_selector, block_condition, order_condition, approval_condition,
  amount_condition, channels_condition, domains_condition, new_action_condition,
  unknown_risk_condition, condition_problems, condition_of, conditions, mapped, first_set,
  assertions_problems, translated_problems,
}

-- The name of the field does not matter.
string_set_problems-named :
    (a b : String) (idx : ℕ) (seen vs : List String)
    → string_set_problems a idx seen vs ≡ []
    → string_set_problems b idx seen vs ≡ []
unfolding string_set_problems
string_set_problems-named a b idx seen [] h = refl
string_set_problems-named a b idx seen (v ∷ vs) h = elim (Bool-cases (is_blank v)) [
  | inl t ↦ absurd (cc (rw (string_set_problems, t) at h))
  | inr f ↦ elim (Bool-cases (contains seen (trim_space v))) [
    | inl t ↦ absurd (cc (rw (string_set_problems, f, t) at h))
    | inr n ↦
        rw (string_set_problems, f, n)
          (string_set_problems-named a b (suc idx) (trim_space v ∷ seen) vs
            (rw (string_set_problems, f, n) at h))
  ]
]

contains-nonblank :
    (ts : List String) (s : String)
    → All (λ t. is_blank t ≡ false) ts
    → contains ts s ≡ true
    → is_blank s ≡ false
unfolding any
contains-nonblank [] s hs h = cc
contains-nonblank (t ∷ ts) s (b, hs) h = elim (Bool-cases (str_eq t s)) [
  | inl e ↦ ap is_blank (sym ((eq_iff t s).0 e)) ∙ b
  | inr n ↦ contains-nonblank ts s hs (rw n at h)
]

valid_side_effects-nonblank : All (λ t. is_blank t ≡ false) valid_side_effects
unfolding is_blank trim_space
valid_side_effects-nonblank = (refl, (refl, (refl, (refl, (refl, (refl, tt))))))

-- A tool stands alone.
abbrev mixed : GateSelector → Bool
mixed s = not (is_blank s.tool) && (not (is_blank s.service) || not (is_blank s.operation))

selector_problems-mixed :
    (b : Bool) (s : GateSelector) → selector_problems b s ≡ [] → mixed s ≡ false
unfolding selector_problems
selector_problems-mixed b s h = let (m, _) = flatten-All-IsNil _ h in adds-nil _ _ m

selector_problems-side_effect :
    (b : Bool) (s : GateSelector)
    → selector_problems b s ≡ []
    → str_eq s.side_effect "" ≡ false
    → is_blank s.side_effect ≡ false
unfolding selector_problems
selector_problems-side_effect b s h n =
    let (_, (_, (_, (v, _)))) = flatten-All-IsNil _ h in
    contains-nonblank valid_side_effects s.side_effect valid_side_effects-nonblank
      (ground (arith, n, adds-nil _ _ v))

pub is_set-mapped : {A B : Type 0} (f : A → B) (o : Option A) → is_set (mapped f o) ≡ is_set o
is_set-mapped f none = refl
is_set-mapped f (some a) = refl

pub count_clauses-conditions :
    {F : Type 0} (gate : Gate F)
    → count_clauses (map is_set (conditions gate)) ≡ count_clauses (clauses_set gate)
count_clauses-conditions gate =
    rw
      (
        is_set-mapped _ gate.block_if,
        is_set-mapped _ gate.require_order,
        is_set-mapped _ gate.require_approval,
        is_set-mapped _ gate.max_amount,
        is_set-mapped _ gate.allowed_channels,
        is_set-mapped _ gate.allowed_domains,
        is_set-mapped _ gate.forbid_new_action,
        is_set-mapped _ gate.forbid_unknown_risk,
      )
      refl

-- What is set satisfies the predicate.
abbrev IfSet : {A : Type 0} → (A → Type 0) → Option A → Type 0
IfSet P none = Unit
IfSet P (some a) = P a

first_set-IfSet :
    {A : Type 0} (P : A → Type 0) (default : A) (os : List (Option A))
    → count_clauses (map is_set os) ≡ 1
    → All (IfSet P) os
    → P (first_set default os)
unfolding count_clauses
first_set-IfSet P default [] h hs = absurd (omega (arith, h))
first_set-IfSet P default (none ∷ os) h (k, hs) = first_set-IfSet P default os h hs
first_set-IfSet P default (some a ∷ os) h (k, hs) = k

mapped-IfSet :
    {A B : Type 0} (P : B → Type 0) (f : A → B) (name : String) (problems : A → List Problem)
    (o : Option A)
    → ((a : A) → problems a ≡ [] → P (f a))
    → if_there name problems o ≡ []
    → IfSet P (mapped f o)
mapped-IfSet P f name problems none valid h = tt
mapped-IfSet P f name problems (some a) valid h = valid a ((map-eq-nil_iff (within name)).0 h)

module _ (g : Standard) (host_from_url : String → String) (numbered : ℕ → String) where
  match_problems-nil :
      (m : Selection g.Float)
      → has_match m ≡ true
      → (not (is_blank m.tool) && (not (is_blank m.service) || not (is_blank m.operation))) ≡ false
      → below_zero g m.amount_gt ≡ false
      → string_set_problems "channel_not_in" 0 [] m.channel_not_in ≡ []
      → string_set_problems "domain_not_in" 0 [] m.domain_not_in ≡ []
      → match_problems g m ≡ []
  unfolding match_problems flatten
  match_problems-nil m h t b c d = rw (match_problems, h, t, b, c, d) refl

  -- What the fields of a selector match makes a match.
  has_selector-has_match :
      (b : Bool) (s : GateSelector) (m : Selection g.Float)
      → selector_problems b s ≡ []
      → has_selector s ≡ true
      → m.service ≡ s.service
      → m.operation ≡ s.operation
      → m.tool ≡ s.tool
      → m.side_effect ≡ s.side_effect
      → m.destination_type ≡ s.destination_type
      → has_match m ≡ true
  unfolding has_selector has_match
  has_selector-has_match b s m valid h a o t e d = elim (Bool-cases (str_eq s.side_effect "")) [
    | inl n ↦ rw (has_match, a, o, t, e, d) (ground (arith, h, n))
    | inr n ↦
        rw (has_match, a, o, t, e, d)
          (ground (arith, h, n, selector_problems-side_effect b s valid n))
  ]

  plain_match-valid :
      (b : Bool) (s : GateSelector)
      → selector_problems b s ≡ []
      → has_selector s ≡ true
      → match_problems g (match_from_selector s) ≡ []
  unfolding match_from_selector string_set_problems
  plain_match-valid b s valid h =
      match_problems-nil (match_from_selector s)
        (has_selector-has_match b s (match_from_selector s) valid h refl refl refl refl refl)
        (selector_problems-mixed b s valid) refl refl refl

  order_condition-valid :
      (o : RequireOrder)
      → order_problems o ≡ []
      → condition_problems g host_from_url numbered (order_condition o) ≡ []
  unfolding order_problems condition_problems order_condition selector_problems has_selector
  order_condition-valid o h =
      let (b, a) = append-eq-nil_iff.0 h in
      let before = (map-eq-nil_iff (within "before")).0 b in
      let after = (map-eq-nil_iff (within "after")).0 a in
      let (_, (_, (first, _))) = flatten-All-IsNil _ before in
      let (_, (_, (second, _))) = flatten-All-IsNil _ after in
      rw
        (
          plain_match-valid true o.before before (ground (arith, adds-nil _ _ first)),
          plain_match-valid true o.after after (ground (arith, adds-nil _ _ second)),
        )
        refl

  approval_condition-valid :
      (a : RequireApproval g.Float)
      → require_approval_problems g a ≡ []
      → condition_problems g host_from_url numbered (approval_condition a) ≡ []
  unfolding require_approval_problems condition_problems approval_condition match_from_selector
      string_set_problems
  approval_condition-valid a h =
      let (selector, (set, (amount, _))) = flatten-All-IsNil _ h in
      let m : Selection g.Float = record (match_from_selector a.selector) {
        amount_gt = a.amount_gt;
        approval_missing = some true;
      } in
      ap (map (within "match")) (
        match_problems-nil m
          (has_selector-has_match false a.selector m selector (ground (arith, adds-nil _ _ set))
            refl refl refl refl refl)
          (selector_problems-mixed false a.selector selector) (adds-nil _ _ amount) refl refl)

  amount_condition-valid :
      (x : MaxAmount g.Float)
      → max_amount_problems g x ≡ []
      → condition_problems g host_from_url numbered (amount_condition x) ≡ []
  unfolding max_amount_problems condition_problems amount_condition match_from_selector
      string_set_problems
  amount_condition-valid x h =
      let (selector, (set, (_, (amount, _)))) = flatten-All-IsNil _ h in
      let m : Selection g.Float = record (match_from_selector x.selector) {
        amount_gt = x.amount;
      } in
      ap (map (within "match")) (
        match_problems-nil m
          (has_selector-has_match false x.selector m selector (ground (arith, adds-nil _ _ set))
            refl refl refl refl refl)
          (selector_problems-mixed false x.selector selector) (adds-nil _ _ amount) refl refl)

  has_channels : (m : Selection g.Float) → is_empty m.channel_not_in ≡ false → has_match m ≡ true
  unfolding has_match
  has_channels m h = ground (arith, h)

  has_domains : (m : Selection g.Float) → is_empty m.domain_not_in ≡ false → has_match m ≡ true
  unfolding has_match
  has_domains m h = ground (arith, h)

  has_new : (m : Selection g.Float) → m.new_action ≡ some true → has_match m ≡ true
  unfolding has_match
  has_new m h = rw (has_match, h) (ground arith)

  has_unknown : (m : Selection g.Float) → m.unknown_risk ≡ some true → has_match m ≡ true
  unfolding has_match
  has_unknown m h = rw (has_match, h) (ground arith)

  channels_condition-valid :
      (a : AllowedValues)
      → allowed_problems a ≡ []
      → condition_problems g host_from_url numbered (channels_condition a) ≡ []
  unfolding allowed_problems condition_problems channels_condition match_from_selector
      string_set_problems
  channels_condition-valid a h =
      let (selector, (values, (nonempty, _))) = flatten-All-IsNil _ h in
      let m : Selection g.Float = record (match_from_selector a.selector) {
        channel_not_in = a.values;
      } in
      ap (map (within "match")) (
        match_problems-nil m (has_channels m (adds-nil _ _ nonempty))
          (selector_problems-mixed false a.selector selector) refl
          (string_set_problems-named "values" "channel_not_in" 0 [] a.values values) refl)

  domains_condition-valid :
      (a : AllowedValues)
      → allowed_problems a ≡ []
      → condition_problems g host_from_url numbered (domains_condition a) ≡ []
  unfolding allowed_problems condition_problems domains_condition match_from_selector
      string_set_problems
  domains_condition-valid a h =
      let (selector, (values, (nonempty, _))) = flatten-All-IsNil _ h in
      let m : Selection g.Float = record (match_from_selector a.selector) {
        domain_not_in = a.values;
      } in
      ap (map (within "match")) (
        match_problems-nil m (has_domains m (adds-nil _ _ nonempty))
          (selector_problems-mixed false a.selector selector) refl refl
          (string_set_problems-named "values" "domain_not_in" 0 [] a.values values))

  new_action_condition-valid :
      (s : GateSelector)
      → selector_problems false s ≡ []
      → condition_problems g host_from_url numbered (new_action_condition s) ≡ []
  unfolding condition_problems new_action_condition match_from_selector string_set_problems
  new_action_condition-valid s selector =
      let m : Selection g.Float = record (match_from_selector s) { new_action = some true } in
      ap (map (within "match")) (
        match_problems-nil m (has_new m refl) (selector_problems-mixed false s selector) refl refl
          refl)

  unknown_risk_condition-valid :
      (s : GateSelector)
      → selector_problems false s ≡ []
      → condition_problems g host_from_url numbered (unknown_risk_condition s) ≡ []
  unfolding condition_problems unknown_risk_condition match_from_selector string_set_problems
  unknown_risk_condition-valid s selector =
      let m : Selection g.Float = record (match_from_selector s) { unknown_risk = some true } in
      ap (map (within "match")) (
        match_problems-nil m (has_unknown m refl) (selector_problems-mixed false s selector) refl
          refl refl)

  has_selected :
      (s : GateSelector) (m : Selection g.Float) (b : BlockIf g.Float)
      → has_selector s ≡ false
      → m ≡ record (match_from_selector s) {
        amount_gt = b.amount_gt;
        approval_missing = if b.approval_missing then some true else none;
        channel = b.channel;
        domain = b.domain;
        new_action = b.new_action;
        unknown_risk = b.unknown_risk;
      }
      → (not (has_selector s)
          && not (is_set b.amount_gt)
          && not b.approval_missing
          && is_blank b.channel
          && is_blank b.domain
          && not (is_set b.new_action)
          && not (is_set b.unknown_risk))
        ≡ false
      → has_match m ≡ true
  unfolding has_match match_from_selector
  has_selected s m b n e h =
      rw (has_match, e)
        (elim (Bool-cases b.approval_missing) [
          | inl t ↦ rw t (ground arith)
          | inr f ↦ ground (arith, n, h, f)
        ])

  block_condition-valid :
      (b : BlockIf g.Float)
      → block_problems g b ≡ []
      → condition_problems g host_from_url numbered (block_condition b) ≡ []
  unfolding block_problems condition_problems block_condition match_from_selector
      string_set_problems
  block_condition-valid b h =
      let (selector, (amount, (some_field, _))) = flatten-All-IsNil _ h in
      let m : Selection g.Float = record (match_from_selector b.selector) {
        amount_gt = b.amount_gt;
        approval_missing = if b.approval_missing then some true else none;
        channel = b.channel;
        domain = b.domain;
        new_action = b.new_action;
        unknown_risk = b.unknown_risk;
      } in
      let found : has_match m ≡ true = elim (Bool-cases (has_selector b.selector)) [
        | inl t ↦ has_selector-has_match false b.selector m selector t refl refl refl refl refl
        | inr n ↦ has_selected b.selector m b n refl (adds-nil _ _ some_field)
      ] in
      ap (map (within "match")) (
        match_problems-nil m found (selector_problems-mixed false b.selector selector)
          (adds-nil _ _ amount) refl refl)

  pub gate_problems-one :
      (gate : Gate g.Float) → gate_problems g gate ≡ [] → count_clauses (clauses_set gate) ≡ 1
  unfolding gate_problems
  gate_problems-one gate h =
      let (_, (one, _)) = flatten-All-IsNil _ h in ground (arith, adds-nil _ _ one)

  abbrev Valid : Condition g.Float → Type 0
  Valid c = condition_problems g host_from_url numbered c ≡ []

  condition_of-Valid : (gate : Gate g.Float) → gate_problems g gate ≡ [] → Valid (condition_of gate)
  unfolding gate_problems condition_of
  condition_of-Valid gate h =
      let (
        _,
        (
          _,
          (
            p_block_if,
            (
              p_require_order,
              (
                p_require_approval,
                (
                  p_max_amount,
                  (
                    p_allowed_channels,
                    (p_allowed_domains, (p_forbid_new_action, (p_forbid_unknown_risk, _))),
                  ),
                ),
              ),
            ),
          ),
        ),
      ) =
        flatten-All-IsNil _ h in
      first_set-IfSet Valid _ (conditions gate)
        (count_clauses-conditions gate ∙ gate_problems-one gate h)
        (
          mapped-IfSet Valid block_condition "block_if" (block_problems g) gate.block_if
              block_condition-valid p_block_if,
          (
            mapped-IfSet Valid order_condition "require_order" order_problems gate.require_order
                order_condition-valid p_require_order,
            (
              mapped-IfSet Valid approval_condition "require_approval" (require_approval_problems g)
                  gate.require_approval approval_condition-valid p_require_approval,
              (
                mapped-IfSet Valid amount_condition "max_amount" (max_amount_problems g)
                    gate.max_amount amount_condition-valid p_max_amount,
                (
                  mapped-IfSet Valid channels_condition "allowed_channels" allowed_problems
                      gate.allowed_channels channels_condition-valid p_allowed_channels,
                  (
                    mapped-IfSet Valid domains_condition "allowed_domains" allowed_problems
                        gate.allowed_domains domains_condition-valid p_allowed_domains,
                    (
                      mapped-IfSet Valid new_action_condition "forbid_new_action"
                          (selector_problems false) gate.forbid_new_action
                          new_action_condition-valid p_forbid_new_action,
                      (
                        mapped-IfSet Valid unknown_risk_condition "forbid_unknown_risk"
                            (selector_problems false) gate.forbid_unknown_risk
                            unknown_risk_condition-valid p_forbid_unknown_risk,
                        tt,
                      ),
                    ),
                  ),
                ),
              ),
            ),
          ),
        )

  -- No identifier from this index on has been seen.
  Unseen : ℕ → List String → Type 0
  Unseen idx seen = (n : ℕ) → idx ≤ n → contains seen (numbered (suc n)) ≡ false

  module _ (named : (n : ℕ) → is_blank (numbered n) ≡ false)
      (distinct : (n m : ℕ) → numbered n ≡ numbered m → n ≡ m) where
    Unseen-next :
        (idx : ℕ) (seen : List String)
        → Unseen idx seen
        → Unseen (suc idx) (numbered (suc idx) ∷ seen)
    unfolding Unseen any
    Unseen-next idx seen h n le =
        elim (Bool-cases (str_eq (numbered (suc idx)) (numbered (suc n)))) [
          | inl t ↦ absurd (omega (arith, le, distinct (suc idx) (suc n) ((eq_iff _ _).0 t)))
          | inr f ↦ rw f (h n (omega (arith, le)))
        ]

    assertions_problems-nil :
        (idx : ℕ) (seen : List String) (gates : List (Gate g.Float))
        → Unseen idx seen
        → item_problems "release_gates" (gate_problems g) idx gates ≡ []
        → assertions_problems g host_from_url numbered idx seen gates ≡ []
    unfolding assertions_problems item_problems Unseen
    assertions_problems-nil idx seen [] fresh h = refl
    assertions_problems-nil idx seen (gate ∷ gates) fresh h =
        let (here, rest) = append-eq-nil_iff.0 h in
        let own = condition_of-Valid gate ((map-eq-nil_iff (item "release_gates" idx)).0 here) in
        let later =
          assertions_problems-nil (suc idx) (numbered (suc idx) ∷ seen) gates
            (Unseen-next idx seen fresh) rest in
        rw (assertions_problems, named (suc idx), fresh idx (omega arith), own, later) refl

    pub translated_problems-nil :
        (gates : List (Gate g.Float))
        → is_empty gates ≡ false
        → item_problems "release_gates" (gate_problems g) 0 gates ≡ []
        → translated_problems g host_from_url numbered gates ≡ []
    unfolding translated_problems Unseen any
    translated_problems-nil gates nonempty h =
        rw (translated_problems, nonempty) (assertions_problems-nil 0 [] gates (λ n le. refl) h)
