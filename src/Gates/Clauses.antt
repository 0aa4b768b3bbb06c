-- ===== src/Gates/Clauses.antt =====
-- internal/analysis/gates: what each clause of a gate asks of a run.
use staging_platform.Base.{
  String, ◌≡◌, refl, ap, ◌∙◌, Bool, true, false, not, ◌&&◌, ◌||◌, Option, none, some, List, [], ◌∷◌,
  any, arith, str_eq, is_blank, trim_space, if◌then◌else◌, Bool-cases, inl, inr,
}
use staging_platform.Base.Int.{ltb_ℤ}
use staging_platform.Recorder.{Run, Interaction, contains}
use staging_platform.Standard.{Standard}
use staging_platform.Contracts.{side_effect_unknown}
use staging_platform.Contracts.Classify.{classify_interaction}
use staging_platform.Contracts.Generate.{find_numeric_field}
use staging_platform.Assertions.Matching.{
  if_set, if_some, exceeds, normalize_tool_match, interaction_matches, observed_string,
  observed_domain, string_in_set, interaction_has_approval_evidence, action_key,
}
use staging_platform.Gates.Schema.{
  GateSelector, BlockIf, RequireOrder, RequireApproval, MaxAmount, AllowedValues, Gate,
}
use staging_platform.Gates.Tests.{
  any-cong, assemble, only_selector, only_amount, only_approval, only_channels, only_domains,
  only_new, only_unknown, without_lists,
}
use staging_platform.Gates.{
  Condition, blocks, orders, match_from_selector, block_condition, order_condition,
  approval_condition, amount_condition, channels_condition, domains_condition, new_action_condition,
  unknown_risk_condition,
}

-- Does what is set hold?
abbrev pub if_present : {A : Type 0} → (A → Bool) → Option A → Bool
if_present test none = true
if_present test (some a) = test a

module _ (g : Standard) (host_from_url : String → String) (base_keys : List String) where
  -- Is the interaction one of the action: a call of the tool, or of the service and the operation, of
  -- the side effect and to the destination, where these are given?
  abbrev pub selects : GateSelector → Interaction → Bool
  selects s i =
      (if is_blank s.tool
        then if_set s.service (str_eq i.service s.service)
          && if_set s.operation (str_eq i.operation s.operation)
        else str_eq i.service "stagehand.tool" && str_eq i.operation (trim_space s.tool))
      && if_set s.side_effect (str_eq (classify_interaction g i).side_effect s.side_effect)
      && if_set s.destination_type (
          str_eq (observed_string g i ("destination_type" ∷ "destinationType" ∷ []))
            s.destination_type)

  -- Is the amount of the interaction above the limit, where there is one?
  abbrev pub above : Option g.Float → Interaction → Bool
  above limit i = exceeds g limit (find_numeric_field g "amount" i.request.body)

  abbrev pub channel_of : Interaction → String
  channel_of i = observed_string g i ("channel" ∷ [])

  abbrev pub is_unknown_risk : Interaction → Bool
  is_unknown_risk i = str_eq (classify_interaction g i).side_effect side_effect_unknown

  abbrev pub is_new_action : Interaction → Bool
  is_new_action i = not (contains base_keys (action_key i))

  abbrev pub is_unapproved : Interaction → Bool
  is_unapproved i = not (interaction_has_approval_evidence g i)

  abbrev pub has_channel_in : List String → Interaction → Bool
  has_channel_in values i = string_in_set g (channel_of i) values

  abbrev pub has_domain_in : List String → Interaction → Bool
  has_domain_in values i = string_in_set g (observed_domain g host_from_url i) values

  matches-selection :
      (s : GateSelector) (amount : Option g.Float) (unapproved : Option Bool) (channel : String)
      (channels : List String) (domain : String) (domains : List String) (new unknown : Option Bool)
      (i : Interaction)
      → interaction_matches g host_from_url base_keys
          (record (match_from_selector s) {
            amount_gt = amount;
            approval_missing = unapproved;
            channel = channel;
            channel_not_in = channels;
            domain = domain;
            domain_not_in = domains;
            new_action = new;
            unknown_risk = unknown;
          })
          i
        ≡ (selects s i
            && if_some unknown (is_unknown_risk i)
            && above amount i
            && if_some unapproved (is_unapproved i)
            && if_set channel (str_eq (channel_of i) channel)
            && not (has_channel_in channels i)
            && if_set domain (str_eq (observed_domain g host_from_url i) domain)
            && not (has_domain_in domains i)
            && if_some new (is_new_action i))
  unfolding interaction_matches normalize_tool_match match_from_selector is_blank
  matches-selection s amount unapproved channel channels domain domains new unknown i =
      elim (Bool-cases (str_eq (trim_space s.tool) "")) [
        | inl t ↦ rw t (
            assemble (if_set s.service (str_eq i.service s.service))
              (if_set s.operation (str_eq i.operation s.operation))
              (if_set s.side_effect (str_eq (classify_interaction g i).side_effect s.side_effect))
              (if_some unknown (is_unknown_risk i)) (above amount i)
              (if_some unapproved (is_unapproved i))
              (if_set s.destination_type (
                str_eq (observed_string g i ("destination_type" ∷ "destinationType" ∷ []))
                  s.destination_type))
              (if_set channel (str_eq (channel_of i) channel)) (not (has_channel_in channels i))
              (if_set domain (str_eq (observed_domain g host_from_url i) domain))
              (not (has_domain_in domains i)) (if_some new (is_new_action i)))
        | inr f ↦
            rw (f, f)
              (assemble (str_eq i.service "stagehand.tool") (str_eq i.operation (trim_space s.tool))
                (if_set s.side_effect (str_eq (classify_interaction g i).side_effect s.side_effect))
                (if_some unknown (is_unknown_risk i)) (above amount i)
                (if_some unapproved (is_unapproved i))
                (if_set s.destination_type (
                  str_eq (observed_string g i ("destination_type" ∷ "destinationType" ∷ []))
                    s.destination_type))
                (if_set channel (str_eq (channel_of i) channel)) (not (has_channel_in channels i))
                (if_set domain (str_eq (observed_domain g host_from_url i) domain))
                (not (has_domain_in domains i)) (if_some new (is_new_action i)))
      ]

  no_value : (v : String) → not (string_in_set g v []) ≡ true
  unfolding string_in_set any
  no_value v = ground arith

  -- Does no interaction of the run pass the test?
  abbrev pub never : (Interaction → Bool) → Run → Bool
  never test run = not (any test run.interactions)

  -- What each clause asks of the run.
  abbrev pub holds_block : Run → BlockIf g.Float → Bool
  holds_block run b =
      never
        (λ i.
          selects b.selector i
          && if_some b.unknown_risk (is_unknown_risk i)
          && above b.amount_gt i
          && (not b.approval_missing || is_unapproved i)
          && if_set b.channel (str_eq (channel_of i) b.channel)
          && if_set b.domain (str_eq (observed_domain g host_from_url i) b.domain)
          && if_some b.new_action (is_new_action i))
        run

  abbrev pub holds_order : Run → RequireOrder → Bool
  holds_order run o =
      any
        (λ (b : Interaction).
          selects o.before b
          && any (λ (a : Interaction). selects o.after a && ltb_ℤ b.sequence a.sequence)
              run.interactions)
        run.interactions

  abbrev pub holds_approval : Run → RequireApproval g.Float → Bool
  holds_approval run a =
      never (λ i. selects a.selector i && above a.amount_gt i && is_unapproved i) run

  abbrev pub holds_amount : Run → MaxAmount g.Float → Bool
  holds_amount run m = never (λ i. selects m.selector i && above m.amount i) run

  abbrev pub holds_channels : Run → AllowedValues → Bool
  holds_channels run a = never (λ i. selects a.selector i && not (has_channel_in a.values i)) run

  abbrev pub holds_domains : Run → AllowedValues → Bool
  holds_domains run a = never (λ i. selects a.selector i && not (has_domain_in a.values i)) run

  abbrev pub holds_new_action : Run → GateSelector → Bool
  holds_new_action run s = never (λ i. selects s i && is_new_action i) run

  abbrev pub holds_unknown_risk : Run → GateSelector → Bool
  holds_unknown_risk run s = never (λ i. selects s i && is_unknown_risk i) run

  -- Does every clause that is set hold?
  abbrev pub holds : Run → Gate g.Float → Bool
  holds run gate =
      if_present (holds_block run) gate.block_if
      && if_present (holds_order run) gate.require_order
      && if_present (holds_approval run) gate.require_approval
      && if_present (holds_amount run) gate.max_amount
      && if_present (holds_channels run) gate.allowed_channels
      && if_present (holds_domains run) gate.allowed_domains
      && if_present (holds_new_action run) gate.forbid_new_action
      && if_present (holds_unknown_risk run) gate.forbid_unknown_risk

  -- Does the run keep to the condition: nothing that it blocks happens, or what it orders does?
  abbrev pub keeps : Run → Condition g.Float → Bool
  keeps run (blocks m) = never (interaction_matches g host_from_url base_keys m) run
  keeps run (orders before after) =
      any
        (λ (b : Interaction).
          interaction_matches g host_from_url base_keys before b
          && any
              (λ (a : Interaction).
                interaction_matches g host_from_url base_keys after a
                && ltb_ℤ b.sequence a.sequence)
              run.interactions)
        run.interactions

  if_missing : (b p : Bool) → if_some (if b then some true else none) p ≡ (not b || p)
  if_missing true p = refl
  if_missing false p = refl

  never-cong :
      (p q : Interaction → Bool) (run : Run)
      → ((i : Interaction) → p i ≡ q i)
      → never p run ≡ never q run
  never-cong p q run h = ap not (any-cong p q run.interactions h)

  matches-selects :
      (s : GateSelector) (i : Interaction)
      → interaction_matches g host_from_url base_keys (match_from_selector s) i ≡ selects s i
  unfolding match_from_selector
  matches-selects s i =
      matches-selection s none none "" [] "" [] none none i
      ∙ rw (no_value (channel_of i), no_value (observed_domain g host_from_url i))
          (only_selector (selects s i))

  pub block_condition-holds :
      (run : Run) (b : BlockIf g.Float) → keeps run (block_condition b) ≡ holds_block run b
  unfolding block_condition match_from_selector
  block_condition-holds run b = never-cong _ _ run λ i.
      matches-selection b.selector b.amount_gt (if b.approval_missing then some true else none)
        b.channel [] b.domain [] b.new_action b.unknown_risk i
      ∙ rw
          (
            no_value (channel_of i),
            no_value (observed_domain g host_from_url i),
            if_missing b.approval_missing (is_unapproved i),
          )
          (without_lists (selects b.selector i) (if_some b.unknown_risk (is_unknown_risk i))
            (above b.amount_gt i) (not b.approval_missing || is_unapproved i)
            (if_set b.channel (str_eq (channel_of i) b.channel))
            (if_set b.domain (str_eq (observed_domain g host_from_url i) b.domain))
            (if_some b.new_action (is_new_action i)))

  pub order_condition-holds :
      (run : Run) (o : RequireOrder) → keeps run (order_condition o) ≡ holds_order run o
  unfolding order_condition
  order_condition-holds run o = any-cong _ _ run.interactions λ b. rw (matches-selects o.before b) (
      ap (◌&&◌ (selects o.before b))
        (any-cong _ _ run.interactions λ a. rw (matches-selects o.after a) refl))

  pub approval_condition-holds :
      (run : Run) (a : RequireApproval g.Float)
      → keeps run (approval_condition a) ≡ holds_approval run a
  unfolding approval_condition match_from_selector
  approval_condition-holds run a = never-cong _ _ run λ i.
      matches-selection a.selector a.amount_gt (some true) "" [] "" [] none none i
      ∙ rw (no_value (channel_of i), no_value (observed_domain g host_from_url i))
          (only_approval (selects a.selector i) (above a.amount_gt i) (is_unapproved i))

  pub amount_condition-holds :
      (run : Run) (m : MaxAmount g.Float) → keeps run (amount_condition m) ≡ holds_amount run m
  unfolding amount_condition match_from_selector
  amount_condition-holds run m = never-cong _ _ run λ i.
      matches-selection m.selector m.amount none "" [] "" [] none none i
      ∙ rw (no_value (channel_of i), no_value (observed_domain g host_from_url i))
          (only_amount (selects m.selector i) (above m.amount i))

  pub channels_condition-holds :
      (run : Run) (a : AllowedValues) → keeps run (channels_condition a) ≡ holds_channels run a
  unfolding channels_condition match_from_selector
  channels_condition-holds run a = never-cong _ _ run λ i.
      matches-selection a.selector none none "" a.values "" [] none none i
      ∙ rw (no_value (observed_domain g host_from_url i))
          (only_channels (selects a.selector i) (not (has_channel_in a.values i)))

  pub domains_condition-holds :
      (run : Run) (a : AllowedValues) → keeps run (domains_condition a) ≡ holds_domains run a
  unfolding domains_condition match_from_selector
  domains_condition-holds run a = never-cong _ _ run λ i.
      matches-selection a.selector none none "" [] "" a.values none none i
      ∙ rw (no_value (channel_of i))
          (only_domains (selects a.selector i) (not (has_domain_in a.values i)))

  pub new_action_condition-holds :
      (run : Run) (s : GateSelector) → keeps run (new_action_condition s) ≡ holds_new_action run s
  unfolding new_action_condition match_from_selector
  new_action_condition-holds run s = never-cong _ _ run λ i.
      matches-selection s none none "" [] "" [] (some true) none i
      ∙ rw (no_value (channel_of i), no_value (observed_domain g host_from_url i))
          (only_new (selects s i) (is_new_action i))

  pub unknown_risk_condition-holds :
      (run : Run) (s : GateSelector)
      → keeps run (unknown_risk_condition s) ≡ holds_unknown_risk run s
  unfolding unknown_risk_condition match_from_selector
  unknown_risk_condition-holds run s = never-cong _ _ run λ i.
      matches-selection s none none "" [] "" [] none (some true) i
      ∙ rw (no_value (channel_of i), no_value (observed_domain g host_from_url i))
          (only_unknown (selects s i) (is_unknown_risk i))
