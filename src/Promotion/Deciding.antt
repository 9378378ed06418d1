-- ===== src/Promotion/Deciding.antt =====
-- `decidePromotion` of packages/domain/src/policy.ts. The hash of the record, which covers fractions, is an
-- argument; an identity made of a hash passes the test of its form.
use reverb_impact.Base.{
  String, Bool, true, false, not, ◌&&◌, Option, none, some, List, [], ◌∷◌, ◌==◌, ◌<>◌, ltb,
  if◌then◌else◌, ok, ◌>>◌,
}
use reverb_impact.Canonical.{Platform, Json, text, number, obj, arr, optional, hash_canonical}
use reverb_impact.Errors.{
  Checked, invariant, promotion_requires_simulation, unrecorded_promotion_policy,
}
use reverb_impact.Promotion.Data.{
  count, less, PromotionVersionStamp, PromotionGate, PromotionState, unmeasured, preview, promoted,
  demoted, PromotionDecision, promote, remain_preview, demote, reset_unmeasured, PromotionEvidence,
  PromotionRecord, GateChoice, default_gate, alternative_gate, DecideInput,
}
use mathlib.Core.Option

-- `DEFAULT_ADVISORY_PROMOTION_GATE`. The fractions are the doubles 0.9 and 0.95: the denominators are
-- 2^53 and 2^52.
abbrev pub default_advisory_promotion_gate : PromotionGate
default_advisory_promotion_gate = record {
  revision = "default-advisory-v1-wilson";
  minimum_independent_labels = count 100;
  minimum_actionable_wilson_lower_95 = record {
    numerator = 8106479329266893;
    denominator = 9007199254740992;
  };
  minimum_edge_wilson_lower_95 = record {
    numerator = 4278419646001971;
    denominator = 4503599627370496;
  };
  minimum_false_omission_audits = count 100;
  maximum_confidentiality_defects = count 0;
  maximum_removal_coverage_defects = count 0;
  maximum_alerted_pull_requests_per_thousand = count 50;
  maximum_p95_latency_ms = count 600000;
  require_every_delivery_remedy = true;
  alternative_decision_reference = none;
}

-- `gate`
abbrev pub gate_of : GateChoice → PromotionGate
gate_of default_gate = default_advisory_promotion_gate
gate_of (alternative_gate gate) = gate

abbrev versions_json : PromotionVersionStamp → Json
versions_json v = obj (
    ("producerExtractorId", text v.producer_extractor_id)
    ∷ ("producerExtractorVersion", text v.producer_extractor_version)
    ∷ ("consumerExtractorId", text v.consumer_extractor_id)
    ∷ ("consumerExtractorVersion", text v.consumer_extractor_version)
    ∷ ("identityVersion", number v.identity_version)
    ∷ ("joinStrategy", text v.join_strategy)
    ∷ ("evidenceComposition", arr text v.evidence_composition)
    ∷ ("policyRevision", text v.policy_revision)
    ∷ [])

-- `promotionVersionsEqual`
unfoldable pub promotion_versions_equal :
    Platform → PromotionVersionStamp → PromotionVersionStamp → Bool
promotion_versions_equal p left right =
    hash_canonical p (versions_json left) == hash_canonical p (versions_json right)

-- `if (test) failures.push(failure)`, of each test in turn
abbrev pub failed : List (Bool × String) → List String
failed [] = []
failed ((test, failure) ∷ tests) = let rest = failed tests in if test then failure ∷ rest else rest

-- The tests of `gateFailures`, with the failure of each.
abbrev pub gate_tests : PromotionEvidence → PromotionGate → List (Bool × String)
gate_tests evidence gate =
    let metrics = evidence.metrics in
    (
      less metrics.actionable_total gate.minimum_independent_labels,
      "insufficient_independent_labels",
    )
    ∷ (
      less metrics.actionable_wilson_lower_95 gate.minimum_actionable_wilson_lower_95,
      "actionable_precision_lower_bound_below_gate",
    )
    ∷ (
      less metrics.edge_wilson_lower_95 gate.minimum_edge_wilson_lower_95,
      "edge_precision_lower_bound_below_gate",
    )
    ∷ (
      less metrics.false_omission_total gate.minimum_false_omission_audits,
      "insufficient_false_omission_audit",
    )
    ∷ (
      less gate.maximum_confidentiality_defects evidence.confidentiality_defects,
      "unresolved_confidentiality_defect",
    )
    ∷ (
      less gate.maximum_removal_coverage_defects evidence.removal_coverage_defects,
      "unsafe_removal_coverage_defect",
    )
    ∷ (
      less gate.maximum_alerted_pull_requests_per_thousand
          metrics.alerted_pull_requests_per_thousand,
      "alert_budget_exceeded",
    )
    ∷ (less gate.maximum_p95_latency_ms metrics.latency_p95, "latency_budget_exceeded")
    ∷ (
      gate.require_every_delivery_remedy && less (count 0) evidence.deliveries_without_remedy,
      "delivery_without_remedy",
    )
    ∷ []

-- `gateFailures`
unfoldable pub gate_failures : PromotionEvidence → PromotionGate → List String
gate_failures evidence gate = failed (gate_tests evidence gate)

abbrev pub is_undefined : Option String → Bool
is_undefined none = true
is_undefined (some value) = false

-- `versionsChanged`
abbrev pub versions_changed : Platform → DecideInput → Bool
versions_changed p input = elim input.previous [
  | none ↦ false
  | some previous ↦
      not (promotion_versions_equal p previous.evidence.versions input.evidence.versions)
      && is_undefined input.compatibility_evaluation_hash
]

-- `previousState`
abbrev pub previous_state_of : Option PromotionRecord → PromotionState
previous_state_of none = unmeasured
previous_state_of (some previous) = previous.state

-- `failures`
abbrev pub failures_of : Platform → DecideInput → List String
failures_of p input =
    if versions_changed p input
    then "incompatible_version_change" ∷ []
    else gate_failures input.evidence (gate_of input.gate)

-- `state`, with `versionsChanged`, `failures` and `previousState`
abbrev pub next_state : Bool → List String → PromotionState → PromotionState
next_state true failures previous = unmeasured
next_state false [] previous = promoted
next_state false (f ∷ fs) promoted = demoted
next_state false (f ∷ fs) _ = preview

-- `decision`, with `versionsChanged` and `state`
abbrev pub decision_of : Bool → PromotionState → PromotionDecision
decision_of true state = reset_unmeasured
decision_of false promoted = promote
decision_of false demoted = demote
decision_of false _ = remain_preview

abbrev record_id : Platform → DecideInput → String
record_id p input =
    "pro_"
    <> hash_canonical p (
        obj (
          ("stratumKey", text input.evidence.stratum_key)
          ∷ optional "previousId" (Option.map (λ r. r.id) input.previous) (
              ("evidenceHash", text input.evidence.evaluation_report_hash)
              ∷ ("simulatorResultHash", text input.evidence.simulator_result_hash)
              ∷ ("gateRevision", text (gate_of input.gate).revision)
              ∷ ("decidedAt", text (p.iso_text input.decided_at))
              ∷ [])))

-- The record of an input that passes the tests.
unfoldable pub build_record : Platform → DecideInput → String → PromotionRecord
build_record p input output_hash =
    let changed = versions_changed p input in
    let failures = failures_of p input in
    let previous_state = previous_state_of input.previous in
    let state = next_state changed failures previous_state in
    record {
      id = record_id p input;
      stratum_key = input.evidence.stratum_key;
      state = state;
      previous_state = previous_state;
      decision = decision_of changed state;
      reasons = failures;
      gate = gate_of input.gate;
      evidence = input.evidence;
      decided_at = input.decided_at;
      decided_by = input.decided_by;
      output_hash = output_hash;
    }

-- The test of the second invariant.
abbrev pub is_recorded_gate : Platform → GateChoice → Bool
is_recorded_gate p default_gate = true
is_recorded_gate p (alternative_gate gate) = elim gate.alternative_decision_reference [
  | none ↦ false
  | some reference ↦ ltb 0 (p.utf16_length (p.trim reference))
]

-- `decidePromotion`
unfoldable pub decide_promotion : Platform → DecideInput → String → Checked PromotionRecord
unfolding build_record
decide_promotion p input output_hash = do
  invariant (ltb 0 (p.utf16_length input.evidence.simulator_result_hash))
      promotion_requires_simulation
      "No policy may be promoted without a frozen policy simulation result."
  invariant (is_recorded_gate p input.gate) unrecorded_promotion_policy
      "An alternative promotion gate requires a versioned decision reference."
  ok (build_record p input output_hash)
