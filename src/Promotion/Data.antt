-- ===== src/Promotion/Data.antt =====
-- The records of packages/domain/src/policy.ts. A score is a finite double that is not negative, as
-- the fraction that it is; negative and other numbers are left out. Of the metrics, those that a gate reads.
use reverb_impact.Base.{ℕ, ◌*◌, String, Bool, Option, List, ltb}

pub record Score : Type 0 where
  pub numerator : ℕ
  pub denominator : ℕ

-- `left < right`
unfoldable pub less : Score → Score → Bool
less left right = ltb (left.numerator * right.denominator) (right.numerator * left.denominator)

abbrev pub count : ℕ → Score
count n = record { numerator = n; denominator = 1 }

pub record EvaluationMetrics : Type 0 where
  pub actionable_total : Score
  pub actionable_wilson_lower_95 : Score
  pub edge_wilson_lower_95 : Score
  pub false_omission_total : Score
  pub alerted_pull_requests_per_thousand : Score
  pub latency_p95 : Score

pub record PromotionVersionStamp : Type 0 where
  pub producer_extractor_id : String
  pub producer_extractor_version : String
  pub consumer_extractor_id : String
  pub consumer_extractor_version : String
  pub identity_version : ℕ
  pub join_strategy : String
  pub evidence_composition : List String
  pub policy_revision : String

pub record PromotionGate : Type 0 where
  pub revision : String
  pub minimum_independent_labels : Score
  pub minimum_actionable_wilson_lower_95 : Score
  pub minimum_edge_wilson_lower_95 : Score
  pub minimum_false_omission_audits : Score
  pub maximum_confidentiality_defects : Score
  pub maximum_removal_coverage_defects : Score
  pub maximum_alerted_pull_requests_per_thousand : Score
  pub maximum_p95_latency_ms : Score
  pub require_every_delivery_remedy : Bool
  pub alternative_decision_reference : Option String

pub data PromotionState : Type 0 where
  unmeasured preview promoted demoted : PromotionState

pub data PromotionDecision : Type 0 where
  promote remain_preview demote reset_unmeasured : PromotionDecision

pub record PromotionEvidence : Type 0 where
  pub stratum_key : String
  pub corpus_revision : String
  pub evaluation_report_hash : String
  pub simulator_result_hash : String
  pub metrics : EvaluationMetrics
  pub confidentiality_defects : Score
  pub removal_coverage_defects : Score
  pub deliveries_without_remedy : Score
  pub versions : PromotionVersionStamp
  pub window_started_at : ℕ
  pub window_ended_at : ℕ

pub record PromotionRecord : Type 0 where
  pub id : String
  pub stratum_key : String
  pub state : PromotionState
  pub previous_state : PromotionState
  pub decision : PromotionDecision
  pub reasons : List String
  pub gate : PromotionGate
  pub evidence : PromotionEvidence
  pub decided_at : ℕ
  pub decided_by : String
  pub output_hash : String

-- The gate of the input: left out or the default one itself, or another.
pub data GateChoice : Type 0 where
  default_gate : GateChoice
  alternative_gate : PromotionGate → GateChoice

pub record DecideInput : Type 0 where
  pub previous : Option PromotionRecord
  pub evidence : PromotionEvidence
  pub gate : GateChoice
  pub decided_at : ℕ
  pub decided_by : String
  pub compatibility_evaluation_hash : Option String
