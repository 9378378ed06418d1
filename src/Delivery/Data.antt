-- ===== src/Delivery/Data.antt =====
-- The records of packages/domain/src/finding.ts and packages/domain/src/delivery.ts that a check is planned
-- from.
use reverb_impact.Base.{ℕ, String, Bool, Option, List, Dict}
use reverb_impact.Graph.{
  IndexedContractChange, EvidenceEdge, ConsumerGenerationSelection, Activation,
}
use reverb_impact.Promotion.Data.{Score, PromotionVersionStamp, PromotionRecord}
use reverb_impact.Delivery.Disclosure.{FindingDisclosureProjection}

pub data FindingState : Type 0 where
  candidate abstained preview_state : FindingState

pub data EdgeClaim : Type 0 where
  candidate_edge abstained_edge : EdgeClaim

pub data ImpactClaim : Type 0 where
  breaking potentially_breaking compatible unknown_impact : ImpactClaim

pub data ActionClaim : Type 0 where
  coordinate review no_action : ActionClaim

pub record FindingClaims : Type 0 where
  pub edge : EdgeClaim
  pub impact : ImpactClaim
  pub action : ActionClaim

pub data FindingDelivery : Type 0 where
  preview_only : FindingDelivery
  suppressed : (suppression_rule_id : String) → FindingDelivery

pub record Remedy : Type 0 where
  pub kind : String
  pub remedy_text : String

pub record FindingOccurrence : Type 0 where
  pub id : String
  pub analysis_id : String
  pub fingerprint : String
  pub state : FindingState
  pub change : IndexedContractChange
  pub edge : EvidenceEdge
  pub consumer : ConsumerGenerationSelection
  pub claims : FindingClaims
  pub coverage_dependencies : List String
  pub remedy : Remedy
  pub delivery : FindingDelivery

-- The reason of an abstention is its text.
pub record FindingAbstention : Type 0 where
  pub fingerprint : Option String
  pub consumer_repository_id : String
  pub reason : String
  pub safe_message : String

pub data AnalysisResultState : Type 0 where
  complete partial superseded not_analysed : AnalysisResultState

-- Of an `AnalysisResult`, what a check is planned from.
pub record AnalysisResult : Type 0 where
  pub workspace_id : String
  pub producer_repository_id : String
  pub head_sha : String
  pub policy_revision : String
  pub state : AnalysisResultState
  pub current : Bool
  pub consumers : List ConsumerGenerationSelection
  pub findings : List FindingOccurrence
  pub abstentions : List FindingAbstention

pub record ProducerChangedLocation : Type 0 where
  pub fingerprint : String
  pub path : String
  pub start_line : ℕ
  pub end_line : ℕ
  pub exact_changed_lines : List ℕ

pub record CurrentDeliveryStratum : Type 0 where
  pub stratum_key : String
  pub versions : PromotionVersionStamp

pub record ProviderAnnotation : Type 0 where
  pub path : String
  pub start_line : ℕ
  pub end_line : ℕ
  pub message : String
  pub finding_fingerprint : String

pub record StaticFindingProjection : Type 0 where
  pub fingerprint : String
  pub summary : String
  pub impact : ImpactClaim
  pub activation : Activation
  pub evidence_stratum : String
  pub decided_at : ℕ
  pub actionable_wilson_lower_95 : Score
  pub edge_wilson_lower_95 : Score
  pub remedy : Remedy
  pub disclosed : Dict String

pub data CheckConclusion : Type 0 where
  success neutral skipped : CheckConclusion

pub record CheckCoverage : Type 0 where
  pub analysis_state : AnalysisResultState
  pub current_consumers : ℕ
  pub permission_limited_consumers : ℕ
  pub failed_consumers : ℕ
  pub abstentions : ℕ

-- The `projectionHash` is left out.
pub record GitHubCheckProjection : Type 0 where
  pub check_key : String
  pub workspace_id : String
  pub repository_id : String
  pub pull_request_number : ℕ
  pub head_sha : String
  pub policy_revision : String
  pub conclusion : CheckConclusion
  pub advisory : Bool
  pub never_blocking : Bool
  pub title : String
  pub summary : String
  pub coverage : CheckCoverage
  pub findings : List StaticFindingProjection
  pub finding_total : ℕ
  pub truncated_finding_count : ℕ
  pub annotations : List ProviderAnnotation
  pub truncated_annotation_count : ℕ
  pub limitations : List String
  pub detail_url : String

pub data DeliveryMode : Type 0 where
  shadow write no_write : DeliveryMode

pub data DeliveryReason : Type 0 where
  shadow_mode advisory_enabled repository_out_of_scope superseded_head : DeliveryReason
  write_unauthorized write_kill_switch no_promoted_strata : DeliveryReason

pub record CheckDeliveryPlan : Type 0 where
  pub mode : DeliveryMode
  pub reason : DeliveryReason
  pub projection : GitHubCheckProjection

-- A limit that is left out is `none`; a negative one, which the code takes as 0, is 0.
pub record PlanInput : Type 0 where
  pub analysis : AnalysisResult
  pub pull_request_number : ℕ
  pub current_head_sha : String
  pub now : ℕ
  pub hard_deadline_at : ℕ
  pub repository_in_scope : Bool
  pub write_authorized : Bool
  pub advisory_on : Bool
  pub kill_switch : Bool
  pub enabled_strata : List String
  pub current_strata : List CurrentDeliveryStratum
  pub promotions : List PromotionRecord
  pub disclosures : Dict FindingDisclosureProjection
  pub producer_changed_locations : List ProducerChangedLocation
  pub detail_url : String
  pub maximum_findings : Option ℕ
  pub maximum_annotations : Option ℕ
