-- ===== src/Graph/Data.antt =====
-- The types of packages/domain/src/graph.ts.
use reverb_impact.Base.{ℕ, String, Bool, Option, List}
use reverb_impact.Contracts.{ContractKind}
use reverb_impact.Registry.Data.{ServiceAliasKind}

pub data EvidenceBasis : Type 0 where
  exact registry_resolved heuristic declared_context behavioural_context : EvidenceBasis

-- The bases that `contextBasis` allows.
pub data ContextBasis : Type 0 where
  heuristic_context declared behavioural : ContextBasis

pub data Activation : Type 0 where
  current_runtime on_upgrade on_deploy unknown_activation : Activation

pub data Compatibility : Type 0 where
  breaking potentially_breaking compatible unknown_compatibility : Compatibility

pub data CoverageState : Type 0 where
  complete partial failed unsupported : CoverageState

pub record EvidenceRange : Type 0 where
  pub start_line : ℕ
  pub start_column : ℕ
  pub end_line : ℕ
  pub end_column : ℕ

-- The adapter's marks that a definition and a reference share.
pub record AdapterMarks : Type 0 where
  pub adapter_id : String
  pub adapter_version : String
  pub identity_version : ℕ
  pub config_revision : String
  pub evidence_stratum : String

pub record IndexedContractDefinition : Type 0 where
  pub workspace_id : String
  pub repository_id : String
  pub generation_id : String
  pub commit_sha : String
  pub service_id : Option String
  pub contract_kind : ContractKind
  pub canonical_key : String
  pub path : String
  pub range : Option EvidenceRange
  pub content_hash : String
  pub shape_hash : String
  pub marks : AdapterMarks

pub record RegistryReferenceTarget : Type 0 where
  pub kind : ServiceAliasKind
  pub value : String
  pub environment : String
  pub path : Option String

pub record IndexedContractReference : Type 0 where
  pub workspace_id : String
  pub repository_id : String
  pub generation_id : String
  pub commit_sha : String
  pub consumer_service_id : Option String
  pub contract_kind : ContractKind
  pub canonical_key : Option String
  pub constrained_contract_key : Option String
  pub unresolved_pattern : Option String
  pub registry_target : Option RegistryReferenceTarget
  pub stable_reference_id : String
  pub path : String
  pub range : Option EvidenceRange
  pub content_hash : String
  pub marks : AdapterMarks
  pub activation : Activation
  pub context_basis : Option ContextBasis

pub record IndexedContractChange : Type 0 where
  pub workspace_id : String
  pub producer_repository_id : String
  pub base_generation_id : String
  pub head_generation_id : Option String
  pub base_sha : String
  pub head_sha : String
  pub contract_kind : ContractKind
  pub canonical_key : String
  pub change_kind : String
  pub compatibility : Compatibility
  pub activation : Activation
  pub adapter_id : String
  pub adapter_version : String
  pub identity_version : ℕ
  pub coverage_state : CoverageState
  pub coverage_dependencies : List String
  pub remedy_kind : String
  pub remedy_text : String

pub record EvidencePathStep : Type 0 where
  pub id : String
  pub required : Bool
  pub basis : EvidenceBasis
  pub source_key : String

pub record EvidencePath : Type 0 where
  pub id : String
  pub steps : List EvidencePathStep

pub data InvalidationReason : Type 0 where
  complete_reference_absence registry_revision_changed membership_removed : InvalidationReason

pub record EvidenceEdge : Type 0 where
  pub id : String
  pub workspace_id : String
  pub producer_repository_id : String
  pub consumer_repository_id : String
  pub producer_generation_id : String
  pub consumer_generation_id : String
  pub definition_key : String
  pub stable_reference_id : String
  pub contract_kind : ContractKind
  pub basis : EvidenceBasis
  pub primary_path : EvidencePath
  pub stratum_key : String
  pub registry_revision : String
  pub first_observed_at : ℕ
  pub last_observed_at : ℕ
  pub invalidated_at : Option ℕ
  pub invalidation_reason : Option InvalidationReason
  pub definition : IndexedContractDefinition
  pub reference : IndexedContractReference

-- The states of a selection that has a generation and a time; `stale` and `current` carry the same fields.
pub data Selected : Type 0 where
  current stale : Selected

pub data Unavailable : Type 0 where
  unauthorized failed_selection not_indexed : Unavailable

pub data ConsumerGenerationSelection : Type 0 where
  selected :
      Selected
      → (repository_id generation_id commit_sha : String) → (selected_at freshness_age_ms : ℕ)
      → CoverageState
      → ConsumerGenerationSelection
  unavailable : Unavailable → (repository_id reason : String) → ConsumerGenerationSelection
  unsupported_selection :
      (repository_id generation_id commit_sha : String)
      → (selected_at : Option ℕ) → (reason : String) → ConsumerGenerationSelection

pub data DiagnosticCode : Type 0 where
  registry_ambiguity registry_contradiction unresolved_reference : DiagnosticCode

pub record JoinDiagnostic : Type 0 where
  pub code : DiagnosticCode
  pub consumer_repository_id : String
  pub stable_reference_id : String
  pub safe_message : String

-- The `outputHash` is left out.
pub record JoinResult : Type 0 where
  pub edges : List EvidenceEdge
  pub diagnostics : List JoinDiagnostic
  pub touched_keys : List String

-- `claim` and `display`, the same in every candidate, are left out.
pub record TransitiveImpactCandidate : Type 0 where
  pub fingerprint : String
  pub workspace_id : String
  pub producer_repository_id : String
  pub downstream_repository_id : String
  pub definition_key : String
  pub depth : ℕ
  pub repository_path : List String
  pub evidence_edge_ids : List String
