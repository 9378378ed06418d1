-- ===== src/Scope/Data.antt =====
-- The records of packages/domain/src/analysis-scope.ts and of the authorization port. The brand of a
-- capability, which TypeScript keeps apart, is left out.
use reverb_impact.Base.{String, Bool, Option, List}
use reverb_impact.Registry.Data.{RepositoryMembership, RegistrySnapshot}

pub data AnalysisScopeMode : Type 0 where
  legacy allowlist : AnalysisScopeMode

pub data AnalysisScopeGapReason : Type 0 where
  unknown_repository repository_not_selected consent_denied : AnalysisScopeGapReason
  authorization_denied authorization_unavailable : AnalysisScopeGapReason

pub record AnalysisScopeGap : Type 0 where
  pub repository_id : String
  pub reason : AnalysisScopeGapReason

pub record AnalysisScopeCandidate : Type 0 where
  pub membership : RepositoryMembership
  pub producer : Bool
  pub requested : Bool

-- The input of `prepareAnalysisScope`; `consumer_scope` holds the ids of a consumer scope.
pub record PrepareInput : Type 0 where
  pub registry : RegistrySnapshot
  pub producer_repository_id : String
  pub consumer_scope : Option (List String)
  pub consent_grantee : String

pub record PreparedAnalysisScope : Type 0 where
  pub workspace_id : String
  pub registry_revision : String
  pub producer_repository_id : String
  pub mode : AnalysisScopeMode
  pub requested_repository_ids : List String
  pub candidates : List AnalysisScopeCandidate
  pub gaps : List AnalysisScopeGap

pub record AuthorizedScopeRepository : Type 0 where
  pub repository_id : String
  pub producer : Bool
  pub requested : Bool
  pub consent_revision : String
  pub authorization_revision : String
  pub authorization_decision_hash : String

pub record AnalysisScopeProvenance : Type 0 where
  pub schema : String
  pub schema_version : String
  pub workspace_id : String
  pub registry_revision : String
  pub producer_repository_id : String
  pub mode : AnalysisScopeMode
  pub requested_repository_ids : List String
  pub repositories : List AuthorizedScopeRepository
  pub gaps : List AnalysisScopeGap
  pub scope_hash : String

pub record ScopedReadCapability : Type 0 where
  pub workspace_id : String
  pub registry_revision : String
  pub scope_hash : String
  pub repository_ids : List String

pub record ResolvedAnalysisScope : Type 0 where
  pub provenance : AnalysisScopeProvenance
  pub capability : ScopedReadCapability

pub data SubjectKind : Type 0 where
  user service workspace : SubjectKind

pub record Subject : Type 0 where
  pub kind : SubjectKind
  pub id : String

pub record AuthorizationDecision : Type 0 where
  pub allowed : Bool
  pub reason : String
  pub revision : String

pub record ResolveInput : Type 0 where
  pub workspace_id : String
  pub registry : RegistrySnapshot
  pub producer_repository_id : String
  pub consumer_scope : Option (List String)
  pub subject : Subject
