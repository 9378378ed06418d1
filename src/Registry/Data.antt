-- ===== src/Registry/Data.antt =====
-- The records of packages/domain/src/registry.ts.
use reverb_impact.Base.{ℕ, String, Bool, Option, List}

pub data ServiceAliasKind : Type 0 where
  base_token host path_prefix package_coordinate : ServiceAliasKind
  schema_id broker_namespace database_instance : ServiceAliasKind

pub data RepositoryAction : Type 0 where
  source_read derived_retain evidence_consume identity_disclose : RepositoryAction
  contract_disclose location_disclose producer_check_write : RepositoryAction
  consumer_write evaluation_use research_use : RepositoryAction

pub data Provenance : Type 0 where
  operator provider imported : Provenance

pub data Decision : Type 0 where
  allow deny : Decision

pub record RepositoryMembership : Type 0 where
  pub repository_id : String
  pub alias : String
  pub root_path : Option String
  pub default_branch : String
  pub collections : List String
  pub selected : Bool
  pub consent_revision : String

-- The two bounds that `ServiceIdentity` and `ServiceAlias` share.
pub record Validity : Type 0 where
  pub valid_from : ℕ
  pub valid_until : Option ℕ

pub record ServiceIdentity : Type 0 where
  pub id : String
  pub repository_id : String
  pub root_path : String
  pub environment : String
  pub owner : String
  pub validity : Validity

pub record ServiceAlias : Type 0 where
  pub service_id : String
  pub kind : ServiceAliasKind
  pub value : String
  pub alias_path_prefix : Option String
  pub environment : String
  pub provenance : Provenance
  pub source : String
  pub owner : String
  pub validity : Validity

pub record ConsentGrant : Type 0 where
  pub repository_id : String
  pub action : RepositoryAction
  pub grantee : String
  pub decision : Decision
  pub actor : String
  pub reason : String
  pub revision : String

pub record WorkspaceRevision : Type 0 where
  pub workspace_id : String
  pub revision : String
  pub config_revision : String
  pub sequence : ℕ
  pub created_at : ℕ
  pub created_by : String
  pub source : String
  pub reason : String
  pub config_hash : String

-- `schema` and `schemaVersion` are texts of their own, since a snapshot may come from outside. The
-- `extensions` are left out.
pub record RegistrySnapshot : Type 0 where
  pub schema : String
  pub schema_version : String
  pub revision : WorkspaceRevision
  pub repositories : List RepositoryMembership
  pub services : List ServiceIdentity
  pub aliases : List ServiceAlias
  pub consents : List ConsentGrant

pub record AliasResolutionRequest : Type 0 where
  pub kind : ServiceAliasKind
  pub value : String
  pub environment : String
  pub as_of : ℕ
  pub path : Option String

pub data AliasResolution : Type 0 where
  not_found : AliasResolution
  ambiguous : (candidate_service_ids : List String) → (registry_revision : String) → AliasResolution
  resolved :
      ServiceIdentity
      → ServiceAlias
      → (registry_revision : String) → (rewritten_path : Option String) → AliasResolution
