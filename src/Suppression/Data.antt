-- ===== src/Suppression/Data.antt =====
-- The types of packages/domain/src/suppression.ts, with the kinds, the scopes and the roles of
-- packages/domain/src/vocabularies.ts.
use reverb_impact.Base.{ℕ, String, Option, List, Dict}
use reverb_impact.Contracts.{ContractKind}

pub data ReviewRole : Type 0 where
  reviewer repository_owner workspace_admin : ReviewRole

pub data SuppressionScope : Type 0 where
  occurrence stable_finding contract_consumer : SuppressionScope
  repository_pair_kind adapter_rule workspace_rule : SuppressionScope

pub data SuppressionMatcher : Type 0 where
  by_occurrence : (occurrence_id : String) → SuppressionMatcher
  by_stable_finding : (fingerprint : String) → SuppressionMatcher
  by_contract_consumer :
      ContractKind → (canonical_contract_key consumer_repository_id : String) → SuppressionMatcher
  by_repository_pair_kind :
      (producer_repository_id consumer_repository_id : String) → ContractKind → SuppressionMatcher
  by_adapter_rule : (adapter_id rule_id : String) → SuppressionMatcher
  by_workspace_rule : (rule_id : String) → SuppressionMatcher

pub data InvalidationPredicate : Type 0 where
  producer_code : (repository_id generation_id : String) → InvalidationPredicate
  consumer_code : (repository_id generation_id : String) → InvalidationPredicate
  consumer_reference : (stable_reference_id content_hash : String) → InvalidationPredicate
  contract_shape :
      ContractKind → (canonical_contract_key shape_hash : String) → InvalidationPredicate
  identity_version : (adapter_id : String) → (version : ℕ) → InvalidationPredicate
  adapter_version : (adapter_id version : String) → InvalidationPredicate
  evidence_stratum : (stratum_key : String) → InvalidationPredicate
  policy_revision : (revision : String) → InvalidationPredicate
  registry_revision : (revision : String) → InvalidationPredicate

pub record SuppressionOwner : Type 0 where
  pub actor_id : String
  pub role : ReviewRole
  pub authorization_revision : String

-- The fields that the caller of `createSuppressionRule` gives.
pub record SuppressionInput : Type 0 where
  pub workspace_id : String
  pub matcher : SuppressionMatcher
  pub owner : SuppressionOwner
  pub justification : String
  pub created_at : ℕ
  pub review_at : ℕ
  pub expires_at : ℕ
  pub invalidation_predicates : List InvalidationPredicate

-- The `outputHash` is left out, and so are `schema`, `schemaVersion` and `initialState`, which are the
-- same in every rule.
pub record SuppressionRule : Type 0 where
  pub id : String
  pub input : SuppressionInput
  pub open input use *
  pub justification_hash : String

pub data StateChange : Type 0 where
  revoked renewed : StateChange

pub record SuppressionStateEvent : Type 0 where
  pub id : String
  pub workspace_id : String
  pub suppression_rule_id : String
  pub occurred_at : ℕ
  pub actor_id : String
  pub state : StateChange
  pub reason : String
  pub next_review_at : Option ℕ
  pub next_expires_at : Option ℕ

pub record SuppressionCandidate : Type 0 where
  pub workspace_id : String
  pub occurrence_id : String
  pub fingerprint : String
  pub producer_repository_id : String
  pub consumer_repository_id : String
  pub contract_kind : ContractKind
  pub canonical_contract_key : String
  pub adapter_id : String
  pub adapter_rule_ids : List String

pub record SuppressionVersions : Type 0 where
  pub now : ℕ
  pub producer_generations : Dict String
  pub consumer_generations : Dict String
  pub reference_hashes : Dict String
  pub contract_shape_hashes : Dict String
  pub identity_versions : Dict ℕ
  pub adapter_versions : Dict String
  pub evidence_strata : List String
  pub policy_revision : String
  pub registry_revision : String

pub data ResolutionState : Type 0 where
  active review_due expired invalidated revoked_state : ResolutionState

pub record SuppressionResolution : Type 0 where
  pub state : ResolutionState
  pub reason : Option String

-- `{ suppressed: true, ruleId, resolution }` or `{ suppressed: false }`.
pub data SuppressionDecision : Type 0 where
  suppressed : (rule_id : String) → SuppressionResolution → SuppressionDecision
  not_suppressed : SuppressionDecision
