-- ===== src/Suppression.antt =====
-- Suppression rules: packages/domain/src/suppression.ts. Instants are milliseconds of the epoch.
mod Data
pub mod Lifecycle
pub mod Matching
pub mod Creation
pub mod Audit
mod Examples
unfoldable pub use Data.*
use Prim.Native.String
use reverb_impact.Base.{
  ℕ, String, Bool, true, false, not, ◌&&◌, ◌||◌, Option, none, some, List, [], ◌∷◌, map, filter,
  last, length, ok, err, ◌>>=◌, ◌>>◌, ◌==◌, ltb, leb, nat_eq, opt_eq, includes, if◌then◌else◌, Dict,
  lookup, sort_by,
}
use reverb_impact.Contracts.{ContractKind, kind_name, same_contract_kind}
use reverb_impact.Canonical.{Platform}

-- `matcher.scope`
abbrev pub scope_of : SuppressionMatcher → SuppressionScope
scope_of (by_occurrence o) = occurrence
scope_of (by_stable_finding f) = stable_finding
scope_of (by_contract_consumer k c r) = contract_consumer
scope_of (by_repository_pair_kind p c k) = repository_pair_kind
scope_of (by_adapter_rule a r) = adapter_rule
scope_of (by_workspace_rule r) = workspace_rule

-- `REQUIRED_ROLE`
abbrev pub required_role : SuppressionScope → ReviewRole
required_role occurrence = reviewer
required_role stable_finding = reviewer
required_role contract_consumer = repository_owner
required_role repository_pair_kind = repository_owner
required_role adapter_rule = workspace_admin
required_role workspace_rule = workspace_admin

-- `ROLE_RANK`
abbrev pub role_rank : ReviewRole → ℕ
role_rank reviewer = 1
role_rank repository_owner = 2
role_rank workspace_admin = 3

-- `suppressionRoleAuthorized`
unfoldable pub suppression_role_authorized : SuppressionScope → ReviewRole → Bool
suppression_role_authorized scope role = leb (role_rank (required_role scope)) (role_rank role)

-- `matcherMatches`
unfoldable pub matcher_matches : SuppressionMatcher → SuppressionCandidate → Bool
matcher_matches (by_occurrence occurrence_id) c = occurrence_id == c.occurrence_id
matcher_matches (by_stable_finding fingerprint) c = fingerprint == c.fingerprint
matcher_matches (by_contract_consumer kind key consumer) c =
    same_contract_kind kind c.contract_kind
    && key == c.canonical_contract_key
    && consumer == c.consumer_repository_id
matcher_matches (by_repository_pair_kind producer consumer kind) c =
    producer == c.producer_repository_id
    && consumer == c.consumer_repository_id
    && same_contract_kind kind c.contract_kind
matcher_matches (by_adapter_rule adapter rule) c =
    adapter == c.adapter_id && includes c.adapter_rule_ids rule
matcher_matches (by_workspace_rule rule) c = includes c.adapter_rule_ids rule

-- The test of an invalidation predicate: whether what it recorded still holds.
unfoldable pub holds : InvalidationPredicate → SuppressionVersions → Bool
holds (producer_code repository generation) v =
    opt_eq (lookup repository v.producer_generations) (some generation)
holds (consumer_code repository generation) v =
    opt_eq (lookup repository v.consumer_generations) (some generation)
holds (consumer_reference reference hash) v =
    opt_eq (lookup reference v.reference_hashes) (some hash)
holds (contract_shape kind key hash) v =
    opt_eq (lookup (String.◌++◌ (String.◌++◌ (kind_name kind) "\0") key) v.contract_shape_hashes)
      (some hash)
holds (identity_version adapter version) v = elim (lookup adapter v.identity_versions) [
  | none ↦ false
  | some n ↦ nat_eq n version
]
holds (adapter_version adapter version) v =
    opt_eq (lookup adapter v.adapter_versions) (some version)
holds (evidence_stratum stratum) v = includes v.evidence_strata stratum
holds (policy_revision revision) v = v.policy_revision == revision
holds (registry_revision revision) v = v.registry_revision == revision

abbrev pub change_reason : InvalidationPredicate → String
change_reason (producer_code r g) = "producer_code_changed"
change_reason (consumer_code r g) = "consumer_code_changed"
change_reason (consumer_reference r h) = "consumer_reference_changed"
change_reason (contract_shape k c h) = "contract_shape_changed"
change_reason (identity_version a n) = "identity_version_changed"
change_reason (adapter_version a n) = "adapter_version_changed"
change_reason (evidence_stratum s) = "evidence_stratum_changed"
change_reason (policy_revision r) = "policy_revision_changed"
change_reason (registry_revision r) = "registry_revision_changed"

-- `invalidationReason`
unfoldable pub invalidation_reason : InvalidationPredicate → SuppressionVersions → Option String
invalidation_reason predicate versions =
    if holds predicate versions then none else some (change_reason predicate)

-- The loop over the predicates.
unfoldable pub first_invalidation : List InvalidationPredicate → SuppressionVersions → Option String
first_invalidation [] v = none
first_invalidation (p ∷ ps) v =
    let rest = first_invalidation ps v in
    elim (invalidation_reason p v) [ some reason ↦ some reason | none ↦ rest ]

-- `left.occurredAt.localeCompare(right.occurredAt)`: canonical instants hold digits and the same
-- punctuation at the same places.
abbrev pub event_order : SuppressionStateEvent → SuppressionStateEvent → Bool
event_order left right = leb left.occurred_at right.occurred_at

-- `latest`
unfoldable pub latest_event : String → List SuppressionStateEvent → Option SuppressionStateEvent
latest_event rule_id events =
    last (sort_by event_order (filter (λ e. e.suppression_rule_id == rule_id) events))

-- `latest?.state === 'revoked'`
abbrev pub is_revoked : StateChange → Bool
is_revoked revoked = true
is_revoked renewed = false

abbrev or_else : Option ℕ → ℕ → ℕ
or_else none n = n
or_else (some m) n = m

-- `latest?.nextExpiresAt ?? rule.expiresAt`
abbrev pub effective_expiry : Option SuppressionStateEvent → SuppressionRule → ℕ
effective_expiry none rule = rule.expires_at
effective_expiry (some e) rule = or_else e.next_expires_at rule.expires_at

-- `latest?.nextReviewAt ?? rule.reviewAt`
abbrev pub effective_review : Option SuppressionStateEvent → SuppressionRule → ℕ
effective_review none rule = rule.review_at
effective_review (some e) rule = or_else e.next_review_at rule.review_at

abbrev resolution : ResolutionState → String → SuppressionResolution
resolution state reason = record { state = state; reason = some reason }

-- `resolveSuppression` after the test for a revocation.
unfoldable pub resolve_unrevoked :
    Option SuppressionStateEvent → SuppressionRule → SuppressionVersions → SuppressionResolution
unfolding first_invalidation invalidation_reason
resolve_unrevoked latest rule v =
    if leb (effective_expiry latest rule) v.now
    then resolution expired "fallback_expiry_reached"
    else elim (first_invalidation rule.invalidation_predicates v) [
      | some reason ↦ resolution invalidated reason
      | none ↦
          if leb (effective_review latest rule) v.now
          then resolution review_due "scheduled_review_due"
          else record { state = active; reason = none }
    ]

-- `resolveSuppression`
unfoldable pub resolve_suppression :
    SuppressionRule → SuppressionVersions → List SuppressionStateEvent → SuppressionResolution
unfolding resolve_unrevoked
resolve_suppression rule v events = elim (latest_event rule.id events) [
  | none ↦ resolve_unrevoked none rule v
  | some e ↦
      if is_revoked e.state
      then resolution revoked_state e.reason
      else resolve_unrevoked (some e) rule v
]

abbrev pub is_active : ResolutionState → Bool
is_active active = true
is_active _ = false

-- The loop of `matchSuppression`, over the sorted rules.
unfoldable pub match_from :
    SuppressionCandidate
    → SuppressionVersions
    → List SuppressionStateEvent
    → List SuppressionRule
    → SuppressionDecision
match_from c v events [] = not_suppressed
match_from c v events (rule ∷ rules) =
    let rest = match_from c v events rules in
    if not (rule.workspace_id == c.workspace_id)
    then rest
    else if not (matcher_matches rule.matcher c)
    then rest
    else if is_active (resolve_suppression rule v events).state
    then suppressed rule.id (resolve_suppression rule v events)
    else rest

-- `left.id.localeCompare(right.id) <= 0`
abbrev pub rule_order : Platform → SuppressionRule → SuppressionRule → Bool
rule_order p left right = p.collate_le left.id right.id

-- `matchSuppression`
unfoldable pub match_suppression :
    Platform
    → SuppressionCandidate
    → SuppressionVersions
    → List SuppressionRule
    → List SuppressionStateEvent
    → SuppressionDecision
unfolding match_from
match_suppression p c v rules events = match_from c v events (sort_by (rule_order p) rules)

-- `applySuppressions`
unfoldable pub apply_suppressions :
    Platform
    → List SuppressionCandidate
    → SuppressionVersions
    → List SuppressionRule
    → List SuppressionStateEvent
    → List (SuppressionCandidate × SuppressionDecision)
apply_suppressions p candidates v rules events =
    map (λ c. (c, match_suppression p c v rules events)) candidates
