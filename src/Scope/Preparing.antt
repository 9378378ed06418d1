-- ===== src/Scope/Preparing.antt =====
-- `prepareAnalysisScope` of packages/domain/src/analysis-scope.ts.
use reverb_impact.Base.{
  String, Bool, true, false, not, ◌&&◌, ◌||◌, Option, none, some, List, [], ◌∷◌, ◌++◌, map, filter,
  any, includes, ◌==◌, ok, ◌>>◌, ◌⊎◌, inl, inr, Dict, lookup, sorted_unique, pushed_left,
  pushed_right, from_entries, if◌then◌else◌,
}
use reverb_impact.Canonical.{Platform}
use reverb_impact.Errors.{Checked, invariant, DomainErrorCode}
use reverb_impact.Registry.Data.{
  RepositoryAction, evidence_consume, Decision, allow, deny, ConsentGrant, RepositoryMembership,
  RegistrySnapshot,
}
use reverb_impact.Scope.Data.{
  AnalysisScopeMode, legacy, allowlist, AnalysisScopeGap, unknown_repository,
  repository_not_selected, consent_denied, AnalysisScopeCandidate, PrepareInput,
  PreparedAnalysisScope,
}

-- `memberships`
abbrev pub memberships_of : RegistrySnapshot → Dict RepositoryMembership
memberships_of registry = from_entries [] (map (λ m. (m.repository_id, m)) registry.repositories)

-- `normalizedIds`
abbrev pub normalized_ids : Platform → List String → List String
normalized_ids p ids = sorted_unique p.collate_le ids

abbrev pub is_evidence_consume : RepositoryAction → Bool
is_evidence_consume evidence_consume = true
is_evidence_consume _ = false

abbrev pub is_deny : Decision → Bool
is_deny deny = true
is_deny allow = false

-- The test of a grant in `applicableConsentDenied`.
abbrev pub denies : String → String → ConsentGrant → Bool
denies repository_id grantee grant =
    grant.repository_id == repository_id
    && is_evidence_consume grant.action
    && (grant.grantee == grantee || grant.grantee == "*")
    && is_deny grant.decision

-- `applicableConsentDenied`
unfoldable pub applicable_consent_denied : RegistrySnapshot → String → String → Bool
applicable_consent_denied registry repository_id grantee =
    any (denies repository_id grantee) registry.consents

-- `membership !== undefined && membership.selected`
abbrev pub is_selected : Option RepositoryMembership → Bool
is_selected none = false
is_selected (some membership) = membership.selected

-- `mode`
abbrev pub mode_of : Option (List String) → AnalysisScopeMode
mode_of none = legacy
mode_of (some ids) = allowlist

-- `explicitlyRequested`
abbrev pub explicitly_requested : Platform → Option (List String) → List String
explicitly_requested p none = normalized_ids p []
explicitly_requested p (some ids) = normalized_ids p ids

-- `requestedRepositoryIds`
abbrev pub requested_ids : Platform → PrepareInput → List String
requested_ids p input = elim (mode_of input.consumer_scope) [
  | legacy ↦
      normalized_ids p
        (map (λ m. m.repository_id) (filter (λ m. m.selected) input.registry.repositories))
  | allowlist ↦ explicitly_requested p input.consumer_scope
]

-- `considered`
abbrev pub considered : Platform → PrepareInput → List String
considered p input = normalized_ids p (requested_ids p input ++ input.producer_repository_id ∷ [])

-- One turn of the loop over `considered`: the gap or the candidate that it pushes.
unfoldable pub consider :
    Platform → PrepareInput → String → AnalysisScopeGap ⊎ AnalysisScopeCandidate
consider p input repository_id = elim (lookup repository_id (memberships_of input.registry)) [
  | none ↦ inl (record { repository_id = repository_id; reason = unknown_repository })
  | some membership ↦
      if not membership.selected
      then inl (record { repository_id = repository_id; reason = repository_not_selected })
      else if applicable_consent_denied input.registry repository_id input.consent_grantee
      then inl (record { repository_id = repository_id; reason = consent_denied })
      else inr (record {
        membership = membership;
        producer = repository_id == input.producer_repository_id;
        requested = includes (explicitly_requested p input.consumer_scope) repository_id;
      })
]

-- The scope that is prepared once the producer is accepted.
unfoldable pub build_prepared : Platform → PrepareInput → PreparedAnalysisScope
build_prepared p input = record {
  workspace_id = input.registry.revision.workspace_id;
  registry_revision = input.registry.revision.revision;
  producer_repository_id = input.producer_repository_id;
  mode = mode_of input.consumer_scope;
  requested_repository_ids = requested_ids p input;
  candidates = pushed_right (consider p input) (considered p input);
  gaps = pushed_left (consider p input) (considered p input);
}

-- `prepareAnalysisScope`
unfoldable pub prepare_analysis_scope : Platform → PrepareInput → Checked PreparedAnalysisScope
unfolding build_prepared
prepare_analysis_scope p input =
    invariant (is_selected (lookup input.producer_repository_id (memberships_of input.registry)))
      DomainErrorCode.unknown_repository
      "The producer must be a selected member of the immutable registry revision."
    >> ok (build_prepared p input)
