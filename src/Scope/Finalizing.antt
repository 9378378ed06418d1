-- ===== src/Scope/Finalizing.antt =====
-- `finalizeAnalysisScope`, `assertScopedRepositoryRead` and `isRepositoryInAnalysisScope` of
-- packages/domain/src/analysis-scope.ts.
use reverb_impact.Base.{
  String, Bool, true, not, ◌&&◌, List, [], ◌∷◌, ◌++◌, map, any, all, includes, ◌==◌, ◌<>◌, ok, ◌>>◌,
  sort_by,
}
use reverb_impact.Canonical.{Platform, Json, text, boolean, obj, arr, hash_canonical}
use reverb_impact.Errors.{Checked, invariant, invalid_schema, DomainErrorCode}
use reverb_impact.Scope.Data.{
  AnalysisScopeMode, legacy, allowlist, AnalysisScopeGapReason, unknown_repository,
  repository_not_selected, consent_denied, authorization_denied, authorization_unavailable,
  AnalysisScopeGap, PreparedAnalysisScope, AuthorizedScopeRepository, ScopedReadCapability,
  ResolvedAnalysisScope,
}

abbrev pub mode_name : AnalysisScopeMode → String
mode_name legacy = "legacy"
mode_name allowlist = "allowlist"

abbrev pub reason_name : AnalysisScopeGapReason → String
reason_name unknown_repository = "unknown_repository"
reason_name repository_not_selected = "repository_not_selected"
reason_name consent_denied = "consent_denied"
reason_name authorization_denied = "authorization_denied"
reason_name authorization_unavailable = "authorization_unavailable"

abbrev repository_json : AuthorizedScopeRepository → Json
repository_json r = obj (
    ("repositoryId", text r.repository_id)
    ∷ ("producer", boolean r.producer)
    ∷ ("requested", boolean r.requested)
    ∷ ("consentRevision", text r.consent_revision)
    ∷ ("authorizationRevision", text r.authorization_revision)
    ∷ ("authorizationDecisionHash", text r.authorization_decision_hash)
    ∷ [])

abbrev gap_json : AnalysisScopeGap → Json
gap_json g =
    obj (("repositoryId", text g.repository_id) ∷ ("reason", text (reason_name g.reason)) ∷ [])

-- The comparators of the two lists.
abbrev pub repository_order :
    Platform → AuthorizedScopeRepository → AuthorizedScopeRepository → Bool
repository_order p left right = p.collate_le left.repository_id right.repository_id

abbrev pub gap_order : Platform → AnalysisScopeGap → AnalysisScopeGap → Bool
gap_order p left right =
    p.collate_le (left.repository_id <> "\0" <> reason_name left.reason)
      (right.repository_id <> "\0" <> reason_name right.reason)

-- No repository has the id of the one before it.
abbrev pub adjacent_differ : List AuthorizedScopeRepository → Bool
adjacent_differ [] = true
adjacent_differ (r ∷ []) = true
adjacent_differ (r ∷ s ∷ rs) = not (s.repository_id == r.repository_id) && adjacent_differ (s ∷ rs)

-- `canonical`, hashed
abbrev scope_hash_of :
    Platform
    → PreparedAnalysisScope
    → List AuthorizedScopeRepository
    → List AnalysisScopeGap
    → String
scope_hash_of p prepared repositories gaps = hash_canonical p (
    obj (
      ("schema", text "reverb.analysis-scope")
      ∷ ("schemaVersion", text "2.0")
      ∷ ("workspaceId", text prepared.workspace_id)
      ∷ ("registryRevision", text prepared.registry_revision)
      ∷ ("producerRepositoryId", text prepared.producer_repository_id)
      ∷ ("mode", text (mode_name prepared.mode))
      ∷ ("requestedRepositoryIds", arr text prepared.requested_repository_ids)
      ∷ ("repositories", arr repository_json repositories)
      ∷ ("gaps", arr gap_json gaps)
      ∷ []))

-- The scope of sorted lists that pass the tests.
unfoldable pub build_resolved :
    Platform
    → PreparedAnalysisScope
    → List AuthorizedScopeRepository
    → List AnalysisScopeGap
    → ResolvedAnalysisScope
build_resolved p prepared repositories gaps =
    let scope_hash = scope_hash_of p prepared repositories gaps in
    record {
      provenance = record {
        schema = "reverb.analysis-scope";
        schema_version = "2.0";
        workspace_id = prepared.workspace_id;
        registry_revision = prepared.registry_revision;
        producer_repository_id = prepared.producer_repository_id;
        mode = prepared.mode;
        requested_repository_ids = prepared.requested_repository_ids;
        repositories = repositories;
        gaps = gaps;
        scope_hash = scope_hash;
      };
      capability = record {
        workspace_id = prepared.workspace_id;
        registry_revision = prepared.registry_revision;
        scope_hash = scope_hash;
        repository_ids = map (λ r. r.repository_id) repositories;
      };
    }

-- The four tests of `finalizeAnalysisScope` on the sorted repositories.
unfoldable pub check_authorized :
    PreparedAnalysisScope → List AuthorizedScopeRepository → Checked (Unit {0})
check_authorized prepared repositories = do
  invariant
      (any (λ r. r.repository_id == prepared.producer_repository_id && r.producer) repositories)
      DomainErrorCode.authorization_denied
      "The producer must be authorized before scoped analysis can read evidence."
  invariant (adjacent_differ repositories) invalid_schema
      "Authorized scope repositories must be unique."
  invariant
      (all
        (λ r. includes (map (λ c. c.membership.repository_id) prepared.candidates) r.repository_id)
        repositories)
      DomainErrorCode.authorization_denied
      "Authorized scope contains a repository outside the prepared membership and consent boundary."
  invariant (all (λ r. r.authorization_revision == prepared.registry_revision) repositories)
      DomainErrorCode.authorization_denied
      "Authorized scope decisions must match the immutable registry revision."

-- `finalizeAnalysisScope`; `gaps` is empty where the caller gives none.
unfoldable pub finalize_analysis_scope :
    Platform
    → PreparedAnalysisScope
    → List AuthorizedScopeRepository
    → List AnalysisScopeGap
    → Checked ResolvedAnalysisScope
unfolding check_authorized build_resolved
finalize_analysis_scope p prepared given_repositories given_gaps =
    let repositories = sort_by (repository_order p) given_repositories in
    let gaps = sort_by (gap_order p) (prepared.gaps ++ given_gaps) in
    check_authorized prepared repositories >> ok (build_resolved p prepared repositories gaps)

-- `isRepositoryInAnalysisScope`
abbrev pub is_repository_in_analysis_scope : ScopedReadCapability → String → Bool
is_repository_in_analysis_scope capability repository_id =
    includes capability.repository_ids repository_id

-- `assertScopedRepositoryRead`
unfoldable pub assert_scoped_repository_read :
    ScopedReadCapability → String → String → Checked (Unit {0})
assert_scoped_repository_read capability workspace_id repository_id =
    invariant
      (capability.workspace_id == workspace_id && includes capability.repository_ids repository_id)
      DomainErrorCode.authorization_denied "Repository read is outside the resolved analysis scope."
