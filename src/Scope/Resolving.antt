-- ===== src/Scope/Resolving.antt =====
-- `ResolveAnalysisScope` of packages/application/src/analysis-scope.ts. The authorization port is a
-- function of the repository: each repository is asked for at most once.
use reverb_impact.Base.{
  String, Bool, true, false, Option, none, some, List, ◌&&◌, ◌≡◌, refl, Bool-cases, Result-cases,
  not, ◌||◌, [], ◌∷◌, ◌==◌, ok, err, ◌>>=◌, ◌⊎◌, inl, inr, if◌then◌else◌, pushed_left, pushed_right,
}
use reverb_impact.Canonical.{Platform, text, boolean, obj, hash_canonical}
use reverb_impact.Errors.{Checked, code_text}
use reverb_impact.Ports.{PortResult, port_success, port_failure, PortFailureKind}
use reverb_impact.Scope.Data.{
  SubjectKind, user, service, workspace, Subject, AuthorizationDecision, ResolveInput,
  AnalysisScopeGap, authorization_denied, authorization_unavailable, AnalysisScopeCandidate,
  PreparedAnalysisScope, AuthorizedScopeRepository, ResolvedAnalysisScope, PrepareInput,
}
use reverb_impact.Scope.Preparing.{prepare_analysis_scope}
use reverb_impact.Scope.Finalizing.{finalize_analysis_scope}

-- authorizeRepositoryUse(subject, 'evidence.consume', repositoryId), of a port that answers. A port whose
-- promise may be rejected is a `Port` below.
abbrev pub Authorization : Type 0
Authorization = Subject → String → PortResult AuthorizationDecision

abbrev subject_kind_name : SubjectKind → String
subject_kind_name user = "user"
subject_kind_name service = "service"
subject_kind_name workspace = "workspace"

abbrev pub decision_hash : Platform → Subject → String → AuthorizationDecision → String
decision_hash p subject repository_id decision = hash_canonical p (
    obj (
      (
        "subject",
        obj (("kind", text (subject_kind_name subject.kind)) ∷ ("id", text subject.id) ∷ []),
      )
      ∷ ("action", text "evidence.consume")
      ∷ ("repositoryId", text repository_id)
      ∷ (
        "decision",
        obj (
            ("allowed", boolean decision.allowed)
            ∷ ("reason", text decision.reason)
            ∷ ("revision", text decision.revision)
            ∷ []),
      )
      ∷ []))

-- One turn of the loop over the candidates: the gap or the repository that it pushes.
unfoldable pub authorize :
    Platform
    → Authorization
    → ResolveInput
    → AnalysisScopeCandidate
    → AnalysisScopeGap ⊎ AuthorizedScopeRepository
authorize p port input candidate =
    let repository_id = candidate.membership.repository_id in
    elim (port input.subject repository_id) [
      | port_failure e ↦
          inl (record { repository_id = repository_id; reason = authorization_unavailable })
      | port_success decision ↦
          if not decision.allowed || not (decision.revision == input.registry.revision.revision)
          then inl (record { repository_id = repository_id; reason = authorization_denied })
          else inr (record {
            repository_id = repository_id;
            producer = candidate.producer;
            requested = candidate.requested;
            consent_revision = candidate.membership.consent_revision;
            authorization_revision = decision.revision;
            authorization_decision_hash = decision_hash p input.subject repository_id decision;
          })
    ]

-- What `execute` gives to `prepareAnalysisScope`.
abbrev pub prepare_input : ResolveInput → PrepareInput
prepare_input input = record {
  registry = input.registry;
  producer_repository_id = input.producer_repository_id;
  consumer_scope = input.consumer_scope;
  consent_grantee = input.subject.id;
}

-- The `try` around `finalizeAnalysisScope`.
abbrev pub finalized : Checked ResolvedAnalysisScope → PortResult ResolvedAnalysisScope
finalized (ok resolved) = port_success resolved
finalized (err e) = port_failure (record {
  kind = PortFailureKind.authorization_denied;
  code = code_text e.code;
  safe_message = "Producer authorization is required for scoped analysis.";
  retryable = false;
})

-- `execute` after its preparation.
unfoldable pub authorize_prepared :
    Platform
    → Authorization
    → ResolveInput
    → PreparedAnalysisScope
    → PortResult ResolvedAnalysisScope
authorize_prepared p port input prepared = finalized (
    finalize_analysis_scope p prepared (pushed_right (authorize p port input) prepared.candidates)
      (pushed_left (authorize p port input) prepared.candidates))

-- `ResolveAnalysisScope.execute`; what `prepareAnalysisScope` throws leaves it.
unfoldable pub resolve_analysis_scope :
    Platform → Authorization → ResolveInput → Checked (PortResult ResolvedAnalysisScope)
unfolding authorize_prepared
resolve_analysis_scope p port input =
    if not (input.registry.revision.workspace_id == input.workspace_id)
      || not (input.registry.schema_version == "1.0")
    then ok (
        port_failure (record {
          kind = PortFailureKind.domain;
          code = "registry_scope_mismatch";
          safe_message =
              "Analysis scope requires the requested immutable workspace registry revision.";
          retryable = false;
        }))
    else (prepare_analysis_scope p (prepare_input input) >>= λ prepared.
        ok (authorize_prepared p port input prepared))

-- The authorization port as it may be; `none` is a rejected promise.
abbrev pub Port : Type 0
Port = Subject → String → Option (PortResult AuthorizationDecision)

abbrev is_answered : Option (PortResult AuthorizationDecision) → Bool
is_answered none = false
is_answered (some answer) = true

abbrev no_answer : PortResult AuthorizationDecision
no_answer = port_failure (record {
  kind = PortFailureKind.infrastructure;
  code = "";
  safe_message = "";
  retryable = false;
})

-- What the port answers; `no_answer` is not read.
abbrev answering : Port → Authorization
answering port subject repository_id = elim (port subject repository_id) [
  | none ↦ no_answer
  | some answer ↦ answer
]

-- The loop gets an answer for each candidate.
unfoldable all_answered : Port → Subject → List AnalysisScopeCandidate → Bool
all_answered port subject [] = true
all_answered port subject (candidate ∷ candidates) =
    is_answered (port subject candidate.membership.repository_id)
    && all_answered port subject candidates

-- `ResolveAnalysisScope.execute`; `none` is a rejection of the port's promise, which leaves it.
unfoldable pub execute :
    Platform → Port → ResolveInput → Option (Checked (PortResult ResolvedAnalysisScope))
unfolding authorize_prepared resolve_analysis_scope all_answered
execute p port input =
    if not (input.registry.revision.workspace_id == input.workspace_id)
      || not (input.registry.schema_version == "1.0")
    then some (resolve_analysis_scope p (answering port) input)
    else elim (prepare_analysis_scope p (prepare_input input)) [
      | err e ↦ some (err e)
      | ok prepared ↦
          if all_answered port input.subject prepared.candidates
          then some (ok (authorize_prepared p (answering port) input prepared))
          else none
    ]

all_answered-true :
    (port : Authorization) (subject : Subject) (candidates : List AnalysisScopeCandidate)
    → all_answered (λ s r. some (port s r)) subject candidates ≡ true
unfolding all_answered
all_answered-true port subject [] = refl
all_answered-true port subject (candidate ∷ candidates) = all_answered-true port subject candidates

-- Where the port answers every question, `execute` is the resolution by its answers.
pub execute-resolve :
    (p : Platform) (port : Authorization) (input : ResolveInput)
    → execute p (λ s r. some (port s r)) input ≡ some (resolve_analysis_scope p port input)
unfolding execute resolve_analysis_scope
execute-resolve p port input =
    elim (Bool-cases (
      not (input.registry.revision.workspace_id == input.workspace_id)
      || not (input.registry.schema_version == "1.0"))) [
        | inl mismatch ↦ rw (mismatch, execute, resolve_analysis_scope) refl
        | inr fits ↦ elim (Result-cases (prepare_analysis_scope p (prepare_input input))) [
          | inl (prepared, made) ↦
              let answered = all_answered-true port input.subject prepared.candidates in
              rw (fits, made, answered) refl
          | inr (e, failed) ↦ rw (fits, failed) refl
        ]
      ]
