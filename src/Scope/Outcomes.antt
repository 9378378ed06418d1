-- ===== src/Scope/Outcomes.antt =====
-- What one turn of each loop of packages/domain/src/analysis-scope.ts and
-- packages/application/src/analysis-scope.ts pushes, by the state of the repository.
use reverb_impact.Base.{
  String, Bool, true, false, not, ◌||◌, Option, none, some, includes, ◌==◌, ◌≡◌, refl, ◌∙◌, ◌⊎◌,
  inl, inr, arith, eq_iff, lookup, Bool-cases, Option-cases,
}
use reverb_impact.Canonical.{Platform}
use reverb_impact.Ports.{port_success, port_failure, PortFailure, PortResult-cases}
use reverb_impact.Registry.Data.{RepositoryMembership}
use reverb_impact.Scope.Data.{
  AnalysisScopeGapReason, AnalysisScopeGap, unknown_repository, repository_not_selected,
  consent_denied, authorization_denied, authorization_unavailable, AnalysisScopeCandidate,
  AuthorizationDecision, AuthorizedScopeRepository, PrepareInput, ResolveInput,
}
use reverb_impact.Scope.Preparing.{
  memberships_of, applicable_consent_denied, consider, explicitly_requested,
}
use reverb_impact.Scope.Resolving.{Authorization, authorize, decision_hash}
use reverb_impact.Scope.Boundary.{
  membership_of, IsDenied, IsEligible, lookup-memberships_of, applicable-IsDenied,
}

abbrev pub gap : String → AnalysisScopeGapReason → AnalysisScopeGap
gap id reason = record { repository_id = id; reason = reason }

-- Why the registry refuses a repository: it does not list it, has not selected it, or forbids its use.
pub data IsRefused (input : PrepareInput) (id : String) : AnalysisScopeGapReason → Type 0 where
  unlisted : membership_of input.registry id ≡ none → IsRefused input id unknown_repository
  unselected :
      (m : RepositoryMembership)
      → membership_of input.registry id ≡ some m
      → m.selected ≡ false
      → IsRefused input id repository_not_selected
  forbidden :
      (m : RepositoryMembership)
      → membership_of input.registry id ≡ some m
      → m.selected ≡ true
      → IsDenied input.registry id input.consent_grantee
      → IsRefused input id consent_denied

-- The port allows the subject to use the repository, by a decision of the registry's revision.
abbrev pub IsAllowed : ResolveInput → AuthorizationDecision → Type 0
IsAllowed input d = (d.allowed ≡ true) × (d.revision ≡ input.registry.revision.revision)

-- Why a repository is not authorised: the port fails, or its decision does not allow the use.
pub data IsUnauthorized (port : Authorization) (input : ResolveInput) (id : String)
    : AnalysisScopeGapReason → Type 0 where
  unavailable :
      (e : PortFailure)
      → port input.subject id ≡ port_failure e
      → IsUnauthorized port input id authorization_unavailable
  disallowed :
      (d : AuthorizationDecision)
      → port input.subject id ≡ port_success d
      → ¬ IsAllowed input d
      → IsUnauthorized port input id authorization_denied

abbrev pub candidate_of :
    Platform → PrepareInput → String → RepositoryMembership → AnalysisScopeCandidate
candidate_of p input id m = record {
  membership = m;
  producer = id == input.producer_repository_id;
  requested = includes (explicitly_requested p input.consumer_scope) id;
}

abbrev pub repository_of :
    Platform
    → ResolveInput
    → AnalysisScopeCandidate
    → AuthorizationDecision
    → AuthorizedScopeRepository
repository_of p input c d = record {
  repository_id = c.membership.repository_id;
  producer = c.producer;
  requested = c.requested;
  consent_revision = c.membership.consent_revision;
  authorization_revision = d.revision;
  authorization_decision_hash = decision_hash p input.subject c.membership.repository_id d;
}

module _ (p : Platform) (input : PrepareInput) (id : String) where
  found :
      {o : Option RepositoryMembership}
      → membership_of input.registry id ≡ o
      → lookup id (memberships_of input.registry) ≡ o
  found e = lookup-memberships_of input.registry id ∙ e

  pub consider-IsRefused :
      {r : AnalysisScopeGapReason} → IsRefused input id r → consider p input id ≡ inl (gap id r)
  unfolding consider
  consider-IsRefused (unlisted e) = rw (found e, consider) refl
  consider-IsRefused (unselected m e no_sel) = rw (found e, no_sel, consider) refl
  consider-IsRefused (forbidden m e sel denied) =
      rw
        (
          found e,
          sel,
          (applicable-IsDenied input.registry id input.consent_grantee).1 denied,
          consider,
        )
        refl

  pub consider-IsEligible :
      (m : RepositoryMembership)
      → IsEligible input id m
      → consider p input id ≡ inr (candidate_of p input id m)
  unfolding consider
  consider-IsEligible m (e, sel, free) =
      let denied = applicable-IsDenied input.registry id input.consent_grantee in
      elim (Bool-cases (applicable_consent_denied input.registry id input.consent_grantee)) [
        | inl yes_denied ↦ absurd (free (denied.0 yes_denied))
        | inr not_denied ↦ rw (found e, sel, not_denied, consider) refl
      ]

  -- The registry refuses a repository for a reason, or it is eligible.
  pub IsEligible-or_IsRefused :
      ((r : AnalysisScopeGapReason) × IsRefused input id r)
      ⊎ ((m : RepositoryMembership) × IsEligible input id m)
  IsEligible-or_IsRefused = elim (Option-cases (membership_of input.registry id)) [
    | inl e ↦ inl (unknown_repository, unlisted e)
    | inr (m, e) ↦ elim (Bool-cases m.selected) [
      | inr no_sel ↦ inl (repository_not_selected, unselected m e no_sel)
      | inl sel ↦
          let denied = applicable-IsDenied input.registry id input.consent_grantee in
          elim (Bool-cases (applicable_consent_denied input.registry id input.consent_grantee)) [
            | inl yes_denied ↦ inl (consent_denied, forbidden m e sel (denied.0 yes_denied))
            | inr not_denied ↦ inr (m, (e, sel, λ d. let q = denied.1 d in absurd (cc)))
          ]
    ]
  ]

module _ (p : Platform) (port : Authorization) (input : ResolveInput)
    (c : AnalysisScopeCandidate) where
  abbrev barred : AuthorizationDecision → Bool
  barred d = not d.allowed || not (d.revision == input.registry.revision.revision)

  barred-IsAllowed : (d : AuthorizationDecision) → barred d ≡ false → IsAllowed input d
  barred-IsAllowed d h =
      (ground arith, (eq_iff d.revision input.registry.revision.revision).0 (ground arith))

  IsAllowed-barred : (d : AuthorizationDecision) → IsAllowed input d → barred d ≡ false
  IsAllowed-barred d (allowed, same) =
      let e = (eq_iff d.revision input.registry.revision.revision).1 same in rw (allowed, e) refl

  pub authorize-IsUnauthorized :
      {r : AnalysisScopeGapReason}
      → IsUnauthorized port input c.membership.repository_id r
      → authorize p port input c ≡ inl (gap c.membership.repository_id r)
  unfolding authorize
  authorize-IsUnauthorized (unavailable e answer) = rw (answer, authorize) refl
  authorize-IsUnauthorized (disallowed d answer not_allowed) = elim (Bool-cases (barred d)) [
    | inl no_use ↦ rw (answer, no_use, authorize) refl
    | inr free ↦ absurd (not_allowed (barred-IsAllowed d free))
  ]

  pub authorize-IsAllowed :
      (d : AuthorizationDecision)
      → port input.subject c.membership.repository_id ≡ port_success d
      → IsAllowed input d
      → authorize p port input c ≡ inr (repository_of p input c d)
  unfolding authorize
  authorize-IsAllowed d answer allowed = rw (answer, IsAllowed-barred d allowed, authorize) refl

  pub IsAllowed-or_IsUnauthorized :
      ((r : AnalysisScopeGapReason) × IsUnauthorized port input c.membership.repository_id r)
      ⊎ ((d : AuthorizationDecision) × (port input.subject c.membership.repository_id
            ≡ port_success d)
          × IsAllowed input d)
  IsAllowed-or_IsUnauthorized =
      elim (PortResult-cases (port input.subject c.membership.repository_id)) [
        | inr (e, answer) ↦ inl (authorization_unavailable, unavailable e answer)
        | inl (d, answer) ↦ elim (Bool-cases (barred d)) [
          | inr free ↦ inr (d, answer, barred-IsAllowed d free)
          | inl no_use ↦ inl (
            authorization_denied,
            disallowed d answer (λ a. let q = IsAllowed-barred d a in absurd (cc)),
          )
        ]
      ]
