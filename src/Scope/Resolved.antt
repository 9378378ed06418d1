-- ===== src/Scope/Resolved.antt =====
-- What `ResolveAnalysisScope.execute` answers: which repositories stand in the capability, which gaps
-- explain the others, and when it succeeds.
use reverb_impact.Base.{
  String, List, ◌++◌, ◌==◌, ◌≡◌, refl, sym, ◌∙◌, ap, subst, ◌⊎◌, inl, inr, Memᴰ, pushed_left,
  pushed_right, Memᴰ-pushed_right, Memᴰ-pushed_left, pushed_right-Memᴰ, pushed_left-Memᴰ,
}
use mathlib.Core.List.Memᴰ as Memᴰ
use reverb_impact.Canonical.{Platform}
use reverb_impact.Ports.{port_success}
use reverb_impact.Registry.Data.{RepositoryMembership}
use reverb_impact.Scope.Data.{
  AnalysisScopeGapReason, AnalysisScopeGap, AnalysisScopeCandidate, AuthorizationDecision,
  AuthorizedScopeRepository, ResolveInput,
}
use reverb_impact.Scope.Preparing.{considered, consider}
use reverb_impact.Scope.Resolving.{Authorization, authorize, prepare_input}
use reverb_impact.Scope.Boundary.{
  IsConsidered, IsEligible, membership_of-id, considered-IsConsidered,
}
use reverb_impact.Scope.Outcomes.{
  gap, IsRefused, IsAllowed, IsUnauthorized, candidate_of, repository_of, consider-IsRefused,
  consider-IsEligible, IsEligible-or_IsRefused, authorize-IsUnauthorized, authorize-IsAllowed,
  IsAllowed-or_IsUnauthorized,
}

module _ (port : Authorization) (input : ResolveInput) (id : String) where
  -- The repository is considered and eligible, and the port allows its use at the registry's revision.
  abbrev pub IsInScope : Type 0
  IsInScope =
      IsConsidered (prepare_input input) id
      × (m : RepositoryMembership) × IsEligible (prepare_input input) id m
      × (d : AuthorizationDecision) × (port input.subject id ≡ port_success d)
      × IsAllowed input d

  -- The repository is considered, and the registry or the port gives the reason to leave it out.
  abbrev pub IsGap : AnalysisScopeGapReason → Type 0
  IsGap reason =
      IsConsidered (prepare_input input) id
      × (IsRefused (prepare_input input) id reason
          ⊎ ((m : RepositoryMembership) × IsEligible (prepare_input input) id m
              × IsUnauthorized port input id reason))

module _ (p : Platform) (port : Authorization) (input : ResolveInput) where
  abbrev pub candidates_of : List AnalysisScopeCandidate
  candidates_of =
      pushed_right (consider p (prepare_input input)) (considered p (prepare_input input))

  abbrev pub repositories_of : List AuthorizedScopeRepository
  repositories_of = pushed_right (authorize p port input) candidates_of

  abbrev pub gaps_of : List AnalysisScopeGap
  gaps_of =
      pushed_left (consider p (prepare_input input)) (considered p (prepare_input input))
      ++ pushed_left (authorize p port input) candidates_of

  pub candidates_of-IsEligible :
      {c : AnalysisScopeCandidate}
      → Memᴰ c candidates_of
      → (id : String) × IsConsidered (prepare_input input) id
        × (m : RepositoryMembership) × IsEligible (prepare_input input) id m
        × (c ≡ candidate_of p (prepare_input input) id m)
  candidates_of-IsEligible {c} m =
      let pi = prepare_input input in
      let (id, mem, turn) = Memᴰ-pushed_right (consider p pi) (considered p pi) m in
      elim (IsEligible-or_IsRefused p pi id) [
        | inl (r, refused) ↦ let q = consider-IsRefused p pi id refused in absurd (cc)
        | inr (m, eligible) ↦
            let q = consider-IsEligible p pi id m eligible in
            (id, (considered-IsConsidered p pi id).0 mem, m, eligible, cc)
      ]

  IsEligible-candidates_of :
      (id : String) (m : RepositoryMembership)
      → IsConsidered (prepare_input input) id
      → IsEligible (prepare_input input) id m
      → Memᴰ (candidate_of p (prepare_input input) id m) candidates_of
  IsEligible-candidates_of id m con eligible =
      let pi = prepare_input input in
      pushed_right-Memᴰ (consider p pi) (considered p pi) ((considered-IsConsidered p pi id).1 con)
        (consider-IsEligible p pi id m eligible)

  pub repositories_of-IsInScope :
      {r : AuthorizedScopeRepository}
      → Memᴰ r repositories_of
      → IsInScope port input r.repository_id
  repositories_of-IsInScope {r} mem =
      let pi = prepare_input input in
      let (c, mem', turn) = Memᴰ-pushed_right (authorize p port input) candidates_of mem in
      let (id, con, m, eligible, made) = candidates_of-IsEligible mem' in
      let (listed, own) = membership_of-id pi.registry id eligible.0 in
      let same : c.membership.repository_id ≡ id =
        ap (λ (c : AnalysisScopeCandidate). c.membership.repository_id) made ∙ own in
      elim (IsAllowed-or_IsUnauthorized p port input c) [
        | inl (reason, barred) ↦
            let q = authorize-IsUnauthorized p port input c barred in absurd (cc)
        | inr (d, answer, allowed) ↦
            let q = authorize-IsAllowed p port input c d answer allowed in
            let is : repository_of p input c d ≡ r = cc in
            let same_id : id ≡ r.repository_id =
              sym same ∙ ap (λ (r : AuthorizedScopeRepository). r.repository_id) is in
            subst (IsInScope port input) same_id
              (con, m, eligible, d, ap (port input.subject) (sym same) ∙ answer, allowed)
      ]

  pub IsInScope-repositories_of :
      (id : String)
      → IsInScope port input id
      → (r : AuthorizedScopeRepository) × Memᴰ r repositories_of
        × (r.repository_id ≡ id)
        × (r.producer ≡ (id == input.producer_repository_id))
  IsInScope-repositories_of id (con, m, eligible, d, answer, allowed) =
      let pi = prepare_input input in
      let c = candidate_of p pi id m in
      let (listed, own) = membership_of-id pi.registry id eligible.0 in
      (
        repository_of p input c d,
        pushed_right-Memᴰ (authorize p port input) candidates_of
            (IsEligible-candidates_of id m con eligible)
            (authorize-IsAllowed p port input c d (ap (port input.subject) own ∙ answer) allowed),
        own,
        refl,
      )

  pub gaps_of-IsGap :
      {g : AnalysisScopeGap} → Memᴰ g gaps_of → IsGap port input g.repository_id g.reason
  gaps_of-IsGap {g} mem =
      let pi = prepare_input input in
      elim (Memᴰ.append_cases (pushed_left (consider p pi) (considered p pi)) mem) [
        | inl early ↦
            let (id, mem', turn) = Memᴰ-pushed_left (consider p pi) (considered p pi) early in
            elim (IsEligible-or_IsRefused p pi id) [
              | inl (r, refused) ↦
                  let q = consider-IsRefused p pi id refused in
                  let made : gap id r ≡ g = cc in
                  subst (λ (g : AnalysisScopeGap). IsGap port input g.repository_id g.reason) made
                    ((considered-IsConsidered p pi id).0 mem', inl refused)
              | inr (m, eligible) ↦ let q = consider-IsEligible p pi id m eligible in absurd (cc)
            ]
        | inr late ↦
            let (c, mem', turn) = Memᴰ-pushed_left (authorize p port input) candidates_of late in
            let (id, con, m, eligible, made) = candidates_of-IsEligible mem' in
            let (listed, own) = membership_of-id pi.registry id eligible.0 in
            let same : c.membership.repository_id ≡ id =
              ap (λ (c : AnalysisScopeCandidate). c.membership.repository_id) made ∙ own in
            elim (IsAllowed-or_IsUnauthorized p port input c) [
              | inl (r, barred) ↦
                  let q = authorize-IsUnauthorized p port input c barred in
                  let is : gap c.membership.repository_id r ≡ g = cc in
                  subst (λ (g : AnalysisScopeGap). IsGap port input g.repository_id g.reason) is
                    (subst (λ i. IsGap port input i r) (sym same)
                      (
                        con,
                        inr (m, eligible, subst (λ i. IsUnauthorized port input i r) same barred),
                      ))
              | inr (d, answer, allowed) ↦
                  let q = authorize-IsAllowed p port input c d answer allowed in absurd (cc)
            ]
      ]

  pub IsGap-gaps_of :
      (id : String) (reason : AnalysisScopeGapReason)
      → IsGap port input id reason
      → Memᴰ (gap id reason) gaps_of
  IsGap-gaps_of id reason (con, inl refused) =
      let pi = prepare_input input in
      Memᴰ.append_left (pushed_left (authorize p port input) candidates_of) (
        pushed_left-Memᴰ (consider p pi) (considered p pi) ((considered-IsConsidered p pi id).1 con)
          (consider-IsRefused p pi id refused))
  IsGap-gaps_of id reason (con, inr (m, eligible, barred)) =
      let pi = prepare_input input in
      let c = candidate_of p pi id m in
      let (listed, own) = membership_of-id pi.registry id eligible.0 in
      let turn =
        authorize-IsUnauthorized p port input c
          (subst (λ i. IsUnauthorized port input i reason) (sym own) barred) in
      Memᴰ.append_right (pushed_left (consider p pi) (considered p pi)) (
        pushed_left-Memᴰ (authorize p port input) candidates_of
          (IsEligible-candidates_of id m con eligible) (turn ∙ ap (λ i. inl (gap i reason)) own))
