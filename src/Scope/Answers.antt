-- ===== src/Scope/Answers.antt =====
-- The answers of `ResolveAnalysisScope.execute`: its capability, its gaps, and when it succeeds.
use reverb_impact.Base.{
  String, Bool, true, false, not, ◌||◌, map, ◌==◌, ◌≡◌, refl, sym, ◌∙◌, ap, subst, ◌↔◌, inl, inr,
  Memᴰ, arith, eq_iff, Bool-cases, ok, sort_by, sort_by-Memᴰ, Memᴰ-sort_by, Memᴰ-map, Memᴰ-map_of,
  lookup,
}
use reverb_impact.Canonical.{Platform}
use reverb_impact.Ports.{port_success}
use reverb_impact.Scope.Data.{
  AnalysisScopeGapReason, AuthorizedScopeRepository, ResolveInput, ResolvedAnalysisScope,
}
use reverb_impact.Scope.Preparing.{memberships_of, is_selected, prepare_analysis_scope}
use reverb_impact.Scope.Finalizing.{repository_order, gap_order, build_resolved}
use reverb_impact.Scope.Resolving.{Authorization, resolve_analysis_scope}
use reverb_impact.Scope.Boundary.{lookup-memberships_of}
use reverb_impact.Scope.Outcomes.{gap}
use reverb_impact.Scope.Resolved.{
  IsInScope, IsGap, repositories_of, gaps_of, repositories_of-IsInScope, IsInScope-repositories_of,
  gaps_of-IsGap, IsGap-gaps_of,
}
use reverb_impact.Scope.Capability.{
  resolved_of, producer_authorized, producer-IsInScope, authorize_prepared-producer,
}

module _ (p : Platform) (port : Authorization) (input : ResolveInput) where
  -- The registry is of the requested workspace and of the schema version that the code reads.
  abbrev pub IsOfRegistry : Type 0
  IsOfRegistry =
      (input.registry.revision.workspace_id ≡ input.workspace_id)
      × (input.registry.schema_version ≡ "1.0")

  abbrev mismatched : Bool
  mismatched =
      not (input.registry.revision.workspace_id == input.workspace_id)
      || not (input.registry.schema_version == "1.0")

  mismatched-IsOfRegistry : mismatched ≡ false → IsOfRegistry
  mismatched-IsOfRegistry h = (
    (eq_iff input.registry.revision.workspace_id input.workspace_id).0 (ground arith),
    (eq_iff input.registry.schema_version "1.0").0 (ground arith),
  )

  IsOfRegistry-mismatched : IsOfRegistry → mismatched ≡ false
  IsOfRegistry-mismatched (ws, version) =
      let a = (eq_iff input.registry.revision.workspace_id input.workspace_id).1 ws in
      let b = (eq_iff input.registry.schema_version "1.0").1 version in rw (a, b) refl

  abbrev producer_selected : Bool
  producer_selected =
      is_selected (lookup input.producer_repository_id (memberships_of input.registry))

  IsInScope-producer_selected :
      IsInScope port input input.producer_repository_id → producer_selected ≡ true
  IsInScope-producer_selected (con, m, eligible, d, answer, allowed) =
      rw (lookup-memberships_of input.registry input.producer_repository_id ∙ eligible.0) eligible.1

  -- A success is the scope of the repositories that are in scope, of the requested registry, and with
  -- the producer.
  pub resolve-resolved_of :
      {r : ResolvedAnalysisScope}
      → resolve_analysis_scope p port input ≡ ok (port_success r)
      → IsOfRegistry
        × IsInScope port input input.producer_repository_id
        × (r ≡ resolved_of p port input)
  unfolding resolve_analysis_scope prepare_analysis_scope
  resolve-resolved_of {r} e = elim (Bool-cases mismatched) [
    | inl wrong ↦ absurd (ground arith)
    | inr right ↦ elim (Bool-cases producer_selected) [
      | inr not_there ↦ absurd (ground arith)
      | inl selected ↦ elim (Bool-cases (producer_authorized p port input)) [
        | inl authorized ↦ (
          mismatched-IsOfRegistry right,
          (producer-IsInScope p port input).0 authorized,
          let made = authorize_prepared-producer p port input in ground arith,
        )
        | inr refused ↦ let made = authorize_prepared-producer p port input in absurd (ground arith)
      ]
    ]
  ]

  -- The resolution succeeds exactly when the registry is of the requested workspace and schema version
  -- and the producer is in scope: no other repository, whatever the port says of it, makes it fail.
  pub resolve-success_iff :
      ((r : ResolvedAnalysisScope) × (resolve_analysis_scope p port input ≡ ok (port_success r)))
      ↔ (IsOfRegistry × IsInScope port input input.producer_repository_id)
  unfolding resolve_analysis_scope prepare_analysis_scope
  resolve-success_iff = (
    (λ (r, e). let (registry, scope, made) = resolve-resolved_of e in (registry, scope)),
    (λ (registry, scope).
        let right = IsOfRegistry-mismatched registry in
        let selected = IsInScope-producer_selected scope in
        let authorized = (producer-IsInScope p port input).1 scope in
        let made = authorize_prepared-producer p port input in
        (resolved_of p port input, rw (right, selected, made, authorized) refl)),
  )

  -- Of a resolution that succeeds, the capability lists exactly the repositories in scope: those that
  -- the analysis considers, that the registry selects and no consent denies to the subject, and that
  -- the port allows by a decision of the registry's revision.
  pub resolve-capability_iff :
      {r : ResolvedAnalysisScope} (id : String)
      → resolve_analysis_scope p port input ≡ ok (port_success r)
      → Memᴰ id r.capability.repository_ids ↔ IsInScope port input id
  unfolding build_resolved
  resolve-capability_iff {r} id e =
      let (registry, scope, made) = resolve-resolved_of e in
      let ids = λ (r : AuthorizedScopeRepository). r.repository_id in
      let sorted = sort_by (repository_order p) (repositories_of p port input) in
      let listed : r.capability.repository_ids ≡ map ids sorted =
        ap (λ (r : ResolvedAnalysisScope). r.capability.repository_ids) made in
      (
        (λ m.
            let (repository, mem, same) = Memᴰ-map ids sorted (subst (Memᴰ id) listed m) in
            subst (IsInScope port input) (sym same) (
              repositories_of-IsInScope p port input
                (Memᴰ-sort_by (repository_order p) (repositories_of p port input) mem))),
        (λ s.
            let (repository, mem, own, flag) = IsInScope-repositories_of p port input id s in
            subst (Memᴰ id) (sym listed) (
              subst (λ i. Memᴰ i (map ids sorted)) own
                (Memᴰ-map_of ids sorted
                  (sort_by-Memᴰ (repository_order p) (repositories_of p port input) mem)))),
      )

  -- Of a resolution that succeeds, the gaps are exactly the repositories that the analysis considers
  -- and leaves out, each with its reason: not listed, not selected, denied by a consent, not
  -- authorised by the port, or no answer of the port.
  pub resolve-gaps_iff :
      {r : ResolvedAnalysisScope} (id : String) (reason : AnalysisScopeGapReason)
      → resolve_analysis_scope p port input ≡ ok (port_success r)
      → Memᴰ (gap id reason) r.provenance.gaps ↔ IsGap port input id reason
  unfolding build_resolved
  resolve-gaps_iff {r} id reason e =
      let (registry, scope, made) = resolve-resolved_of e in
      let sorted = sort_by (gap_order p) (gaps_of p port input) in
      let listed : r.provenance.gaps ≡ sorted =
        ap (λ (r : ResolvedAnalysisScope). r.provenance.gaps) made in
      (
        (λ m. gaps_of-IsGap p port input (
            Memᴰ-sort_by (gap_order p) (gaps_of p port input)
              (subst (Memᴰ (gap id reason)) listed m))),
        (λ s. subst (Memᴰ (gap id reason)) (sym listed) (
            sort_by-Memᴰ (gap_order p) (gaps_of p port input)
              (IsGap-gaps_of p port input id reason s))),
      )
