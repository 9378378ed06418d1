-- ===== src/Scope/Capability.antt =====
-- The answers of `ResolveAnalysisScope.execute`: its capability, its gaps, and when it succeeds.
use reverb_impact.Base.{
  String, Bool, true, false, if◌then◌else◌, ◌&&◌, List, [], ◌∷◌, ◌++◌, map, any, all, includes,
  ◌==◌, ◌≡◌, refl, sym, ◌∙◌, ap, subst, ◌↔◌, inl, inr, Memᴰ, arith, eq_iff, Bool-cases, sort_by,
  sort_by-Memᴰ, Memᴰ-sort_by, Distinct, map-sort_by, sort_by-Distinct, pushed_right-Distinct,
  sorted_unique-Distinct, Memᴰ-map_of, any-eq-true, any-of-Memᴰ, includes-of-Memᴰ, &&-eq-true,
  Memᴰ-pushed_right,
}
use reverb_impact.Canonical.{Platform}
use reverb_impact.Ports.{port_success, port_failure, PortFailureKind}
use reverb_impact.Registry.Data.{RepositoryMembership}
use reverb_impact.Scope.Data.{
  AnalysisScopeCandidate, AuthorizedScopeRepository, PreparedAnalysisScope, ResolveInput,
  ResolvedAnalysisScope,
}
use reverb_impact.Scope.Preparing.{requested_ids, considered, consider, build_prepared}
use reverb_impact.Scope.Finalizing.{
  repository_order, gap_order, adjacent_differ, check_authorized, build_resolved,
  finalize_analysis_scope,
}
use reverb_impact.Scope.Resolving.{Authorization, authorize, prepare_input, authorize_prepared}
use reverb_impact.Scope.Boundary.{membership_of-id}
use reverb_impact.Scope.Outcomes.{
  IsEligible-or_IsRefused, consider-IsEligible, consider-IsRefused, IsAllowed-or_IsUnauthorized,
  authorize-IsAllowed, authorize-IsUnauthorized,
}
use reverb_impact.Scope.Resolved.{
  IsInScope, candidates_of, repositories_of, gaps_of, repositories_of-IsInScope,
  IsInScope-repositories_of,
}

adjacent-Distinct :
    (rs : List AuthorizedScopeRepository)
    → Distinct (map (λ r. r.repository_id) rs)
    → adjacent_differ rs ≡ true
adjacent-Distinct [] d = refl
adjacent-Distinct (r ∷ []) d = refl
adjacent-Distinct (r ∷ s ∷ rs) (new, d) = let rest = adjacent-Distinct (s ∷ rs) d in ground arith

map_id : (xs : List String) → map (λ x. x) xs ≡ xs
map_id [] = refl
map_id (x ∷ xs) = ap (λ ys. x ∷ ys) (map_id xs)

all-of-Memᴰ {ℓ} :
    {A : Type ℓ} (q : A → Bool) (xs : List A) → ((a : A) → Memᴰ a xs → q a ≡ true) → all q xs ≡ true
all-of-Memᴰ q [] h = refl
all-of-Memᴰ q (x ∷ xs) h =
    let here = h x (Memᴰ.head refl) in
    let rest = all-of-Memᴰ q xs (λ a m. h a (Memᴰ.tail m)) in ground arith

module _ (p : Platform) (port : Authorization) (input : ResolveInput) where
  abbrev sorted_repositories : List AuthorizedScopeRepository
  sorted_repositories = sort_by (repository_order p) (repositories_of p port input)

  abbrev prepared : PreparedAnalysisScope
  prepared = build_prepared p (prepare_input input)

  abbrev pub resolved_of : ResolvedAnalysisScope
  resolved_of =
      build_resolved p prepared sorted_repositories (sort_by (gap_order p) (gaps_of p port input))

  consider-id :
      (id : String) (c : AnalysisScopeCandidate)
      → consider p (prepare_input input) id ≡ inr c
      → c.membership.repository_id ≡ id
  consider-id id c turn = elim (IsEligible-or_IsRefused p (prepare_input input) id) [
    | inl (r, refused) ↦
        let q = consider-IsRefused p (prepare_input input) id refused in absurd (cc)
    | inr (m, eligible) ↦
        let q = consider-IsEligible p (prepare_input input) id m eligible in
        let (listed, own) = membership_of-id input.registry id eligible.0 in
        let same : m ≡ c.membership = cc in
        ap (λ (m : RepositoryMembership). m.repository_id) (sym same) ∙ own
  ]

  authorize-id :
      (c : AnalysisScopeCandidate) (r : AuthorizedScopeRepository)
      → authorize p port input c ≡ inr r
      → r.repository_id ≡ c.membership.repository_id
  authorize-id c r turn = elim (IsAllowed-or_IsUnauthorized p port input c) [
    | inl (reason, barred) ↦ let q = authorize-IsUnauthorized p port input c barred in absurd (cc)
    | inr (d, answer, allowed) ↦ let q = authorize-IsAllowed p port input c d answer allowed in cc
  ]

  sorted_repositories-Distinct : Distinct (map (λ r. r.repository_id) sorted_repositories)
  sorted_repositories-Distinct =
      let pi = prepare_input input in
      let ids = λ (r : AuthorizedScopeRepository). r.repository_id in
      subst Distinct (sym (map-sort_by ids p.collate_le (repositories_of p port input))) (
        sort_by-Distinct p.collate_le (map ids (repositories_of p port input)) (
          pushed_right-Distinct (authorize p port input) (λ c. c.membership.repository_id) ids
            authorize-id (candidates_of p port input)
            (pushed_right-Distinct (consider p pi) (λ i. i) (λ c. c.membership.repository_id)
              consider-id (considered p pi)
              (subst Distinct (sym (map_id (considered p pi))) (
                sorted_unique-Distinct p.collate_le
                  (requested_ids p pi ++ input.producer_repository_id ∷ []))))))

  -- The only test of `finalizeAnalysisScope` that can fail here is the producer's.
  abbrev pub producer_authorized : Bool
  producer_authorized =
      any (λ r. r.repository_id == input.producer_repository_id && r.producer) sorted_repositories

  sorted-are_candidates :
      all
        (λ r.
          includes
            (map (λ c. c.membership.repository_id) (candidates_of p port input))
            r.repository_id)
        sorted_repositories
      ≡ true
  sorted-are_candidates = all-of-Memᴰ _ sorted_repositories (λ r m.
      let ids = λ (c : AnalysisScopeCandidate). c.membership.repository_id in
      let (c, mem, turn) =
        Memᴰ-pushed_right (authorize p port input) (candidates_of p port input)
          (Memᴰ-sort_by (repository_order p) (repositories_of p port input) m) in
      includes-of-Memᴰ (map ids (candidates_of p port input)) r.repository_id (
        subst (λ i. Memᴰ i (map ids (candidates_of p port input))) (sym (authorize-id c r turn))
          (Memᴰ-map_of ids (candidates_of p port input) mem)))

  authorize-revision :
      (c : AnalysisScopeCandidate) (r : AuthorizedScopeRepository)
      → authorize p port input c ≡ inr r
      → r.authorization_revision ≡ input.registry.revision.revision
  authorize-revision c r turn = elim (IsAllowed-or_IsUnauthorized p port input c) [
    | inl (reason, barred) ↦ let q = authorize-IsUnauthorized p port input c barred in absurd (cc)
    | inr (d, answer, allowed) ↦
        let q = authorize-IsAllowed p port input c d answer allowed in
        let same : d.revision ≡ r.authorization_revision = cc in sym same ∙ allowed.1
  ]

  sorted-have_revision :
      all (λ r. r.authorization_revision == input.registry.revision.revision) sorted_repositories
      ≡ true
  sorted-have_revision = all-of-Memᴰ _ sorted_repositories (λ r m.
      let (c, mem, turn) =
        Memᴰ-pushed_right (authorize p port input) (candidates_of p port input)
          (Memᴰ-sort_by (repository_order p) (repositories_of p port input) m) in
      (eq_iff r.authorization_revision input.registry.revision.revision).1
        (authorize-revision c r turn))

  pub producer-IsInScope :
      (producer_authorized ≡ true) ↔ IsInScope port input input.producer_repository_id
  producer-IsInScope = (
    (λ e.
        let (r, m, t) = any-eq-true _ sorted_repositories e in
        let (same, flag) =
          &&-eq-true (r.repository_id == input.producer_repository_id) r.producer t in
        subst (IsInScope port input) ((eq_iff r.repository_id input.producer_repository_id).0 same)
          (repositories_of-IsInScope p port input
            (Memᴰ-sort_by (repository_order p) (repositories_of p port input) m))),
    (λ s.
        let (r, m, own, flag) =
          IsInScope-repositories_of p port input input.producer_repository_id s in
        let a = (eq_iff r.repository_id input.producer_repository_id).1 own in
        let b = (eq_iff input.producer_repository_id input.producer_repository_id).1 refl in
        any-of-Memᴰ _ sorted_repositories
          (sort_by-Memᴰ (repository_order p) (repositories_of p port input) m)
          (rw (a, flag, b) refl)),
  )

  pub authorize_prepared-producer : authorize_prepared p port input prepared ≡ (
      if producer_authorized
      then port_success resolved_of
      else port_failure (record {
        kind = PortFailureKind.authorization_denied;
        code = "authorization_denied";
        safe_message = "Producer authorization is required for scoped analysis.";
        retryable = false;
      }))
  unfolding authorize_prepared finalize_analysis_scope check_authorized build_prepared
  authorize_prepared-producer =
      let adjacent = adjacent-Distinct sorted_repositories sorted_repositories-Distinct in
      let candidate = sorted-are_candidates in
      let revision = sorted-have_revision in
      elim (Bool-cases producer_authorized) [
        | inl yes_there ↦ rw (yes_there, adjacent, candidate, revision) refl
        | inr not_there ↦ rw not_there refl
      ]
