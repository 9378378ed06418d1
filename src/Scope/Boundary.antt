-- ===== src/Scope/Boundary.antt =====
-- What a repository must be to stand in a scope, said without the code's lists and maps, and that the
-- loop of `prepareAnalysisScope` makes a candidate of exactly those that it may.
use reverb_impact.Base.{
  String, true, false, ◌||◌, Option, none, some, List, [], ◌∷◌, ◌++◌, map, filter, last, includes,
  ◌==◌, ◌≡◌, refl, sym, ◌∙◌, subst, ◌↔◌, ◌⊎◌, inl, inr, Memᴰ, arith, eq_iff, lookup, Bool-cases,
  Option-cases, lookup-from_entries, includes-sorted_unique, any-eq-true, any-of-Memᴰ, last-Memᴰ,
  Memᴰ-filter, filter-Memᴰ, includes-append, includes-Memᴰ, includes-of-Memᴰ, Memᴰ-map, Memᴰ-map_of,
}
use reverb_impact.Canonical.{Platform}
use reverb_impact.Registry.Data.{
  RepositoryAction, source_read, derived_retain, evidence_consume, identity_disclose,
  contract_disclose, location_disclose, producer_check_write, consumer_write, evaluation_use,
  research_use, Decision, allow, deny, ConsentGrant, RepositoryMembership, RegistrySnapshot,
}
use reverb_impact.Scope.Data.{PrepareInput}
use reverb_impact.Scope.Preparing.{
  memberships_of, denies, applicable_consent_denied, requested_ids, considered, is_evidence_consume,
  is_deny,
}

-- The membership that a registry holds for an id: the last one that it lists.
abbrev pub membership_of : RegistrySnapshot → String → Option RepositoryMembership
membership_of registry id = last (filter (λ m. m.repository_id == id) registry.repositories)

-- A grant forbids the grantee, or everyone, to consume the repository's evidence.
abbrev pub IsDenied : RegistrySnapshot → String → String → Type 0
IsDenied registry id grantee =
    (grant : ConsentGrant) × Memᴰ grant registry.consents
    × (grant.repository_id ≡ id)
    × (grant.action ≡ evidence_consume)
    × ((grant.grantee ≡ grantee) ⊎ (grant.grantee ≡ "*"))
    × (grant.decision ≡ deny)

-- The consumer scope names the id; with no consumer scope, a selected member has it.
abbrev pub IsRequested : PrepareInput → String → Type 0
IsRequested input id = elim input.consumer_scope [
  | none ↦
      (m : RepositoryMembership) × Memᴰ m input.registry.repositories
      × (m.selected ≡ true)
      × (m.repository_id ≡ id)
  | some ids ↦ Memᴰ id ids
]

-- The id is requested or the producer's.
abbrev pub IsConsidered : PrepareInput → String → Type 0
IsConsidered input id = IsRequested input id ⊎ (id ≡ input.producer_repository_id)

-- The id's membership is selected, and no consent of the registry forbids its use.
abbrev pub IsEligible : PrepareInput → String → RepositoryMembership → Type 0
IsEligible input id m =
    (membership_of input.registry id ≡ some m)
    × (m.selected ≡ true)
    × ¬ IsDenied input.registry id input.consent_grantee

pub lookup-memberships_of :
    (registry : RegistrySnapshot) (id : String)
    → lookup id (memberships_of registry) ≡ membership_of registry id
lookup-memberships_of registry id =
    lookup-from_entries (λ m. m.repository_id) id registry.repositories

pub membership_of-id :
    (registry : RegistrySnapshot) (id : String) {m : RepositoryMembership}
    → membership_of registry id ≡ some m
    → Memᴰ m registry.repositories × (m.repository_id ≡ id)
membership_of-id registry id {m} e =
    let (mem, same) =
      Memᴰ-filter (λ m. m.repository_id == id) registry.repositories
        (last-Memᴰ (filter (λ m. m.repository_id == id) registry.repositories) e) in
    (mem, (eq_iff m.repository_id id).0 same)

is_evidence_consume-true :
    (a : RepositoryAction) → is_evidence_consume a ≡ true → a ≡ evidence_consume
is_evidence_consume-true evidence_consume h = refl
is_evidence_consume-true source_read h = cc
is_evidence_consume-true derived_retain h = cc
is_evidence_consume-true identity_disclose h = cc
is_evidence_consume-true contract_disclose h = cc
is_evidence_consume-true location_disclose h = cc
is_evidence_consume-true producer_check_write h = cc
is_evidence_consume-true consumer_write h = cc
is_evidence_consume-true evaluation_use h = cc
is_evidence_consume-true research_use h = cc

is_deny-true : (d : Decision) → is_deny d ≡ true → d ≡ deny
is_deny-true deny h = refl
is_deny-true allow h = cc

denies-true :
    (id grantee : String) (g : ConsentGrant)
    → denies id grantee g ≡ true
    → (g.repository_id ≡ id)
      × (g.action ≡ evidence_consume)
      × ((g.grantee ≡ grantee) ⊎ (g.grantee ≡ "*"))
      × (g.decision ≡ deny)
denies-true id grantee g h = (
  (eq_iff g.repository_id id).0 (ground arith),
  is_evidence_consume-true g.action (ground arith),
  elim (Bool-cases (g.grantee == grantee)) [
    | inl same ↦ inl ((eq_iff g.grantee grantee).0 same)
    | inr other ↦ inr ((eq_iff g.grantee "*").0 (ground arith))
  ],
  is_deny-true g.decision (ground arith),
)

denies-of :
    (id grantee : String) (g : ConsentGrant)
    → g.repository_id ≡ id
    → g.action ≡ evidence_consume
    → (g.grantee ≡ grantee) ⊎ (g.grantee ≡ "*")
    → g.decision ≡ deny
    → denies id grantee g ≡ true
denies-of id grantee g own act (inl same) no_use =
    let a = (eq_iff g.repository_id id).1 own in
    let b = (eq_iff g.grantee grantee).1 same in rw (a, act, b, no_use) refl
denies-of id grantee g own act (inr all) no_use =
    let a = (eq_iff g.repository_id id).1 own in
    let b = (eq_iff g.grantee "*").1 all in rw (a, act, b, no_use) (ground arith)

pub applicable-IsDenied :
    (registry : RegistrySnapshot) (id grantee : String)
    → (applicable_consent_denied registry id grantee ≡ true) ↔ IsDenied registry id grantee
unfolding applicable_consent_denied
applicable-IsDenied registry id grantee = (
  (λ e.
      let (g, m, t) = any-eq-true (denies id grantee) registry.consents e in
      let (own, act, who, no_use) = denies-true id grantee g t in (g, m, own, act, who, no_use)),
  (λ (g, m, own, act, who, no_use).
      any-of-Memᴰ (denies id grantee) registry.consents m
        (denies-of id grantee g own act who no_use)),
)

includes-requested_ids :
    (p : Platform) (input : PrepareInput) (id : String)
    → (includes (requested_ids p input) id ≡ true) ↔ IsRequested input id
includes-requested_ids p input id = elim (Option-cases input.consumer_scope) [
  | inl whole ↦ rw whole (
    (λ e.
        let listed =
          includes-Memᴰ selected_ids id
            (sym (includes-sorted_unique p.collate_le selected_ids id) ∙ e) in
        let (m, kept, same) = Memᴰ-map (λ m. m.repository_id) selected listed in
        let (mem, sel) = Memᴰ-filter (λ m. m.selected) input.registry.repositories kept in
        (m, mem, sel, sym same)),
    (λ (m, mem, sel, same).
        includes-sorted_unique p.collate_le selected_ids id
        ∙ includes-of-Memᴰ selected_ids id (
            subst (λ i. Memᴰ i selected_ids) same
              (Memᴰ-map_of (λ m. m.repository_id) selected
                (filter-Memᴰ (λ m. m.selected) input.registry.repositories mem sel)))),
  )
  | inr (ids, given) ↦ rw given (
    (λ e. includes-Memᴰ ids id (sym (includes-sorted_unique p.collate_le ids id) ∙ e)),
    (λ m. includes-sorted_unique p.collate_le ids id ∙ includes-of-Memᴰ ids id m),
  )
]
  where
    selected : List RepositoryMembership
    selected = filter (λ m. m.selected) input.registry.repositories

    selected_ids : List String
    selected_ids = map (λ m. m.repository_id) selected

pub considered-IsConsidered :
    (p : Platform) (input : PrepareInput) (id : String)
    → Memᴰ id (considered p input) ↔ IsConsidered input id
considered-IsConsidered p input id = (
  (λ m. elim (Bool-cases (includes (requested_ids p input) id)) [
    | inl asked ↦ inl ((includes-requested_ids p input id).0 asked)
    | inr not_asked ↦
        let e = sym split ∙ includes-of-Memᴰ (considered p input) id m in
        inr (sym ((eq_iff input.producer_repository_id id).0 (ground arith)))
  ]),
  (λ c. includes-Memᴰ (considered p input) id (
      split ∙ (elim c [
        | inl asked ↦ rw ((includes-requested_ids p input id).1 asked) refl
        | inr same ↦
            let own = (eq_iff input.producer_repository_id id).1 (sym same) in rw own (ground arith)
      ]))),
)
  where
    split :
        includes (considered p input) id
        ≡ (includes (requested_ids p input) id || (input.producer_repository_id == id || false))
    split =
        includes-sorted_unique p.collate_le
          (requested_ids p input ++ input.producer_repository_id ∷ []) id
        ∙ includes-append (requested_ids p input) (input.producer_repository_id ∷ []) id
