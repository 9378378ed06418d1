-- ===== src/Graph/Support.antt =====
-- Every edge that `joinChangedContracts` of packages/domain/src/graph.ts gives is supported.
use reverb_impact.Base.{
  ℕ, String, true, ◌&&◌, Option, none, some, ok, opt_eq, opt_eq-true, Result-cases, Option-cases,
  Bool-cases, ◌≡◌, refl, subst, inl, inr, arith,
}
use reverb_impact.Canonical.{Platform}
use reverb_impact.Registry.Data.{
  RegistrySnapshot, ServiceIdentity, ServiceAlias, AliasResolution, AliasResolutionRequest,
  not_found, ambiguous, resolved,
}
use reverb_impact.Registry.Aliases.{resolve_service_alias}
use reverb_impact.Graph.{
  EvidenceBasis, exact, registry_resolved, heuristic, declared_context, behavioural_context,
  ContextBasis, heuristic_context, declared, behavioural, IndexedContractDefinition,
  IndexedContractReference, IndexedContractChange, registry_request,
}
use reverb_impact.Graph.Joining.{
  contradicts, undecided, without_context, heuristic_only, AliasStep, refused, kept, initial_basis,
  after_resolution, alias_step, final_basis,
}

module _ (p : Platform) (registry : RegistrySnapshot) (at : ℕ) where
  -- What lets a reference stand for a change's definition on a basis.
  abbrev pub Supports :
      IndexedContractChange
      → IndexedContractDefinition
      → IndexedContractReference
      → EvidenceBasis
      → Type 0
  Supports change definition reference exact =
      (reference.context_basis ≡ none) × (reference.canonical_key ≡ some change.canonical_key)
  Supports change definition reference registry_resolved =
      (request : AliasResolutionRequest) × (service : ServiceIdentity) × (alias : ServiceAlias)
      × (revision : String) × (path : Option String) × (registry_request reference at
          ≡ some request)
      × (resolve_service_alias p registry request ≡ ok (resolved service alias revision path))
      × (definition.service_id ≡ some service.id)
      × (reference.constrained_contract_key ≡ some change.canonical_key)
  Supports change definition reference heuristic =
      (reference.context_basis ≡ some heuristic_context)
      × (reference.constrained_contract_key ≡ some change.canonical_key)
  Supports change definition reference declared_context = ⊥
  Supports change definition reference behavioural_context = ⊥

  abbrev pub Backed :
      IndexedContractChange
      → IndexedContractDefinition
      → IndexedContractReference
      → Option EvidenceBasis
      → Type 0
  Backed change definition reference none = Unit
  Backed change definition reference (some basis) = Supports change definition reference basis

  abbrev pub StepBacked :
      IndexedContractChange
      → IndexedContractDefinition
      → IndexedContractReference
      → AliasStep
      → Type 0
  StepBacked change definition reference (refused d) = Unit
  StepBacked change definition reference (kept basis) = Backed change definition reference basis

  module _ (change : IndexedContractChange) (definition : IndexedContractDefinition)
      (reference : IndexedContractReference) where
    initial_basis-Backed : Backed change definition reference (initial_basis change reference)
    unfolding initial_basis
    initial_basis-Backed =
        elim (Bool-cases (
          without_context reference.context_basis
          && opt_eq reference.canonical_key (some change.canonical_key))) [
            | inl holds ↦ rw holds (
              bare reference.context_basis (ground arith),
              opt_eq-true reference.canonical_key (some change.canonical_key) (ground arith),
            )
            | inr fails ↦ rw fails tt
          ]
      where
        bare : (b : Option ContextBasis) → without_context b ≡ true → b ≡ none
        bare none e = refl
        bare (some b) e = absurd (ground arith)

    after_resolution-StepBacked :
        (basis : Option EvidenceBasis) (request : AliasResolutionRequest)
        (resolution : AliasResolution)
        → Backed change definition reference basis
        → registry_request reference at ≡ some request
        → resolve_service_alias p registry request ≡ ok resolution
        → StepBacked change definition reference
            (after_resolution change definition reference basis resolution)
    unfolding after_resolution
    after_resolution-StepBacked basis request not_found b asked answered = b
    after_resolution-StepBacked basis request (ambiguous services revision) b asked answered = tt
    after_resolution-StepBacked basis request (resolved service alias revision path) b asked
          answered =
        elim (Bool-cases (contradicts definition service basis)) [
          | inl holds ↦ rw holds tt
          | inr fails ↦
              rw fails
                (elim (Bool-cases (
                  undecided basis
                  && opt_eq definition.service_id (some service.id)
                  && opt_eq reference.constrained_contract_key (some change.canonical_key))) [
                    | inl up ↦ rw up (
                      request,
                      service,
                      alias,
                      revision,
                      path,
                      asked,
                      answered,
                      opt_eq-true definition.service_id (some service.id) (ground arith),
                      opt_eq-true reference.constrained_contract_key (some change.canonical_key)
                          (ground arith),
                    )
                    | inr same ↦ rw same b
                  ])
        ]

    pub alias_step-StepBacked :
        (step : AliasStep)
        → alias_step p registry at change definition reference ≡ ok step
        → StepBacked change definition reference step
    unfolding alias_step
    alias_step-StepBacked step e = elim (Option-cases (registry_request reference at)) [
      | inl quiet ↦
          let same : kept (initial_basis change reference) ≡ step = ground arith in
          subst (StepBacked change definition reference) same initial_basis-Backed
      | inr (request, asked) ↦ elim (Result-cases (resolve_service_alias p registry request)) [
        | inr (x, failed) ↦ absurd (ground arith)
        | inl (resolution, answered) ↦
            let same : after_resolution change definition reference (initial_basis change reference)
                  resolution
                ≡ step =
              ground arith in
            subst (StepBacked change definition reference) same (
              after_resolution-StepBacked (initial_basis change reference) request resolution
                initial_basis-Backed asked answered)
      ]
    ]

    pub final_basis-Backed :
        (basis : Option EvidenceBasis)
        → Backed change definition reference basis
        → Backed change definition reference (final_basis change reference basis)
    unfolding final_basis
    final_basis-Backed basis b =
        elim (Bool-cases (
          undecided basis
          && heuristic_only reference.context_basis
          && opt_eq reference.constrained_contract_key (some change.canonical_key))) [
            | inl holds ↦ rw holds (
              guessed reference.context_basis (ground arith),
              opt_eq-true reference.constrained_contract_key (some change.canonical_key)
                  (ground arith),
            )
            | inr fails ↦ rw fails b
          ]
      where
        guessed : (b : Option ContextBasis) → heuristic_only b ≡ true → b ≡ some heuristic_context
        guessed none e = absurd (ground arith)
        guessed (some heuristic_context) e = refl
        guessed (some declared) e = absurd (ground arith)
        guessed (some behavioural) e = absurd (ground arith)
