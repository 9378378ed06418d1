-- ===== src/Findings/Current.antt =====
-- That a finding which a check shows rests on a current consumer and on a change that is known well enough.
use reverb_impact.Base.{
  ℕ, String, Bool, true, false, not, ◌&&◌, Option, none, some, List, [], ◌∷◌, filter, ◌==◌, ◌≡◌,
  refl, sym, ◌∙◌, subst, ◌⊎◌, inl, inr, Memᴰ, arith, eq_iff, Bool-cases, Option-cases, lookup,
  lookup-from_entries, last-Memᴰ, Memᴰ-filter, Memᴰ-sort_by,
}
use mathlib.Core.List.Memᴰ as Memᴰ
use reverb_impact.Canonical.{Platform}
use reverb_impact.Contracts.{kind_name}
use reverb_impact.Graph.{
  IndexedContractChange, EvidenceEdge, CoverageState, complete, partial, failed, unsupported,
  current, stale, unauthorized, failed_selection, not_indexed, ConsumerGenerationSelection,
  selected, unavailable, unsupported_selection,
}
use reverb_impact.Delivery.Data.{FindingOccurrence, StaticFindingProjection, PlanInput}
use reverb_impact.Delivery.Planning.{is_abstained}
use reverb_impact.Delivery.Checks.{plan_git_hub_check}
use reverb_impact.Delivery.Findings.{IsShownOf, plan-IsDeliverable}
use reverb_impact.Findings.Creating.{
  CreateInput, abstention_for, repository_of, is_complete, is_removal, producer_incomplete,
  reason_of, change_key, changes_of, selections_of, build_finding, Created, create_one, create_all,
  create_finding_occurrences, finding_order,
}

-- The selection is of a current generation.
abbrev pub IsCurrent : ConsumerGenerationSelection → Type 0
IsCurrent consumer =
    (repository_id generation_id commit_sha : String) × (selected_at freshness_age_ms : ℕ)
    × (coverage : CoverageState) × (consumer
        ≡ selected current repository_id generation_id commit_sha selected_at freshness_age_ms
            coverage)

-- The finding joins an edge with the change of its contract and the selection of its consumer.
abbrev pub IsJoined : CreateInput → FindingOccurrence → Type 0
IsJoined input f =
    Memᴰ f.edge input.edges
    × Memᴰ f.change input.changes
    × (change_key (kind_name f.change.contract_kind) f.change.canonical_key
        ≡ change_key (kind_name f.edge.contract_kind) f.edge.definition_key)
    × Memᴰ f.consumer input.consumers
    × (repository_of f.consumer ≡ f.edge.consumer_repository_id)

abstention_for-none :
    (consumer : ConsumerGenerationSelection) → abstention_for consumer ≡ none → IsCurrent consumer
abstention_for-none (selected current r g c t a s) e = (r, g, c, t, a, s, refl)
abstention_for-none (selected stale r g c t a s) e = absurd (cc)
abstention_for-none (unavailable unauthorized r why) e = absurd (cc)
abstention_for-none (unavailable failed_selection r why) e = absurd (cc)
abstention_for-none (unavailable not_indexed r why) e = absurd (cc)
abstention_for-none (unsupported_selection r g c t why) e = absurd (cc)

is_complete-true : (s : CoverageState) → is_complete s ≡ true → s ≡ complete
is_complete-true complete e = refl
is_complete-true partial e = absurd (cc)
is_complete-true failed e = absurd (cc)
is_complete-true unsupported e = absurd (cc)

-- What a finding that the analysis did not abstain from says of its change and its consumer.
abbrev pub IsSupported : FindingOccurrence → Type 0
IsSupported f =
    IsCurrent f.consumer
    × ((f.change.coverage_state ≡ complete) ⊎ (is_removal f.change.change_kind ≡ false))

reason_of-none :
    (change : IndexedContractChange) (consumer : ConsumerGenerationSelection)
    → reason_of change consumer ≡ none
    → IsCurrent consumer
      × ((change.coverage_state ≡ complete) ⊎ (is_removal change.change_kind ≡ false))
reason_of-none change consumer e = elim (Bool-cases (producer_incomplete change)) [
  | inl incomplete ↦ absurd (ground arith)
  | inr enough ↦ (
    abstention_for-none consumer (ground arith),
    elim (Bool-cases (is_complete change.coverage_state)) [
      | inl whole ↦ inl (is_complete-true change.coverage_state whole)
      | inr part ↦
          inr (kept (is_complete change.coverage_state) (is_removal change.change_kind) part enough)
    ],
  )
]
  where
    kept : (a b : Bool) → a ≡ false → (not a && b) ≡ false → b ≡ false
    kept a b e h = ground arith

build_finding-IsSupported :
    (p : Platform) (input : CreateInput) (edge : EvidenceEdge) (change : IndexedContractChange)
    (consumer : ConsumerGenerationSelection)
    → is_abstained (build_finding p input edge change consumer).state ≡ false
    → IsSupported (build_finding p input edge change consumer)
unfolding build_finding
build_finding-IsSupported p input edge change consumer e =
    elim (Option-cases (reason_of change consumer)) [
      | inl no_reason ↦ reason_of-none change consumer no_reason
      | inr (reason, given) ↦ absurd (ground arith)
    ]

build_finding-IsJoined :
    (p : Platform) (input : CreateInput) (edge : EvidenceEdge) (change : IndexedContractChange)
    (consumer : ConsumerGenerationSelection)
    → Memᴰ edge input.edges
    → lookup (change_key (kind_name edge.contract_kind) edge.definition_key) (changes_of input)
      ≡ some change
    → lookup edge.consumer_repository_id (selections_of input) ≡ some consumer
    → IsJoined input (build_finding p input edge change consumer)
unfolding build_finding
build_finding-IsJoined p input edge change consumer listed found chosen =
    let key = change_key (kind_name edge.contract_kind) edge.definition_key in
    let key_of =
      λ (c : IndexedContractChange). change_key (kind_name c.contract_kind) c.canonical_key in
    let last_change = sym (lookup-from_entries key_of key input.changes) ∙ found in
    let (m, same) =
      Memᴰ-filter (λ c. key_of c == key) input.changes
        (last-Memᴰ (filter (λ c. key_of c == key) input.changes) last_change) in
    let last_consumer =
      sym (lookup-from_entries repository_of edge.consumer_repository_id input.consumers)
      ∙ chosen in
    let here =
      λ (c : ConsumerGenerationSelection). repository_of c == edge.consumer_repository_id in
    let (mc, own) =
      Memᴰ-filter here input.consumers (last-Memᴰ (filter here input.consumers) last_consumer) in
    (
      listed,
      m,
      (eq_iff (key_of change) key).0 same,
      mc,
      (eq_iff (repository_of consumer) edge.consumer_repository_id).0 own,
    )

-- What a finding of the loop is.
abbrev IsMade : CreateInput → FindingOccurrence → Type 0
IsMade input f = IsJoined input f × (is_abstained f.state ≡ false → IsSupported f)

create_all-IsMade :
    (p : Platform) (input : CreateInput) (edges : List EvidenceEdge) (state : Created)
    → ((e : EvidenceEdge) → Memᴰ e edges → Memᴰ e input.edges)
    → ((f : FindingOccurrence) → Memᴰ f state.findings → IsMade input f)
    → (f : FindingOccurrence) → Memᴰ f (create_all p input edges state).findings
    → IsMade input f
unfolding create_all
create_all-IsMade p input [] state within held f m = held f m
create_all-IsMade p input (edge ∷ edges) state within held f m =
    create_all-IsMade p input edges
      (create_one p input edge
        (lookup (change_key (kind_name edge.contract_kind) edge.definition_key) (changes_of input))
        (lookup edge.consumer_repository_id (selections_of input)) state)
      (λ e me. within e (Memᴰ.tail me))
      (turn
        (lookup (change_key (kind_name edge.contract_kind) edge.definition_key) (changes_of input))
        (lookup edge.consumer_repository_id (selections_of input)) refl refl)
      f m
  where
    turn :
        (change : Option IndexedContractChange) (consumer : Option ConsumerGenerationSelection)
        → lookup (change_key (kind_name edge.contract_kind) edge.definition_key) (changes_of input)
          ≡ change
        → lookup edge.consumer_repository_id (selections_of input) ≡ consumer
        → (g : FindingOccurrence) → Memᴰ g (create_one p input edge change consumer state).findings
        → IsMade input g
    turn none consumer found chosen g mg = held g mg
    turn (some change) none found chosen g mg = held g mg
    turn (some change) (some consumer) found chosen g mg =
        elim (Memᴰ.append_cases state.findings mg) [
          | inl before ↦ held g before
          | inr new ↦ subst (IsMade input) (sym (only new)) (
            build_finding-IsJoined p input edge change consumer (within edge (Memᴰ.head refl)) found
                chosen,
            build_finding-IsSupported p input edge change consumer,
          )
        ]
      where
        only : {b : FindingOccurrence} → Memᴰ g (b ∷ []) → g ≡ b
        only (Memᴰ.head e) = e
        only (Memᴰ.tail t) = elim t [ ]

create-IsMade :
    (p : Platform) (input : CreateInput) (f : FindingOccurrence)
    → Memᴰ f (create_finding_occurrences p input).findings
    → IsMade input f
unfolding create_finding_occurrences
create-IsMade p input f m =
    create_all-IsMade p input input.edges (record { findings = []; abstentions = [] }) (λ e me. me)
      (λ g mg. elim mg [ ]) f
      (Memᴰ-sort_by (finding_order p)
        (create_all p input input.edges (record { findings = []; abstentions = [] })).findings m)

-- Where a check is planned from the findings that an analysis created, each finding that it shows has the
-- fingerprint, the impact, the activation, the stratum and the remedy of one of those findings, which comes
-- from an edge of the analysis, with the change of the edge's contract and the selection of the edge's
-- consumer; that consumer is current, and the coverage of the change is complete where its kind names a
-- removal.
pub shown-IsSupported :
    (p : Platform) (slice_text : String → ℕ → String) (input : PlanInput) (analysed : CreateInput)
    (shown : StaticFindingProjection)
    → input.analysis.findings ≡ (create_finding_occurrences p analysed).findings
    → Memᴰ shown (plan_git_hub_check p slice_text input).projection.findings
    → (f : FindingOccurrence) × Memᴰ f (create_finding_occurrences p analysed).findings
      × IsShownOf f shown
      × IsJoined analysed f
      × IsSupported f
shown-IsSupported p slice_text input analysed shown made m =
    let (deliverable, bounded, counted) = plan-IsDeliverable p slice_text input in
    let (f, listed, same, kept, suppress, on, promotion, now, disclosure, found, is, own) =
      deliverable shown m in
    let created = subst (Memᴰ f) made listed in
    let (joined, supported) = create-IsMade p analysed f created in
    (f, created, own, joined, supported kept)
