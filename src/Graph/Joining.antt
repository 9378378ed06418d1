-- ===== src/Graph/Joining.antt =====
-- `joinChangedContracts` of packages/domain/src/graph.ts.
use reverb_impact.Base.{
  ℕ, String, Bool, true, false, not, ◌&&◌, ◌||◌, Option, none, some, ok, ◌>>=◌, ◌==◌, opt_eq,
  if◌then◌else◌, Dict, lookup,
}
use reverb_impact.Contracts.{same_contract_kind}
use reverb_impact.Canonical.{Platform}
use reverb_impact.Errors.{Checked}
use reverb_impact.Registry.Data.{
  RegistrySnapshot, ServiceIdentity, AliasResolution, not_found, ambiguous, resolved,
}
use reverb_impact.Registry.Aliases.{resolve_service_alias}
use reverb_impact.Graph.{
  EvidenceBasis, exact, registry_resolved, heuristic, declared_context, behavioural_context,
  ContextBasis, heuristic_context, declared, behavioural, IndexedContractDefinition,
  IndexedContractReference, IndexedContractChange, EvidenceEdge, DiagnosticCode, registry_ambiguity,
  registry_contradiction, unresolved_reference, JoinDiagnostic, is_exact, evidence_stratum_key,
  edge_identity, path_for, registry_request,
}

-- `contextBasis === 'declared_context' || contextBasis === 'behavioural_context'`
abbrev pub context_only : Option ContextBasis → Bool
context_only none = false
context_only (some heuristic_context) = false
context_only (some declared) = true
context_only (some behavioural) = true

abbrev pub without_context : Option ContextBasis → Bool
without_context none = true
without_context (some b) = false

abbrev pub heuristic_only : Option ContextBasis → Bool
heuristic_only (some heuristic_context) = true
heuristic_only _ = false

abbrev has_exact : Option EvidenceBasis → Bool
has_exact none = false
has_exact (some b) = is_exact b

-- `basis === undefined`
abbrev pub undecided : Option EvidenceBasis → Bool
undecided none = true
undecided (some b) = false

-- What a reference gives: nothing, a diagnostic, or an edge.
pub data ReferenceStep : Type 0 where
  skipped : ReferenceStep
  diagnosed : JoinDiagnostic → ReferenceStep
  linked : EvidenceEdge → ReferenceStep

-- What the registry says of a reference: a diagnostic that ends it, or the basis so far.
pub data AliasStep : Type 0 where
  refused : JoinDiagnostic → AliasStep
  kept : Option EvidenceBasis → AliasStep

abbrev diagnostic : DiagnosticCode → IndexedContractReference → String → JoinDiagnostic
diagnostic code reference message = record {
  code = code;
  consumer_repository_id = reference.repository_id;
  stable_reference_id = reference.stable_reference_id;
  safe_message = message;
}

-- The diagnostic that a reference with an unresolved pattern leaves.
abbrev pub unresolved : IndexedContractReference → String → ReferenceStep
unresolved reference message = elim reference.unresolved_pattern [
  | none ↦ skipped
  | some pattern ↦ diagnosed (diagnostic unresolved_reference reference message)
]

-- `basis` before the registry is asked.
unfoldable pub initial_basis :
    IndexedContractChange → IndexedContractReference → Option EvidenceBasis
initial_basis change reference =
    if without_context reference.context_basis
      && opt_eq reference.canonical_key (some change.canonical_key)
    then some exact
    else none

-- The test of `registry_contradiction`.
unfoldable pub contradicts :
    IndexedContractDefinition → ServiceIdentity → Option EvidenceBasis → Bool
contradicts definition service basis = elim definition.service_id [
  | none ↦ false
  | some id ↦ not (service.id == id) && has_exact basis
]

-- The part of the loop's body from `const resolution` on.
unfoldable pub after_resolution :
    IndexedContractChange
    → IndexedContractDefinition
    → IndexedContractReference
    → Option EvidenceBasis
    → AliasResolution
    → AliasStep
unfolding contradicts
after_resolution change definition reference basis not_found = kept basis
after_resolution change definition reference basis (ambiguous services revision) =
    refused
      (diagnostic registry_ambiguity reference "Registry alias resolved to multiple services.")
after_resolution change definition reference basis (resolved service alias revision path) =
    if contradicts definition service basis
    then refused (
        diagnostic registry_contradiction reference
          "Exact contract identity contradicts the registry service mapping.")
    else if undecided basis
        && opt_eq definition.service_id (some service.id)
        && opt_eq reference.constrained_contract_key (some change.canonical_key)
    then kept (some registry_resolved)
    else kept basis

unfoldable pub alias_step :
    Platform
    → RegistrySnapshot
    → ℕ
    → IndexedContractChange
    → IndexedContractDefinition
    → IndexedContractReference
    → Checked AliasStep
unfolding initial_basis after_resolution
alias_step p registry at change definition reference = elim (registry_request reference at) [
  | none ↦ ok (kept (initial_basis change reference))
  | some request ↦ do
    resolution ← resolve_service_alias p registry request
    ok (after_resolution change definition reference (initial_basis change reference) resolution)
]

-- `basis` after the heuristic test.
unfoldable pub final_basis :
    IndexedContractChange → IndexedContractReference → Option EvidenceBasis → Option EvidenceBasis
final_basis change reference basis =
    if undecided basis
      && heuristic_only reference.context_basis
      && opt_eq reference.constrained_contract_key (some change.canonical_key)
    then some heuristic
    else basis

-- The edge that a reference with a structural basis gives.
unfoldable pub link :
    Platform
    → RegistrySnapshot
    → ℕ
    → IndexedContractChange
    → IndexedContractDefinition
    → IndexedContractReference
    → EvidenceBasis
    → Checked ReferenceStep
link p registry at change definition reference basis = do
  let primary_path = path_for basis definition reference
  stratum_key ← evidence_stratum_key p change.contract_kind definition reference basis primary_path
  ok (
      linked (record {
        id = edge_identity p definition reference basis registry.revision.revision;
        workspace_id = change.workspace_id;
        producer_repository_id = definition.repository_id;
        consumer_repository_id = reference.repository_id;
        producer_generation_id = definition.generation_id;
        consumer_generation_id = reference.generation_id;
        definition_key = definition.canonical_key;
        stable_reference_id = reference.stable_reference_id;
        contract_kind = change.contract_kind;
        basis = basis;
        primary_path = primary_path;
        stratum_key = stratum_key;
        registry_revision = registry.revision.revision;
        first_observed_at = at;
        last_observed_at = at;
        invalidated_at = none;
        invalidation_reason = none;
        definition = definition;
        reference = reference;
      }))

abbrev pub not_structural : String
not_structural = "Consumer reference could not be resolved structurally."

-- The end of the loop's body.
unfoldable pub conclude_reference :
    Platform
    → RegistrySnapshot
    → ℕ
    → IndexedContractChange
    → IndexedContractDefinition
    → IndexedContractReference
    → AliasStep
    → Checked ReferenceStep
conclude_reference p registry at change definition reference (refused d) = ok (diagnosed d)
conclude_reference p registry at change definition reference (kept basis) =
    elim (final_basis change reference basis) [
      | none ↦ ok (unresolved reference not_structural)
      | some declared_context ↦ ok (unresolved reference not_structural)
      | some behavioural_context ↦ ok (unresolved reference not_structural)
      | some exact ↦ link p registry at change definition reference exact
      | some registry_resolved ↦ link p registry at change definition reference registry_resolved
      | some heuristic ↦ link p registry at change definition reference heuristic
    ]

-- The first test of the loop's body.
unfoldable pub outside : Dict String → IndexedContractChange → IndexedContractReference → Bool
outside generations change reference =
    not (reference.workspace_id == change.workspace_id)
    || not (same_contract_kind reference.contract_kind change.contract_kind)
    || not (opt_eq (lookup reference.repository_id generations) (some reference.generation_id))

-- The body of the loop over the references, up to what it does to the maps.
unfoldable pub join_reference :
    Platform
    → RegistrySnapshot
    → ℕ
    → Dict String
    → IndexedContractChange
    → IndexedContractDefinition
    → IndexedContractReference
    → Checked ReferenceStep
join_reference p registry at generations change definition reference =
    if outside generations change reference
    then ok skipped
    else if context_only reference.context_basis
    then ok (
        unresolved reference
          "Context-only evidence cannot establish a structural consumer reference.")
    else alias_step p registry at change definition reference >>= λ step.
        conclude_reference p registry at change definition reference step
