-- ===== src/Graph/Merging.antt =====
-- The loops of `joinChangedContracts` of packages/domain/src/graph.ts, and its result.
use reverb_impact.Base.{
  ◌<>◌, ℕ, String, Bool, true, not, ◌&&◌, Option, none, some, List, [], ◌∷◌, ◌++◌, map, ok, ◌>>=◌,
  if◌then◌else◌, Dict, values, lookup, insert, sort_by, sorted_unique,
}
use reverb_impact.Contracts.{kind_name}
use reverb_impact.Canonical.{Platform}
use reverb_impact.Errors.{Checked}
use reverb_impact.Registry.Data.{RegistrySnapshot}
use reverb_impact.Graph.{
  IndexedContractDefinition, IndexedContractReference, IndexedContractChange, EvidenceEdge,
  ConsumerGenerationSelection, selected, unavailable, unsupported_selection, DiagnosticCode,
  registry_ambiguity, registry_contradiction, unresolved_reference, JoinDiagnostic, JoinResult,
  is_exact, definition_for_change,
}
use reverb_impact.Graph.Joining.{ReferenceStep, skipped, diagnosed, linked, join_reference}

-- The maps that the loops fill.
pub record JoinState : Type 0 where
  pub edges : Dict EvidenceEdge
  pub diagnostics : List JoinDiagnostic

pub record JoinInput : Type 0 where
  pub changes : List IndexedContractChange
  pub definitions : List IndexedContractDefinition
  pub references : List IndexedContractReference
  pub selections : List ConsumerGenerationSelection
  pub registry : RegistrySnapshot
  pub observed_at : ℕ
  pub changed_registry_alias_keys : List String

-- `selectedGenerations`
unfoldable pub selected_generations : List ConsumerGenerationSelection → Dict String → Dict String
selected_generations [] m = m
selected_generations (selected kind repository generation sha at age coverage ∷ ss) m =
    selected_generations ss (insert repository generation m)
selected_generations (unavailable kind repository reason ∷ ss) m = selected_generations ss m
selected_generations (unsupported_selection repository generation sha at reason ∷ ss) m =
    selected_generations ss (insert repository generation m)

-- `prior === undefined || (prior.basis !== 'exact' && basis === 'exact')`
unfoldable pub replaces : Option EvidenceEdge → EvidenceEdge → Bool
replaces none edge = true
replaces (some prior) edge = not (is_exact prior.basis) && is_exact edge.basis

-- `dedupe`
abbrev pub dedupe_key : IndexedContractChange → IndexedContractReference → String
dedupe_key change reference =
    change.canonical_key <> "\0" <> reference.repository_id <> "\0" <> reference.stable_reference_id

-- What the loop's body does to the maps.
unfoldable pub record_step :
    IndexedContractChange → IndexedContractReference → JoinState → ReferenceStep → JoinState
record_step change reference st skipped = st
record_step change reference st (diagnosed d) = record st { diagnostics = st.diagnostics ++ d ∷ [] }
record_step change reference st (linked edge) =
    if replaces (lookup (dedupe_key change reference) st.edges) edge
    then record st { edges = insert (dedupe_key change reference) edge st.edges }
    else st

-- The loop over the references.
unfoldable pub join_references :
    Platform
    → RegistrySnapshot
    → ℕ
    → Dict String
    → IndexedContractChange
    → IndexedContractDefinition
    → List IndexedContractReference
    → JoinState
    → Checked JoinState
unfolding record_step
join_references p registry at generations change definition [] st = ok st
join_references p registry at generations change definition (reference ∷ references) st =
    join_reference p registry at generations change definition reference >>= λ step.
    join_references p registry at generations change definition references
      (record_step change reference st step)

-- The loop over the changes.
unfoldable pub join_changes :
    Platform → JoinInput → Dict String → List IndexedContractChange → JoinState → Checked JoinState
unfolding join_references
join_changes p input generations [] st = ok st
join_changes p input generations (change ∷ changes) st =
    elim (definition_for_change change input.definitions) [
      | none ↦ join_changes p input generations changes st
      | some definition ↦
          join_references p input.registry input.observed_at generations change definition
            input.references st
          >>= λ next. join_changes p input generations changes next
    ]

abbrev code_name : DiagnosticCode → String
code_name registry_ambiguity = "registry_ambiguity"
code_name registry_contradiction = "registry_contradiction"
code_name unresolved_reference = "unresolved_reference"

abbrev diagnostic_key : JoinDiagnostic → String
diagnostic_key d =
    d.consumer_repository_id <> "\0" <> d.stable_reference_id <> "\0" <> code_name d.code

abbrev pub edge_order : Platform → EvidenceEdge → EvidenceEdge → Bool
edge_order p left right = p.collate_le left.id right.id

abbrev diagnostic_order : Platform → JoinDiagnostic → JoinDiagnostic → Bool
diagnostic_order p left right = p.collate_le (diagnostic_key left) (diagnostic_key right)

-- `touchedKeys`, sorted
unfoldable pub touched : Platform → JoinInput → List String
touched p input = sorted_unique p.code_unit_le (
    map (λ change. kind_name change.contract_kind <> ":" <> change.canonical_key) input.changes
    ++ map (λ key. "registry:" <> key) input.changed_registry_alias_keys)

abbrev pub empty_join : JoinState
empty_join = record { edges = []; diagnostics = [] }

-- `joinChangedContracts`
unfoldable pub join_changed_contracts : Platform → JoinInput → Checked JoinResult
unfolding join_changes
join_changed_contracts p input =
    join_changes p input (selected_generations input.selections []) input.changes empty_join
    >>= λ st. ok (record {
      edges = sort_by (edge_order p) (values st.edges);
      diagnostics = sort_by (diagnostic_order p) st.diagnostics;
      touched_keys = touched p input;
    })
