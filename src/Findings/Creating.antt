-- ===== src/Findings/Creating.antt =====
-- `createFindingOccurrences` of packages/domain/src/finding.ts, and its helpers. Identities made of a hash
-- pass the tests of their form.
use reverb_impact.Base.{
  ℕ, String, Bool, true, false, not, ◌&&◌, ◌||◌, Option, none, some, List, [], ◌∷◌, ◌++◌, ◌<>◌, map,
  if◌then◌else◌, Dict, lookup, from_entries, sort_by, sorted_unique,
}
use package.text.Mathlib.Text.{starts_with}
use reverb_impact.Canonical.{Platform, number, text, obj, hash_canonical}
use reverb_impact.Contracts.{kind_name}
use reverb_impact.Graph.{
  IndexedContractChange, EvidenceEdge, Compatibility, CoverageState, complete, Selected, current,
  stale, Unavailable, unauthorized, failed_selection, not_indexed, ConsumerGenerationSelection,
  selected, unavailable, unsupported_selection,
}
use reverb_impact.Graph
use reverb_impact.Delivery.Data.{
  abstained, preview_state, candidate_edge, abstained_edge, ImpactClaim, breaking,
  potentially_breaking, compatible, unknown_impact, ActionClaim, coordinate, review, no_action,
  preview_only, FindingOccurrence, FindingAbstention,
}

-- The input of `createFindingOccurrences`.
pub record CreateInput : Type 0 where
  pub analysis_id : String
  pub workspace_id : String
  pub producer_repository_id : String
  pub base_sha : String
  pub head_sha : String
  pub policy_major : ℕ
  pub changes : List IndexedContractChange
  pub edges : List EvidenceEdge
  pub consumers : List ConsumerGenerationSelection

-- `fingerprintFinding`
unfoldable pub fingerprint_finding :
    Platform → String → String → IndexedContractChange → EvidenceEdge → ℕ → String
fingerprint_finding p workspace_id producer_repository_id change edge policy_major =
    "fnd_"
    <> hash_canonical p (
        obj (
          ("workspaceId", text workspace_id)
          ∷ ("producerRepositoryId", text producer_repository_id)
          ∷ ("contractKind", text (kind_name change.contract_kind))
          ∷ ("canonicalKey", text change.canonical_key)
          ∷ ("changeKind", text change.change_kind)
          ∷ ("consumerRepositoryId", text edge.consumer_repository_id)
          ∷ ("stableReferenceId", text edge.stable_reference_id)
          ∷ ("policyMajor", number policy_major)
          ∷ []))

-- `occurrenceId`
abbrev pub occurrence_id : Platform → String → String → String → String → String
occurrence_id p analysis_id fingerprint base_sha head_sha =
    "occ_"
    <> hash_canonical p (
        obj (
          ("analysisId", text analysis_id)
          ∷ ("fingerprint", text fingerprint)
          ∷ ("baseSha", text base_sha)
          ∷ ("headSha", text head_sha)
          ∷ []))

-- `abstentionFor`
abbrev pub abstention_for : ConsumerGenerationSelection → Option String
abstention_for (selected stale r g c t a s) = some "stale_consumer_generation"
abstention_for (unsupported_selection r g c t why) = some "unsupported_language"
abstention_for (unavailable unauthorized r why) = some "privacy_restricted"
abstention_for (unavailable failed_selection r why) = some "incomplete_index"
abstention_for (unavailable not_indexed r why) = some "incomplete_index"
abstention_for (selected current r g c t a s) = none

-- `consumer.repositoryId`
abbrev pub repository_of : ConsumerGenerationSelection → String
repository_of (selected which r g c t a s) = r
repository_of (unavailable why r reason) = r
repository_of (unsupported_selection r g c t why) = r

-- `consumer.state`
abbrev pub state_name : ConsumerGenerationSelection → String
state_name (selected current r g c t a s) = "current"
state_name (selected stale r g c t a s) = "stale"
state_name (unavailable unauthorized r why) = "unauthorized"
state_name (unavailable failed_selection r why) = "failed"
state_name (unavailable not_indexed r why) = "not_indexed"
state_name (unsupported_selection r g c t why) = "unsupported"

-- A text stands somewhere in another.
unfoldable pub contains : String → String → Bool
contains String.[] part = starts_with "" part
contains (String.◌∷◌ c rest) part =
    let later = contains rest part in starts_with (String.◌∷◌ c rest) part || later

abbrev pub is_complete : CoverageState → Bool
is_complete complete = true
is_complete _ = false

-- /removed|deleted/.test(changeKind)
abbrev pub is_removal : String → Bool
is_removal change_kind = contains change_kind "removed" || contains change_kind "deleted"

-- `producerIncomplete`
abbrev pub producer_incomplete : IndexedContractChange → Bool
producer_incomplete change =
    not (is_complete change.coverage_state) && is_removal change.change_kind

-- `reason`
abbrev pub reason_of : IndexedContractChange → ConsumerGenerationSelection → Option String
reason_of change consumer =
    if producer_incomplete change then some "incomplete_index" else abstention_for consumer

abbrev impact_of : Compatibility → ImpactClaim
impact_of Graph.breaking = breaking
impact_of Graph.potentially_breaking = potentially_breaking
impact_of Graph.compatible = compatible
impact_of Graph.unknown_compatibility = unknown_impact

abbrev action_of : Compatibility → ActionClaim
action_of Graph.breaking = coordinate
action_of Graph.potentially_breaking = coordinate
action_of Graph.unknown_compatibility = review
action_of Graph.compatible = no_action

-- `reason === undefined ? kept : left`
abbrev pub unless_reason {ℓ} : {A : Type ℓ} → Option String → A → A → A
unless_reason none kept left = kept
unless_reason (some reason) kept left = left

-- `${contractKind}\0${canonicalKey}`
abbrev pub change_key : String → String → String
change_key kind key = kind <> "\0" <> key

-- `changes` and `selections`
abbrev pub changes_of : CreateInput → Dict IndexedContractChange
changes_of input = from_entries [] (
    map (λ change. (change_key (kind_name change.contract_kind) change.canonical_key, change))
      input.changes)

abbrev pub selections_of : CreateInput → Dict ConsumerGenerationSelection
selections_of input =
    from_entries [] (map (λ selection. (repository_of selection, selection)) input.consumers)

-- The finding of an edge with its change and its consumer.
unfoldable pub build_finding :
    Platform
    → CreateInput
    → EvidenceEdge
    → IndexedContractChange
    → ConsumerGenerationSelection
    → FindingOccurrence
build_finding p input edge change consumer =
    let fingerprint =
      fingerprint_finding p input.workspace_id input.producer_repository_id change edge
        input.policy_major in
    let reason = reason_of change consumer in
    record {
      id = occurrence_id p input.analysis_id fingerprint input.base_sha input.head_sha;
      analysis_id = input.analysis_id;
      fingerprint = fingerprint;
      state = unless_reason reason preview_state abstained;
      change = change;
      edge = edge;
      consumer = consumer;
      claims = record {
        edge = unless_reason reason candidate_edge abstained_edge;
        impact = impact_of change.compatibility;
        action = action_of change.compatibility;
      };
      coverage_dependencies =
          sorted_unique p.code_unit_le
            (change.coverage_dependencies ++ ("consumer:" <> state_name consumer) ∷ []);
      remedy = record { kind = change.remedy_kind; remedy_text = change.remedy_text };
      delivery = preview_only;
    }

-- The abstention that stands beside the finding, if there is a reason.
abbrev pub abstention_of :
    Platform
    → CreateInput
    → EvidenceEdge
    → IndexedContractChange
    → ConsumerGenerationSelection
    → Option String
    → List FindingAbstention
abstention_of p input edge change consumer none = []
abstention_of p input edge change consumer (some reason) =
    record {
      fingerprint = some (
          fingerprint_finding p input.workspace_id input.producer_repository_id change edge
            input.policy_major);
      consumer_repository_id = repository_of consumer;
      reason = reason;
      safe_message =
          if producer_incomplete change
          then "Producer coverage is incomplete for a removal-sensitive claim."
          else "Consumer snapshot cannot support a current impact claim.";
    }
    ∷ []

-- `findings` and `abstentions`
pub record Created : Type 0 where
  pub findings : List FindingOccurrence
  pub abstentions : List FindingAbstention

-- What one turn of the loop leaves, with the change and the consumer of the edge.
abbrev pub create_one :
    Platform
    → CreateInput
    → EvidenceEdge
    → Option IndexedContractChange
    → Option ConsumerGenerationSelection
    → Created
    → Created
create_one p input edge (some change) (some consumer) state = record {
  findings = state.findings ++ build_finding p input edge change consumer ∷ [];
  abstentions =
      state.abstentions ++ abstention_of p input edge change consumer (reason_of change consumer);
}
create_one p input edge _ _ state = state

-- The loop over the edges.
unfoldable pub create_all : Platform → CreateInput → List EvidenceEdge → Created → Created
unfolding build_finding
create_all p input [] state = state
create_all p input (edge ∷ edges) state = create_all p input edges (
    create_one p input edge
      (lookup (change_key (kind_name edge.contract_kind) edge.definition_key) (changes_of input))
      (lookup edge.consumer_repository_id (selections_of input)) state)

-- The comparators of the results.
abbrev pub finding_order : Platform → FindingOccurrence → FindingOccurrence → Bool
finding_order p left right = p.collate_le left.fingerprint right.fingerprint

abbrev pub abstention_order : Platform → FindingAbstention → FindingAbstention → Bool
abstention_order p left right =
    p.collate_le (left.consumer_repository_id <> "\0" <> left.reason)
      (right.consumer_repository_id <> "\0" <> right.reason)

-- `createFindingOccurrences`
unfoldable pub create_finding_occurrences : Platform → CreateInput → Created
unfolding create_all
create_finding_occurrences p input =
    let state : Created =
      create_all p input input.edges (record { findings = []; abstentions = [] }) in
    record {
      findings = sort_by (finding_order p) state.findings;
      abstentions = sort_by (abstention_order p) state.abstentions;
    }
