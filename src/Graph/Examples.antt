-- ===== src/Graph/Examples.antt =====
-- Joins, observations and transitive candidates on small graphs.
use reverb_impact.Graph.Samples.{definition, reference, change, edge}
use reverb_impact.Base.{
  true, some, List, [], ◌∷◌, ◌≡◌, refl, ◌↔◌, ok, Memᴰ, lookup, insert, sort_by, sorted_unique,
  unique,
}
use reverb_impact.Canonical.{Platform, hash_canonical, canonical_json}
use reverb_impact.Registry.Data.{RegistrySnapshot}
use reverb_impact.Graph.{
  EvidenceEdge, JoinResult, TransitiveImpactCandidate, complete, current, selected,
  definition_for_change, evidence_stratum_key, edge_identity, path_for, registry_request,
}
use reverb_impact.Graph.Joining.{
  initial_basis, final_basis, alias_step, link, conclude_reference, outside, join_reference,
}
use reverb_impact.Graph.Merging.{
  JoinInput, selected_generations, touched, replaces, join_changed_contracts,
}
use reverb_impact.Graph.Soundness.{IsSupported, join-IsSupported}
use reverb_impact.Graph.Observation.{
  apply_complete_reference_observation, current_evidence_edges, Survives, observed-current_iff,
}
use reverb_impact.Graph.Transitive.{
  TransitiveInput, adjacency, is_usable, candidate_for, derive_bounded_transitive_candidates,
}
use reverb_impact.Graph.Fuel.{derive-total}
use reverb_impact.Graph.Walks.{IsTransitive}
use reverb_impact.Graph.Candidates.{derive-IsTransitive}

abbrev runtime : Platform
runtime = record {
  collate_le = λ left right. true;
  code_unit_le = λ left right. true;
  utf16_length = λ value. 20;
  trim = λ value. value;
  normalize_nfc = λ value. value;
  to_lower_case = λ value. value;
  stringify = λ value. "h";
  iso_text = λ value. "";
  sha256_text = λ value. value;
}

abbrev registry : RegistrySnapshot
registry = record {
  schema = "reverb.registry-snapshot";
  schema_version = "1.0";
  revision = record {
    workspace_id = "w";
    revision = "reg_1";
    config_revision = "cfg_1";
    sequence = 1;
    created_at = 0;
    created_by = "ann";
    source = "test";
    reason = "test";
    config_hash = "h";
  };
  repositories = [];
  services = [];
  aliases = [];
  consents = [];
}

abbrev join_input : JoinInput
join_input = record {
  changes = change ∷ [];
  definitions = definition ∷ [];
  references = reference ∷ [];
  selections = selected current "b" "g2" "c2" 40 10 complete ∷ [];
  registry = registry;
  observed_at = 50;
  changed_registry_alias_keys = [];
}

abbrev joined_edge : EvidenceEdge
joined_edge = record (edge "edg_h" "a" "b") {
  stratum_key =
      "openapi_operation|openapi@1#h.s|openapi@1#h.s|exact|producer_definition:exact+consumer_reference:exact|v1";
}

abbrev joined : JoinResult
joined = record {
  edges = joined_edge ∷ [];
  diagnostics = [];
  touched_keys = "openapi_operation:GET /x" ∷ [];
}

joined_ok : join_changed_contracts runtime join_input ≡ ok joined
unfolding join_changed_contracts definition_for_change join_reference outside lookup
    selected_generations insert alias_step registry_request conclude_reference final_basis link
    evidence_stratum_key path_for sort_by touched replaces sorted_unique edge_identity unique
    hash_canonical canonical_json initial_basis
joined_ok = refl

join-IsSupported_example : IsSupported runtime join_input joined_edge
join-IsSupported_example = join-IsSupported runtime join_input joined_ok (Memᴰ.head refl)

abbrev chain : List EvidenceEdge
chain = edge "e1" "a" "b" ∷ edge "e2" "b" "c" ∷ edge "e3" "c" "a" ∷ []

observed-current_iff_example :
    Memᴰ
      (edge "e2" "b" "c")
      (current_evidence_edges (apply_complete_reference_observation "b" [] chain 60 true) 100 60)
    ↔ (Memᴰ (edge "e2" "b" "c") (current_evidence_edges chain 100 60)
        × Survives "b" [] (edge "e2" "b" "c"))
observed-current_iff_example = observed-current_iff "b" [] chain 60 100 60 (edge "e2" "b" "c")

abbrev search_input : TransitiveInput
search_input = record {
  workspace_id = "w";
  producer_repository_id = "a";
  definition_key = "GET /x";
  current_edges = chain;
  maximum_depth = some 3;
}

abbrev found : TransitiveImpactCandidate
found = record {
  fingerprint = "fnd_h";
  workspace_id = "w";
  producer_repository_id = "a";
  downstream_repository_id = "c";
  definition_key = "GET /x";
  depth = 2;
  repository_path = "a" ∷ "b" ∷ "c" ∷ [];
  evidence_edge_ids = "e1" ∷ "e2" ∷ [];
}

search_ends : derive_bounded_transitive_candidates runtime search_input ≡ some (found ∷ [])
unfolding derive_bounded_transitive_candidates lookup adjacency is_usable insert sort_by
    candidate_for hash_canonical canonical_json
search_ends = refl

derive-total_example :
    (result : List TransitiveImpactCandidate) × (derive_bounded_transitive_candidates runtime
        search_input
      ≡ some result)
derive-total_example = derive-total runtime search_input

derive-IsTransitive_example : IsTransitive runtime search_input found
derive-IsTransitive_example = derive-IsTransitive runtime search_input search_ends (Memᴰ.head refl)
