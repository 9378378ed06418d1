-- ===== src/Graph/Samples.antt =====
-- Values of the graph's types that the tests share.
use reverb_impact.Base.{String, none, some, []}
use reverb_impact.Contracts.{openapi_operation}
use reverb_impact.Graph.{
  exact, AdapterMarks, IndexedContractDefinition, IndexedContractReference, IndexedContractChange,
  EvidenceEdge, breaking, current_runtime, complete, path_for,
}

abbrev pub marks : AdapterMarks
marks = record {
  adapter_id = "openapi";
  adapter_version = "1";
  identity_version = 1;
  config_revision = "cfg_1";
  evidence_stratum = "s";
}

abbrev pub definition : IndexedContractDefinition
definition = record {
  workspace_id = "w";
  repository_id = "a";
  generation_id = "g1";
  commit_sha = "c1";
  service_id = none;
  contract_kind = openapi_operation;
  canonical_key = "GET /x";
  path = "api.yaml";
  range = none;
  content_hash = "h1";
  shape_hash = "h2";
  marks = marks;
}

abbrev pub reference : IndexedContractReference
reference = record {
  workspace_id = "w";
  repository_id = "b";
  generation_id = "g2";
  commit_sha = "c2";
  consumer_service_id = none;
  contract_kind = openapi_operation;
  canonical_key = some "GET /x";
  constrained_contract_key = none;
  unresolved_pattern = none;
  registry_target = none;
  stable_reference_id = "ref_1";
  path = "client.ts";
  range = none;
  content_hash = "h3";
  marks = marks;
  activation = current_runtime;
  context_basis = none;
}

abbrev pub change : IndexedContractChange
change = record {
  workspace_id = "w";
  producer_repository_id = "a";
  base_generation_id = "g0";
  head_generation_id = some "g1";
  base_sha = "c0";
  head_sha = "c1";
  contract_kind = openapi_operation;
  canonical_key = "GET /x";
  change_kind = "removed";
  compatibility = breaking;
  activation = current_runtime;
  adapter_id = "openapi";
  adapter_version = "1";
  identity_version = 1;
  coverage_state = complete;
  coverage_dependencies = [];
  remedy_kind = "restore";
  remedy_text = "Restore the operation.";
}

abbrev pub edge : String → String → String → EvidenceEdge
edge id producer consumer = record {
  id = id;
  workspace_id = "w";
  producer_repository_id = producer;
  consumer_repository_id = consumer;
  producer_generation_id = "g1";
  consumer_generation_id = "g2";
  definition_key = "GET /x";
  stable_reference_id = "ref_1";
  contract_kind = openapi_operation;
  basis = exact;
  primary_path = path_for exact definition reference;
  stratum_key = "k";
  registry_revision = "reg_1";
  first_observed_at = 50;
  last_observed_at = 50;
  invalidated_at = none;
  invalidation_reason = none;
  definition = definition;
  reference = reference;
}
