-- ===== src/Delivery/Samples.antt =====
-- The inputs of a check that the tests share.
use reverb_impact.Base.{ℕ, String, true, false, none, [], ◌∷◌}
use reverb_impact.Canonical.{Platform}
use reverb_impact.Graph.{selected, current, complete}
use reverb_impact.Graph.Samples.{change, edge}
use reverb_impact.Promotion.Data.{
  PromotionRecord, PromotionVersionStamp, promoted, preview, promote, count,
}
use reverb_impact.Promotion.Deciding.{default_advisory_promotion_gate}
use reverb_impact.Delivery.Disclosure.{
  contract_identity, DisclosureFact, static, DisclosureInput, FindingDisclosureProjection,
  project_finding_disclosure,
}
use reverb_impact.Delivery.Data.{
  candidate, candidate_edge, breaking, coordinate, preview_only, FindingOccurrence, AnalysisResult,
  write, StaticFindingProjection, PlanInput,
}
use reverb_impact.Delivery.Data

abbrev pub host_runtime : Platform
host_runtime = record {
  collate_le = λ s1 s2. true;
  code_unit_le = λ s1 s2. true;
  utf16_length = λ s1. 2;
  trim = λ s1. s1;
  normalize_nfc = λ s1. s1;
  to_lower_case = λ s1. s1;
  stringify = λ s1. "[]";
  iso_text = λ s1. "2026";
  sha256_text = λ s1. s1;
}

abbrev pub fact : DisclosureFact
fact = record {
  field = contract_identity;
  name = "contract";
  value = "GET /x";
  subject_repository_id = "a";
  explicit_grant = true;
  app_can_read = true;
  whole_producer_audience_can_read = true;
  viewer_can_read = false;
}

abbrev pub hidden : DisclosureFact
hidden = record fact { name = "consumer"; value = "b"; whole_producer_audience_can_read = false }

abbrev pub disclosure_input : DisclosureInput
disclosure_input = record {
  workspace_id = "w";
  destination_repository_id = "a";
  audience = static;
  registry_revision = "reg_1";
  facts = fact ∷ hidden ∷ [];
}

abbrev pub disclosure : FindingDisclosureProjection
disclosure = project_finding_disclosure host_runtime disclosure_input

abbrev pub versions : PromotionVersionStamp
versions = record {
  producer_extractor_id = "openapi";
  producer_extractor_version = "1";
  consumer_extractor_id = "client";
  consumer_extractor_version = "1";
  identity_version = 1;
  join_strategy = "exact";
  evidence_composition = [];
  policy_revision = "p";
}

abbrev pub promotion : PromotionRecord
promotion = record {
  id = "pro_1";
  stratum_key = "k";
  state = promoted;
  previous_state = preview;
  decision = promote;
  reasons = [];
  gate = default_advisory_promotion_gate;
  evidence = record {
    stratum_key = "k";
    corpus_revision = "c";
    evaluation_report_hash = "e";
    simulator_result_hash = "s";
    metrics = record {
      actionable_total = count 200;
      actionable_wilson_lower_95 = count 1;
      edge_wilson_lower_95 = count 1;
      false_omission_total = count 200;
      alerted_pull_requests_per_thousand = count 1;
      latency_p95 = count 10;
    };
    confidentiality_defects = count 0;
    removal_coverage_defects = count 0;
    deliveries_without_remedy = count 0;
    versions = versions;
    window_started_at = 1;
    window_ended_at = 2;
  };
  decided_at = 5;
  decided_by = "ann";
  output_hash = "o";
}

abbrev pub finding : FindingOccurrence
finding = record {
  id = "f1";
  analysis_id = "an1";
  fingerprint = "fp";
  state = candidate;
  change = change;
  edge = edge "e1" "a" "b";
  consumer = selected current "b" "g2" "c2" 1 1 complete;
  claims = record { edge = candidate_edge; impact = breaking; action = coordinate };
  coverage_dependencies = [];
  remedy = record { kind = "restore"; remedy_text = "Restore the operation." };
  delivery = preview_only;
}

abbrev pub plan_input : PlanInput
plan_input = record {
  analysis = record {
    workspace_id = "w";
    producer_repository_id = "a";
    head_sha = "c1";
    policy_revision = "p";
    state = Data.complete;
    current = true;
    consumers = selected current "b" "g2" "c2" 1 1 complete ∷ [];
    findings = finding ∷ [];
    abstentions = [];
  };
  pull_request_number = 7;
  current_head_sha = "c1";
  now = 10;
  hard_deadline_at = 20;
  repository_in_scope = true;
  write_authorized = true;
  advisory_on = true;
  kill_switch = false;
  enabled_strata = "k" ∷ [];
  current_strata = record { stratum_key = "k"; versions = versions } ∷ [];
  promotions = promotion ∷ [];
  disclosures = ("fp", disclosure) ∷ [];
  producer_changed_locations = [];
  detail_url = "https://reverb.example";
  maximum_findings = none;
  maximum_annotations = none;
}

abbrev pub keep : String → ℕ → String
keep s n = s
