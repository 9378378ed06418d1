-- ===== src/Promotion/Examples.antt =====
-- A stratum that is promoted, then demoted for a defect, then promoted again.
use reverb_impact.Base.{
  All, ℕ, true, List, [], ◌∷◌, none, some, Option, ◌≡◌, ◌≢◌, refl, ok, sort_by,
}
use reverb_impact.Canonical.{Platform, hash_canonical, canonical_json}
use reverb_impact.Promotion.Data.{
  count, less, PromotionVersionStamp, PromotionEvidence, PromotionRecord, DecideInput, promoted,
  demoted, default_gate,
}
use reverb_impact.Promotion.Deciding.{
  promotion_versions_equal, gate_failures, build_record, decide_promotion,
}
use reverb_impact.Promotion.Gates.{IsMet}
use reverb_impact.Promotion.Histories.{History, start, next, history-demoted}

abbrev runtime : Platform
runtime = record {
  collate_le = λ x y. true;
  code_unit_le = λ x y. true;
  utf16_length = λ x. 64;
  trim = λ x. x;
  normalize_nfc = λ x. x;
  to_lower_case = λ x. x;
  stringify = λ x. "";
  iso_text = λ x. "1970";
  sha256_text = λ x. "sha";
}

abbrev stamp : PromotionVersionStamp
stamp = record {
  producer_extractor_id = "openapi";
  producer_extractor_version = "1.0";
  consumer_extractor_id = "typescript";
  consumer_extractor_version = "2.0";
  identity_version = 1;
  join_strategy = "exact";
  evidence_composition = "http" ∷ [];
  policy_revision = "p1";
}

abbrev evidence_with : ℕ → PromotionEvidence
evidence_with defects = record {
  stratum_key = "s";
  corpus_revision = "c";
  evaluation_report_hash = "e";
  simulator_result_hash = "f";
  metrics = record {
    actionable_total = count 120;
    actionable_wilson_lower_95 = record { numerator = 92; denominator = 100 };
    edge_wilson_lower_95 = record { numerator = 19; denominator = 20 };
    false_omission_total = count 100;
    alerted_pull_requests_per_thousand = count 40;
    latency_p95 = count 1000;
  };
  confidentiality_defects = count defects;
  removal_coverage_defects = count 0;
  deliveries_without_remedy = count 0;
  versions = stamp;
  window_started_at = 1;
  window_ended_at = 2;
}

abbrev input_with : Option PromotionRecord → ℕ → DecideInput
input_with previous defects = record {
  previous = previous;
  evidence = evidence_with defects;
  gate = default_gate;
  decided_at = 3;
  decided_by = "ann";
  compatibility_evaluation_hash = none;
}

abbrev first_record : PromotionRecord
first_record = build_record runtime (input_with none 0) "o1"

abbrev second_record : PromotionRecord
second_record = build_record runtime (input_with (some first_record) 1) "o2"

decided : decide_promotion runtime (input_with none 0) "o1" ≡ ok first_record
unfolding decide_promotion
decided = refl

decided_again : decide_promotion runtime (input_with (some first_record) 1) "o2" ≡ ok second_record
unfolding decide_promotion
decided_again = refl

history : History runtime "s" (second_record ∷ first_record ∷ [])
history =
    next (start (input_with none 0) "o1" refl refl decided) (input_with (some first_record) 1) "o2"
      refl refl decided_again

is_demoted : second_record.state ≡ demoted
unfolding build_record promotion_versions_equal gate_failures less hash_canonical canonical_json
    sort_by
is_demoted = refl

history-demoted_example :
    (before : PromotionRecord) × (earlier : List PromotionRecord) × (first_record ∷ []
      ≡ before ∷ earlier)
    × (before.state ≡ promoted)
    × IsMet before.evidence before.gate
    × (second_record.reasons ≢ [])
    × All (λ (s : PromotionRecord). s.stratum_key ≡ "s") (second_record ∷ first_record ∷ [])
history-demoted_example = history-demoted runtime "s" history is_demoted
