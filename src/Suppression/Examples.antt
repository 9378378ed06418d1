-- ===== src/Suppression/Examples.antt =====
-- Suppression rules at work.
use reverb_impact.Base.{
  Option, ℕ, String, true, none, some, [], ◌∷◌, ◌≡◌, refl, ◌↔◌, ok, Memᴰ, arith, sort_by,
}
use reverb_impact.Contracts.{openapi_operation}
use reverb_impact.Canonical.{Platform, hash_canonical, canonical_json}
use reverb_impact.Suppression.{
  SuppressionScope, SuppressionInput, SuppressionRule, SuppressionStateEvent, SuppressionCandidate,
  SuppressionVersions, active, not_suppressed, renewed, by_stable_finding, policy_revision,
  repository_owner, suppression_role_authorized, holds, matcher_matches, latest_event,
  resolve_suppression, match_suppression,
}
use reverb_impact.Suppression.Lifecycle.{IsLatest, IsInForceAfter, resolve-active_iff}
use reverb_impact.Suppression.Matching.{
  Applies, IsFirst, match-suppressed, match-not_suppressed_iff,
}
use reverb_impact.Suppression.Creation.{
  IsAdmissible, IsRecorded, create_suppression_rule, create-ok_iff, create-active,
}
use reverb_impact.Suppression.Audit.{
  total, audit_suppressions, Tally, IsActive, IsActiveOf, audit-counts,
}

-- A runtime whose texts have twenty code units and whose hash changes nothing.
abbrev runtime : Platform
runtime = record {
  collate_le = λ left right. true;
  code_unit_le = λ left right. true;
  utf16_length = λ value. 20;
  trim = λ value. value;
  normalize_nfc = λ value. value;
  to_lower_case = λ value. value;
  stringify = λ value. "h";
  iso_text = λ value. "";
  sha256_text = λ value. value;
}

abbrev request : SuppressionInput
request = record {
  workspace_id = "w";
  matcher = by_stable_finding "fnd_1";
  owner = record { actor_id = "ann"; role = repository_owner; authorization_revision = "r1" };
  justification = "known and accepted";
  created_at = 100;
  review_at = 200;
  expires_at = 300;
  invalidation_predicates = policy_revision "p1" ∷ [];
}

abbrev rule : SuppressionRule
rule = record { id = "sup_h"; input = request; justification_hash = "h" }

abbrev versions : ℕ → SuppressionVersions
versions now = record {
  now = now;
  producer_generations = [];
  consumer_generations = [];
  reference_hashes = [];
  contract_shape_hashes = [];
  identity_versions = [];
  adapter_versions = [];
  evidence_strata = [];
  policy_revision = "p1";
  registry_revision = "r1";
}

abbrev renewal : SuppressionStateEvent
renewal = record {
  id = "e1";
  workspace_id = "w";
  suppression_rule_id = "sup_h";
  occurred_at = 150;
  actor_id = "ann";
  state = renewed;
  reason = "still accepted";
  next_review_at = some 400;
  next_expires_at = some 500;
}

abbrev candidate : String → SuppressionCandidate
candidate workspace = record {
  workspace_id = workspace;
  occurrence_id = "occ_1";
  fingerprint = "fnd_1";
  producer_repository_id = "a";
  consumer_repository_id = "b";
  contract_kind = openapi_operation;
  canonical_contract_key = "GET /x";
  adapter_id = "openapi";
  adapter_rule_ids = [];
}

created : create_suppression_rule runtime request ≡ ok rule
unfolding create_suppression_rule suppression_role_authorized hash_canonical sort_by canonical_json
created = refl

create-ok_iff_example :
    ((r : SuppressionRule) × (create_suppression_rule runtime request ≡ ok r)
      × IsRecorded runtime request r)
    ↔ IsAdmissible runtime request
create-ok_iff_example = create-ok_iff runtime request

create-active_example : (resolve_suppression rule (versions 150) []).state ≡ active
unfolding holds
create-active_example =
    create-active runtime request (versions 150) [] created (λ e m. elim m [ ]) (omega arith)
      (omega arith) (refl, tt)

-- The renewal moves the review date and the expiry.
renewed_active : (resolve_suppression rule (versions 350) (renewal ∷ [])).state ≡ active
unfolding resolve_suppression latest_event holds sort_by
renewed_active = refl

resolve-active_iff_example :
    (latest : Option SuppressionStateEvent) × IsLatest "sup_h" (renewal ∷ []) latest
    × (((resolve_suppression rule (versions 350) (renewal ∷ [])).state ≡ active)
        ↔ IsInForceAfter rule (versions 350) latest)
resolve-active_iff_example = resolve-active_iff rule (versions 350) (renewal ∷ [])

match-suppressed_example :
    (r : SuppressionRule) × IsFirst (candidate "w") (versions 150) [] runtime (rule ∷ []) r
    × (r.id ≡ "sup_h")
    × (resolve_suppression r (versions 150) [] ≡ record { state = active; reason = none })
unfolding match_suppression resolve_suppression latest_event holds matcher_matches sort_by
match-suppressed_example =
    match-suppressed (candidate "w") (versions 150) [] runtime (rule ∷ []) refl

match-not_suppressed_iff_example :
    (match_suppression runtime (candidate "other") (versions 150) (rule ∷ []) [] ≡ not_suppressed)
    ↔ ((r : SuppressionRule)
        → Memᴰ r (rule ∷ [])
        → ¬ Applies (candidate "other") (versions 150) [] r)
match-not_suppressed_iff_example =
    match-not_suppressed_iff (candidate "other") (versions 150) [] runtime (rule ∷ [])

audit-counts_example :
    ((scope : SuppressionScope) (n : ℕ)
      → Memᴰ (scope, n) (audit_suppressions (rule ∷ rule ∷ []) (versions 150) []).active_by_scope
      → Tally (IsActiveOf scope (versions 150) []) (rule ∷ rule ∷ []) n)
    × Tally
        (IsActive (versions 150) [])
        (rule ∷ rule ∷ [])
        (total (audit_suppressions (rule ∷ rule ∷ []) (versions 150) []).active_by_scope)
audit-counts_example = audit-counts (rule ∷ rule ∷ []) (versions 150) []
