-- ===== src/Delivery/Examples.antt =====
-- A check of one finding whose stratum is promoted.
use reverb_impact.Delivery.Samples.{host_runtime, disclosure_input, disclosure, plan_input, keep}
use reverb_impact.Base.{
  ◌+◌, ◌≤◌, String, true, false, none, some, length, ◌≡◌, refl, Memᴰ, lookup, insert, sort_by,
  from_entries,
}
use reverb_impact.Canonical.{hash_canonical, canonical_json}
use reverb_impact.Promotion.Data.{PromotionRecord}
use reverb_impact.Promotion.Deciding.{promotion_versions_equal}
use reverb_impact.Delivery.Disclosure.{
  DisclosureFact, static, omission_reason, project_facts, project_finding_disclosure,
}
use reverb_impact.Delivery.Data.{write, StaticFindingProjection}
use reverb_impact.Delivery.Disclosed.{IsPermitted, project-IsPermitted}
use reverb_impact.Delivery.Planning.{limit_of, current_promotion, promotion_of}
use reverb_impact.Delivery.Checks.{plan_git_hub_check}
use reverb_impact.Delivery.Promotions.{IsPromotion}
use reverb_impact.Delivery.Modes.{plan-write}
use reverb_impact.Delivery.Findings.{IsDeliverable, plan-IsDeliverable}

shown_contract : lookup "contract" disclosure.allowed ≡ some "GET /x"
unfolding project_finding_disclosure project_facts omission_reason lookup insert sort_by
shown_contract = refl

hidden_consumer : lookup "consumer" disclosure.allowed ≡ none
unfolding project_finding_disclosure project_facts omission_reason lookup insert sort_by
hidden_consumer = refl

project-IsPermitted_example :
    (f : DisclosureFact) × Memᴰ f disclosure_input.facts
    × (f.name ≡ "contract")
    × (f.value ≡ "GET /x")
    × IsPermitted static f
project-IsPermitted_example =
    project-IsPermitted host_runtime disclosure_input "contract" shown_contract

written : (plan_git_hub_check host_runtime keep plan_input).mode ≡ write
unfolding plan_git_hub_check promotion_of current_promotion promotion_versions_equal hash_canonical
    canonical_json from_entries insert lookup sort_by
written = refl

plan-write_example :
    (plan_input.repository_in_scope ≡ true)
    × (plan_input.analysis.head_sha ≡ plan_input.current_head_sha)
    × (plan_input.analysis.current ≡ true)
    × (plan_input.write_authorized ≡ true)
    × (plan_input.kill_switch ≡ false)
    × (plan_input.advisory_on ≡ true)
    × (stratum : String) × Memᴰ stratum plan_input.enabled_strata
    × (p : PromotionRecord) × IsPromotion host_runtime plan_input stratum p
plan-write_example = plan-write host_runtime keep plan_input written

plan-IsDeliverable_example :
    ((shown : StaticFindingProjection)
      → Memᴰ shown (plan_git_hub_check host_runtime keep plan_input).projection.findings
      → IsDeliverable host_runtime plan_input shown)
    × (length (plan_git_hub_check host_runtime keep plan_input).projection.findings
        ≤ limit_of plan_input.maximum_findings 20)
    × ((plan_git_hub_check host_runtime keep plan_input).projection.finding_total
        ≡ length (plan_git_hub_check host_runtime keep plan_input).projection.findings
          + (plan_git_hub_check host_runtime keep plan_input).projection.truncated_finding_count)
plan-IsDeliverable_example = plan-IsDeliverable host_runtime keep plan_input
