-- ===== src/Findings/Examples.antt =====
-- An analysis whose one finding a check shows.
use reverb_impact.Base.{
  [], ◌∷◌, ◌≡◌, refl, Memᴰ, lookup, insert, sort_by, from_entries, unique, unique_from,
  sorted_unique,
}
use reverb_impact.Canonical.{hash_canonical, canonical_json}
use reverb_impact.Graph.{selected, current, complete}
use reverb_impact.Graph.Samples.{change, edge}
use reverb_impact.Promotion.Deciding.{promotion_versions_equal}
use reverb_impact.Delivery.Data.{StaticFindingProjection, FindingOccurrence, PlanInput}
use reverb_impact.Delivery.Planning.{
  static_finding, current_promotion, promotion_of, project_finding,
}
use reverb_impact.Delivery.Checks.{build_projection, plan_git_hub_check}
use reverb_impact.Delivery.Findings.{IsShownOf}
use reverb_impact.Delivery.Samples.{host_runtime, promotion, disclosure, plan_input, keep}
use reverb_impact.Findings.Creating.{
  CreateInput, contains, build_finding, create_all, create_finding_occurrences, fingerprint_finding,
}
use reverb_impact.Findings.Current.{IsJoined, IsSupported, shown-IsSupported}

abbrev analysed : CreateInput
analysed = record {
  analysis_id = "an1";
  workspace_id = "w";
  producer_repository_id = "a";
  base_sha = "c0";
  head_sha = "c1";
  policy_major = 1;
  changes = change ∷ [];
  edges = edge "e1" "a" "b" ∷ [];
  consumers = selected current "b" "g2" "c2" 1 1 complete ∷ [];
}

abbrev created_finding : FindingOccurrence
created_finding =
    build_finding host_runtime analysed (edge "e1" "a" "b") change
      (selected current "b" "g2" "c2" 1 1 complete)

created : (create_finding_occurrences host_runtime analysed).findings ≡ created_finding ∷ []
unfolding create_finding_occurrences create_all from_entries insert lookup sort_by
created = refl

abbrev check_input : PlanInput
check_input = record plan_input {
  analysis = record (plan_input.analysis) {
    findings = (create_finding_occurrences host_runtime analysed).findings;
  };
  disclosures = (created_finding.fingerprint, disclosure) ∷ [];
}

abbrev shown : StaticFindingProjection
shown = static_finding created_finding promotion disclosure

projected : (plan_git_hub_check host_runtime keep check_input).projection.findings ≡ shown ∷ []
unfolding plan_git_hub_check build_projection project_finding promotion_of current_promotion
    promotion_versions_equal hash_canonical canonical_json from_entries insert lookup sort_by
    create_finding_occurrences create_all build_finding contains fingerprint_finding unique
    unique_from sorted_unique
projected = refl

shown-IsSupported_example :
    (f : FindingOccurrence) × Memᴰ f (create_finding_occurrences host_runtime analysed).findings
    × IsShownOf f shown
    × IsJoined analysed f
    × IsSupported f
shown-IsSupported_example =
    shown-IsSupported host_runtime keep check_input analysed shown refl
      (rw projected (Memᴰ.head refl))
