-- ===== src/Delivery/Checks.antt =====
-- The projection and the plan of `planGitHubCheck` of packages/domain/src/delivery.ts.
use reverb_impact.Base.{
  ℕ, ◌-◌, String, Bool, true, false, not, ◌||◌, List, [], ◌∷◌, ◌++◌, ◌<>◌, filter, length, ltb,
  nat_eq, if◌then◌else◌,
}
use reverb_impact.Canonical.{Platform, number, text, obj, hash_canonical}
use reverb_impact.Graph.{
  ConsumerGenerationSelection, selected, unavailable, current, unauthorized, failed_selection,
}
use reverb_impact.Delivery.Data.{
  StaticFindingProjection, CheckConclusion, success, neutral, skipped, CheckCoverage,
  GitHubCheckProjection, CheckDeliveryPlan, PlanInput,
}
use reverb_impact.Delivery.Planning.{
  take, promoted_of, findings_of, limit_of, eligible_annotations, timed_out_or_incomplete,
  mode_and_reason,
}

abbrev is_current : ConsumerGenerationSelection → Bool
is_current (selected current r g c t a s) = true
is_current _ = false

abbrev is_unauthorized : ConsumerGenerationSelection → Bool
is_unauthorized (unavailable unauthorized r why) = true
is_unauthorized _ = false

abbrev is_failed : ConsumerGenerationSelection → Bool
is_failed (unavailable failed_selection r why) = true
is_failed _ = false

-- `coverage`
abbrev pub coverage_of : PlanInput → CheckCoverage
coverage_of input = record {
  analysis_state = input.analysis.state;
  current_consumers = length (filter is_current input.analysis.consumers);
  permission_limited_consumers = length (filter is_unauthorized input.analysis.consumers);
  failed_consumers = length (filter is_failed input.analysis.consumers);
  abstentions = length input.analysis.abstentions;
}

-- `conclusion`
abbrev pub conclusion_of : PlanInput → List StaticFindingProjection → CheckConclusion
conclusion_of input findings =
    if not input.repository_in_scope
    then skipped
    else if timed_out_or_incomplete input || ltb 0 (length findings)
    then neutral
    else success

abbrev is_skipped : CheckConclusion → Bool
is_skipped skipped = true
is_skipped _ = false

abbrev plural : ℕ → String
plural n = if nat_eq n 1 then "" else "s"

-- `title`
abbrev pub title_of : Platform → PlanInput → List StaticFindingProjection → String
title_of p input findings =
    if is_skipped (conclusion_of input findings)
    then "Reverb analysis skipped"
    else if timed_out_or_incomplete input
    then "Reverb analysis incomplete"
    else if nat_eq (length findings) 0
    then "No promoted cross-repository impacts found"
    else p.stringify (number (length findings))
      <> " advisory cross-repository impact"
      <> plural (length findings)

abbrev summary_of : Platform → PlanInput → List StaticFindingProjection → String
summary_of p input findings =
    "Analysed exact head "
    <> input.analysis.head_sha
    <> ". "
    <> p.stringify (number (length findings))
    <> " promoted, disclosure-safe finding"
    <> plural (length findings)
    <> " selected."

-- `limitations`, with the number of annotations that are left out
abbrev pub limitations_of : Platform → PlanInput → ℕ → List String
limitations_of p input truncated =
    ("Advisory only; this check never controls merge eligibility."
      ∷ "Some evidence may be unavailable due to permissions." ∷ [])
    ++ (if timed_out_or_incomplete input
        then "Analysis was incomplete at the hard delivery deadline." ∷ []
        else [])
    ++ (if ltb 0 truncated
        then (p.stringify (number truncated) <> " safe annotations omitted due to provider limits.")
          ∷ []
        else [])

-- `checkKey`
abbrev pub check_key_of : Platform → PlanInput → String
check_key_of p input = hash_canonical p (
    obj (
      ("workspaceId", text input.analysis.workspace_id)
      ∷ ("repositoryId", text input.analysis.producer_repository_id)
      ∷ ("pullRequestNumber", number input.pull_request_number)
      ∷ ("headSha", text input.analysis.head_sha)
      ∷ ("policyRevision", text input.analysis.policy_revision)
      ∷ []))

-- `displayedFindings`
abbrev pub displayed_of : Platform → PlanInput → List StaticFindingProjection
displayed_of p input = take (limit_of input.maximum_findings 20) (findings_of p input)

-- `projection`
unfoldable pub build_projection :
    Platform → (String → ℕ → String) → PlanInput → GitHubCheckProjection
build_projection p slice_text input =
    let findings = findings_of p input in
    let displayed = displayed_of p input in
    let eligible = eligible_annotations slice_text displayed input.producer_changed_locations in
    let annotation_limit = limit_of input.maximum_annotations 50 in
    let truncated = length eligible - annotation_limit in
    record {
      check_key = check_key_of p input;
      workspace_id = input.analysis.workspace_id;
      repository_id = input.analysis.producer_repository_id;
      pull_request_number = input.pull_request_number;
      head_sha = input.analysis.head_sha;
      policy_revision = input.analysis.policy_revision;
      conclusion = conclusion_of input findings;
      advisory = true;
      never_blocking = true;
      title = title_of p input findings;
      summary = summary_of p input findings;
      coverage = coverage_of input;
      findings = displayed;
      finding_total = length findings;
      truncated_finding_count = length findings - length displayed;
      annotations = take annotation_limit eligible;
      truncated_annotation_count = truncated;
      limitations = limitations_of p input truncated;
      detail_url = input.detail_url;
    }

-- `planGitHubCheck`
unfoldable pub plan_git_hub_check : Platform → (String → ℕ → String) → PlanInput → CheckDeliveryPlan
unfolding build_projection
plan_git_hub_check p slice_text input =
    let outcome = mode_and_reason input (promoted_of p input) in
    record {
      mode = outcome.0;
      reason = outcome.1;
      projection = build_projection p slice_text input;
    }
