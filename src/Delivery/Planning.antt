-- ===== src/Delivery/Planning.antt =====
-- `planGitHubCheck` of packages/domain/src/delivery.ts. `slice_text` is JavaScript's `text.slice(0, n)`.
use reverb_impact.Base.{
  ℕ, zero, suc, String, Bool, true, false, not, ◌&&◌, ◌||◌, Option, none, some, List, [], ◌∷◌, ◌++◌,
  ◌<>◌, map, filter, find, any, includes, last, length, ◌==◌, leb, nat_eq, if◌then◌else◌, Dict,
  lookup, from_entries, sort_by,
}
use reverb_impact.Canonical.{Platform}
use reverb_impact.Promotion.Data.{PromotionRecord}
use reverb_impact.Promotion.Deciding.{promotion_versions_equal}
use reverb_impact.Controls.Switches.{is_promoted}
use reverb_impact.Delivery.Disclosure.{FindingDisclosureProjection}
use reverb_impact.Delivery.Data.{
  FindingState, abstained, FindingDelivery, preview_only, suppressed, FindingOccurrence,
  AnalysisResultState, partial, not_analysed, ProducerChangedLocation, CurrentDeliveryStratum,
  ProviderAnnotation, StaticFindingProjection, DeliveryMode, shadow, write, no_write,
  DeliveryReason, shadow_mode, advisory_enabled, repository_out_of_scope, superseded_head,
  write_unauthorized, write_kill_switch, no_promoted_strata, PlanInput,
}

-- `xs.slice(0, n)`
abbrev pub take {ℓ} : {A : Type ℓ} → ℕ → List A → List A
take zero xs = []
take (suc n) [] = []
take (suc n) (x ∷ xs) = x ∷ take n xs

-- `xs.flatMap(f)`
abbrev pub flat_map {ℓ κ} : {A : Type ℓ} {B : Type κ} → (A → List B) → List A → List B
flat_map f [] = []
flat_map f (x ∷ xs) = f x ++ flat_map f xs

-- `currentPromotion`
unfoldable pub current_promotion : List PromotionRecord → String → Option PromotionRecord
current_promotion promotions stratum_key = last (
    sort_by (λ left right. leb left.decided_at right.decided_at)
      (filter (λ value. value.stratum_key == stratum_key) promotions))

-- The promotion and the current stratum, where both are there, the one is promoted and the versions of
-- both are equal.
abbrev pub accepted :
    Platform → Option PromotionRecord → Option CurrentDeliveryStratum → Option PromotionRecord
accepted p (some promotion) (some stratum) =
    if is_promoted promotion.state
      && promotion_versions_equal p promotion.evidence.versions stratum.versions
    then some promotion
    else none
accepted p _ _ = none

-- `currentStrata`
abbrev pub strata_of : PlanInput → Dict CurrentDeliveryStratum
strata_of input = from_entries [] (map (λ value. (value.stratum_key, value)) input.current_strata)

-- What the map `promotions` holds for a stratum.
unfoldable pub promotion_of : Platform → PlanInput → String → Option PromotionRecord
unfolding current_promotion
promotion_of p input stratum =
    accepted p (current_promotion input.promotions stratum) (lookup stratum (strata_of input))

-- `promotions`
abbrev pub promotions_of : Platform → PlanInput → Dict (Option PromotionRecord)
promotions_of p input =
    from_entries [] (map (λ stratum. (stratum, promotion_of p input stratum)) input.enabled_strata)

abbrev pub is_promotion : Option PromotionRecord → Bool
is_promotion none = false
is_promotion (some promotion) = is_promoted promotion.state

-- `promoted`
abbrev pub promoted_of : Platform → PlanInput → List String
promoted_of p input =
    map (λ entry. entry.0) (filter (λ entry. is_promotion entry.1) (promotions_of p input))

abbrev pub is_abstained : FindingState → Bool
is_abstained abstained = true
is_abstained _ = false

abbrev pub is_suppressed : FindingDelivery → Bool
is_suppressed preview_only = false
is_suppressed (suppressed rule) = true

-- `promotions.get(stratum)`; what the map does not hold is not promoted.
abbrev pub held : Option (Option PromotionRecord) → Option PromotionRecord
held none = none
held (some o) = o

-- A finding that passes the tests, with its promotion and its disclosure.
abbrev pub static_finding :
    FindingOccurrence → PromotionRecord → FindingDisclosureProjection → StaticFindingProjection
static_finding finding promotion disclosure = record {
  fingerprint = finding.fingerprint;
  summary = "A promoted structural dependency may require downstream coordination.";
  impact = finding.claims.impact;
  activation = finding.change.activation;
  evidence_stratum = finding.edge.stratum_key;
  decided_at = promotion.decided_at;
  actionable_wilson_lower_95 = promotion.evidence.metrics.actionable_wilson_lower_95;
  edge_wilson_lower_95 = promotion.evidence.metrics.edge_wilson_lower_95;
  remedy = finding.remedy;
  disclosed = disclosure.allowed;
}

-- The last test of a finding.
abbrev pub disclosed_finding :
    FindingOccurrence
    → Option PromotionRecord
    → Option FindingDisclosureProjection
    → List StaticFindingProjection
disclosed_finding finding (some promotion) (some disclosure) =
    if is_promoted promotion.state then static_finding finding promotion disclosure ∷ [] else []
disclosed_finding finding _ _ = []

-- What a finding of the analysis gives.
unfoldable pub project_finding :
    Platform → PlanInput → FindingOccurrence → List StaticFindingProjection
project_finding p input finding =
    if is_abstained finding.state
      || is_suppressed finding.delivery
      || not (includes (promoted_of p input) finding.edge.stratum_key)
    then []
    else disclosed_finding finding (held (lookup finding.edge.stratum_key (promotions_of p input)))
        (lookup finding.fingerprint input.disclosures)

-- `findings`
abbrev pub findings_of : Platform → PlanInput → List StaticFindingProjection
findings_of p input = flat_map (project_finding p input) input.analysis.findings

-- `Math.max(0, limit ?? standard)`
abbrev pub limit_of : Option ℕ → ℕ → ℕ
limit_of none standard = standard
limit_of (some limit) standard = limit

-- A location whose first and last lines are exact changed lines.
abbrev pub is_exact_location : ProducerChangedLocation → Bool
is_exact_location location =
    leb 1 location.start_line
    && leb location.start_line location.end_line
    && any (nat_eq location.start_line) location.exact_changed_lines
    && any (nat_eq location.end_line) location.exact_changed_lines

-- The annotation of a finding at its location, if it has one that is exact.
abbrev pub annotation_at :
    (String → ℕ → String)
    → StaticFindingProjection
    → Option ProducerChangedLocation
    → List ProviderAnnotation
annotation_at slice_text finding none = []
annotation_at slice_text finding (some location) =
    if is_exact_location location
    then record {
      path = location.path;
      start_line = location.start_line;
      end_line = location.end_line;
      message = slice_text (finding.summary <> " Remedy: " <> finding.remedy.remedy_text) 4096;
      finding_fingerprint = finding.fingerprint;
    }
      ∷ []
    else []

-- `eligible` of `safeAnnotations`; its two results are a `take` of it and the length that is left.
unfoldable pub eligible_annotations :
    (String → ℕ → String)
    → List StaticFindingProjection
    → List ProducerChangedLocation
    → List ProviderAnnotation
eligible_annotations slice_text findings locations =
    flat_map
      (λ finding.
        annotation_at slice_text finding
          (find (λ value. value.fingerprint == finding.fingerprint) locations))
      findings

abbrev pub is_unfinished : AnalysisResultState → Bool
is_unfinished partial = true
is_unfinished not_analysed = true
is_unfinished _ = false

-- `timedOutOrIncomplete`
abbrev pub timed_out_or_incomplete : PlanInput → Bool
timed_out_or_incomplete input =
    leb input.hard_deadline_at input.now || is_unfinished input.analysis.state

-- `modeAndReason`, with the promoted strata
abbrev pub mode_and_reason : PlanInput → List String → DeliveryMode × DeliveryReason
mode_and_reason input promoted =
    if not input.repository_in_scope
    then (no_write, repository_out_of_scope)
    else if not (input.analysis.head_sha == input.current_head_sha) || not input.analysis.current
    then (no_write, superseded_head)
    else if not input.write_authorized
    then (no_write, write_unauthorized)
    else if input.kill_switch
    then (no_write, write_kill_switch)
    else if nat_eq (length promoted) 0
    then (no_write, no_promoted_strata)
    else if not input.advisory_on
    then (shadow, shadow_mode)
    else (write, advisory_enabled)
