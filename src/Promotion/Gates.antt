-- ===== src/Promotion/Gates.antt =====
-- When the evidence meets a gate, and the state that `decidePromotion` then decides.
use reverb_impact.Base.{
  ℕ, ◌*◌, ◌≤◌, String, Bool, true, false, not, ◌&&◌, none, some, List, [], ◌∷◌, ◌≡◌, refl, ◌↔◌, ◌⊎◌,
  inl, inr, arith, All, Bool-cases, Option-cases, ok, ltb,
}
use reverb_impact.Canonical.{Platform}
use reverb_impact.Promotion.Data.{
  Score, count, less, PromotionGate, PromotionState, unmeasured, preview, promoted, demoted,
  PromotionEvidence, PromotionRecord, DecideInput,
}
use reverb_impact.Promotion.Deciding.{
  gate_of, promotion_versions_equal, failed, gate_tests, gate_failures, versions_changed,
  failures_of, previous_state_of, next_state, build_record, decide_promotion,
}

-- `left` is at most `right`, as fractions.
abbrev pub AtMost : Score → Score → Type 0
AtMost left right = left.numerator * right.denominator ≤ right.numerator * left.denominator

-- The evidence has the labels, the lower bounds and the audits that the gate asks for, no more defects,
-- alerts or latency than it allows, and a remedy for every delivery where it requires one.
abbrev pub IsMet : PromotionEvidence → PromotionGate → Type 0
IsMet evidence gate =
    AtMost gate.minimum_independent_labels evidence.metrics.actionable_total
    × AtMost gate.minimum_actionable_wilson_lower_95 evidence.metrics.actionable_wilson_lower_95
    × AtMost gate.minimum_edge_wilson_lower_95 evidence.metrics.edge_wilson_lower_95
    × AtMost gate.minimum_false_omission_audits evidence.metrics.false_omission_total
    × AtMost evidence.confidentiality_defects gate.maximum_confidentiality_defects
    × AtMost evidence.removal_coverage_defects gate.maximum_removal_coverage_defects
    × AtMost evidence.metrics.alerted_pull_requests_per_thousand
        gate.maximum_alerted_pull_requests_per_thousand
    × AtMost evidence.metrics.latency_p95 gate.maximum_p95_latency_ms
    × ((gate.require_every_delivery_remedy ≡ false)
        ⊎ AtMost evidence.deliveries_without_remedy (count 0))

ltb-false : (m n : ℕ) → (ltb m n ≡ false) ↔ (n ≤ m)
ltb-false m n = ((λ e. ground arith), (λ h. ground arith))

less-AtMost : (a b : Score) → (less a b ≡ false) ↔ AtMost b a
unfolding less
less-AtMost a b = ltb-false (a.numerator * b.denominator) (b.numerator * a.denominator)

failed-nil :
    (tests : List (Bool × String)) → (failed tests ≡ []) ↔ All (λ test. test.0 ≡ false) tests
failed-nil [] = ((λ e. tt), (λ h. refl))
failed-nil ((true, failure) ∷ tests) = ((λ e. absurd (cc)), (λ (e, h). absurd (cc)))
failed-nil ((false, failure) ∷ tests) =
    let rest = failed-nil tests in ((λ e. (refl, rest.0 e)), (λ (e, h). rest.1 h))

-- The gate has no failures exactly when the evidence meets it.
pub gate_failures-IsMet :
    (evidence : PromotionEvidence) (gate : PromotionGate)
    → (gate_failures evidence gate ≡ []) ↔ IsMet evidence gate
unfolding gate_failures
gate_failures-IsMet evidence gate =
    let m = evidence.metrics in
    let all = failed-nil (gate_tests evidence gate) in
    (
      (λ e.
          let (a, (b, (c, (d, (f, (g, (h, (i, (j, u))))))))) = all.0 e in
          (
            (less-AtMost m.actionable_total gate.minimum_independent_labels).0 a,
            (less-AtMost m.actionable_wilson_lower_95 gate.minimum_actionable_wilson_lower_95).0 b,
            (less-AtMost m.edge_wilson_lower_95 gate.minimum_edge_wilson_lower_95).0 c,
            (less-AtMost m.false_omission_total gate.minimum_false_omission_audits).0 d,
            (less-AtMost gate.maximum_confidentiality_defects evidence.confidentiality_defects).0 f,
            (less-AtMost gate.maximum_removal_coverage_defects evidence.removal_coverage_defects).0
                g,
            (less-AtMost gate.maximum_alerted_pull_requests_per_thousand
                  m.alerted_pull_requests_per_thousand).0
                h,
            (less-AtMost gate.maximum_p95_latency_ms m.latency_p95).0 i,
            remedied j,
          )),
      (λ (a, b, c, d, f, g, h, i, j). all.1 (
        (less-AtMost m.actionable_total gate.minimum_independent_labels).1 a,
        (
          (less-AtMost m.actionable_wilson_lower_95 gate.minimum_actionable_wilson_lower_95).1 b,
          (
            (less-AtMost m.edge_wilson_lower_95 gate.minimum_edge_wilson_lower_95).1 c,
            (
              (less-AtMost m.false_omission_total gate.minimum_false_omission_audits).1 d,
              (
                (less-AtMost gate.maximum_confidentiality_defects
                      evidence.confidentiality_defects).1
                    f,
                (
                  (less-AtMost gate.maximum_removal_coverage_defects
                        evidence.removal_coverage_defects).1
                      g,
                  (
                    (less-AtMost gate.maximum_alerted_pull_requests_per_thousand
                          m.alerted_pull_requests_per_thousand).1
                        h,
                    ((less-AtMost gate.maximum_p95_latency_ms m.latency_p95).1 i, (spared j, tt)),
                  ),
                ),
              ),
            ),
          ),
        ),
      )),
    )
  where
    remedied :
        (gate.require_every_delivery_remedy && less (count 0) evidence.deliveries_without_remedy)
          ≡ false
        → (gate.require_every_delivery_remedy ≡ false)
          ⊎ AtMost evidence.deliveries_without_remedy (count 0)
    remedied e = elim (Bool-cases gate.require_every_delivery_remedy) [
      | inr free ↦ inl free
      | inl required ↦
          inr ((less-AtMost (count 0) evidence.deliveries_without_remedy).0 (ground arith))
    ]

    spared :
        (gate.require_every_delivery_remedy ≡ false)
          ⊎ AtMost evidence.deliveries_without_remedy (count 0)
        → (gate.require_every_delivery_remedy && less (count 0) evidence.deliveries_without_remedy)
          ≡ false
    spared (inl free) = rw free refl
    spared (inr none_left) =
        let e = (less-AtMost (count 0) evidence.deliveries_without_remedy).1 none_left in
        elim (Bool-cases gate.require_every_delivery_remedy) [
          | inl required ↦ rw (required, e) refl
          | inr free ↦ rw free refl
        ]

-- There is no previous record, its versions are those of the evidence, or an evaluation of their
-- compatibility is given.
abbrev pub IsCompatible : Platform → DecideInput → Type 0
IsCompatible p input = elim input.previous [
  | none ↦ Unit
  | some previous ↦
      (promotion_versions_equal p previous.evidence.versions input.evidence.versions ≡ true)
      ⊎ ((hash : String) × (input.compatibility_evaluation_hash ≡ some hash))
]

pub versions_changed-IsCompatible :
    (p : Platform) (input : DecideInput) → (versions_changed p input ≡ false) ↔ IsCompatible p input
versions_changed-IsCompatible p input = elim (Option-cases input.previous) [
  | inl first ↦ rw first ((λ e. tt), (λ u. refl))
  | inr (previous, later) ↦ rw later (
    (λ e. elim (Option-cases input.compatibility_evaluation_hash) [
      | inr (hash, given) ↦ inr (hash, given)
      | inl absent ↦ inl (ground arith)
    ]),
    (λ c. elim c [
      | inl same ↦ rw same refl
      | inr (hash, given) ↦ rw given (
          and_false
            (not (promotion_versions_equal p previous.evidence.versions input.evidence.versions)))
    ]),
  )
]
  where
    and_false : (b : Bool) → (b && false) ≡ false
    and_false b = ground arith

promoted-nil :
    (changed : Bool) (failures : List String) (state : PromotionState)
    → (next_state changed failures state ≡ promoted) ↔ ((changed ≡ false) × (failures ≡ []))
promoted-nil true failures state = ((λ e. absurd (cc)), (λ (e, h). absurd (cc)))
promoted-nil false [] state = ((λ e. (refl, refl)), (λ h. refl))
promoted-nil false (f ∷ fs) unmeasured = ((λ e. absurd (cc)), (λ (e, h). absurd (cc)))
promoted-nil false (f ∷ fs) preview = ((λ e. absurd (cc)), (λ (e, h). absurd (cc)))
promoted-nil false (f ∷ fs) promoted = ((λ e. absurd (cc)), (λ (e, h). absurd (cc)))
promoted-nil false (f ∷ fs) demoted = ((λ e. absurd (cc)), (λ (e, h). absurd (cc)))

-- A decision is the record of its input.
pub decide-build :
    (p : Platform) (input : DecideInput) (output_hash : String) {r : PromotionRecord}
    → decide_promotion p input output_hash ≡ ok r
    → r ≡ build_record p input output_hash
unfolding decide_promotion
decide-build p input output_hash e = ground arith

pub build-promoted :
    (p : Platform) (input : DecideInput) (output_hash : String)
    → ((build_record p input output_hash).state ≡ promoted)
      ↔ (IsCompatible p input × IsMet input.evidence (gate_of input.gate))
unfolding build_record
build-promoted p input output_hash =
    let nil =
      promoted-nil (versions_changed p input) (failures_of p input)
        (previous_state_of input.previous) in
    let compatible = versions_changed-IsCompatible p input in
    let met = gate_failures-IsMet input.evidence (gate_of input.gate) in
    (
      (λ e. let (same, passed) = nil.0 e in (compatible.0 same, met.0 (ground arith))),
      (λ (c, h). let same = compatible.1 c in let passed = met.1 h in nil.1 (same, ground arith)),
    )
