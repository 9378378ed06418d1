-- ===== src/Delivery/Findings.antt =====
-- Which findings a check shows.
use reverb_impact.Base.{
  ℕ, zero, suc, ◌+◌, ◌≤◌, String, Bool, true, false, not, ◌||◌, Option, none, some, List, [], ◌∷◌,
  length, ◌≡◌, refl, sym, ◌∙◌, ap, inl, inr, Memᴰ, arith, Bool-cases, lookup, includes,
  includes-Memᴰ, if◌then◌else◌,
}
use mathlib.Core.List.Memᴰ as Memᴰ
use reverb_impact.Canonical.{Platform}
use reverb_impact.Promotion.Data.{PromotionRecord}
use reverb_impact.Controls.Switches.{is_promoted}
use reverb_impact.Delivery.Disclosure.{FindingDisclosureProjection}
use reverb_impact.Delivery.Data.{FindingOccurrence, StaticFindingProjection, PlanInput}
use reverb_impact.Delivery.Planning.{
  take, flat_map, promotions_of, promoted_of, is_abstained, is_suppressed, held, disclosed_finding,
  static_finding, project_finding, findings_of, limit_of,
}
use reverb_impact.Delivery.Checks.{build_projection, plan_git_hub_check}
use reverb_impact.Delivery.Promotions.{IsPromotion, promotion_of-IsPromotion, lookup-promotions_of}

Memᴰ-flat_map {ℓ κ} :
    {A : Type ℓ} {B : Type κ} (f : A → List B) (xs : List A) {b : B}
    → Memᴰ b (flat_map f xs)
    → (a : A) × Memᴰ a xs × Memᴰ b (f a)
Memᴰ-flat_map f [] m = elim m [ ]
Memᴰ-flat_map f (x ∷ xs) m = elim (Memᴰ.append_cases (f x) m) [
  | inl here ↦ (x, Memᴰ.head refl, here)
  | inr there ↦ let (a, ma, mb) = Memᴰ-flat_map f xs there in (a, Memᴰ.tail ma, mb)
]

Memᴰ-take {ℓ} : {A : Type ℓ} (n : ℕ) (xs : List A) {a : A} → Memᴰ a (take n xs) → Memᴰ a xs
Memᴰ-take zero xs m = elim m [ ]
Memᴰ-take (suc n) [] m = elim m [ ]
Memᴰ-take (suc n) (x ∷ xs) (Memᴰ.head e) = Memᴰ.head e
Memᴰ-take (suc n) (x ∷ xs) (Memᴰ.tail m) = Memᴰ.tail (Memᴰ-take n xs m)

length-take {ℓ} :
    {A : Type ℓ} (n : ℕ) (xs : List A) → (length (take n xs) ≤ n) × (length (take n xs) ≤ length xs)
length-take zero xs = (omega arith, omega arith)
length-take (suc n) [] = (omega arith, omega arith)
length-take (suc n) (x ∷ xs) = let (a, b) = length-take n xs in (omega (arith, a), omega (arith, b))

-- What is shown repeats the finding's fingerprint, impact, activation, stratum and remedy.
abbrev pub IsShownOf : FindingOccurrence → StaticFindingProjection → Type 0
IsShownOf finding shown =
    (shown.fingerprint ≡ finding.fingerprint)
    × (shown.impact ≡ finding.claims.impact)
    × (shown.activation ≡ finding.change.activation)
    × (shown.evidence_stratum ≡ finding.edge.stratum_key)
    × (shown.remedy ≡ finding.remedy)

-- A finding may be shown: the analysis did not abstain from it and no rule suppresses it, its stratum is
-- promoted, and what is shown of it is its own, and of its facts what its own disclosure allows.
abbrev pub IsDeliverable : Platform → PlanInput → StaticFindingProjection → Type 0
IsDeliverable p input shown =
    (finding : FindingOccurrence) × Memᴰ finding input.analysis.findings
    × (finding.fingerprint ≡ shown.fingerprint)
    × (is_abstained finding.state ≡ false)
    × (is_suppressed finding.delivery ≡ false)
    × Memᴰ finding.edge.stratum_key input.enabled_strata
    × (promotion : PromotionRecord) × IsPromotion p input finding.edge.stratum_key promotion
    × (disclosure : FindingDisclosureProjection) × (lookup finding.fingerprint input.disclosures
        ≡ some disclosure)
    × (shown.disclosed ≡ disclosure.allowed)
    × IsShownOf finding shown

disclosed_finding-Memᴰ :
    (finding : FindingOccurrence) (o : Option PromotionRecord)
    (d : Option FindingDisclosureProjection) {shown : StaticFindingProjection}
    → Memᴰ shown (disclosed_finding finding o d)
    → (promotion : PromotionRecord) × (o ≡ some promotion)
      × (disclosure : FindingDisclosureProjection) × (d ≡ some disclosure)
      × (shown ≡ static_finding finding promotion disclosure)
disclosed_finding-Memᴰ finding none d m = elim m [ ]
disclosed_finding-Memᴰ finding (some promotion) none m = elim m [ ]
disclosed_finding-Memᴰ finding (some promotion) (some disclosure) {shown} m =
    one (is_promoted promotion.state) m
  where
    one :
        (b : Bool)
        → Memᴰ shown (if b then static_finding finding promotion disclosure ∷ [] else [])
        → (q : PromotionRecord) × (some promotion ≡ some q)
          × (e : FindingDisclosureProjection) × (some disclosure ≡ some e)
          × (shown ≡ static_finding finding q e)
    one true (Memᴰ.head e) = (promotion, refl, disclosure, refl, e)
    one true (Memᴰ.tail t) = elim t [ ]
    one false m = elim m [ ]

held-some :
    (p : Platform) (input : PlanInput) (k : String) {promotion : PromotionRecord}
    → held (lookup k (promotions_of p input)) ≡ some promotion
    → Memᴰ k input.enabled_strata × IsPromotion p input k promotion
held-some p input k {promotion} e =
    let at = ap held (sym (lookup-promotions_of p input k)) ∙ e in
    elim (Bool-cases (includes input.enabled_strata k)) [
      | inr off ↦ absurd (ground arith)
      | inl on ↦ (
        includes-Memᴰ input.enabled_strata k on,
        promotion_of-IsPromotion p input k (ground arith),
      )
    ]

project_finding-IsDeliverable :
    (p : Platform) (input : PlanInput) (finding : FindingOccurrence)
    {shown : StaticFindingProjection}
    → Memᴰ finding input.analysis.findings
    → Memᴰ shown (project_finding p input finding)
    → IsDeliverable p input shown
unfolding project_finding
project_finding-IsDeliverable p input finding {shown} listed m =
    tests (is_abstained finding.state) (is_suppressed finding.delivery)
      (includes (promoted_of p input) finding.edge.stratum_key) refl refl m
  where
    tests :
        (a s b : Bool)
        → is_abstained finding.state ≡ a
        → is_suppressed finding.delivery ≡ s
        → Memᴰ shown (
            if a || s || not b
            then []
            else disclosed_finding finding
                (held (lookup finding.edge.stratum_key (promotions_of p input)))
                (lookup finding.fingerprint input.disclosures))
        → IsDeliverable p input shown
    tests true s b abstain suppress m = elim m [ ]
    tests false true b abstain suppress m = elim m [ ]
    tests false false false abstain suppress m = elim m [ ]
    tests false false true abstain suppress m =
        let (promotion, at, disclosure, found, is) =
          disclosed_finding-Memᴰ finding
            (held (lookup finding.edge.stratum_key (promotions_of p input)))
            (lookup finding.fingerprint input.disclosures) m in
        let (on, promoted_now) = held-some p input finding.edge.stratum_key at in
        (
          finding,
          listed,
          ap (λ (s : StaticFindingProjection). s.fingerprint) (sym is),
          abstain,
          suppress,
          on,
          promotion,
          promoted_now,
          disclosure,
          found,
          ap (λ (s : StaticFindingProjection). s.disclosed) is,
          (
            ap (λ (s : StaticFindingProjection). s.fingerprint) is,
            ap (λ (s : StaticFindingProjection). s.impact) is,
            ap (λ (s : StaticFindingProjection). s.activation) is,
            ap (λ (s : StaticFindingProjection). s.evidence_stratum) is,
            ap (λ (s : StaticFindingProjection). s.remedy) is,
          ),
        )

-- A check shows only findings of the analysis that it did not abstain from and no rule suppresses, whose
-- stratum is enabled with a latest promotion that is promoted at its current versions; of each it shows the
-- finding's own fingerprint, impact, activation, stratum and remedy, and what its disclosure allows; it shows
-- at most the limit, and counts the findings that it leaves out.
pub plan-IsDeliverable :
    (p : Platform) (slice_text : String → ℕ → String) (input : PlanInput)
    → ((shown : StaticFindingProjection)
        → Memᴰ shown (plan_git_hub_check p slice_text input).projection.findings
        → IsDeliverable p input shown)
      × (length (plan_git_hub_check p slice_text input).projection.findings
          ≤ limit_of input.maximum_findings 20)
      × ((plan_git_hub_check p slice_text input).projection.finding_total
          ≡ length (plan_git_hub_check p slice_text input).projection.findings
            + (plan_git_hub_check p slice_text input).projection.truncated_finding_count)
unfolding plan_git_hub_check build_projection
plan-IsDeliverable p slice_text input =
    let (a, b) = length-take (limit_of input.maximum_findings 20) (findings_of p input) in
    (
      (λ shown m.
          let (finding, listed, mine) =
            Memᴰ-flat_map (project_finding p input) input.analysis.findings
              (Memᴰ-take (limit_of input.maximum_findings 20) (findings_of p input) m) in
          project_finding-IsDeliverable p input finding listed mine),
      a,
      omega (arith, b),
    )
