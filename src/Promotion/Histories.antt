-- ===== src/Promotion/Histories.antt =====
-- Histories of promotion records: each made by `decidePromotion` from the record before it.
use reverb_impact.Base.{
  String, Bool, true, false, none, some, List, [], ◌∷◌, ◌≡◌, ◌≢◌, refl, sym, ◌∙◌, ap, subst, All,
  ok,
}
use reverb_impact.Canonical.{Platform}
use reverb_impact.Promotion.Data.{
  PromotionState, unmeasured, preview, promoted, demoted, PromotionRecord, DecideInput,
}
use reverb_impact.Promotion.Deciding.{
  versions_changed, failures_of, previous_state_of, next_state, build_record, decide_promotion,
}
use reverb_impact.Promotion.Gates.{IsMet, decide-build, build-promoted}

-- The records of a stratum, the newest first: each is decided from evidence of the stratum.
pub data History (p : Platform) (stratum : String) : List PromotionRecord → Type 0 where
  start :
      (input : DecideInput) (output_hash : String) {r : PromotionRecord}
      → input.previous ≡ none
      → input.evidence.stratum_key ≡ stratum
      → decide_promotion p input output_hash ≡ ok r
      → History p stratum (r ∷ [])
  next :
      {before : PromotionRecord} {earlier : List PromotionRecord}
      → History p stratum (before ∷ earlier)
      → (input : DecideInput) (output_hash : String) {r : PromotionRecord}
      → input.previous ≡ some before
      → input.evidence.stratum_key ≡ stratum
      → decide_promotion p input output_hash ≡ ok r
      → History p stratum (r ∷ before ∷ earlier)

next_state-demoted :
    (changed : Bool) (failures : List String) (state : PromotionState)
    → next_state changed failures state ≡ demoted
    → (state ≡ promoted) × (failures ≢ [])
next_state-demoted true failures state e = absurd (cc)
next_state-demoted false [] state e = absurd (cc)
next_state-demoted false (f ∷ fs) unmeasured e = absurd (cc)
next_state-demoted false (f ∷ fs) preview e = absurd (cc)
next_state-demoted false (f ∷ fs) demoted e = absurd (cc)
next_state-demoted false (f ∷ fs) promoted e = (refl, λ h. cc)

build-demoted :
    (p : Platform) (input : DecideInput) (output_hash : String)
    → (build_record p input output_hash).state ≡ demoted
    → (previous_state_of input.previous ≡ promoted) × (failures_of p input ≢ [])
unfolding build_record
build-demoted p input output_hash e =
    next_state-demoted (versions_changed p input) (failures_of p input)
      (previous_state_of input.previous) e

build-evidence :
    (p : Platform) (input : DecideInput) (output_hash : String)
    → ((build_record p input output_hash).state ≡ promoted)
    → IsMet (build_record p input output_hash).evidence (build_record p input output_hash).gate
unfolding build_record
build-evidence p input output_hash e = ((build-promoted p input output_hash).0 e).1

-- A decision to promote is made by evidence that meets the gate that the record names.
decide-IsMet :
    (p : Platform) (input : DecideInput) (output_hash : String) {r : PromotionRecord}
    → decide_promotion p input output_hash ≡ ok r
    → r.state ≡ promoted
    → IsMet r.evidence r.gate
decide-IsMet p input output_hash e =
    subst (λ (r : PromotionRecord). r.state ≡ promoted → IsMet r.evidence r.gate)
      (sym (decide-build p input output_hash e)) (build-evidence p input output_hash)

history-IsMet :
    (p : Platform) (stratum : String) {r : PromotionRecord} {rs : List PromotionRecord}
    → History p stratum (r ∷ rs)
    → r.state ≡ promoted
    → IsMet r.evidence r.gate
history-IsMet p stratum (start input output_hash first own made) e =
    decide-IsMet p input output_hash made e
history-IsMet p stratum (next h input output_hash later own made) e =
    decide-IsMet p input output_hash made e

decide-stratum :
    (p : Platform) (input : DecideInput) (output_hash : String) {r : PromotionRecord}
    → decide_promotion p input output_hash ≡ ok r
    → r.stratum_key ≡ input.evidence.stratum_key
unfolding build_record
decide-stratum p input output_hash made =
    ap (λ (r : PromotionRecord). r.stratum_key) (decide-build p input output_hash made)

-- Every record of a history is of its stratum.
history-stratum :
    (p : Platform) (stratum : String) {rs : List PromotionRecord}
    → History p stratum rs
    → All (λ (r : PromotionRecord). r.stratum_key ≡ stratum) rs
history-stratum p stratum (start input output_hash first own made) =
    (decide-stratum p input output_hash made ∙ own, tt)
history-stratum p stratum (next h input output_hash later own made) =
    (decide-stratum p input output_hash made ∙ own, history-stratum p stratum h)

-- In a history of a stratum, all records are of the stratum, and one that is demoted gives a reason and
-- comes right after one that was promoted, whose evidence met its gate.
pub history-demoted :
    (p : Platform) (stratum : String) {r : PromotionRecord} {rs : List PromotionRecord}
    → History p stratum (r ∷ rs)
    → r.state ≡ demoted
    → (before : PromotionRecord) × (earlier : List PromotionRecord) × (rs ≡ before ∷ earlier)
      × (before.state ≡ promoted)
      × IsMet before.evidence before.gate
      × (r.reasons ≢ [])
      × All (λ (s : PromotionRecord). s.stratum_key ≡ stratum) (r ∷ rs)
unfolding build_record
history-demoted p stratum (start input output_hash first own made) e =
    let built = decide-build p input output_hash made in
    let (was, why) =
      build-demoted p input output_hash (ap (λ (r : PromotionRecord). r.state) (sym built) ∙ e) in
    let none_before = ap previous_state_of first in absurd (cc)
history-demoted p stratum (next {before} {earlier} h input output_hash later own made) e =
    let built = decide-build p input output_hash made in
    let (was, why) =
      build-demoted p input output_hash (ap (λ (r : PromotionRecord). r.state) (sym built) ∙ e) in
    let promoted_before = ap previous_state_of (sym later) ∙ was in
    (
      before,
      earlier,
      refl,
      promoted_before,
      history-IsMet p stratum h promoted_before,
      λ no_reason. why (ap (λ (r : PromotionRecord). r.reasons) (sym built) ∙ no_reason),
      history-stratum p stratum (next h input output_hash later own made),
    )
