-- ===== src/Delivery/Modes.antt =====
-- When a check is written.
use reverb_impact.Base.{
  ℕ, String, true, false, List, [], ◌∷◌, length, ◌≡◌, refl, Memᴰ, arith, eq_iff, nat_eq,
}
use reverb_impact.Canonical.{Platform}
use reverb_impact.Promotion.Data.{PromotionRecord}
use reverb_impact.Delivery.Data.{write, PlanInput}
use reverb_impact.Delivery.Planning.{promoted_of, mode_and_reason}
use reverb_impact.Delivery.Checks.{plan_git_hub_check}
use reverb_impact.Delivery.Promotions.{IsPromotion, promoted_of-IsPromotion}

-- The tests that a written check passes.
mode-write :
    (input : PlanInput) (strata : List String)
    → (mode_and_reason input strata).0 ≡ write
    → (input.repository_in_scope ≡ true)
      × (input.analysis.head_sha ≡ input.current_head_sha)
      × (input.analysis.current ≡ true)
      × (input.write_authorized ≡ true)
      × (input.kill_switch ≡ false)
      × (input.advisory_on ≡ true)
      × (nat_eq (length strata) 0 ≡ false)
mode-write input strata e = (
  ground arith,
  (eq_iff input.analysis.head_sha input.current_head_sha).0 (ground arith),
  ground arith,
  ground arith,
  ground arith,
  ground arith,
  ground arith,
)

-- A check is written only for a repository in scope, at the head that is current, with the authority to
-- write, the advisories on and the switch off, and only where an enabled stratum has a latest promotion
-- that is promoted at the stratum's current versions.
pub plan-write :
    (p : Platform) (slice_text : String → ℕ → String) (input : PlanInput)
    → (plan_git_hub_check p slice_text input).mode ≡ write
    → (input.repository_in_scope ≡ true)
      × (input.analysis.head_sha ≡ input.current_head_sha)
      × (input.analysis.current ≡ true)
      × (input.write_authorized ≡ true)
      × (input.kill_switch ≡ false)
      × (input.advisory_on ≡ true)
      × (stratum : String) × Memᴰ stratum input.enabled_strata
      × (promotion : PromotionRecord) × IsPromotion p input stratum promotion
unfolding plan_git_hub_check
plan-write p slice_text input e =
    let (scope, head, live, authority, switch, advisory, some_promoted) =
      mode-write input (promoted_of p input) e in
    let (stratum, m) = first_of (promoted_of p input) some_promoted in
    let (on, promotion, promoted_now) = promoted_of-IsPromotion p input stratum m in
    (scope, head, live, authority, switch, advisory, stratum, on, promotion, promoted_now)
  where
    first_of : (xs : List String) → nat_eq (length xs) 0 ≡ false → (x : String) × Memᴰ x xs
    first_of [] h = absurd (cc)
    first_of (x ∷ xs) h = (x, Memᴰ.head refl)
