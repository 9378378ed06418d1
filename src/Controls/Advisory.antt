-- ===== src/Controls/Advisory.antt =====
-- That a demotion silences the advisories of its stratum.
use reverb_impact.Base.{
  String, Bool, true, false, not, ◌&&◌, ◌||◌, List, [], ◌∷◌, includes, ◌==◌, ◌<>◌, ◌≡◌, refl, sym,
  ◌∙◌, ap, subst, inl, inr, arith, eq_iff, Bool-cases, if◌then◌else◌,
}
use text.Mathlib.Text.{starts_with}
use text.Mathlib.TextPositions.{starts_with-append}
use text.Mathlib.TextLemmas.{append_assoc}
use reverb_impact.Promotion.Data.{PromotionRecord}
use reverb_impact.Controls.Switches.{
  HostedOperationalControls, is_promoted, stratum_prefix, advisory_key, without_prefix,
  disable_advisory, is_advisory_enabled, apply_promotion_decision,
}

key-prefix :
    (workspace_id repository_id stratum_key output_hash : String)
    → stratum_prefix workspace_id repository_id stratum_key <> output_hash
      ≡ advisory_key workspace_id repository_id stratum_key output_hash
key-prefix workspace_id repository_id stratum_key output_hash =
    rw (append_assoc, append_assoc, append_assoc, append_assoc, append_assoc) refl

includes-if :
    (b : Bool) (k : String) (keys : List String) (key : String)
    → includes (if b then keys else k ∷ keys) key
      ≡ (if b then includes keys key else k == key || includes keys key)
includes-if true k keys key = refl
includes-if false k keys key = refl

includes-without_prefix :
    (prefix : String) (keys : List String) (key : String)
    → includes (without_prefix prefix keys) key
      ≡ (includes keys key && not (starts_with key prefix))
includes-without_prefix prefix [] key = refl
includes-without_prefix prefix (k ∷ keys) key =
    let rest = includes-without_prefix prefix keys key in
    (includes-if (starts_with k prefix) k (without_prefix prefix keys) key)
    ∙ (elim (Bool-cases (k == key)) [
      | inl same ↦
          let is : k ≡ key = (eq_iff k key).0 same in
          let own = ap (λ z. starts_with z prefix) is in
          kept (starts_with k prefix) (starts_with key prefix) own (k == key) same rest
      | inr other ↦ passed (starts_with k prefix) (k == key) other rest
    ])
  where
    kept :
        (a b : Bool)
        → a ≡ b
        → (s : Bool) → s ≡ true
        → includes (without_prefix prefix keys) key ≡ (includes keys key && not b)
        → (if a
            then includes (without_prefix prefix keys) key
            else s || includes (without_prefix prefix keys) key)
          ≡ ((s || includes keys key) && not b)
    kept a b own s same rest = ground arith

    passed :
        (a s : Bool)
        → s ≡ false
        → includes (without_prefix prefix keys) key
          ≡ (includes keys key && not (starts_with key prefix))
        → (if a
            then includes (without_prefix prefix keys) key
            else s || includes (without_prefix prefix keys) key)
          ≡ ((s || includes keys key) && not (starts_with key prefix))
    passed true s other rest = rw other rest
    passed false s other rest = rw other rest

-- Once a decision that does not promote a stratum is applied, no advisory of the workspace, the
-- repository and the stratum is enabled, whatever promotion it is asked for.
pub apply-disables :
    (c : HostedOperationalControls) (workspace_id repository_id : String)
    (decision promotion : PromotionRecord)
    → is_promoted decision.state ≡ false
    → promotion.stratum_key ≡ decision.stratum_key
    → is_advisory_enabled
        (apply_promotion_decision c workspace_id repository_id decision)
        workspace_id
        repository_id
        promotion
      ≡ false
unfolding apply_promotion_decision is_advisory_enabled disable_advisory
apply-disables c workspace_id repository_id decision promotion e same =
    let key = advisory_key workspace_id repository_id promotion.stratum_key promotion.output_hash in
    let prefix = stratum_prefix workspace_id repository_id decision.stratum_key in
    let all = includes-without_prefix prefix c.advisory key in
    let begins : starts_with key prefix ≡ true =
      subst (λ z. starts_with z prefix ≡ true)
        (key-prefix workspace_id repository_id decision.stratum_key promotion.output_hash
          ∙ ap (λ s. advisory_key workspace_id repository_id s promotion.output_hash) (sym same))
        (starts_with-append prefix promotion.output_hash) in
    rw (e, all, begins)
      (gone c.switches.write_disabled (is_promoted promotion.state) (includes c.advisory key))
  where
    gone : (a b d : Bool) → (not a && b && (d && false)) ≡ false
    gone a b d = ground arith
