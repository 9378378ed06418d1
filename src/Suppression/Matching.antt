-- ===== src/Suppression/Matching.antt =====
-- Which rule suppresses a candidate: `matchSuppression` of packages/domain/src/suppression.ts.
use reverb_impact.Base.{
  ◌≡◌, refl, ◌↔◌, inl, inr, String, Bool, true, false, ◌&&◌, find, find-eq-some, find-eq-none,
  find-eq-none-of, find-IsSorted, All-of-Memᴰ, Option-cases, none, some, Option, List, [], ◌∷◌,
  arith, Bool-cases, All-Memᴰ, Memᴰ, Memᴰ-sort_by, sort_by-Memᴰ, IsOrder, sort_by-IsSorted, sort_by,
  eq_iff, ◌==◌,
}
use reverb_impact.Canonical.{Platform}
use reverb_impact.Suppression.{
  SuppressionRule, SuppressionStateEvent, SuppressionCandidate, SuppressionVersions,
  ResolutionState, active, review_due, expired, invalidated, revoked_state, SuppressionResolution,
  SuppressionDecision, suppressed, not_suppressed, matcher_matches, resolve_suppression, is_active,
  match_from, rule_order, match_suppression,
}
use reverb_impact.Suppression.Lifecycle.{IsInForce, resolve-active_latest}

pub is_active_iff : (s : ResolutionState) → (is_active s ≡ true) ↔ (s ≡ active)
is_active_iff active = ((λ e. refl), (λ e. refl))
is_active_iff review_due = ((λ e. absurd (ground arith)), (λ e. absurd (ground arith)))
is_active_iff expired = ((λ e. absurd (ground arith)), (λ e. absurd (ground arith)))
is_active_iff invalidated = ((λ e. absurd (ground arith)), (λ e. absurd (ground arith)))
is_active_iff revoked_state = ((λ e. absurd (ground arith)), (λ e. absurd (ground arith)))

module _ (c : SuppressionCandidate) (v : SuppressionVersions)
    (events : List SuppressionStateEvent) where
  -- The rule is of the candidate's workspace, its matcher matches, and it is in force.
  abbrev pub Applies : SuppressionRule → Type 0
  Applies rule =
      (rule.workspace_id ≡ c.workspace_id)
      × (matcher_matches rule.matcher c ≡ true)
      × IsInForce rule v events

  unfoldable applies : SuppressionRule → Bool
  applies rule =
      rule.workspace_id == c.workspace_id
      && matcher_matches rule.matcher c
      && is_active (resolve_suppression rule v events).state

  applies_iff : (rule : SuppressionRule) → (applies rule ≡ true) ↔ Applies rule
  unfolding applies
  applies_iff rule =
      let (same, eq) = eq_iff rule.workspace_id c.workspace_id in
      let (to, from) = resolve-active_latest rule v events in
      let (test, untest) = is_active_iff (resolve_suppression rule v events).state in
      (
        (λ h. (same (ground arith), ground arith, to (test (ground arith)))),
        (λ (w, m, f). let w' = eq w in let f' = untest (from f) in ground arith),
      )

  decision_of : Option SuppressionRule → SuppressionDecision
  decision_of none = not_suppressed
  decision_of (some rule) = suppressed rule.id (resolve_suppression rule v events)

  match_from-find :
      (rules : List SuppressionRule)
      → match_from c v events rules ≡ decision_of (find applies rules)
  unfolding match_from applies decision_of
  match_from-find [] = refl
  match_from-find (rule ∷ rules) = let rest = match_from-find rules in ground arith

  -- The rule is one of the list and applies, and no rule of the list that applies has a lower identity.
  abbrev pub IsFirst : Platform → List SuppressionRule → SuppressionRule → Type 0
  IsFirst p rules rule =
      Memᴰ rule rules
      × Applies rule
      × (IsOrder p.collate_le
          → (other : SuppressionRule) → Memᴰ other rules
          → Applies other
          → p.collate_le rule.id other.id ≡ true)

  -- A candidate that is suppressed is so by a listed rule of its workspace that matches it and is
  -- in force, with that rule's identity and its resolution; if the collation is an order, no other
  -- such rule has a lower identity.
  pub match-suppressed :
      (p : Platform) (rules : List SuppressionRule) {id : String} {res : SuppressionResolution}
      → match_suppression p c v rules events ≡ suppressed id res
      → (rule : SuppressionRule) × IsFirst p rules rule
        × (rule.id ≡ id)
        × (resolve_suppression rule v events ≡ res)
  unfolding match_suppression decision_of
  match-suppressed p rules e =
      let eq = match_from-find sorted in
      elim (Option-cases (find applies sorted)) [
        | inl nothing ↦ absurd (ground arith)
        | inr (rule, found) ↦
            let (listed, passes) = find-eq-some applies sorted found in
            (
              rule,
              (
                Memᴰ-sort_by (rule_order p) rules listed,
                (applies_iff rule).0 passes,
                first rule found,
              ),
              ground arith,
              ground arith,
            )
      ]
    where
      sorted : List SuppressionRule
      sorted = sort_by (rule_order p) rules

      first :
          (rule : SuppressionRule)
          → find applies sorted ≡ some rule
          → IsOrder p.collate_le
          → (other : SuppressionRule) → Memᴰ other rules
          → Applies other
          → p.collate_le rule.id other.id ≡ true
      first rule found (total, trans) other listed h =
          let order : IsOrder (rule_order p) =
            ((λ a b. total a.id b.id), (λ a b c. trans a.id b.id c.id)) in
          find-IsSorted (rule_order p) order applies sorted
            (sort_by-IsSorted (rule_order p) order rules) found
            (sort_by-Memᴰ (rule_order p) rules listed) ((applies_iff other).1 h)

  -- A candidate is left alone exactly when no listed rule of its workspace that matches it is in force.
  pub match-not_suppressed_iff :
      (p : Platform) (rules : List SuppressionRule)
      → (match_suppression p c v rules events ≡ not_suppressed)
        ↔ ((rule : SuppressionRule) → Memᴰ rule rules → ¬ Applies rule)
  unfolding match_suppression decision_of
  match-not_suppressed_iff p rules =
      let sorted = sort_by (rule_order p) rules in
      let eq = match_from-find sorted in
      (
        (λ e rule listed h.
            let off : applies rule ≡ false = elim (Option-cases (find applies sorted)) [
              | inl nothing ↦
                  All-Memᴰ (λ r. applies r ≡ false) sorted (find-eq-none applies sorted nothing)
                    (sort_by-Memᴰ (rule_order p) rules listed)
              | inr (other, found) ↦ absurd (ground arith)
            ] in
            let on = (applies_iff rule).1 h in cc),
        (λ none_applies.
            let nothing = find-eq-none-of applies sorted (
              All-of-Memᴰ (λ r. applies r ≡ false) sorted
                (λ r m. elim (Bool-cases (applies r)) [
                  | inl on ↦
                      absurd (
                        none_applies r (Memᴰ-sort_by (rule_order p) rules m) ((applies_iff r).0 on))
                  | inr off ↦ off
                ])) in
            ground arith),
      )
