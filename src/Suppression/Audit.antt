-- ===== src/Suppression/Audit.antt =====
-- `auditSuppressions` of packages/domain/src/suppression.ts. The Record over the scopes is a list of
-- pairs in the source's order.
use reverb_impact.Base.{
  ℕ, zero, suc, ◌+◌, String, Bool, ◌||◌, List, [], ◌∷◌, ◌++◌, ◌≡◌, refl, arith, map, filter, length,
  if◌then◌else◌, nat_eq, ltb, leb, &&-eq-true, ◌&&◌, ◌↔◌, ap, sym, ◌∙◌, subst, true, Memᴰ, Memᴰ-map,
  Bool-cases, inl, inr,
}
use reverb_impact.Suppression.Matching.{is_active_iff}
use reverb_impact.Suppression.{
  SuppressionScope, occurrence, stable_finding, contract_consumer, repository_pair_kind,
  adapter_rule, workspace_rule, SuppressionRule, SuppressionVersions, SuppressionStateEvent,
  scope_of, resolve_suppression, ResolutionState, is_active,
}

pub data AnomalyCode : Type 0 where
  broad_rule_concentration workspace_rule_active : AnomalyCode

pub record Anomaly : Type 0 where
  pub code : AnomalyCode
  pub rule_ids : List String

pub record SuppressionAudit : Type 0 where
  pub active_by_scope : List (SuppressionScope × ℕ)
  pub broad_rule_ids : List String
  pub anomalies : List Anomaly

abbrev scopes : List SuppressionScope
scopes =
    occurrence ∷ stable_finding ∷ contract_consumer ∷ repository_pair_kind ∷ adapter_rule
    ∷ workspace_rule ∷ []

abbrev scope_index : SuppressionScope → ℕ
scope_index occurrence = 0
scope_index stable_finding = 1
scope_index contract_consumer = 2
scope_index repository_pair_kind = 3
scope_index adapter_rule = 4
scope_index workspace_rule = 5

-- `rule.matcher.scope === scope`
abbrev pub has_scope : SuppressionScope → SuppressionRule → Bool
has_scope scope rule = nat_eq (scope_index (scope_of rule.matcher)) (scope_index scope)

abbrev ids_of : List SuppressionRule → List String
ids_of = map (λ rule. rule.id)

-- The part of `auditSuppressions` after the active rules are found.
unfoldable pub audit_active : List SuppressionRule → SuppressionAudit
audit_active active =
    let broad =
      filter (λ rule. has_scope adapter_rule rule || has_scope workspace_rule rule) active in
    let workspace = filter (has_scope workspace_rule) broad in
    record {
      active_by_scope = map (λ scope. (scope, length (filter (has_scope scope) active))) scopes;
      broad_rule_ids = ids_of broad;
      anomalies =
          (if leb 3 (length broad)
            then record { code = broad_rule_concentration; rule_ids = ids_of broad } ∷ []
            else [])
          ++ (if ltb 0 (length workspace)
              then record { code = workspace_rule_active; rule_ids = ids_of workspace } ∷ []
              else []);
    }

-- The rules whose resolution is active.
unfoldable pub active_rules :
    List SuppressionRule → SuppressionVersions → List SuppressionStateEvent → List SuppressionRule
active_rules rules v events =
    filter (λ rule. is_active (resolve_suppression rule v events).state) rules

-- `auditSuppressions`
unfoldable pub audit_suppressions :
    List SuppressionRule → SuppressionVersions → List SuppressionStateEvent → SuppressionAudit
unfolding audit_active active_rules
audit_suppressions rules v events = audit_active (active_rules rules v events)

abbrev pub total : List (SuppressionScope × ℕ) → ℕ
total [] = 0
total ((s, n) ∷ counts) = n + total counts

counts-total :
    (rules : List SuppressionRule) → total (audit_active rules).active_by_scope ≡ length rules
unfolding audit_active
counts-total [] = refl
counts-total (rule ∷ rules) = step (scope_of rule.matcher) refl (counts-total rules)
  where
    step :
        (s : SuppressionScope)
        → scope_of rule.matcher ≡ s
        → total (audit_active rules).active_by_scope ≡ length rules
        → total (audit_active (rule ∷ rules)).active_by_scope ≡ suc (length rules)
    step occurrence e ih = rw e (omega (arith, ih))
    step stable_finding e ih = rw e (omega (arith, ih))
    step contract_consumer e ih = rw e (omega (arith, ih))
    step repository_pair_kind e ih = rw e (omega (arith, ih))
    step adapter_rule e ih = rw e (omega (arith, ih))
    step workspace_rule e ih = rw e (omega (arith, ih))

-- `n` of the items, counted one by one, have the property.
pub data Tally {ℓ κ} {A : Type ℓ} (P : A → Type κ) : List A → ℕ → Type (ℓ ⊔ κ) where
  counted_none : Tally P [] 0
  counted : {a : A} {xs : List A} {n : ℕ} → P a → Tally P xs n → Tally P (a ∷ xs) (suc n)
  passed : {a : A} {xs : List A} {n : ℕ} → ¬ P a → Tally P xs n → Tally P (a ∷ xs) n

filter-Tally {ℓ κ} :
    {A : Type ℓ} {P : A → Type κ} (q : A → Bool)
    → ((a : A) → (q a ≡ true) ↔ P a)
    → (xs : List A) → Tally P xs (length (filter q xs))
filter-Tally q decides [] = counted_none
filter-Tally q decides (a ∷ xs) = elim (Bool-cases (q a)) [
  | inl held ↦ rw held (counted ((decides a).0 held) (filter-Tally q decides xs))
  | inr fails ↦
      rw fails (passed (λ h. let held = (decides a).1 h in cc) (filter-Tally q decides xs))
]

length-filter-filter {ℓ} :
    {A : Type ℓ} (p q : A → Bool) (xs : List A)
    → length (filter p (filter q xs)) ≡ length (filter (λ a. q a && p a) xs)
length-filter-filter p q [] = refl
length-filter-filter p q (a ∷ xs) = let rest = length-filter-filter p q xs in ground arith

unfoldable scope_at : ℕ → SuppressionScope
scope_at zero = occurrence
scope_at (suc zero) = stable_finding
scope_at (suc (suc zero)) = contract_consumer
scope_at (suc (suc (suc zero))) = repository_pair_kind
scope_at (suc (suc (suc (suc zero)))) = adapter_rule
scope_at (suc (suc (suc (suc (suc n))))) = workspace_rule

scope_at-scope_index : (s : SuppressionScope) → scope_at (scope_index s) ≡ s
unfolding scope_at
scope_at-scope_index occurrence = refl
scope_at-scope_index stable_finding = refl
scope_at-scope_index contract_consumer = refl
scope_at-scope_index repository_pair_kind = refl
scope_at-scope_index adapter_rule = refl
scope_at-scope_index workspace_rule = refl

nat_eq_iff : (m n : ℕ) → (nat_eq m n ≡ true) ↔ (m ≡ n)
nat_eq_iff m n = ((λ e. ground arith), (λ e. ground arith))

has_scope_iff :
    (s : SuppressionScope) (rule : SuppressionRule)
    → (has_scope s rule ≡ true) ↔ (scope_of rule.matcher ≡ s)
has_scope_iff s rule =
    let (to, from) = nat_eq_iff (scope_index (scope_of rule.matcher)) (scope_index s) in
    (
      (λ e.
          sym (scope_at-scope_index (scope_of rule.matcher))
          ∙ ap scope_at (to e)
          ∙ scope_at-scope_index s),
      (λ e. from (ap scope_index e)),
    )

-- The rule's resolution is active.
abbrev pub IsActive : SuppressionVersions → List SuppressionStateEvent → SuppressionRule → Type 0
IsActive v events rule = (resolve_suppression rule v events).state ≡ ResolutionState.active

-- The rule is active, and of the scope.
abbrev pub IsActiveOf :
    SuppressionScope → SuppressionVersions → List SuppressionStateEvent → SuppressionRule → Type 0
IsActiveOf scope v events rule = IsActive v events rule × (scope_of rule.matcher ≡ scope)

module _ (rules : List SuppressionRule) (v : SuppressionVersions)
    (events : List SuppressionStateEvent) where
  scope-Tally :
      (scope : SuppressionScope)
      → Tally
          (IsActiveOf scope v events)
          rules
          (length (filter (has_scope scope) (active_rules rules v events)))
  unfolding active_rules
  scope-Tally scope =
      let test = λ (rule : SuppressionRule). is_active (resolve_suppression rule v events).state in
      rw (length-filter-filter (has_scope scope) test rules) (
        filter-Tally (λ rule. test rule && has_scope scope rule)
          (λ rule.
            let (on, on_of) = is_active_iff (resolve_suppression rule v events).state in
            let (own, own_of) = has_scope_iff scope rule in
            (
              (λ e. let (a, b) = &&-eq-true (test rule) (has_scope scope rule) e in (on a, own b)),
              (λ (a, b). let a' = on_of a in let b' = own_of b in ground arith),
            ))
          rules)

  resolved-Tally : Tally (IsActive v events) rules (length (active_rules rules v events))
  unfolding active_rules
  resolved-Tally =
      filter-Tally (λ rule. is_active (resolve_suppression rule v events).state)
        (λ rule. is_active_iff (resolve_suppression rule v events).state) rules

  -- The count under a scope is the number of the rules, repeated ones counted again, that are active and
  -- of the scope, and the counts of all scopes add up to the number of the rules that are active.
  pub audit-counts :
      ((scope : SuppressionScope) (n : ℕ)
        → Memᴰ (scope, n) (audit_suppressions rules v events).active_by_scope
        → Tally (IsActiveOf scope v events) rules n)
      × Tally (IsActive v events) rules (total (audit_suppressions rules v events).active_by_scope)
  unfolding audit_suppressions audit_active
  audit-counts =
      let found = active_rules rules v events in
      (
        (λ scope n m.
            let (s, listed, same) =
              Memᴰ-map (λ scope. (scope, length (filter (has_scope scope) found))) scopes m in
            subst (λ entry. Tally (IsActiveOf entry.0 v events) rules entry.1) (sym same)
              (scope-Tally s)),
        rw (counts-total found) resolved-Tally,
      )
