-- ===== src/Suppression/Creation.antt =====
-- `createSuppressionRule` of packages/domain/src/suppression.ts. A hash is a SHA-256 in hexadecimal, so
-- the tests of its form by `contentHash` and `suppressionRuleId` pass.
use reverb_impact.Base.{
  ◌<>◌, String, subst, Bool, true, ◌&&◌, List, [], ◌∷◌, length, ok, ◌>>◌, ltb, leb, sort_by, ◌≡◌,
  sym, ◌∙◌, ap, ◌↔◌, ◌≢◌, Option-cases, ◌<◌, ◌≤◌, inl, inr, arith, All, Memᴰ, All-sort_by,
  Memᴰ-sort_by, sort_by-Memᴰ, IsOrder, IsSorted, sort_by-IsSorted, length-sort_by, refl,
}
use reverb_impact.Errors.{Checked, invariant, suppression_unauthorized, invalid_suppression}
use reverb_impact.Contracts.{kind_name}
use reverb_impact.Canonical.{Json, number, text, obj, Platform, hash_canonical}
use reverb_impact.Suppression.Lifecycle.{IsInForce, resolve-active_latest, latest_event-IsLatest}
use reverb_impact.Suppression.{
  by_occurrence, by_stable_finding, by_contract_consumer, by_repository_pair_kind, by_adapter_rule,
  by_workspace_rule, producer_code, consumer_code, consumer_reference, contract_shape,
  identity_version, adapter_version, evidence_stratum, policy_revision, registry_revision,
  occurrence, stable_finding, contract_consumer, repository_pair_kind, adapter_rule, workspace_rule,
  ReviewRole, reviewer, repository_owner, workspace_admin, SuppressionScope, SuppressionMatcher,
  InvalidationPredicate, SuppressionOwner, SuppressionInput, SuppressionRule, SuppressionVersions,
  SuppressionStateEvent, resolve_suppression, active, scope_of, required_role,
  suppression_role_authorized, holds, latest_event,
}

abbrev role_name : ReviewRole → String
role_name reviewer = "reviewer"
role_name repository_owner = "repository_owner"
role_name workspace_admin = "workspace_admin"

abbrev scope_name : SuppressionScope → String
scope_name occurrence = "occurrence"
scope_name stable_finding = "stable_finding"
scope_name contract_consumer = "contract_consumer"
scope_name repository_pair_kind = "repository_pair_kind"
scope_name adapter_rule = "adapter_rule"
scope_name workspace_rule = "workspace_rule"

abbrev matcher_json : SuppressionMatcher → Json
matcher_json (by_occurrence o) =
    obj (("scope", text (scope_name occurrence)) ∷ ("occurrenceId", text o) ∷ [])
matcher_json (by_stable_finding f) =
    obj (("scope", text (scope_name stable_finding)) ∷ ("fingerprint", text f) ∷ [])
matcher_json (by_contract_consumer kind key consumer) = obj (
    ("scope", text (scope_name contract_consumer))
    ∷ ("contractKind", text (kind_name kind))
    ∷ ("canonicalContractKey", text key)
    ∷ ("consumerRepositoryId", text consumer)
    ∷ [])
matcher_json (by_repository_pair_kind producer consumer kind) = obj (
    ("scope", text (scope_name repository_pair_kind))
    ∷ ("producerRepositoryId", text producer)
    ∷ ("consumerRepositoryId", text consumer)
    ∷ ("contractKind", text (kind_name kind))
    ∷ [])
matcher_json (by_adapter_rule adapter rule) = obj (
    ("scope", text (scope_name adapter_rule))
    ∷ ("adapterId", text adapter)
    ∷ ("ruleId", text rule)
    ∷ [])
matcher_json (by_workspace_rule rule) =
    obj (("scope", text (scope_name workspace_rule)) ∷ ("ruleId", text rule) ∷ [])

abbrev predicate_json : InvalidationPredicate → Json
predicate_json (producer_code r g) =
    obj (("kind", text "producer_code") ∷ ("repositoryId", text r) ∷ ("generationId", text g) ∷ [])
predicate_json (consumer_code r g) =
    obj (("kind", text "consumer_code") ∷ ("repositoryId", text r) ∷ ("generationId", text g) ∷ [])
predicate_json (consumer_reference r h) = obj (
    ("kind", text "consumer_reference")
    ∷ ("stableReferenceId", text r)
    ∷ ("contentHash", text h)
    ∷ [])
predicate_json (contract_shape k c h) = obj (
    ("kind", text "contract_shape")
    ∷ ("contractKind", text (kind_name k))
    ∷ ("canonicalContractKey", text c)
    ∷ ("shapeHash", text h)
    ∷ [])
predicate_json (identity_version a n) =
    obj (
      ("kind", text "identity_version")
      ∷ ("adapterId", text a)
      ∷ ("identityVersion", number n)
      ∷ [])
predicate_json (adapter_version a w) =
    obj (("kind", text "adapter_version") ∷ ("adapterId", text a) ∷ ("adapterVersion", text w) ∷ [])
predicate_json (evidence_stratum s) =
    obj (("kind", text "evidence_stratum") ∷ ("stratumKey", text s) ∷ [])
predicate_json (policy_revision r) =
    obj (("kind", text "policy_revision") ∷ ("revision", text r) ∷ [])
predicate_json (registry_revision r) =
    obj (("kind", text "registry_revision") ∷ ("revision", text r) ∷ [])

abbrev owner_json : SuppressionOwner → Json
owner_json owner = obj (
    ("actorId", text owner.actor_id)
    ∷ ("role", text (role_name owner.role))
    ∷ ("authorizationRevision", text owner.authorization_revision)
    ∷ [])

-- `identity`
abbrev rule_identity : Platform → SuppressionInput → String → Json
rule_identity p input justification_hash = obj (
    ("workspaceId", text input.workspace_id)
    ∷ ("matcher", matcher_json input.matcher)
    ∷ ("owner", owner_json input.owner)
    ∷ ("justificationHash", text justification_hash)
    ∷ ("createdAt", text (p.iso_text input.created_at))
    ∷ [])

abbrev predicate_order : Platform → InvalidationPredicate → InvalidationPredicate → Bool
predicate_order p left right =
    p.collate_le (hash_canonical p (predicate_json left)) (hash_canonical p (predicate_json right))

-- The rule that passes the checks.
unfoldable pub build_rule : Platform → SuppressionInput → SuppressionRule
build_rule p input =
    let justification = p.trim input.justification in
    let justification_hash = hash_canonical p (text justification) in
    record {
      id = "sup_" <> hash_canonical p (rule_identity p input justification_hash);
      input = record input {
        justification = justification;
        invalidation_predicates = sort_by (predicate_order p) input.invalidation_predicates;
      };
      justification_hash = justification_hash;
    }

-- `createSuppressionRule`
unfoldable pub create_suppression_rule : Platform → SuppressionInput → Checked SuppressionRule
unfolding build_rule
create_suppression_rule p input = do
  invariant (suppression_role_authorized (scope_of input.matcher) input.owner.role)
      suppression_unauthorized
      ("The "
        <> scope_name (scope_of input.matcher)
        <> " scope requires "
        <> role_name (required_role (scope_of input.matcher))
        <> " authorization.")
  invariant
      (leb 8 (p.utf16_length (p.trim input.justification))
        && leb (p.utf16_length (p.trim input.justification)) 2000)
      invalid_suppression "A suppression requires a specific bounded justification."
  invariant (ltb 0 (p.utf16_length (p.trim input.owner.actor_id))) invalid_suppression
      "A suppression owner is required."
  invariant (ltb input.created_at input.review_at && ltb input.created_at input.expires_at)
      invalid_suppression "Suppression review and fallback expiry must follow creation."
  invariant (ltb 0 (length input.invalidation_predicates)) invalid_suppression
      "A suppression needs at least one structural invalidation predicate."
  ok (build_rule p input)

-- What `createSuppressionRule` asks of its input.
abbrev pub IsAdmissible : Platform → SuppressionInput → Type 0
IsAdmissible p input =
    (suppression_role_authorized (scope_of input.matcher) input.owner.role ≡ true)
    × (8 ≤ p.utf16_length (p.trim input.justification))
    × (p.utf16_length (p.trim input.justification) ≤ 2000)
    × (0 < p.utf16_length (p.trim input.owner.actor_id))
    × (input.created_at < input.review_at)
    × (input.created_at < input.expires_at)
    × (0 < length input.invalidation_predicates)

create-build_iff :
    (p : Platform) (input : SuppressionInput) (rule : SuppressionRule)
    → (create_suppression_rule p input ≡ ok rule)
      ↔ (IsAdmissible p input × (rule ≡ build_rule p input))
unfolding create_suppression_rule
create-build_iff p input rule = (
  (λ e. (
    (
      ground arith,
      ground arith,
      ground arith,
      ground arith,
      ground arith,
      ground arith,
      ground arith,
    ),
    ground arith,
  )),
  (λ (adm, same). ground arith),
)

-- The rule records the input: its justification trimmed, everything else as it is, the predicates
-- reordered by their hashes. Its identity is made of what it records.
pub record IsRecorded (p : Platform) (input : SuppressionInput) (rule : SuppressionRule)
    : Type 0 where
  pub same_workspace : rule.workspace_id ≡ input.workspace_id
  pub same_matcher : rule.matcher ≡ input.matcher
  pub same_owner : rule.owner ≡ input.owner
  pub trimmed : rule.justification ≡ p.trim input.justification
  pub same_creation : rule.created_at ≡ input.created_at
  pub same_review : rule.review_at ≡ input.review_at
  pub same_expiry : rule.expires_at ≡ input.expires_at
  pub same_predicates :
      (q : InvalidationPredicate)
      → Memᴰ q rule.invalidation_predicates ↔ Memᴰ q input.invalidation_predicates
  pub none_lost : length rule.invalidation_predicates ≡ length input.invalidation_predicates
  pub ordered :
      IsOrder p.collate_le
      → IsSorted
          (λ left right.
            p.collate_le
              (hash_canonical p (predicate_json left))
              (hash_canonical p (predicate_json right)))
          rule.invalidation_predicates
  pub hashed : rule.justification_hash ≡ hash_canonical p (text rule.justification)
  pub identified :
      rule.id ≡ "sup_" <> hash_canonical p (rule_identity p rule.input rule.justification_hash)

predicate_order-IsOrder : (p : Platform) → IsOrder p.collate_le → IsOrder (predicate_order p)
predicate_order-IsOrder p (total, trans) = (
  (λ a b h. total (hash_canonical p (predicate_json a)) (hash_canonical p (predicate_json b)) h),
  (λ a b c h k.
      trans (hash_canonical p (predicate_json a)) (hash_canonical p (predicate_json b))
        (hash_canonical p (predicate_json c)) h k),
)

build_rule-IsRecorded :
    (p : Platform) (input : SuppressionInput) → IsRecorded p input (build_rule p input)
unfolding build_rule
build_rule-IsRecorded p input = record {
  same_workspace = refl;
  same_matcher = refl;
  same_owner = refl;
  trimmed = refl;
  same_creation = refl;
  same_review = refl;
  same_expiry = refl;
  same_predicates = λ q. (
    (λ m. Memᴰ-sort_by (predicate_order p) input.invalidation_predicates m),
    (λ m. sort_by-Memᴰ (predicate_order p) input.invalidation_predicates m),
  );
  none_lost = length-sort_by (predicate_order p) input.invalidation_predicates;
  ordered = λ order.
      sort_by-IsSorted (predicate_order p) (predicate_order-IsOrder p order)
        input.invalidation_predicates;
  hashed = refl;
  identified = refl;
}

-- A rule is created exactly when the input is admissible: the owner's role is authorised for the scope,
-- the trimmed justification has 8 to 2000 code units, the owner is named, the review and the expiry follow
-- the creation, and there is a predicate. The rule has the trimmed justification, with its hash, and the
-- input's workspace, matcher, owner and dates; it has the input's predicates, none lost, sorted by their
-- hashes if the collation orders texts; and its identity is made of what it records.
pub create-ok_iff :
    (p : Platform) (input : SuppressionInput)
    → ((rule : SuppressionRule) × (create_suppression_rule p input ≡ ok rule)
        × IsRecorded p input rule)
      ↔ IsAdmissible p input
create-ok_iff p input = (
  (λ (rule, made, recorded). ((create-build_iff p input rule).0 made).0),
  (λ adm. (
    build_rule p input,
    (create-build_iff p input (build_rule p input)).1 (adm, refl),
    build_rule-IsRecorded p input,
  )),
)

build_rule-IsInForce :
    (p : Platform) (input : SuppressionInput) (v : SuppressionVersions)
    (events : List SuppressionStateEvent)
    → ((e : SuppressionStateEvent)
        → Memᴰ e events
        → e.suppression_rule_id ≢ (build_rule p input).id)
    → v.now < input.review_at
    → v.now < input.expires_at
    → All (λ q. holds q v ≡ true) input.invalidation_predicates
    → IsInForce (build_rule p input) v events
unfolding build_rule
build_rule-IsInForce p input v events untouched early earlier kept =
    elim (Option-cases (latest_event (build_rule p input).id events)) [
      | inl quiet ↦ (
        (λ e h. absurd (ground arith)),
        rw quiet earlier,
        rw quiet early,
        All-sort_by (predicate_order p) (λ q. holds q v ≡ true) input.invalidation_predicates kept,
      )
      | inr (e, found) ↦
          let (m, own, _) = latest_event-IsLatest (build_rule p input).id events found in
          absurd (untouched e m own)
    ]

-- A created rule that no event has touched is active before its review date and its expiry, as
-- long as all that it recorded holds.
pub create-active :
    (p : Platform) (input : SuppressionInput) {rule : SuppressionRule} (v : SuppressionVersions)
    (events : List SuppressionStateEvent)
    → create_suppression_rule p input ≡ ok rule
    → ((e : SuppressionStateEvent) → Memᴰ e events → e.suppression_rule_id ≢ rule.id)
    → v.now < input.review_at
    → v.now < input.expires_at
    → All (λ q. holds q v ≡ true) input.invalidation_predicates
    → (resolve_suppression rule v events).state ≡ active
create-active p input {rule} v events created untouched early earlier kept =
    let (adm, same) = (create-build_iff p input rule).0 created in
    (resolve-active_latest rule v events).1 (
      subst (λ r. IsInForce r v events) (sym same)
        (build_rule-IsInForce p input v events
          (λ e m own. untouched e m (own ∙ ap (λ r. r.id) (sym same))) early earlier kept))
