-- ===== src/Registry/Unambiguous.antt =====
-- When the validation of a registry excludes ambiguous resolutions.
use reverb_impact.Base.{
  ℕ, String, true, false, ◌≡◌, ◌≢◌, sym, ◌∙◌, ◌<◌, ◌⊎◌, List, [], ◌∷◌, ok, arith, eq_iff, subst, ap,
  inl, inr, All, All-Memᴰ, Memᴰ,
}
use reverb_impact.Canonical.{Platform}
use reverb_impact.Registry.Data.{
  Validity, ServiceAlias, RegistrySnapshot, AliasResolutionRequest, ambiguous,
}
use reverb_impact.Registry.Validation.{end_of_time, intervals_overlap, conflict}
use reverb_impact.Registry.Valid.{NoConflicts}
use reverb_impact.Registry.Aliases.{resolve_service_alias, normalized_alias_value}
use reverb_impact.Registry.Matching.{same_kind_iff, IsActiveAt, IsSought}
use reverb_impact.Registry.Outcomes.{resolve-eq-ok, resolve-ambiguous}

active_at-overlap :
    (a b : Validity) (t : ℕ)
    → t < end_of_time
    → IsActiveAt a t
    → IsActiveAt b t
    → intervals_overlap a b ≡ true
unfolding intervals_overlap
active_at-overlap a b t h p q = ground arith

-- The alias's value is written as the resolution compares it.
abbrev pub HasNormalValue : Platform → ServiceAlias → Type 0
HasNormalValue p a = normalized_alias_value p a.kind a.value ≡ a.value

module _ (p : Platform) (snapshot : RegistrySnapshot) (r : AliasResolutionRequest)
    (early : r.as_of < end_of_time) where
  candidates-conflict :
      (a b : ServiceAlias)
      → HasNormalValue p a
      → HasNormalValue p b
      → IsSought p snapshot r a
      → IsSought p snapshot r b
      → a.service_id ≢ b.service_id
      → conflict a b ≡ true
  unfolding conflict
  candidates-conflict a b na nb ca cb differ =
      let overlap =
        active_at-overlap a.validity b.validity r.as_of early ca.alias_active cb.alias_active in
      let value : a.value ≡ b.value = sym na ∙ ca.same_value ∙ sym cb.same_value ∙ nb in
      let environment : a.environment ≡ b.environment =
        ca.same_environment ∙ sym cb.same_environment in
      let kind = (same_kind_iff a.kind b.kind).1 (ca.same_alias_kind ∙ sym cb.same_alias_kind) in
      ground (
        arith,
        eq_iff a.value b.value,
        eq_iff a.environment b.environment,
        eq_iff a.service_id b.service_id,
      )

NoConflicts-pair :
    (xs : List ServiceAlias) {a b : ServiceAlias}
    → NoConflicts xs
    → Memᴰ a xs
    → Memᴰ b xs
    → a.service_id ≢ b.service_id
    → (conflict a b ≡ false) ⊎ (conflict b a ≡ false)
NoConflicts-pair [] n ma mb differ = elim ma [ ]
NoConflicts-pair (x ∷ xs) n (Memᴰ.head ea) (Memᴰ.head eb) differ =
    absurd (differ (ap (λ c. c.service_id) (ea ∙ sym eb)))
NoConflicts-pair (x ∷ xs) {a} {b} (free, n) (Memᴰ.head ea) (Memᴰ.tail mb) differ =
    inl
      (subst (λ c. conflict c b ≡ false) (sym ea) (All-Memᴰ (λ c. conflict x c ≡ false) xs free mb))
NoConflicts-pair (x ∷ xs) {a} {b} (free, n) (Memᴰ.tail ma) (Memᴰ.head eb) differ =
    inr
      (subst (λ c. conflict c a ≡ false) (sym eb) (All-Memᴰ (λ c. conflict x c ≡ false) xs free ma))
NoConflicts-pair (x ∷ xs) (free, n) (Memᴰ.tail ma) (Memᴰ.tail mb) differ =
    NoConflicts-pair xs n ma mb differ

-- If every alias of the snapshot has a value that is written in normal form, then no request before the
-- end of the year 9999 is answered as ambiguous: the validation has excluded it.
pub resolve-ne-ambiguous :
    (p : Platform) (snapshot : RegistrySnapshot) (request : AliasResolutionRequest)
    (services : List String) (revision : String)
    → request.as_of < end_of_time
    → All (HasNormalValue p) snapshot.aliases
    → resolve_service_alias p snapshot request ≢ ok (ambiguous services revision)
resolve-ne-ambiguous p snapshot request services revision early normal e =
    let (a, b, (ma, ca), (mb, cb), differ) =
      resolve-ambiguous p snapshot request services revision e in
    let (result, valid) = resolve-eq-ok p snapshot request e in
    let na = All-Memᴰ (HasNormalValue p) snapshot.aliases normal ma in
    let nb = All-Memᴰ (HasNormalValue p) snapshot.aliases normal mb in
    elim (NoConflicts-pair snapshot.aliases valid.unambiguous ma mb differ) [
      | inl free ↦ cc (free, candidates-conflict p snapshot request early a b na nb ca cb differ)
      | inr free ↦
          cc (
            free,
            candidates-conflict p snapshot request early b a nb na cb ca (λ s. differ (sym s)),
          )
    ]
