-- ===== src/Registry/Outcomes.antt =====
-- The three outcomes of resolving an alias.
use reverb_impact.Base.{
  String, true, ◌≡◌, ◌≢◌, refl, sym, ◌∙◌, ap, subst, ◌⊎◌, ◌↔◌, Option, some, List, [], ◌∷◌, ok,
  arith, eq_iff, includes, inl, inr, Result-cases, All-of-Memᴰ, Memᴰ, lookup, lookup-nil, IsSorted,
}
use reverb_impact.Canonical.{Platform}
use reverb_impact.Registry.Data.{
  ServiceIdentity, ServiceAlias, RegistrySnapshot, AliasResolutionRequest, AliasResolution,
  not_found, ambiguous, resolved,
}
use reverb_impact.Registry.Validation.{validate_registry_snapshot}
use reverb_impact.Registry.Valid.{IsValid, validate-IsValid}
use reverb_impact.Registry.Aliases.{
  active_at, candidates, candidate_order, resolve_valid, resolve_service_alias,
  rewrite_gateway_path,
}
use reverb_impact.Registry.Matching.{
  Matches, service_iff, active_services-lookup, candidates-Matches, Matches-candidates,
}
use reverb_impact.Registry.Resolution.{
  ids, ids-Matches, Matches-ids, resolve_valid-conclude, ids-Distinct, conclude-resolved,
  conclude-ne-not_found, conclude-empty, conclude-ambiguous, IsChosen, candidates-IsSorted,
  first-longest,
}

module _ (p : Platform) (snapshot : RegistrySnapshot) (request : AliasResolutionRequest) where
  -- What a successful resolution is that of a valid snapshot.
  pub resolve-eq-ok :
      {r : AliasResolution}
      → resolve_service_alias p snapshot request ≡ ok r
      → (r ≡ resolve_valid p snapshot request) × IsValid snapshot
  unfolding resolve_service_alias
  resolve-eq-ok e = elim (Result-cases (validate_registry_snapshot p snapshot)) [
    | inr (x, failed) ↦ absurd (ground arith)
    | inl (checked, passed) ↦
        let (same, valid) = validate-IsValid p snapshot checked passed in
        (ground (arith, ap (λ s. resolve_valid p s request) same), valid)
  ]

  -- A resolved alias matches the request, and so does no alias of another service; its service is listed,
  -- active and the one that it names; if the collation orders texts, no matching alias has a longer
  -- path prefix; the path is rewritten by the alias's own prefix.
  pub resolve-IsChosen :
      (s : ServiceIdentity) (a : ServiceAlias) (revision : String) (path : Option String)
      → resolve_service_alias p snapshot request ≡ ok (resolved s a revision path)
      → IsChosen p snapshot request s a
        × (revision ≡ snapshot.revision.revision)
        × (path ≡ rewrite_gateway_path request.path a.alias_path_prefix)
  resolve-IsChosen s a revision path e =
      let (result, valid) = resolve-eq-ok e in
      let concluded = sym (resolve_valid-conclude p snapshot request) ∙ sym result in
      let (rest, x, found, only, service, rev, rewritten) =
        conclude-resolved p snapshot request (ids p snapshot request)
          (candidates p snapshot request) concluded in
      let first : Memᴰ a (candidates p snapshot request) =
        subst (λ l. Memᴰ a l) (sym found) (Memᴰ.head refl) in
      let sole = λ (b : ServiceAlias) (m : Matches p snapshot request b).
        only_text (ids p snapshot request) x b.service_id only (Matches-ids p snapshot request m) in
      let (here, named, active) =
        listed_service
          (active_services-lookup snapshot.services request.as_of [] a.service_id service) in
      (
        record {
          alias_matches = candidates-Matches p snapshot request first;
          service_listed = here;
          service_named = named;
          service_active = active;
          only_service =
              λ b m. sole b m ∙ sym (sole a (candidates-Matches p snapshot request first));
          longest_prefix = λ order b m.
              first-longest p snapshot request a b rest
                (subst (λ l. IsSorted (candidate_order p) l) found
                  (candidates-IsSorted p snapshot request order))
                (subst (λ l. Memᴰ b l) found (Matches-candidates p snapshot request m));
        },
        rev,
        rewritten,
      )
    where
      only_text : (is : List String) (x y : String) → is ≡ x ∷ [] → includes is y ≡ true → y ≡ x
      only_text is x y e h = ground (arith, eq_iff x y)

      listed_service :
          {k : String} {v : ServiceIdentity}
          → (lookup {V = ServiceIdentity} k [] ≡ some v)
            ⊎ (Memᴰ v snapshot.services × (v.id ≡ k) × (active_at v.validity request.as_of ≡ true))
          → Memᴰ v snapshot.services × (v.id ≡ k) × (active_at v.validity request.as_of ≡ true)
      listed_service {k} (inl none_there) = absurd (lookup-nil k none_there)
      listed_service (inr found) = found

  -- A resolution finds nothing exactly when no alias of the snapshot has the request's kind, environment
  -- and normal value, is active at its time, names a listed service that is active then too, and has a
  -- prefix that a path of the request goes through.
  pub resolve-not_found_iff :
      (r : AliasResolution)
      → resolve_service_alias p snapshot request ≡ ok r
      → (r ≡ not_found) ↔ ((a : ServiceAlias) → ¬ Matches p snapshot request a)
  resolve-not_found_iff r e =
      let (result, valid) = resolve-eq-ok e in
      let concluded = result ∙ resolve_valid-conclude p snapshot request in
      (
        λ nothing a m.
            conclude-ne-not_found p snapshot request (ids p snapshot request)
              (candidates p snapshot request) a (Matches-ids p snapshot request m)
              (Matches-candidates p snapshot request m)
              (All-of-Memᴰ _ (candidates p snapshot request) (λ b mb.
                (service_iff p snapshot request b.service_id).1
                  (candidates-Matches p snapshot request mb).1.service_known))
              (sym concluded ∙ nothing),
        λ unmatched.
            concluded
            ∙ conclude-empty p snapshot request (ids p snapshot request)
                (candidates p snapshot request)
                (λ x hx. let (a, m, same) = ids-Matches p snapshot request x hx in unmatched a m),
      )

  -- Where a resolution is ambiguous, two aliases of different services match the request.
  pub resolve-ambiguous :
      (services : List String) (revision : String)
      → resolve_service_alias p snapshot request ≡ ok (ambiguous services revision)
      → (a : ServiceAlias) × (b : ServiceAlias) × Matches p snapshot request a
        × Matches p snapshot request b
        × (a.service_id ≢ b.service_id)
  resolve-ambiguous services revision e =
      let (result, valid) = resolve-eq-ok e in
      let (x, y, hx, hy, differ) =
        conclude-ambiguous p snapshot request (ids p snapshot request)
          (candidates p snapshot request) (ids-Distinct p snapshot request)
          (sym (resolve_valid-conclude p snapshot request) ∙ sym result) in
      let (a, ma, ea) = ids-Matches p snapshot request x hx in
      let (b, mb, eb) = ids-Matches p snapshot request y hy in
      (a, b, ma, mb, λ same. differ (sym ea ∙ same ∙ eb))
