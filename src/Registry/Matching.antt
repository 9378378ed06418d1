-- ===== src/Registry/Matching.antt =====
-- Which aliases of a registry a request may stand for.
use reverb_impact.Base.{
  ◌<◌, ◌↔◌, subst, lookup-nil, none, ℕ, zero, suc, String, true, ◌≡◌, refl, sym, ◌∙◌, ap, ◌≤◌, ◌⊎◌,
  Option, some, List, [], ◌∷◌, ◌==◌, arith, eq_iff, if◌then◌else◌, inl, inr, Bool-cases,
  Option-cases, Dict, insert, lookup, lookup-insert, Memᴰ, Memᴰ-filter, filter-Memᴰ, Memᴰ-sort_by,
  sort_by-Memᴰ,
}
use reverb_impact.Canonical.{Platform}
use reverb_impact.Registry.Data.{
  ServiceAliasKind, base_token, host, path_prefix, package_coordinate, schema_id, broker_namespace,
  database_instance, Validity, ServiceIdentity, ServiceAlias, RegistrySnapshot,
  AliasResolutionRequest,
}
use reverb_impact.Registry.Validation.{has_service, same_kind, kind_index}
use reverb_impact.Registry.Aliases.{
  active_at, active_services, is_candidate, candidates, candidate_order, routes,
  normalized_alias_value, rewrite_gateway_path,
}

unfoldable kind_at : ℕ → ServiceAliasKind
kind_at zero = base_token
kind_at (suc zero) = host
kind_at (suc (suc zero)) = path_prefix
kind_at (suc (suc (suc zero))) = package_coordinate
kind_at (suc (suc (suc (suc zero)))) = schema_id
kind_at (suc (suc (suc (suc (suc zero))))) = broker_namespace
kind_at (suc (suc (suc (suc (suc (suc n)))))) = database_instance

kind_at-kind_index : (k : ServiceAliasKind) → kind_at (kind_index k) ≡ k
unfolding kind_at
kind_at-kind_index base_token = refl
kind_at-kind_index host = refl
kind_at-kind_index path_prefix = refl
kind_at-kind_index package_coordinate = refl
kind_at-kind_index schema_id = refl
kind_at-kind_index broker_namespace = refl
kind_at-kind_index database_instance = refl

pub same_kind_iff : (a b : ServiceAliasKind) → (same_kind a b ≡ true) ↔ (a ≡ b)
unfolding same_kind
same_kind_iff a b =
    let index : same_kind a b ≡ true → kind_index a ≡ kind_index b = λ e. ground arith in
    (
      (λ e. sym (kind_at-kind_index a) ∙ ap kind_at (index e) ∙ kind_at-kind_index b),
      (λ e. let index = ap kind_index e in ground arith),
    )

pub active_services-lookup :
    (ss : List ServiceIdentity) (at : ℕ) (m : Dict ServiceIdentity) (k : String)
    {s : ServiceIdentity}
    → lookup k (active_services ss at m) ≡ some s
    → (lookup k m ≡ some s) ⊎ (Memᴰ s ss × (s.id ≡ k) × (active_at s.validity at ≡ true))
unfolding active_services
active_services-lookup [] at m k e = inl e
active_services-lookup (x ∷ ss) at m k {s} e =
    elim (active_services-lookup ss at (if active_at x.validity at then insert x.id x m else m) k
      e) [
        | inr (later, same, active) ↦ inr (Memᴰ.tail later, same, active)
        | inl here ↦ elim (Bool-cases (active_at x.validity at)) [
          | inr inactive ↦ inl (ground arith)
          | inl active ↦ elim (Bool-cases (x.id == k)) [
            | inl same ↦
                let this : x ≡ s = ground (arith, lookup-insert x.id k x m) in
                inr (
                  Memᴰ.head (sym this),
                  ground (arith, eq_iff x.id k),
                  ap (λ y. active_at y.validity at) (sym this) ∙ active,
                )
            | inr other ↦ inl (ground (arith, lookup-insert x.id k x m))
          ]
        ]
      ]

-- The time is in the interval, whose end is not part of it.
abbrev pub IsActiveAt : Validity → ℕ → Type 0
IsActiveAt v at =
    (v.valid_from ≤ at) × (elim v.valid_until [ none ↦ Unit | some until ↦ at < until ])

active_at_iff : (v : Validity) (at : ℕ) → (active_at v at ≡ true) ↔ IsActiveAt v at
unfolding active_at
active_at_iff v at = go v.valid_from v.valid_until
  where
    go :
        (from : ℕ) (end : Option ℕ)
        → (active_at (record { valid_from = from; valid_until = end }) at ≡ true)
          ↔ IsActiveAt (record { valid_from = from; valid_until = end }) at
    go from none = ((λ e. (ground arith, tt)), (λ (h, u). ground arith))
    go from (some until) = ((λ e. (ground arith, ground arith)), (λ (h, k). ground arith))

-- A path that is asked for goes through the prefix.
abbrev pub IsRouted : Option String → Option String → Type 0
IsRouted none prefix = Unit
IsRouted (some path) prefix =
    (rest : String) × (rewrite_gateway_path (some path) prefix ≡ some rest)

routes_iff : (path prefix : Option String) → (routes path prefix ≡ true) ↔ IsRouted path prefix
routes_iff none prefix = ((λ e. tt), (λ u. refl))
routes_iff (some path) prefix = elim (Option-cases (rewrite_gateway_path (some path) prefix)) [
  | inl missed ↦ ((λ e. absurd (ground arith)), (λ (rest, e). ground arith))
  | inr (rest, found) ↦ ((λ e. (rest, found)), (λ (r, e). ground arith))
]

has_service-some :
    (o : Option ServiceIdentity) → has_service o ≡ true → (s : ServiceIdentity) × (o ≡ some s)
has_service-some none e = absurd (cc)
has_service-some (some s) e = (s, refl)

active_services-keeps :
    (ss : List ServiceIdentity) (at : ℕ) (m : Dict ServiceIdentity) (k : String)
    → has_service (lookup k m) ≡ true
    → has_service (lookup k (active_services ss at m)) ≡ true
unfolding active_services
active_services-keeps [] at m k e = e
active_services-keeps (x ∷ ss) at m k e =
    active_services-keeps ss at (if active_at x.validity at then insert x.id x m else m) k
      (ground (arith, lookup-insert x.id k x m))

-- A listed service that is active at the time has an entry under its identity.
active_services-adds :
    (ss : List ServiceIdentity) (at : ℕ) (m : Dict ServiceIdentity) (s : ServiceIdentity)
    → Memᴰ s ss
    → active_at s.validity at ≡ true
    → has_service (lookup s.id (active_services ss at m)) ≡ true
unfolding active_services
active_services-adds [] at m s listed on = elim listed [ ]
active_services-adds (x ∷ ss) at m s (Memᴰ.head same) on =
    let now = ap (λ (y : ServiceIdentity). active_at y.validity at) (sym same) ∙ on in
    let own = ap (λ (y : ServiceIdentity). y.id) same in
    active_services-keeps ss at (if active_at x.validity at then insert x.id x m else m) s.id
      (ground (arith, lookup-insert x.id s.id x m, eq_iff x.id s.id))
active_services-adds (x ∷ ss) at m s (Memᴰ.tail listed) on =
    active_services-adds ss at (if active_at x.validity at then insert x.id x m else m) s listed on

module _ (p : Platform) (snapshot : RegistrySnapshot) (request : AliasResolutionRequest) where
  -- The alias is of the request's kind and environment, active at its time, of a listed service that is
  -- active then too; its value has the normal form of the request's, and a path goes through its prefix.
  pub record IsSought (a : ServiceAlias) : Type 0 where
    pub same_alias_kind : a.kind ≡ request.kind
    pub same_environment : a.environment ≡ request.environment
    pub alias_active : IsActiveAt a.validity request.as_of
    pub service_known :
        (s : ServiceIdentity) × Memᴰ s snapshot.services
        × (s.id ≡ a.service_id)
        × IsActiveAt s.validity request.as_of
    pub same_value :
        normalized_alias_value p a.kind a.value
        ≡ normalized_alias_value p request.kind request.value
    pub routed : IsRouted request.path a.alias_path_prefix

  -- An alias of the snapshot that the request may stand for.
  abbrev pub Matches : ServiceAlias → Type 0
  Matches a = Memᴰ a snapshot.aliases × IsSought a

  pub service_iff :
      (id : String)
      → (has_service (lookup id (active_services snapshot.services request.as_of [])) ≡ true) ↔ (
          (s : ServiceIdentity) × Memᴰ s snapshot.services
          × (s.id ≡ id)
          × IsActiveAt s.validity request.as_of)
  service_iff id = (
    (λ e.
        let (s, found) =
          has_service-some (lookup id (active_services snapshot.services request.as_of [])) e in
        elim (active_services-lookup snapshot.services request.as_of [] id found) [
          | inl before ↦ absurd (lookup-nil id before)
          | inr (m, same, on) ↦ (s, m, same, (active_at_iff s.validity request.as_of).0 on)
        ]),
    (λ (s, m, same, on).
        subst
          (λ k. has_service (lookup k (active_services snapshot.services request.as_of [])) ≡ true)
          same
          (active_services-adds snapshot.services request.as_of [] s m
            ((active_at_iff s.validity request.as_of).1 on))),
  )

  pub is_candidate_iff :
      (a : ServiceAlias)
      → (is_candidate p (active_services snapshot.services request.as_of []) request a ≡ true)
        ↔ IsSought a
  unfolding is_candidate
  is_candidate_iff a =
      let (kind, kind_of) = same_kind_iff a.kind request.kind in
      let (environment, environment_of) = eq_iff a.environment request.environment in
      let (on, on_of) = active_at_iff a.validity request.as_of in
      let (service, service_of) = service_iff a.service_id in
      let (value, value_of) =
        eq_iff (normalized_alias_value p a.kind a.value)
          (normalized_alias_value p request.kind request.value) in
      let (route, route_of) = routes_iff request.path a.alias_path_prefix in
      (
        (λ e. record {
          same_alias_kind = kind (ground arith);
          same_environment = environment (ground arith);
          alias_active = on (ground arith);
          service_known = service (ground arith);
          same_value = value (ground arith);
          routed = route (ground arith);
        }),
        (λ sought.
            let k = kind_of sought.same_alias_kind in
            let e = environment_of sought.same_environment in
            let o = on_of sought.alias_active in
            let s = service_of sought.service_known in
            let v = value_of sought.same_value in
            let r = route_of sought.routed in rw (k, e, o, s, v, r) refl),
      )

  pub candidates-Matches : {a : ServiceAlias} → Memᴰ a (candidates p snapshot request) → Matches a
  unfolding candidates
  candidates-Matches {a} m =
      let (listed, passes) =
        Memᴰ-filter _ snapshot.aliases (Memᴰ-sort_by (candidate_order p) _ m) in
      (listed, (is_candidate_iff a).0 passes)

  pub Matches-candidates : {a : ServiceAlias} → Matches a → Memᴰ a (candidates p snapshot request)
  unfolding candidates
  Matches-candidates {a} (m, sought) =
      sort_by-Memᴰ (candidate_order p) _
        (filter-Memᴰ _ snapshot.aliases m ((is_candidate_iff a).1 sought))
