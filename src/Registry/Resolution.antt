-- ===== src/Registry/Resolution.antt =====
-- What resolving an alias gives.
use reverb_impact.Base.{
  String, true, ◌≡◌, ◌≢◌, refl, sym, ◌∙◌, ap, ◌≤◌, Option, some, List, [], ◌∷◌, map, arith, eq_iff,
  includes, inl, inr, Option-cases, Dict, lookup, All, All-Memᴰ, Memᴰ, Memᴰ-map, Memᴰ-map_of,
  Distinct, includes-Memᴰ, includes-of-Memᴰ, IsOrder, IsSorted, sort_by-IsSorted, sorted_unique,
  includes-sorted_unique, sorted_unique-Distinct,
}
use reverb_impact.Canonical.{Platform}
use reverb_impact.Registry.Data.{
  ServiceIdentity, ServiceAlias, RegistrySnapshot, AliasResolutionRequest, not_found, ambiguous,
  resolved,
}
use reverb_impact.Registry.Validation.{has_service}
use reverb_impact.Registry.Aliases.{
  active_at, active_services, candidates, prefix_length, candidate_order, alias_key, conclude,
  resolve_valid, rewrite_gateway_path,
}
use reverb_impact.Registry.Matching.{Matches, candidates-Matches, Matches-candidates}

module _ (p : Platform) (snapshot : RegistrySnapshot) (request : AliasResolutionRequest) where
  pub ids : List String
  ids = sorted_unique p.code_unit_le (map (λ a. a.service_id) (candidates p snapshot request))

  -- The identities are those of the candidates.
  pub ids-Matches :
      (x : String)
      → includes ids x ≡ true
      → (a : ServiceAlias) × Matches p snapshot request a × (a.service_id ≡ x)
  unfolding ids
  ids-Matches x e =
      let found = candidates p snapshot request in
      let listed =
        sym (includes-sorted_unique p.code_unit_le (map (λ a. a.service_id) found) x) ∙ e in
      let (a, m, same) =
        Memᴰ-map (λ (a : ServiceAlias). a.service_id) found (includes-Memᴰ _ x listed) in
      (a, candidates-Matches p snapshot request m, sym same)

  pub Matches-ids :
      {a : ServiceAlias} → Matches p snapshot request a → includes ids a.service_id ≡ true
  unfolding ids
  Matches-ids {a} m =
      let found = candidates p snapshot request in
      includes-sorted_unique p.code_unit_le (map (λ a. a.service_id) found) a.service_id
      ∙ includes-of-Memᴰ _ a.service_id (
          Memᴰ-map_of (λ (a : ServiceAlias). a.service_id) found
            (Matches-candidates p snapshot request m))

  pub resolve_valid-conclude :
      resolve_valid p snapshot request
      ≡ conclude snapshot request ids (candidates p snapshot request)
  unfolding resolve_valid ids
  resolve_valid-conclude = refl

  pub ids-Distinct : Distinct ids
  unfolding ids
  ids-Distinct = sorted_unique-Distinct p.code_unit_le _

  -- The services that are active at the time of the request, by identity.
  abbrev pub active : Dict ServiceIdentity
  active = active_services snapshot.services request.as_of []

  pub conclude-resolved :
      (is : List String) (found : List ServiceAlias) {s : ServiceIdentity} {a : ServiceAlias}
      {revision : String} {path : Option String}
      → conclude snapshot request is found ≡ resolved s a revision path
      → (rest : List ServiceAlias) × (x : String) × (found ≡ a ∷ rest)
        × (is ≡ x ∷ [])
        × (lookup a.service_id active ≡ some s)
        × (revision ≡ snapshot.revision.revision)
        × (path ≡ rewrite_gateway_path request.path a.alias_path_prefix)
  unfolding conclude
  conclude-resolved [] found e = cc
  conclude-resolved (x ∷ y ∷ is) found e = cc
  conclude-resolved (x ∷ []) [] e = cc
  conclude-resolved (x ∷ []) (b ∷ rest) {s} {a} e =
      elim (Option-cases (lookup b.service_id active)) [
        | inl lost ↦ absurd (ground arith)
        | inr (service, hit) ↦
            let this : b ≡ a = ground arith in
            (
              rest,
              x,
              ap (λ c. c ∷ rest) this,
              refl,
              ap (λ c. lookup c.service_id active) (sym this) ∙ hit ∙ ground arith,
              ground arith,
              ground arith,
            )
      ]

  pub conclude-ne-not_found :
      (is : List String) (found : List ServiceAlias) (a : ServiceAlias)
      → includes is a.service_id ≡ true
      → Memᴰ a found
      → All (λ b. has_service (lookup b.service_id active) ≡ true) found
      → conclude snapshot request is found ≢ not_found
  unfolding conclude
  conclude-ne-not_found [] found a listed m known e = cc
  conclude-ne-not_found (x ∷ y ∷ is) found a listed m known e = cc
  conclude-ne-not_found (x ∷ []) [] a listed m known e = elim m [ ]
  conclude-ne-not_found (x ∷ []) (b ∷ found) a listed m (here, known) e = ground arith

  pub conclude-empty :
      (is : List String) (found : List ServiceAlias)
      → ((x : String) → includes is x ≢ true)
      → conclude snapshot request is found ≡ not_found
  unfolding conclude
  conclude-empty [] found none_there = refl
  conclude-empty (x ∷ is) found none_there = absurd (none_there x (ground (arith, eq_iff x x)))

  pub conclude-ambiguous :
      (is : List String) (found : List ServiceAlias) {cs : List String} {revision : String}
      → Distinct is
      → conclude snapshot request is found ≡ ambiguous cs revision
      → (x : String) × (y : String) × (includes is x ≡ true) × (includes is y ≡ true) × (x ≢ y)
  unfolding conclude
  conclude-ambiguous [] found d e = cc
  conclude-ambiguous (x ∷ []) [] d e = cc
  conclude-ambiguous (x ∷ []) (b ∷ found) d e = absurd (ground arith)
  conclude-ambiguous (x ∷ y ∷ is) found (new, d) e = (
    x,
    y,
    ground (arith, eq_iff x x),
    ground (arith, eq_iff y y),
    λ same. ground (arith, eq_iff y x),
  )

  -- An alias and its service that were rightly chosen.
  pub record IsChosen (s : ServiceIdentity) (a : ServiceAlias) : Type 0 where
    pub alias_matches : Matches p snapshot request a
    pub service_listed : Memᴰ s snapshot.services
    pub service_named : s.id ≡ a.service_id
    pub service_active : active_at s.validity request.as_of ≡ true
    pub only_service :
        (b : ServiceAlias) → Matches p snapshot request b → b.service_id ≡ a.service_id
    pub longest_prefix :
        IsOrder p.collate_le
        → (b : ServiceAlias) → Matches p snapshot request b
        → prefix_length p b ≤ prefix_length p a

  candidate_order-IsOrder : IsOrder p.collate_le → IsOrder (candidate_order p)
  candidate_order-IsOrder (total, trans) = (
    λ a b h. ground (arith, total (alias_key a) (alias_key b)),
    λ a b c h k. ground (arith, trans (alias_key a) (alias_key b) (alias_key c)),
  )

  pub candidates-IsSorted :
      IsOrder p.collate_le → IsSorted (candidate_order p) (candidates p snapshot request)
  unfolding candidates
  candidates-IsSorted order = sort_by-IsSorted (candidate_order p) (candidate_order-IsOrder order) _

  pub first-longest :
      (a b : ServiceAlias) (rest : List ServiceAlias)
      → IsSorted (candidate_order p) (a ∷ rest)
      → Memᴰ b (a ∷ rest)
      → prefix_length p b ≤ prefix_length p a
  first-longest a b rest sorted (Memᴰ.head same) = rw same (omega arith)
  first-longest a b rest (first, sorted) (Memᴰ.tail m) =
      let before = All-Memᴰ (λ c. candidate_order p a c ≡ true) rest first m in ground arith
