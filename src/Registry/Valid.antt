-- ===== src/Registry/Valid.antt =====
-- What a snapshot has that passed `validateRegistrySnapshot`.
use reverb_impact.Base.{
  String, true, false, ◌≡◌, refl, sym, ◌∙◌, ◌||◌, ◌<◌, List, [], ◌∷◌, map, ok, arith, eq_iff,
  includes, any, inl, inr, Result-cases, All-imp, Dict, insert, lookup, lookup-insert, All,
  Distinct,
}
use reverb_impact.Canonical.{Platform}
use reverb_impact.Registry.Data.{
  RepositoryMembership, ServiceIdentity, ServiceAlias, ConsentGrant, RegistrySnapshot,
}
use reverb_impact.Registry.Validation.{
  has_service, validate_repositories, validate_services, conflict, validate_aliases, validate_pairs,
  validate_consents, validate_registry_snapshot,
}

abbrev pub repository_ids : List RepositoryMembership → List String
repository_ids rs = map (λ r. r.repository_id) rs

abbrev pub repository_aliases : List RepositoryMembership → List String
repository_aliases rs = map (λ r. r.alias) rs

abbrev pub service_ids : List ServiceIdentity → List String
service_ids ss = map (λ s. s.id) ss

-- No two of the aliases are in conflict.
abbrev pub NoConflicts : List ServiceAlias → Type 0
NoConflicts [] = Unit
NoConflicts (a ∷ rest) = All (λ b. conflict a b ≡ false) rest × NoConflicts rest

-- The references of a snapshot are closed, its members distinct and its aliases free of conflicts.
pub record IsValid (s : RegistrySnapshot) : Type 0 where
  pub positive : 0 < s.revision.sequence
  pub distinct_ids : Distinct (repository_ids s.repositories)
  pub distinct_aliases : Distinct (repository_aliases s.repositories)
  pub services_known :
      All (λ x. includes (repository_ids s.repositories) x.repository_id ≡ true) s.services
  pub aliases_known : All (λ a. includes (service_ids s.services) a.service_id ≡ true) s.aliases
  pub unambiguous : NoConflicts s.aliases
  pub consents_known :
      All (λ c. includes (repository_ids s.repositories) c.repository_id ≡ true) s.consents

fresh_tail :
    (k : String) (ids xs : List String)
    → All (λ x. includes (k ∷ ids) x ≡ false) xs
    → All (λ x. includes ids x ≡ false) xs × (includes xs k ≡ false)
fresh_tail k ids [] h = (tt, refl)
fresh_tail k ids (x ∷ xs) (new, h) =
    let (fresh, absent) = fresh_tail k ids xs h in
    ((ground arith, fresh), ground (arith, eq_iff k x, eq_iff x k))

module _ (p : Platform) where
  fresh_ids :
      (ids aliases : List String) (rs : List RepositoryMembership) (out : List String)
      → validate_repositories p ids aliases rs ≡ ok out
      → All (λ x. includes ids x ≡ false) (repository_ids rs)
        × All (λ x. includes aliases x ≡ false) (repository_aliases rs)
  unfolding validate_repositories
  fresh_ids ids aliases [] out e = (tt, tt)
  fresh_ids ids aliases (r ∷ rs) out e =
      let (later_ids, later_aliases) =
        fresh_ids (r.repository_id ∷ ids) (r.alias ∷ aliases) rs out (ground arith) in
      (
        (ground arith, (fresh_tail r.repository_id ids (repository_ids rs) later_ids).0),
        (ground arith, (fresh_tail r.alias aliases (repository_aliases rs) later_aliases).0),
      )

  Distinct-members :
      (ids aliases : List String) (rs : List RepositoryMembership) (out : List String)
      → validate_repositories p ids aliases rs ≡ ok out
      → Distinct (repository_ids rs) × Distinct (repository_aliases rs)
  unfolding validate_repositories
  Distinct-members ids aliases [] out e = (tt, tt)
  Distinct-members ids aliases (r ∷ rs) out e =
      let next : validate_repositories p (r.repository_id ∷ ids) (r.alias ∷ aliases) rs ≡ ok out =
        ground arith in
      let (fresh, fresh_names) =
        fresh_ids (r.repository_id ∷ ids) (r.alias ∷ aliases) rs out next in
      let (distinct, distinct_names) =
        Distinct-members (r.repository_id ∷ ids) (r.alias ∷ aliases) rs out next in
      (
        ((fresh_tail r.repository_id ids (repository_ids rs) fresh).1, distinct),
        ((fresh_tail r.alias aliases (repository_aliases rs) fresh_names).1, distinct_names),
      )

  validate_repositories-includes :
      (ids aliases : List String) (rs : List RepositoryMembership) (out : List String) (x : String)
      → validate_repositories p ids aliases rs ≡ ok out
      → includes out x ≡ (includes ids x || includes (repository_ids rs) x)
  unfolding validate_repositories
  validate_repositories-includes ids aliases [] out x e = ground arith
  validate_repositories-includes ids aliases (r ∷ rs) out x e =
      ground
        (arith, validate_repositories-includes (r.repository_id ∷ ids) (r.alias ∷ aliases) rs out x)

  known_services :
      (ids : List String) (m : Dict ServiceIdentity) (ss : List ServiceIdentity)
      (out : Dict ServiceIdentity)
      → validate_services p ids m ss ≡ ok out
      → All (λ x. includes ids x.repository_id ≡ true) ss
  unfolding validate_services
  known_services ids m [] out e = tt
  known_services ids m (s ∷ ss) out e =
      (ground arith, known_services ids (insert s.id s m) ss out (ground arith))

  validate_services-has :
      (ids : List String) (m : Dict ServiceIdentity) (ss : List ServiceIdentity)
      (out : Dict ServiceIdentity) (x : String)
      → validate_services p ids m ss ≡ ok out
      → has_service (lookup x out) ≡ (has_service (lookup x m) || includes (service_ids ss) x)
  unfolding validate_services
  validate_services-has ids m [] out x e = ground arith
  validate_services-has ids m (s ∷ ss) out x e =
      ground (arith, validate_services-has ids (insert s.id s m) ss out x, lookup-insert s.id x s m)

  validate_services-includes :
      (ids : List String) (ss : List ServiceIdentity) (out : Dict ServiceIdentity) (x : String)
      → validate_services p ids [] ss ≡ ok out
      → has_service (lookup x out) ≡ includes (service_ids ss) x
  unfolding lookup
  validate_services-includes ids ss out x e = validate_services-has ids [] ss out x e

  known_aliases :
      (m : Dict ServiceIdentity) (xs : List ServiceAlias)
      → validate_aliases p m xs ≡ ok tt
      → All (λ a. has_service (lookup a.service_id m) ≡ true) xs
  unfolding validate_aliases
  known_aliases m [] e = tt
  known_aliases m (a ∷ xs) e = (ground arith, known_aliases m xs (ground arith))

  known_consents :
      (ids : List String) (cs : List ConsentGrant)
      → validate_consents p ids cs ≡ ok tt
      → All (λ c. includes ids c.repository_id ≡ true) cs
  unfolding validate_consents
  known_consents ids [] e = tt
  known_consents ids (c ∷ cs) e = (ground arith, known_consents ids cs (ground arith))

no_conflict :
    (a : ServiceAlias) (xs : List ServiceAlias)
    → any (conflict a) xs ≡ false
    → All (λ b. conflict a b ≡ false) xs
no_conflict a [] e = tt
no_conflict a (b ∷ xs) e = (ground arith, no_conflict a xs (ground arith))

validate_pairs-NoConflicts : (xs : List ServiceAlias) → validate_pairs xs ≡ ok tt → NoConflicts xs
unfolding validate_pairs
validate_pairs-NoConflicts [] e = tt
validate_pairs-NoConflicts (a ∷ xs) e =
    (no_conflict a xs (ground arith), validate_pairs-NoConflicts xs (ground arith))

-- What each part of the validation found, put together.
module _ (p : Platform) (s : RegistrySnapshot) (ids : List String)
    (services : Dict ServiceIdentity) where
  parts-IsValid :
      0 < s.revision.sequence
      → validate_repositories p [] [] s.repositories ≡ ok ids
      → validate_services p ids [] s.services ≡ ok services
      → validate_aliases p services s.aliases ≡ ok tt
      → validate_pairs s.aliases ≡ ok tt
      → validate_consents p ids s.consents ≡ ok tt
      → IsValid s
  parts-IsValid pos members found aliases pairs consents = record {
    positive = pos;
    distinct_ids = (Distinct-members p [] [] s.repositories ids members).0;
    distinct_aliases = (Distinct-members p [] [] s.repositories ids members).1;
    services_known =
        All-imp (λ x h. sym (known x.repository_id) ∙ h) s.services
          (known_services p ids [] s.services services found);
    aliases_known =
        All-imp
          (λ a h. sym (validate_services-includes p ids s.services services a.service_id found) ∙ h)
          s.aliases (known_aliases p services s.aliases aliases);
    unambiguous = validate_pairs-NoConflicts s.aliases pairs;
    consents_known =
        All-imp (λ c h. sym (known c.repository_id) ∙ h) s.consents
          (known_consents p ids s.consents consents);
  }
    where
      known : (x : String) → includes ids x ≡ includes (repository_ids s.repositories) x
      known x = validate_repositories-includes p [] [] s.repositories ids x members

-- A snapshot that passes the validation is returned as it is, and it is valid: its repositories have
-- distinct identities and aliases, its services and consents name its repositories, its aliases name its
-- services, and no two aliases are in conflict.
pub validate-IsValid :
    (p : Platform) (s result : RegistrySnapshot)
    → validate_registry_snapshot p s ≡ ok result
    → (result ≡ s) × IsValid s
unfolding validate_registry_snapshot
validate-IsValid p s result e = elim (Result-cases (validate_repositories p [] [] s.repositories)) [
  | inr (x, failed) ↦ absurd (ground arith)
  | inl (ids, members) ↦ elim (Result-cases (validate_services p ids [] s.services)) [
    | inr (x, failed) ↦ absurd (ground arith)
    | inl (services, found) ↦ (
      ground arith,
      parts-IsValid p s ids services (ground arith) members found (ground arith) (ground arith)
          (ground arith),
    )
  ]
]
