-- ===== src/Registry/Validation.antt =====
-- `validateRegistrySnapshot` and its helpers, in the order of the source's tests.
use reverb_impact.Base.{
  ℕ, String, Bool, true, false, not, ◌&&◌, Option, none, some, List, [], ◌∷◌, ok, ◌>>=◌, ◌>>◌, ◌==◌,
  ltb, leb, nat_eq, any, includes, Dict, insert, lookup,
}
use reverb_impact.Errors.{
  Checked, invariant, invalid_schema, unsupported_schema_major, invalid_registry,
  unknown_repository, unknown_service, ambiguous_alias,
}
use reverb_impact.Ports.{max_safe_integer}
use reverb_impact.Canonical.{Platform}
use reverb_impact.Registry.Data.{
  ServiceAliasKind, base_token, host, path_prefix, package_coordinate, schema_id, broker_namespace,
  database_instance, Validity, RepositoryMembership, ServiceIdentity, ServiceAlias, ConsentGrant,
  RegistrySnapshot,
}
use Prim.Native.String

-- '9999-12-31T23:59:59.999Z'
abbrev pub end_of_time : ℕ
end_of_time = 253402300799999

abbrev pub end_of : Validity → ℕ
end_of v = elim v.valid_until [ none ↦ end_of_time | some t ↦ t ]

-- `===` on alias kinds.
abbrev pub kind_index : ServiceAliasKind → ℕ
kind_index base_token = 0
kind_index host = 1
kind_index path_prefix = 2
kind_index package_coordinate = 3
kind_index schema_id = 4
kind_index broker_namespace = 5
kind_index database_instance = 6

unfoldable pub same_kind : ServiceAliasKind → ServiceAliasKind → Bool
same_kind a b = nat_eq (kind_index a) (kind_index b)

-- `services.has(id)`
abbrev pub has_service : Option ServiceIdentity → Bool
has_service none = false
has_service (some service) = true

-- `intervalsOverlap`
unfoldable pub intervals_overlap : Validity → Validity → Bool
intervals_overlap left right =
    ltb left.valid_from (end_of right) && ltb right.valid_from (end_of left)

-- `validateInterval`
unfoldable pub validate_interval : Validity → String → Checked (Unit {0})
validate_interval v subject = elim v.valid_until [
  | none ↦ ok tt
  | some until ↦
      invariant (ltb v.valid_from until) invalid_registry
        (String.◌++◌ subject " validity interval must end after it begins.")
]

-- `nonEmpty`
unfoldable pub non_empty : Platform → String → String → Checked (Unit {0})
non_empty p value subject =
    invariant (not (p.trim value == "")) invalid_registry (String.◌++◌ subject " cannot be empty.")

-- The loop over the repositories; the arguments before the list are the two sets. The result is the
-- set of the identities.
unfoldable pub validate_repositories :
    Platform → List String → List String → List RepositoryMembership → Checked (List String)
validate_repositories p ids aliases [] = ok ids
validate_repositories p ids aliases (r ∷ rs) = do
  non_empty p r.alias "Repository alias"
  non_empty p r.default_branch "Repository default branch"
  non_empty p r.consent_revision "Repository consent revision"
  invariant (not (includes ids r.repository_id)) invalid_registry
      "Repository membership is duplicated."
  invariant (not (includes aliases r.alias)) invalid_registry "Repository alias is duplicated."
  validate_repositories p (r.repository_id ∷ ids) (r.alias ∷ aliases) rs

-- `existing && intervalsOverlap(existing, service)`
abbrev pub overlaps_existing : Option ServiceIdentity → ServiceIdentity → Bool
overlaps_existing none service = false
overlaps_existing (some existing) service = intervals_overlap existing.validity service.validity

-- The loop over the services. The map keeps the last service of an identity.
unfoldable pub validate_services :
    Platform
    → List String
    → Dict ServiceIdentity
    → List ServiceIdentity
    → Checked (Dict ServiceIdentity)
validate_services p ids services [] = ok services
validate_services p ids services (s ∷ rest) = do
  non_empty p s.id "Service ID"
  non_empty p s.environment "Service environment"
  non_empty p s.owner "Service owner"
  validate_interval s.validity "Service"
  invariant (includes ids s.repository_id) unknown_repository
      "Service references an unknown repository."
  invariant (not (overlaps_existing (lookup s.id services) s)) invalid_registry
      "Service validity overlaps."
  validate_services p ids (insert s.id s services) rest

-- The loop over the aliases.
unfoldable pub validate_aliases :
    Platform → Dict ServiceIdentity → List ServiceAlias → Checked (Unit {0})
validate_aliases p services [] = ok tt
validate_aliases p services (a ∷ rest) = do
  non_empty p a.service_id "Alias service ID"
  non_empty p a.value "Alias value"
  non_empty p a.environment "Alias environment"
  non_empty p a.source "Alias source"
  non_empty p a.owner "Alias owner"
  validate_interval a.validity "Alias"
  invariant (has_service (lookup a.service_id services)) unknown_service
      "Alias references an unknown service."
  validate_aliases p services rest

-- Two aliases that one text of one kind and environment could stand for at one time.
unfoldable pub conflict : ServiceAlias → ServiceAlias → Bool
unfolding intervals_overlap
conflict left right =
    same_kind left.kind right.kind
    && left.value == right.value
    && left.environment == right.environment
    && not (left.service_id == right.service_id)
    && intervals_overlap left.validity right.validity

-- The double loop over the pairs of aliases.
unfoldable pub validate_pairs : List ServiceAlias → Checked (Unit {0})
validate_pairs [] = ok tt
validate_pairs (left ∷ rest) = do
  invariant (not (any (conflict left) rest)) ambiguous_alias "Service aliases overlap ambiguously."
  validate_pairs rest

-- The loop over the consents.
unfoldable pub validate_consents : Platform → List String → List ConsentGrant → Checked (Unit {0})
validate_consents p ids [] = ok tt
validate_consents p ids (c ∷ rest) = do
  non_empty p c.grantee "Consent grantee"
  non_empty p c.actor "Consent actor"
  non_empty p c.reason "Consent reason"
  non_empty p c.revision "Consent revision"
  invariant (includes ids c.repository_id) unknown_repository
      "Consent references an unknown repository."
  validate_consents p ids rest

-- `validateRegistrySnapshot`
unfoldable pub validate_registry_snapshot : Platform → RegistrySnapshot → Checked RegistrySnapshot
validate_registry_snapshot p snapshot = do
  invariant (snapshot.schema == "reverb.workspace-registry") invalid_schema
      "Registry schema is invalid."
  invariant (snapshot.schema_version == "1.0") unsupported_schema_major
      "Registry schema major is unsupported."
  invariant (leb snapshot.revision.sequence max_safe_integer && ltb 0 snapshot.revision.sequence)
      invalid_registry "Registry sequence must be positive."
  ids ← validate_repositories p [] [] snapshot.repositories
  services ← validate_services p ids [] snapshot.services
  validate_aliases p services snapshot.aliases
  validate_pairs snapshot.aliases
  validate_consents p ids snapshot.consents
  ok snapshot
