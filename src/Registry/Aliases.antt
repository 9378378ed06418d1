-- ===== src/Registry/Aliases.antt =====
-- `resolveServiceAlias` and its helpers.
use Prim.Native.Char.{Char, code}
use Prim.Native.String
use reverb_impact.Base.{
  ℕ, String, Bool, true, false, ◌&&◌, Option, none, some, List, [], ◌∷◌, map, filter, ok, ◌>>=◌,
  ◌==◌, ltb, leb, nat_eq, if◌then◌else◌, Dict, insert, lookup, sort_by, sorted_unique,
}
use reverb_impact.Errors.{Checked}
use reverb_impact.Canonical.{Platform}
use reverb_impact.Registry.Data.{
  ServiceAliasKind, host, path_prefix, package_coordinate, Validity, ServiceIdentity, ServiceAlias,
  RegistrySnapshot, AliasResolutionRequest, AliasResolution, not_found, ambiguous, resolved,
}
use reverb_impact.Registry.Validation.{same_kind, has_service, validate_registry_snapshot}

abbrev is_slash : Char → Bool
is_slash c = nat_eq (code c) b'/'

-- value.replace(/^\/+/, '')
unfoldable pub strip_leading : String → String
strip_leading String.[] = String.[]
strip_leading (String.◌∷◌ c s) =
    let rest = strip_leading s in if is_slash c then rest else String.◌∷◌ c s

-- value.replace(/\/+$/, '')
unfoldable pub strip_trailing : String → String
strip_trailing String.[] = String.[]
strip_trailing (String.◌∷◌ c s) =
    let rest = strip_trailing s in if is_slash c && rest == "" then String.[] else String.◌∷◌ c rest

-- value.replace(/^\/+|\/+$/g, '')
unfoldable pub strip_slashes : String → String
unfolding strip_leading strip_trailing
strip_slashes s = strip_trailing (strip_leading s)

abbrev begins_with_slash : String → Bool
begins_with_slash String.[] = false
begins_with_slash (String.◌∷◌ c s) = is_slash c

-- value.replace(/\/{2}/g, '/')
unfoldable pub collapse_slashes : String → String
collapse_slashes String.[] = String.[]
collapse_slashes (String.◌∷◌ c s) =
    let rest = collapse_slashes s in
    if is_slash c && begins_with_slash s then rest else String.◌∷◌ c rest

-- value.replace(/\.$/, '')
unfoldable pub strip_dot : String → String
strip_dot String.[] = String.[]
strip_dot (String.◌∷◌ c s) =
    let rest = strip_dot s in
    if nat_eq (code c) b'.' && s == "" then String.[] else String.◌∷◌ c rest

-- `normalizedAliasValue`
unfoldable pub normalized_alias_value : Platform → ServiceAliasKind → String → String
unfolding strip_dot strip_slashes collapse_slashes
normalized_alias_value p kind value =
    let trimmed = p.trim (p.normalize_nfc value) in
    elim kind [
      | host ↦ strip_dot (p.to_lower_case trimmed)
      | package_coordinate ↦ p.to_lower_case trimmed
      | path_prefix ↦ collapse_slashes (strip_slashes trimmed)
      | _ ↦ trimmed
    ]

-- `activeAt`
unfoldable pub active_at : Validity → ℕ → Bool
active_at v at =
    leb v.valid_from at && (elim v.valid_until [ none ↦ true | some until ↦ ltb at until ])

-- What follows the prefix, if the text starts with it.
unfoldable pub drop_prefix : String → String → Option String
drop_prefix String.[] s = some s
drop_prefix (String.◌∷◌ c prefix) String.[] = none
drop_prefix (String.◌∷◌ c prefix) (String.◌∷◌ d s) =
    let rest = drop_prefix prefix s in if nat_eq (code c) (code d) then rest else none

-- `rewriteGatewayPath`
unfoldable pub rewrite_gateway_path : Option String → Option String → Option String
unfolding strip_slashes collapse_slashes drop_prefix
rewrite_gateway_path none prefix = none
rewrite_gateway_path (some path) none = some (collapse_slashes (strip_slashes path))
rewrite_gateway_path (some path) (some prefix) =
    let normalized_path = collapse_slashes (strip_slashes path) in
    let normalized_prefix = strip_slashes prefix in
    if normalized_path == normalized_prefix
    then some ""
    else drop_prefix (String.◌++◌ normalized_prefix "/") normalized_path

-- The map of the services that are active at a time.
unfoldable pub active_services :
    List ServiceIdentity → ℕ → Dict ServiceIdentity → Dict ServiceIdentity
active_services [] at m = m
active_services (s ∷ rest) at m =
    active_services rest at (if active_at s.validity at then insert s.id s m else m)

-- The condition on `path` in the filter.
abbrev pub routes : Option String → Option String → Bool
routes path prefix = elim path [
  | none ↦ true
  | some s ↦ elim (rewrite_gateway_path (some s) prefix) [ none ↦ false | some _ ↦ true ]
]

-- The filter that makes an alias a candidate.
unfoldable pub is_candidate :
    Platform → Dict ServiceIdentity → AliasResolutionRequest → ServiceAlias → Bool
is_candidate p services request alias =
    same_kind alias.kind request.kind
    && alias.environment == request.environment
    && active_at alias.validity request.as_of
    && has_service (lookup alias.service_id services)
    && normalized_alias_value p alias.kind alias.value
      == normalized_alias_value p request.kind request.value
    && routes request.path alias.alias_path_prefix

-- `pathPrefix?.length ?? 0`
abbrev pub prefix_length : Platform → ServiceAlias → ℕ
prefix_length p alias = elim alias.alias_path_prefix [ none ↦ 0 | some s ↦ p.utf16_length s ]

-- `${serviceId}\0${value}`
abbrev pub alias_key : ServiceAlias → String
alias_key a = String.◌++◌ (String.◌++◌ a.service_id "\0") a.value

-- The comparator of the candidates: longer prefixes first.
abbrev pub candidate_order : Platform → ServiceAlias → ServiceAlias → Bool
candidate_order p left right =
    if ltb (prefix_length p right) (prefix_length p left)
    then true
    else if ltb (prefix_length p left) (prefix_length p right)
    then false
    else p.collate_le (alias_key left) (alias_key right)

-- `candidates`
unfoldable pub candidates : Platform → RegistrySnapshot → AliasResolutionRequest → List ServiceAlias
unfolding is_candidate active_services
candidates p snapshot request = sort_by (candidate_order p) (
    filter (is_candidate p (active_services snapshot.services request.as_of []) request)
      snapshot.aliases)

-- The return statements, given the sorted candidates and their sorted service identities. A list of one
-- identity has a first candidate, and its service is in the map: the two last clauses do not occur.
unfoldable pub conclude :
    RegistrySnapshot → AliasResolutionRequest → List String → List ServiceAlias → AliasResolution
conclude snapshot request [] found = not_found
conclude snapshot request (s ∷ t ∷ ids) found = ambiguous (s ∷ t ∷ ids) snapshot.revision.revision
conclude snapshot request (s ∷ []) [] = not_found
conclude snapshot request (s ∷ []) (alias ∷ rest) =
    elim (lookup alias.service_id (active_services snapshot.services request.as_of [])) [
      | some service ↦
          resolved service alias snapshot.revision.revision
            (rewrite_gateway_path request.path alias.alias_path_prefix)
      | none ↦ not_found
    ]

-- `resolveServiceAlias`, after the validation.
unfoldable pub resolve_valid :
    Platform → RegistrySnapshot → AliasResolutionRequest → AliasResolution
unfolding conclude
resolve_valid p snapshot request =
    let found = candidates p snapshot request in
    let ids = sorted_unique p.code_unit_le (map (λ alias. alias.service_id) found) in
    conclude snapshot request ids found

-- `resolveServiceAlias`
unfoldable pub resolve_service_alias :
    Platform → RegistrySnapshot → AliasResolutionRequest → Checked AliasResolution
unfolding resolve_valid
resolve_service_alias p snapshot request = do
  checked ← validate_registry_snapshot p snapshot
  ok (resolve_valid p checked request)
