-- ===== src/Registry/Examples.antt =====
-- A registry of two repositories at concrete inputs.
use reverb_impact.Base.{
  String, true, ◌≡◌, ◌≢◌, refl, ◌↔◌, none, some, List, [], ◌∷◌, arith, ok, lookup, insert, sort_by,
  unique, unique_from, sorted_unique,
}
use reverb_impact.Canonical.{Platform}
use reverb_impact.Registry.Data.{
  host, operator, Validity, RepositoryMembership, ServiceIdentity, ServiceAlias, RegistrySnapshot,
  AliasResolutionRequest, not_found, ambiguous, resolved,
}
use reverb_impact.Registry.Validation.{
  intervals_overlap, same_kind, conflict, validate_interval, non_empty, validate_repositories,
  validate_services, validate_aliases, validate_pairs, validate_consents,
  validate_registry_snapshot,
}
use reverb_impact.Registry.Valid.{IsValid, validate-IsValid}
use reverb_impact.Registry.Aliases.{
  strip_dot, normalized_alias_value, active_at, active_services, is_candidate, candidates, conclude,
  resolve_valid, resolve_service_alias, rewrite_gateway_path,
}
use reverb_impact.Registry.Matching.{Matches}
use reverb_impact.Registry.Resolution.{IsChosen}
use reverb_impact.Registry.Outcomes.{resolve-IsChosen, resolve-not_found_iff}
use reverb_impact.Registry.Unambiguous.{resolve-ne-ambiguous}

-- A runtime that orders nothing and changes no text.
abbrev pub plain : Platform
plain = record {
  collate_le = λ left right. true;
  code_unit_le = λ left right. true;
  utf16_length = λ value. 0;
  trim = λ value. value;
  normalize_nfc = λ value. value;
  to_lower_case = λ value. value;
  stringify = λ value. "";
  iso_text = λ value. "";
  sha256_text = λ value. value;
}

abbrev always : Validity
always = record { valid_from = 10; valid_until = none }

abbrev repository : String → String → RepositoryMembership
repository id alias = record {
  repository_id = id;
  alias = alias;
  root_path = none;
  default_branch = "main";
  collections = [];
  selected = true;
  consent_revision = "c1";
}

abbrev service : String → String → Validity → ServiceIdentity
service id repository_id validity = record {
  id = id;
  repository_id = repository_id;
  root_path = "src";
  environment = "prod";
  owner = "team";
  validity = validity;
}

abbrev pub host_alias : String → String → ServiceAlias
host_alias service_id value = record {
  service_id = service_id;
  kind = host;
  value = value;
  alias_path_prefix = none;
  environment = "prod";
  provenance = operator;
  source = "file";
  owner = "team";
  validity = always;
}

abbrev snapshot_of : List ServiceIdentity → List ServiceAlias → RegistrySnapshot
snapshot_of services aliases = record {
  schema = "reverb.workspace-registry";
  schema_version = "1.0";
  revision = record {
    workspace_id = "w";
    revision = "reg";
    config_revision = "cfg";
    sequence = 1;
    created_at = 0;
    created_by = "me";
    source = "file";
    reason = "first";
    config_hash = "h";
  };
  repositories = repository "r1" "one" ∷ repository "r2" "two" ∷ [];
  services = services;
  aliases = aliases;
  consents = [];
}

abbrev pub registry : RegistrySnapshot
registry =
    snapshot_of (service "api" "r1" always ∷ service "web" "r2" always ∷ [])
      (host_alias "api" "api.x" ∷ host_alias "web" "web.x" ∷ [])

abbrev ask : String → AliasResolutionRequest
ask value = record { kind = host; value = value; environment = "prod"; as_of = 50; path = none }

registry_program : Unit {0}
unfolding validate_registry_snapshot validate_repositories validate_services validate_aliases
    validate_pairs validate_consents validate_interval non_empty intervals_overlap conflict
    same_kind lookup insert sort_by unique unique_from sorted_unique strip_dot
    normalized_alias_value active_at active_services is_candidate candidates conclude resolve_valid
    resolve_service_alias rewrite_gateway_path
registry_program = tt

registry_validates : validate_registry_snapshot plain registry ≡ ok registry
unfolding registry_program
registry_validates = refl

-- Three services of one identity: the third overlaps the first, and is compared with the second alone.
overlap_unnoticed :
    let early : Validity = record { valid_from = 10; valid_until = some 100 } in
    let middle : Validity = record { valid_from = 200; valid_until = some 300 } in
    let inner : Validity = record { valid_from = 20; valid_until = some 50 } in
    let overlapping =
      snapshot_of
        (service "api" "r1" early ∷ service "api" "r1" middle ∷ service "api" "r1" inner ∷ [])
        [] in
    (validate_registry_snapshot plain overlapping ≡ ok overlapping)
    × (intervals_overlap early inner ≡ true)
unfolding registry_program
overlap_unnoticed = (refl, refl)

validate-IsValid_example : (registry ≡ registry) × IsValid registry
validate-IsValid_example = validate-IsValid plain registry registry registry_validates

api_resolves :
    resolve_service_alias plain registry (ask "api.x.")
    ≡ ok (resolved (service "api" "r1" always) (host_alias "api" "api.x") "reg" none)
unfolding registry_program
api_resolves = refl

nothing_resolves : resolve_service_alias plain registry (ask "db.x") ≡ ok not_found
unfolding registry_program
nothing_resolves = refl

resolve-IsChosen_example :
    IsChosen plain registry (ask "api.x.") (service "api" "r1" always) (host_alias "api" "api.x")
    × ("reg" ≡ registry.revision.revision)
    × (none ≡ rewrite_gateway_path none none)
resolve-IsChosen_example =
    resolve-IsChosen plain registry (ask "api.x.") (service "api" "r1" always)
      (host_alias "api" "api.x") "reg" none api_resolves

resolve-not_found_iff_example :
    (not_found ≡ not_found) ↔ ((a : ServiceAlias) → ¬ Matches plain registry (ask "db.x") a)
resolve-not_found_iff_example =
    resolve-not_found_iff plain registry (ask "db.x") not_found nothing_resolves

resolve-ne-ambiguous_example :
    resolve_service_alias plain registry (ask "api.x") ≢ ok (ambiguous ("api" ∷ "web" ∷ []) "reg")
unfolding normalized_alias_value
resolve-ne-ambiguous_example =
    resolve-ne-ambiguous plain registry (ask "api.x") ("api" ∷ "web" ∷ []) "reg" (omega arith)
      (refl, (refl, tt))
