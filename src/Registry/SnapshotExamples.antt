-- ===== src/Registry/SnapshotExamples.antt =====
-- A snapshot created from an input, and a suggestion activated.
use reverb_impact.Base.{
  ◌+◌, [], ◌∷◌, ◌++◌, ◌≡◌, refl, ◌↔◌, ◌⊎◌, ok, Memᴰ, lookup, insert, sort_by, unique, unique_from,
  sorted_unique,
}
use reverb_impact.Canonical.{obj, hash_canonical, canonical_json}
use reverb_impact.Registry.Data.{operator, ServiceIdentity, ServiceAlias, RegistrySnapshot}
use reverb_impact.Registry.Validation.{
  intervals_overlap, same_kind, conflict, validate_interval, non_empty, validate_repositories,
  validate_services, validate_aliases, validate_pairs, validate_consents,
  validate_registry_snapshot,
}
use reverb_impact.Registry.Valid.{IsValid}
use reverb_impact.Registry.Examples.{plain, registry, host_alias}
use reverb_impact.Registry.Snapshots.{
  CreateRegistrySnapshotInput, ServiceAliasSuggestion, create_registry_snapshot, activation_input,
  activate_service_alias_suggestion,
}
use reverb_impact.Registry.Activation.{activate-IsValid}

abbrev suggestion : ServiceAliasSuggestion
suggestion = record { id = "h"; alias = host_alias "web" "www.x"; evidence = "a certificate" }

abbrev input : CreateRegistrySnapshotInput
input = activation_input registry suggestion "ann" 70 (obj [])

abbrev activated : RegistrySnapshot
activated = record registry {
  revision = record (registry.revision) {
    revision = "reg_";
    config_revision = "cfg_";
    sequence = registry.revision.sequence + 1;
    created_at = 70;
    created_by = "ann";
    source = "operator alias approval";
    reason = "activate alias suggestion h";
    config_hash = "";
  };
  aliases = registry.aliases ++ host_alias "web" "www.x" ∷ [];
}

created : create_registry_snapshot plain input ≡ ok activated
unfolding create_registry_snapshot hash_canonical canonical_json validate_registry_snapshot
    validate_repositories validate_services validate_aliases validate_pairs validate_consents
    validate_interval non_empty intervals_overlap conflict same_kind lookup insert sort_by unique
    unique_from sorted_unique
created = refl

activation :
    activate_service_alias_suggestion plain registry suggestion "ann" 70 (obj []) ≡ ok activated
unfolding activate_service_alias_suggestion created
activation = refl

activate-IsValid_example :
    IsValid activated
    × (activated.revision.sequence ≡ registry.revision.sequence + 1)
    × ((x : ServiceIdentity) → Memᴰ x activated.services ↔ Memᴰ x registry.services)
    × ((a : ServiceAlias)
        → Memᴰ a activated.aliases
          ↔ (Memᴰ a registry.aliases ⊎ (a ≡ record (suggestion.alias) { provenance = operator })))
activate-IsValid_example = activate-IsValid plain registry suggestion "ann" 70 (obj []) activation
