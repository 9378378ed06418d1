-- ===== src/Registry/Snapshots.antt =====
-- `createRegistrySnapshot` and the activation of alias suggestions, of packages/domain/src/registry.ts.
-- The `extensions` of a snapshot, which its record leaves out, are an argument.
use mathlib.Core.Option
use reverb_impact.Base.{ℕ, ◌+◌, ◌<>◌, String, Bool, List, [], ◌∷◌, ◌++◌, ok, ◌>>◌, sort_by}
use reverb_impact.Errors.{Checked}
use reverb_impact.Canonical.{
  Platform, Json, text, number, boolean, obj, arr, optional, hash_canonical,
}
use reverb_impact.Registry.Data.{
  ServiceAliasKind, base_token, host, path_prefix, package_coordinate, schema_id, broker_namespace,
  database_instance, RepositoryAction, source_read, derived_retain, evidence_consume,
  identity_disclose, contract_disclose, location_disclose, producer_check_write, consumer_write,
  evaluation_use, research_use, Provenance, operator, provider, imported, Decision, allow, deny,
  RepositoryMembership, Validity, ServiceIdentity, ServiceAlias, ConsentGrant, RegistrySnapshot,
}
use reverb_impact.Registry.Validation.{non_empty, validate_registry_snapshot}

abbrev alias_kind_name : ServiceAliasKind → String
alias_kind_name base_token = "base_token"
alias_kind_name host = "host"
alias_kind_name path_prefix = "path_prefix"
alias_kind_name package_coordinate = "package_coordinate"
alias_kind_name schema_id = "schema_id"
alias_kind_name broker_namespace = "broker_namespace"
alias_kind_name database_instance = "database_instance"

abbrev action_name : RepositoryAction → String
action_name source_read = "source.read"
action_name derived_retain = "derived.retain"
action_name evidence_consume = "evidence.consume"
action_name identity_disclose = "identity.disclose"
action_name contract_disclose = "contract.disclose"
action_name location_disclose = "location.disclose"
action_name producer_check_write = "producer_check.write"
action_name consumer_write = "consumer.write"
action_name evaluation_use = "evaluation.use"
action_name research_use = "research.use"

abbrev provenance_name : Provenance → String
provenance_name operator = "operator"
provenance_name provider = "provider"
provenance_name imported = "imported"

abbrev decision_name : Decision → String
decision_name allow = "allow"
decision_name deny = "deny"

abbrev repository_json : RepositoryMembership → Json
repository_json r = obj (
    ("repositoryId", text r.repository_id)
    ∷ ("alias", text r.alias)
    ∷ optional "rootPath" r.root_path (
        ("defaultBranch", text r.default_branch)
        ∷ ("collections", arr text r.collections)
        ∷ ("selected", boolean r.selected)
        ∷ ("consentRevision", text r.consent_revision)
        ∷ []))

abbrev validity_fields : Platform → Validity → List (String × Json)
validity_fields p v =
    ("validFrom", text (p.iso_text v.valid_from))
    ∷ optional "validUntil" (Option.map p.iso_text v.valid_until) []

abbrev service_json : Platform → ServiceIdentity → Json
service_json p s = obj (
    ("id", text s.id)
    ∷ ("repositoryId", text s.repository_id)
    ∷ ("rootPath", text s.root_path)
    ∷ ("environment", text s.environment)
    ∷ ("owner", text s.owner)
    ∷ validity_fields p s.validity)

abbrev alias_json : Platform → ServiceAlias → Json
alias_json p a = obj (
    ("serviceId", text a.service_id)
    ∷ ("kind", text (alias_kind_name a.kind))
    ∷ ("value", text a.value)
    ∷ optional "pathPrefix" a.alias_path_prefix (
        ("environment", text a.environment)
        ∷ ("provenance", text (provenance_name a.provenance))
        ∷ ("source", text a.source)
        ∷ ("owner", text a.owner)
        ∷ validity_fields p a.validity))

abbrev consent_json : ConsentGrant → Json
consent_json c = obj (
    ("repositoryId", text c.repository_id)
    ∷ ("action", text (action_name c.action))
    ∷ ("grantee", text c.grantee)
    ∷ ("decision", text (decision_name c.decision))
    ∷ ("actor", text c.actor)
    ∷ ("reason", text c.reason)
    ∷ ("revision", text c.revision)
    ∷ [])

pub record CreateRegistrySnapshotInput : Type 0 where
  pub workspace_id : String
  pub sequence : ℕ
  pub created_at : ℕ
  pub created_by : String
  pub source : String
  pub reason : String
  pub repositories : List RepositoryMembership
  pub services : List ServiceIdentity
  pub aliases : List ServiceAlias
  pub consents : List ConsentGrant
  pub extensions : Json

-- The comparators of the four lists.
abbrev pub repository_order : Platform → RepositoryMembership → RepositoryMembership → Bool
repository_order p left right = p.collate_le left.repository_id right.repository_id

abbrev pub service_order : Platform → ServiceIdentity → ServiceIdentity → Bool
service_order p left right = p.collate_le left.id right.id

abbrev alias_text : ServiceAlias → String
alias_text a = alias_kind_name a.kind <> ":" <> a.value <> ":" <> a.service_id

abbrev pub alias_order : Platform → ServiceAlias → ServiceAlias → Bool
alias_order p left right = p.collate_le (alias_text left) (alias_text right)

abbrev consent_text : ConsentGrant → String
consent_text c = c.repository_id <> ":" <> action_name c.action <> ":" <> c.grantee

abbrev pub consent_order : Platform → ConsentGrant → ConsentGrant → Bool
consent_order p left right = p.collate_le (consent_text left) (consent_text right)

-- `content`, of an input whose lists are sorted
abbrev content_fields : Platform → CreateRegistrySnapshotInput → List (String × Json)
content_fields p c =
    ("workspaceId", text c.workspace_id)
    ∷ ("sequence", number c.sequence)
    ∷ ("repositories", arr repository_json c.repositories)
    ∷ ("services", arr (service_json p) c.services)
    ∷ ("aliases", arr (alias_json p) c.aliases)
    ∷ ("consents", arr consent_json c.consents)
    ∷ ("extensions", c.extensions)
    ∷ []

-- The snapshot before its validation.
unfoldable pub build_snapshot : Platform → CreateRegistrySnapshotInput → RegistrySnapshot
build_snapshot p input =
    let content = record input {
      repositories = sort_by (repository_order p) input.repositories;
      services = sort_by (service_order p) input.services;
      aliases = sort_by (alias_order p) input.aliases;
      consents = sort_by (consent_order p) input.consents;
    } in
    let fields = content_fields p content in
    let config_hash = hash_canonical p (obj fields) in
    record {
      schema = "reverb.workspace-registry";
      schema_version = "1.0";
      revision = record {
        workspace_id = input.workspace_id;
        revision =
            "reg_" <> hash_canonical p (obj (fields ++ ("configHash", text config_hash) ∷ []));
        config_revision = "cfg_" <> hash_canonical p (obj (("schemaVersion", text "1.0") ∷ fields));
        sequence = input.sequence;
        created_at = input.created_at;
        created_by = input.created_by;
        source = input.source;
        reason = input.reason;
        config_hash = config_hash;
      };
      repositories = content.repositories;
      services = content.services;
      aliases = content.aliases;
      consents = content.consents;
    }

-- `createRegistrySnapshot`
unfoldable pub create_registry_snapshot :
    Platform → CreateRegistrySnapshotInput → Checked RegistrySnapshot
unfolding build_snapshot
create_registry_snapshot p input = validate_registry_snapshot p (build_snapshot p input)

pub record ServiceAliasSuggestion : Type 0 where
  pub id : String
  pub alias : ServiceAlias
  pub evidence : String

-- `createServiceAliasSuggestion`; `active` is always false.
unfoldable pub create_service_alias_suggestion :
    Platform → ServiceAlias → String → Checked ServiceAliasSuggestion
create_service_alias_suggestion p alias evidence = do
  non_empty p evidence "Alias suggestion evidence"
  ok (record {
    id = hash_canonical p (obj (("alias", alias_json p alias) ∷ ("evidence", text evidence) ∷ []));
    alias = alias;
    evidence = evidence;
  })

-- The input that an activation gives to `createRegistrySnapshot`.
abbrev pub activation_input :
    RegistrySnapshot → ServiceAliasSuggestion → String → ℕ → Json → CreateRegistrySnapshotInput
activation_input snapshot suggestion approved_by created_at extensions = record {
  workspace_id = snapshot.revision.workspace_id;
  sequence = snapshot.revision.sequence + 1;
  created_at = created_at;
  created_by = approved_by;
  source = "operator alias approval";
  reason = "activate alias suggestion " <> suggestion.id;
  repositories = snapshot.repositories;
  services = snapshot.services;
  aliases = snapshot.aliases ++ record (suggestion.alias) { provenance = operator } ∷ [];
  consents = snapshot.consents;
  extensions = extensions;
}

-- `activateServiceAliasSuggestion`
unfoldable pub activate_service_alias_suggestion :
    Platform
    → RegistrySnapshot
    → ServiceAliasSuggestion
    → String
    → ℕ
    → Json
    → Checked RegistrySnapshot
unfolding create_registry_snapshot
activate_service_alias_suggestion p snapshot suggestion approved_by created_at extensions =
    non_empty p approved_by "Alias suggestion approver"
    >> create_registry_snapshot p
        (activation_input snapshot suggestion approved_by created_at extensions)
