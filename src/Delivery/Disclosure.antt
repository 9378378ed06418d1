-- ===== src/Delivery/Disclosure.antt =====
-- `projectFindingDisclosure` of packages/domain/src/delivery.ts.
use reverb_impact.Base.{
  String, Bool, true, false, not, ◌&&◌, Option, none, some, List, [], ◌∷◌, ◌++◌, ◌<>◌, Dict, insert,
  sort_by, if◌then◌else◌,
}
use reverb_impact.Canonical.{Platform, Json, text, obj, arr, hash_canonical}

pub data DisclosureFieldClass : Type 0 where
  repository_identity contract_identity location snippet : DisclosureFieldClass

-- `viewer_can_read` is false where the field is left out.
pub record DisclosureFact : Type 0 where
  pub field : DisclosureFieldClass
  pub name : String
  pub value : String
  pub subject_repository_id : String
  pub explicit_grant : Bool
  pub app_can_read : Bool
  pub whole_producer_audience_can_read : Bool
  pub viewer_can_read : Bool

pub data OmissionReason : Type 0 where
  no_explicit_grant app_access_denied : OmissionReason
  whole_audience_safety_unproven viewer_access_denied : OmissionReason

pub record DisclosureOmission : Type 0 where
  pub field : DisclosureFieldClass
  pub name : String
  pub reason : OmissionReason

pub data Audience : Type 0 where
  static personalized : Audience

pub record DisclosureInput : Type 0 where
  pub workspace_id : String
  pub destination_repository_id : String
  pub audience : Audience
  pub registry_revision : String
  pub facts : List DisclosureFact

pub record FindingDisclosureProjection : Type 0 where
  pub schema : String
  pub schema_version : String
  pub workspace_id : String
  pub destination_repository_id : String
  pub audience : Audience
  pub registry_revision : String
  pub allowed : Dict String
  pub omitted : List DisclosureOmission
  pub decision_hash : String

abbrev pub field_name : DisclosureFieldClass → String
field_name repository_identity = "repository_identity"
field_name contract_identity = "contract_identity"
field_name location = "location"
field_name snippet = "snippet"

abbrev reason_name : OmissionReason → String
reason_name no_explicit_grant = "no_explicit_grant"
reason_name app_access_denied = "app_access_denied"
reason_name whole_audience_safety_unproven = "whole_audience_safety_unproven"
reason_name viewer_access_denied = "viewer_access_denied"

abbrev audience_name : Audience → String
audience_name static = "static"
audience_name personalized = "personalized"

abbrev pub is_static : Audience → Bool
is_static static = true
is_static personalized = false

-- The comparator of the facts.
abbrev pub fact_order : Platform → DisclosureFact → DisclosureFact → Bool
fact_order p left right =
    p.collate_le (field_name left.field <> ":" <> left.name)
      (field_name right.field <> ":" <> right.name)

-- `reason`
unfoldable pub omission_reason : Audience → DisclosureFact → Option OmissionReason
omission_reason audience fact =
    if not fact.explicit_grant
    then some no_explicit_grant
    else if not fact.app_can_read
    then some app_access_denied
    else if is_static audience && not fact.whole_producer_audience_can_read
    then some whole_audience_safety_unproven
    else if not (is_static audience) && not fact.viewer_can_read
    then some viewer_access_denied
    else none

-- `allowed` and `omitted`
pub record Projected : Type 0 where
  pub allowed : Dict String
  pub omitted : List DisclosureOmission

-- One turn of the loop, with the reason of the fact.
abbrev pub project_fact : Option OmissionReason → DisclosureFact → Projected → Projected
project_fact none fact state = record state { allowed = insert fact.name fact.value state.allowed }
project_fact (some reason) fact state = record state {
  omitted = state.omitted ++ record { field = fact.field; name = fact.name; reason = reason } ∷ [];
}

-- The loop over the sorted facts.
unfoldable pub project_facts : Audience → List DisclosureFact → Projected → Projected
unfolding omission_reason
project_facts audience [] state = state
project_facts audience (fact ∷ facts) state =
    project_facts audience facts (project_fact (omission_reason audience fact) fact state)

abbrev omission_json : DisclosureOmission → Json
omission_json o = obj (
    ("field", text (field_name o.field))
    ∷ ("name", text o.name)
    ∷ ("reason", text (reason_name o.reason))
    ∷ [])

abbrev allowed_json : Dict String → List (String × Json)
allowed_json [] = []
allowed_json ((k, v) ∷ m) = (k, text v) ∷ allowed_json m

-- `projectFindingDisclosure`
unfoldable pub project_finding_disclosure : Platform → DisclosureInput → FindingDisclosureProjection
unfolding project_facts
project_finding_disclosure p input =
    let state : Projected =
      project_facts input.audience (sort_by (fact_order p) input.facts)
        (record { allowed = []; omitted = [] }) in
    record {
      schema = "reverb.finding-disclosure-projection";
      schema_version = "1.0";
      workspace_id = input.workspace_id;
      destination_repository_id = input.destination_repository_id;
      audience = input.audience;
      registry_revision = input.registry_revision;
      allowed = state.allowed;
      omitted = state.omitted;
      decision_hash = hash_canonical p (
          obj (
            ("schema", text "reverb.finding-disclosure-projection")
            ∷ ("schemaVersion", text "1.0")
            ∷ ("workspaceId", text input.workspace_id)
            ∷ ("destinationRepositoryId", text input.destination_repository_id)
            ∷ ("audience", text (audience_name input.audience))
            ∷ ("registryRevision", text input.registry_revision)
            ∷ ("allowed", obj (allowed_json state.allowed))
            ∷ ("omitted", arr omission_json state.omitted)
            ∷ []));
    }
