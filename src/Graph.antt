-- ===== src/Graph.antt =====
-- The evidence graph: packages/domain/src/graph.ts. Instants are milliseconds of the epoch. A hash is a
-- SHA-256 in hexadecimal, so the tests of the form of the identities made from one pass.
mod Data
pub mod Joining
pub mod Merging
pub mod Support
pub mod Edges
pub mod Soundness
pub mod Observation
pub mod Transitive
pub mod Fuel
pub mod Walks
pub mod Candidates
pub mod Samples
mod Examples
unfoldable pub use Data.*
use Prim.Native.String
use reverb_impact.Base.{
  ◌<>◌, ℕ, ◌-◌, String, Bool, true, false, not, ◌&&◌, ◌||◌, Option, none, some, List, [], ◌∷◌, ◌++◌,
  map, filter, length, ok, ◌>>=◌, ◌>>◌, ◌==◌, ltb, leb, if◌then◌else◌, find,
}
use reverb_impact.Contracts.{ContractKind, kind_name, same_contract_kind}
use reverb_impact.Canonical.{Platform, text, number, obj, hash_canonical}
use reverb_impact.Errors.{Checked, invariant, invalid_schema}
use reverb_impact.Registry.Data.{AliasResolutionRequest}

-- `xs.join(separator)`
abbrev pub join : String → List String → String
join separator [] = ""
join separator (x ∷ []) = x
join separator (x ∷ y ∷ ys) = x <> separator <> join separator (y ∷ ys)

abbrev pub basis_name : EvidenceBasis → String
basis_name exact = "exact"
basis_name registry_resolved = "registry_resolved"
basis_name heuristic = "heuristic"
basis_name declared_context = "declared_context"
basis_name behavioural_context = "behavioural_context"

abbrev pub is_exact : EvidenceBasis → Bool
is_exact exact = true
is_exact _ = false

abbrev is_registry_resolved : EvidenceBasis → Bool
is_registry_resolved registry_resolved = true
is_registry_resolved _ = false

-- `${adapterId}@${adapterVersion}#${identityVersion}.${evidenceStratum}`
abbrev marks_text : Platform → AdapterMarks → String
marks_text p m =
    m.adapter_id
    <> "@"
    <> m.adapter_version
    <> "#"
    <> p.stringify (number m.identity_version)
    <> "."
    <> m.evidence_stratum

-- `evidenceStratumKey`
unfoldable pub evidence_stratum_key :
    Platform
    → ContractKind
    → IndexedContractDefinition
    → IndexedContractReference
    → EvidenceBasis
    → EvidencePath
    → Checked String
evidence_stratum_key p kind definition reference basis path = do
  let required = filter (λ step. step.required) path.steps
  invariant (ltb 0 (length required)) invalid_schema
      "Evidence path requires at least one required step."
  ok (
      join "|" (
        kind_name kind
        ∷ marks_text p definition.marks
        ∷ marks_text p reference.marks
        ∷ basis_name basis
        ∷ join "+" (map (λ step. step.id <> ":" <> basis_name step.basis) required)
        ∷ "v1"
        ∷ []))

-- `edgeIdentity`
unfoldable pub edge_identity :
    Platform
    → IndexedContractDefinition
    → IndexedContractReference
    → EvidenceBasis
    → String
    → String
edge_identity p definition reference basis registry_revision =
    "edg_"
    <> hash_canonical p (
        obj (
          ("workspaceId", text definition.workspace_id)
          ∷ ("producerRepositoryId", text definition.repository_id)
          ∷ ("consumerRepositoryId", text reference.repository_id)
          ∷ ("definitionKey", text definition.canonical_key)
          ∷ ("stableReferenceId", text reference.stable_reference_id)
          ∷ ("basis", text (basis_name basis))
          ∷ ("registryRevision", text registry_revision)
          ∷ []))

-- `reference.registryTarget?.value ?? 'missing'`
abbrev target_value : Option RegistryReferenceTarget → String
target_value none = "missing"
target_value (some target) = target.value

-- `pathFor`
unfoldable pub path_for :
    EvidenceBasis → IndexedContractDefinition → IndexedContractReference → EvidencePath
path_for basis definition reference =
    let steps =
      record {
        id = "producer_definition";
        required = true;
        basis = exact;
        source_key = definition.canonical_key;
      }
        ∷ (if is_registry_resolved basis
            then record {
              id = "registry_alias";
              required = true;
              basis = registry_resolved;
              source_key = target_value reference.registry_target;
            }
              ∷ []
            else [])
      ++ record {
        id = "consumer_reference";
        required = true;
        basis = basis;
        source_key = reference.stable_reference_id;
      }
        ∷ [] in
    record { id = join "." (map (λ step. step.id) steps); steps = steps }

-- `definitionForChange`
unfoldable pub definition_for_change :
    IndexedContractChange → List IndexedContractDefinition → Option IndexedContractDefinition
definition_for_change change definitions =
    find
      (λ value.
        value.repository_id == change.producer_repository_id
        && same_contract_kind value.contract_kind change.contract_kind
        && value.canonical_key == change.canonical_key)
      definitions

-- `registryRequest`
unfoldable pub registry_request : IndexedContractReference → ℕ → Option AliasResolutionRequest
registry_request reference at = elim reference.registry_target [
  | none ↦ none
  | some target ↦ some (record {
    kind = target.kind;
    value = target.value;
    environment = target.environment;
    as_of = at;
    path = target.path;
  })
]
