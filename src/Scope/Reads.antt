-- ===== src/Scope/Reads.antt =====
-- The readers of packages/application/src/scoped-reads.ts. A method's answer comes with the calls that
-- it makes of its delegate; the delegates, and what they answer, are parameters.
use reverb_impact.Base.{
  ℕ, String, Bool, false, not, ◌||◌, Option, none, some, List, [], ◌∷◌, map, any, includes, ◌==◌,
  ◌<>◌, ok, err, if◌then◌else◌,
}
use reverb_impact.Contracts.{ContractKind}
use reverb_impact.Ports.{PortResult, port_success, port_failure, PortFailure, PortFailureKind}
use reverb_impact.Graph.{
  CoverageState, IndexedContractDefinition, IndexedContractReference, ConsumerGenerationSelection,
}
use reverb_impact.Scope.Data.{ScopedReadCapability}
use reverb_impact.Scope.Finalizing.{assert_scoped_repository_read}

-- An answer and the calls of the delegate, in order.
pub record Read {ℓ κ} (C : Type ℓ) (A : Type κ) : Type (ℓ ⊔ κ) where
  pub answer : PortResult A
  pub calls : List C

abbrev read_failure : PortFailureKind → String → String → PortFailure
read_failure kind code message = record {
  kind = kind;
  code = code;
  safe_message = message;
  retryable = false;
}

-- The failure of `enforceScope`.
abbrev pub outside_scope : PortFailure
outside_scope =
    read_failure PortFailureKind.authorization_denied "repository_outside_analysis_scope"
      "Repository read is outside the resolved analysis scope."

-- `enforceScope`
unfoldable pub enforce_scope : ScopedReadCapability → String → String → PortResult (Unit {0})
unfolding assert_scoped_repository_read
enforce_scope capability workspace_id repository_id =
    elim (assert_scoped_repository_read capability workspace_id repository_id) [
      | ok u ↦ port_success tt
      | err e ↦ port_failure outside_scope
    ]

-- `return allowed.ok ? delegate : allowed` of one call.
abbrev pub when_allowed {ℓ κ} :
    {C : Type ℓ} {A : Type κ} → PortResult (Unit {0}) → C → PortResult A → Read C A
when_allowed (port_success u) call answer = record { answer = answer; calls = call ∷ [] }
when_allowed (port_failure e) call answer = record { answer = port_failure e; calls = [] }

-- A call of a `RepositoryReader`.
pub data ReaderCall : Type 0 where
  resolve_repository : (repository_id : String) → ReaderCall
  resolve_commit : (repository_id : String) → (ref : String) → ReaderCall
  list_tree : (repository_id : String) → (sha : String) → ReaderCall
  read_blob :
      (repository_id : String) → (sha : String) → (path : String) → (maximum_bytes : ℕ) → ReaderCall
  compare : (repository_id : String) → (base : String) → (head : String) → ReaderCall

abbrev pub repository_of : ReaderCall → String
repository_of (resolve_repository r) = r
repository_of (resolve_commit r ref) = r
repository_of (list_tree r sha) = r
repository_of (read_blob r sha path maximum) = r
repository_of (compare r base head) = r

-- The methods of `ScopedRepositoryReader`: each asks for the scope of the repository that it reads,
-- then makes the call of its name.
unfoldable pub scoped_repository_read {ℓ} :
    {A : Type ℓ}
    → (ReaderCall → PortResult A)
    → ScopedReadCapability
    → String
    → ReaderCall
    → Read ReaderCall A
unfolding enforce_scope
scoped_repository_read reader capability workspace_id call =
    when_allowed (enforce_scope capability workspace_id (repository_of call)) call (reader call)

pub record GenerationSelection : Type 0 where
  pub workspace_id : String
  pub repository_id : String
  pub commit_sha : Option String
  pub indexer_bundle_version : Option String
  pub config_revision : Option String
  pub allow_partial : Bool

pub record ContractGenerationObservation : Type 0 where
  pub workspace_id : String
  pub repository_id : String
  pub generation_id : String
  pub commit_sha : String
  pub coverage_state : CoverageState
  pub definitions : List IndexedContractDefinition
  pub references : List IndexedContractReference
  pub observed_at : ℕ
  pub output_hash : String

-- A repository and its generation, of the query of `readReferences`.
pub record GenerationOf : Type 0 where
  pub repository_id : String
  pub generation_id : String

pub record ScopedReferenceQuery : Type 0 where
  pub workspace_id : String
  pub repositories : List GenerationOf
  pub contract_kind : Option ContractKind
  pub canonical_keys : Option (List String)

-- What the evidence store is asked for.
pub record ReferenceQuery : Type 0 where
  pub workspace_id : String
  pub generation_ids : List String
  pub contract_kind : Option ContractKind
  pub canonical_keys : Option (List String)

pub record ConsumerRefreshRequest : Type 0 where
  pub workspace_id : String
  pub repository_id : String
  pub maximum_duration_ms : ℕ

-- `selectGeneration`
unfoldable pub select_generation {ℓ} :
    {A : Type ℓ}
    → (GenerationSelection → PortResult A)
    → ScopedReadCapability
    → GenerationSelection
    → Read GenerationSelection A
unfolding enforce_scope
select_generation generations capability query =
    when_allowed (enforce_scope capability query.workspace_id query.repository_id) query
      (generations query)

-- `getContractObservation` on what the store answers.
abbrev pub checked_observation :
    String
    → String
    → String
    → PortResult (Option ContractGenerationObservation)
    → PortResult (Option ContractGenerationObservation)
checked_observation workspace_id repository_id generation_id (port_failure e) = port_failure e
checked_observation workspace_id repository_id generation_id (port_success none) = port_success none
checked_observation workspace_id repository_id generation_id (port_success (some o)) =
    if not (o.workspace_id == workspace_id)
      || not (o.repository_id == repository_id)
      || not (o.generation_id == generation_id)
    then port_failure (
        read_failure PortFailureKind.domain "scoped_observation_mismatch"
          "Contract observation does not match the scoped repository generation.")
    else port_success (some o)

-- `getContractObservation`
unfoldable pub get_contract_observation :
    (String → PortResult (Option ContractGenerationObservation))
    → ScopedReadCapability
    → String
    → String
    → String
    → Read String (Option ContractGenerationObservation)
unfolding enforce_scope
get_contract_observation evidence capability workspace_id repository_id generation_id =
    when_allowed (enforce_scope capability workspace_id repository_id) generation_id
      (checked_observation workspace_id repository_id generation_id (evidence generation_id))

-- The loop of `readReferences` over the repositories of its query.
unfoldable pub enforce_all :
    ScopedReadCapability → String → List GenerationOf → PortResult (Unit {0})
unfolding enforce_scope
enforce_all capability workspace_id [] = port_success tt
enforce_all capability workspace_id (r ∷ rs) =
    elim (enforce_scope capability workspace_id r.repository_id) [
      | port_success u ↦ enforce_all capability workspace_id rs
      | port_failure e ↦ port_failure e
    ]

-- `${repositoryId}\0${generationId}`
abbrev pub pair_key : String → String → String
pair_key repository_id generation_id = repository_id <> "\0" <> generation_id

-- `allowedPairs`
abbrev pub allowed_pairs : List GenerationOf → List String
allowed_pairs repositories = map (λ r. pair_key r.repository_id r.generation_id) repositories

-- A reference that the query does not ask for.
abbrev pub is_foreign : ScopedReferenceQuery → IndexedContractReference → Bool
is_foreign query reference =
    not (reference.workspace_id == query.workspace_id)
    || not (
        includes (allowed_pairs query.repositories)
          (pair_key reference.repository_id reference.generation_id))

abbrev pub checked_references :
    ScopedReferenceQuery
    → PortResult (List IndexedContractReference)
    → PortResult (List IndexedContractReference)
checked_references query (port_failure e) = port_failure e
checked_references query (port_success references) =
    if any (is_foreign query) references
    then port_failure (
        read_failure PortFailureKind.domain "scoped_reference_mismatch"
          "Evidence store returned a reference outside the resolved analysis scope.")
    else port_success references

abbrev pub store_query : ScopedReferenceQuery → ReferenceQuery
store_query query = record {
  workspace_id = query.workspace_id;
  generation_ids = map (λ r. r.generation_id) query.repositories;
  contract_kind = query.contract_kind;
  canonical_keys = query.canonical_keys;
}

-- `readReferences`
unfoldable pub read_references :
    (ReferenceQuery → PortResult (List IndexedContractReference))
    → ScopedReadCapability
    → ScopedReferenceQuery
    → Read ReferenceQuery (List IndexedContractReference)
unfolding enforce_all
read_references evidence capability query =
    when_allowed (enforce_all capability query.workspace_id query.repositories) (store_query query)
      (checked_references query (evidence (store_query query)))

-- `refreshConsumer`; the refresh port may be absent.
unfoldable pub refresh_consumer :
    Option (ConsumerRefreshRequest → PortResult (Option ConsumerGenerationSelection))
    → ScopedReadCapability
    → ConsumerRefreshRequest
    → Read ConsumerRefreshRequest (Option ConsumerGenerationSelection)
unfolding enforce_scope
refresh_consumer refresh capability request =
    elim (enforce_scope capability request.workspace_id request.repository_id) [
      | port_failure e ↦ record { answer = port_failure e; calls = [] }
      | port_success u ↦ elim refresh [
        | none ↦ record {
          answer = port_failure (
              read_failure PortFailureKind.incomplete_provider_data "consumer_refresh_unavailable"
                "Consumer refresh is not available in this host.");
          calls = [];
        }
        | some port ↦ record { answer = port request; calls = request ∷ [] }
      ]
    ]
