-- ===== src/Scope/Examples.antt =====
-- An analysis of two repositories, one of which a consent denies, and its reads.
use reverb_impact.Base.{
  arith, String, Bool, true, false, none, some, List, [], ◌∷◌, ◌≡◌, refl, ◌↔◌, Memᴰ, ok, All,
  from_entries, lookup, insert, sort_by, unique, unique_from, sorted_unique,
}
use reverb_impact.Canonical.{Platform, hash_canonical, canonical_json}
use reverb_impact.Ports.{PortResult, port_success}
use reverb_impact.Graph.{IndexedContractReference}
use reverb_impact.Graph.Samples.{reference}
use reverb_impact.Registry.Data.{RepositoryMembership, RegistrySnapshot, evidence_consume, deny}
use reverb_impact.Scope.Data.{user, ResolveInput, ResolvedAnalysisScope, consent_denied}
use reverb_impact.Scope.Preparing.{
  consider, applicable_consent_denied, build_prepared, prepare_analysis_scope,
}
use reverb_impact.Scope.Finalizing.{
  check_authorized, build_resolved, finalize_analysis_scope, assert_scoped_repository_read,
}
use reverb_impact.Scope.Resolving.{
  Authorization, authorize, authorize_prepared, resolve_analysis_scope,
}
use reverb_impact.Scope.Outcomes.{gap}
use reverb_impact.Scope.Resolved.{IsInScope, IsGap}
use reverb_impact.Scope.Capability.{resolved_of}
use reverb_impact.Scope.Answers.{
  IsOfRegistry, resolve-success_iff, resolve-capability_iff, resolve-gaps_iff,
}
use reverb_impact.Scope.Reads.{
  ReaderCall, list_tree, enforce_scope, scoped_repository_read, ScopedReferenceQuery,
  ReferenceQuery, enforce_all, read_references, store_query,
}
use reverb_impact.Scope.Confined.{IsAskedFor, resolve-confines_reads, read_references-IsAskedFor}

abbrev plain : Platform
plain = record {
  collate_le = λ s t. true;
  code_unit_le = λ s t. true;
  utf16_length = λ s. 1;
  trim = λ s. s;
  normalize_nfc = λ s. s;
  to_lower_case = λ s. s;
  stringify = λ j. "";
  iso_text = λ t. "";
  sha256_text = λ s. "h";
}

abbrev member : String → Bool → RepositoryMembership
member id selected = record {
  repository_id = id;
  alias = id;
  root_path = none;
  default_branch = "main";
  collections = [];
  selected = selected;
  consent_revision = "c1";
}

abbrev registry : RegistrySnapshot
registry = record {
  schema = "reverb.workspace-registry";
  schema_version = "1.0";
  revision = record {
    workspace_id = "w";
    revision = "r1";
    config_revision = "c";
    sequence = 1;
    created_at = 5;
    created_by = "ann";
    source = "s";
    reason = "r";
    config_hash = "h";
  };
  repositories = member "b" true ∷ member "web" true ∷ member "old" false ∷ [];
  services = [];
  aliases = [];
  consents =
      record {
        repository_id = "web";
        action = evidence_consume;
        grantee = "*";
        decision = deny;
        actor = "ann";
        reason = "private";
        revision = "c1";
      }
      ∷ [];
}

abbrev port : Authorization
port subject id = port_success (record { allowed = true; reason = "owner"; revision = "r1" })

abbrev input : ResolveInput
input = record {
  workspace_id = "w";
  registry = registry;
  producer_repository_id = "b";
  consumer_scope = some ("web" ∷ "b" ∷ []);
  subject = record { kind = user; id = "bob" };
}

abbrev answer : ResolvedAnalysisScope
answer = resolved_of plain port input

resolution : resolve_analysis_scope plain port input ≡ ok (port_success answer)
unfolding resolve_analysis_scope prepare_analysis_scope build_prepared authorize_prepared
    finalize_analysis_scope check_authorized build_resolved consider authorize
    applicable_consent_denied from_entries lookup insert sort_by unique unique_from sorted_unique
    hash_canonical canonical_json
resolution = refl

resolve-success_iff_example :
    ((r : ResolvedAnalysisScope) × (resolve_analysis_scope plain port input ≡ ok (port_success r)))
    ↔ (IsOfRegistry plain port input × IsInScope port input "b")
resolve-success_iff_example = resolve-success_iff plain port input

resolve-capability_iff_example :
    Memᴰ "web" answer.capability.repository_ids ↔ IsInScope port input "web"
resolve-capability_iff_example = resolve-capability_iff plain port input "web" resolution

resolve-gaps_iff_example :
    Memᴰ (gap "web" consent_denied) answer.provenance.gaps ↔ IsGap port input "web" consent_denied
resolve-gaps_iff_example = resolve-gaps_iff plain port input "web" consent_denied resolution

abbrev reader : ReaderCall → PortResult String
reader call = port_success "tree"

tree_read :
    (scoped_repository_read reader answer.capability "w" (list_tree "b" "sha")).calls
    ≡ list_tree "b" "sha" ∷ []
unfolding scoped_repository_read enforce_scope assert_scoped_repository_read build_prepared
    build_resolved consider authorize applicable_consent_denied from_entries lookup insert sort_by
    unique unique_from sorted_unique hash_canonical canonical_json
tree_read = refl

resolve-confines_reads_example :
    (list_tree "b" "sha" ≡ list_tree "b" "sha")
    × ("w" ≡ input.workspace_id)
    × IsInScope port input "b"
resolve-confines_reads_example =
    resolve-confines_reads plain port input reader "w" (list_tree "b" "sha") resolution
      (rw tree_read (Memᴰ.head refl))

abbrev query : ScopedReferenceQuery
query = record {
  workspace_id = "w";
  repositories = record { repository_id = "b"; generation_id = "g2" } ∷ [];
  contract_kind = none;
  canonical_keys = none;
}

abbrev evidence : ReferenceQuery → PortResult (List IndexedContractReference)
evidence asked = port_success (reference ∷ [])

references_read :
    (read_references evidence answer.capability query).answer ≡ port_success (reference ∷ [])
unfolding read_references enforce_all enforce_scope assert_scoped_repository_read build_prepared
    build_resolved consider authorize applicable_consent_denied from_entries lookup insert sort_by
    unique unique_from sorted_unique hash_canonical canonical_json
references_read = refl

read_references-IsAskedFor_example :
    All (IsAskedFor answer.capability query) (reference ∷ [])
    × ((read_references evidence answer.capability query).calls ≡ store_query query ∷ [])
read_references-IsAskedFor_example =
    read_references-IsAskedFor evidence answer.capability query
      (((λ e. absurd (ground arith)), tt), tt) (((λ e. absurd (ground arith)), tt), tt)
      references_read
