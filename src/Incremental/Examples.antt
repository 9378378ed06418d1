-- ===== src/Incremental/Examples.antt =====
-- Three partitions, of which one owns a changed path and another depends on it.
use reverb_impact.Base.{
  String, true, ◌≡◌, refl, ◌↔◌, some, List, [], ◌∷◌, Memᴰ, ok, lookup, insert, sort_by, unique,
  unique_from, sorted_unique,
}
use reverb_impact.Canonical.{Platform}
use reverb_impact.Incremental.Data.{
  renamed, AdapterPathChange, AdapterPartitionDescriptor, AdapterInvalidationPlan,
}
use reverb_impact.Incremental.Planning.{
  matched_of, build_plan, validate_partitions, validate_from, add_partitions, add_paths,
  match_paths, run_pass, close, plan_path_partition_invalidation,
}
use reverb_impact.Incremental.Changes.{IsChanged, IsInvalidated}
use reverb_impact.Incremental.Plans.{plan-IsInvalidated_iff, plan-complete_iff}
use reverb_impact.Incremental.Valid.{IsValid, plan-ok_iff}

abbrev plain : Platform
plain = record {
  collate_le = λ a b. true;
  code_unit_le = λ a b. true;
  utf16_length = λ t. 3;
  trim = λ t. t;
  normalize_nfc = λ t. t;
  to_lower_case = λ t. t;
  stringify = λ json. "{}";
  iso_text = λ instant. "";
  sha256_text = λ t. "hash";
}

abbrev partition : String → List String → List String → AdapterPartitionDescriptor
partition key owned dependencies = record {
  partition_key = key;
  owned_paths = owned;
  dependency_keys = dependencies;
}

abbrev partitions : List AdapterPartitionDescriptor
partitions =
    partition "page" ("page.ts" ∷ []) ("model" ∷ [])
    ∷ partition "model" ("model.ts" ∷ []) []
    ∷ partition "style" ("style.css" ∷ []) []
    ∷ []

abbrev changes : List AdapterPathChange
changes = record { kind = renamed; path = "entity.ts"; previous_path = some "model.ts" } ∷ []

abbrev plan : AdapterInvalidationPlan
plan = build_plan plain changes (matched_of plain partitions changes) ("model" ∷ "page" ∷ [])

planned : plan_path_partition_invalidation plain partitions changes ≡ ok (some plan)
unfolding plan_path_partition_invalidation validate_partitions validate_from close run_pass
    add_partitions add_paths match_paths lookup insert sort_by unique unique_from sorted_unique
planned = refl

invalidated : plan.invalidated_partition_keys ≡ "model" ∷ "page" ∷ []
unfolding build_plan sort_by unique unique_from sorted_unique
invalidated = refl

plan-IsInvalidated_iff_example :
    Memᴰ "page" plan.invalidated_partition_keys ↔ IsInvalidated partitions changes "page"
plan-IsInvalidated_iff_example = plan-IsInvalidated_iff plain partitions changes "page" planned

plan-complete_iff_example : (plan.complete ≡ true) ↔ (
    (x : String)
    → IsChanged changes x
    → (q : AdapterPartitionDescriptor) × Memᴰ q partitions × Memᴰ x q.owned_paths)
plan-complete_iff_example = plan-complete_iff plain partitions changes planned

plan-ok_iff_example :
    ((plan : AdapterInvalidationPlan) × (plan_path_partition_invalidation plain partitions changes
        ≡ ok (some plan)))
    ↔ IsValid partitions
plan-ok_iff_example = plan-ok_iff plain partitions changes
