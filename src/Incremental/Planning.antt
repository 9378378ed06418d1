-- ===== src/Incremental/Planning.antt =====
-- `planPathPartitionInvalidation` and its helpers, of packages/adapter-sdk/src/incremental.ts. The `while`
-- loop runs on fuel: `none` is a loop that has not ended.
use reverb_impact.Base.{
  ℕ, zero, suc, String, Bool, true, false, not, ◌||◌, Option, none, some, List, [], ◌∷◌, ◌++◌,
  filter, any, includes, length, ◌==◌, nat_eq, if◌then◌else◌, Result, ok, ◌>>◌, guard, Dict, lookup,
  insert, unique, sorted_unique,
}
use reverb_impact.Canonical.{Platform, text, boolean, obj, arr, hash_canonical}
use reverb_impact.Incremental.Data.{
  AdapterPathChange, AdapterPartitionDescriptor, AdapterInvalidationPlan, AdapterValidationError,
}

-- `sorted`
abbrev pub sorted : Platform → List String → List String
sorted p values = sorted_unique p.collate_le values

abbrev invalid_plan : String → AdapterValidationError
invalid_plan message = record { code = "invalid_partition_plan"; message = message }

-- `new Set(values).size !== values.length` is false
abbrev pub all_unique : List String → Bool
all_unique values = nat_eq (length (unique values)) (length values)

-- The loop of `validatePartitions`, with the keys seen.
unfoldable pub validate_from :
    List String → List AdapterPartitionDescriptor → Result AdapterValidationError (Unit {0})
validate_from seen [] = ok tt
validate_from seen (q ∷ qs) =
    let rest = validate_from (q.partition_key ∷ seen) qs in
    (guard (not (q.partition_key == "" || includes seen q.partition_key))
        (invalid_plan "Partition keys must be non-empty and unique.")
      >> (guard (all_unique q.owned_paths) (invalid_plan "Partition-owned paths must be unique.")
          >> (guard (all_unique q.dependency_keys)
                (invalid_plan "Partition dependency keys must be unique.")
              >> rest)))

-- `validatePartitions`
unfoldable pub validate_partitions :
    List AdapterPartitionDescriptor → Result AdapterValidationError (Unit {0})
unfolding validate_from
validate_partitions partitions = validate_from [] partitions

-- `set.add(value)`
abbrev pub set_add : String → List String → List String
set_add value values = if includes values value then values else values ++ value ∷ []

-- `owners.get(path) ?? new Set()`
abbrev pub or_empty : Option (List String) → List String
or_empty none = []
or_empty (some keys) = keys

abbrev pub owned_by : Dict (List String) → String → List String
owned_by owners path = or_empty (lookup path owners)

-- The loop over the paths of a partition.
unfoldable pub add_paths : String → List String → Dict (List String) → Dict (List String)
add_paths key [] owners = owners
add_paths key (path ∷ paths) owners =
    add_paths key paths (insert path (set_add key (owned_by owners path)) owners)

-- The loop that fills `owners`.
unfoldable pub add_partitions :
    List AdapterPartitionDescriptor → Dict (List String) → Dict (List String)
unfolding add_paths
add_partitions [] owners = owners
add_partitions (q ∷ qs) owners = add_partitions qs (add_paths q.partition_key q.owned_paths owners)

-- The paths of one change; an empty previous path counts as none.
abbrev pub paths_of : AdapterPathChange → List String
paths_of change = elim change.previous_path [
  | none ↦ change.path ∷ []
  | some previous ↦ if previous == "" then change.path ∷ [] else change.path ∷ previous ∷ []
]

abbrev pub all_paths : List AdapterPathChange → List String
all_paths [] = []
all_paths (change ∷ changes) = paths_of change ++ all_paths changes

-- `changedPaths`
abbrev pub changed_paths_of : Platform → List AdapterPathChange → List String
changed_paths_of p changes = sorted p (all_paths changes)

abbrev pub add_all : List String → List String → List String
add_all [] values = values
add_all (k ∷ ks) values = add_all ks (set_add k values)

-- `direct` and `unmatched`
pub record Matched : Type 0 where
  pub direct : List String
  pub unmatched : List String

-- One turn of the loop over the changed paths, with the owners of the path.
abbrev pub match_path : String → List String → Matched → Matched
match_path path [] matched = record matched { unmatched = set_add path matched.unmatched }
match_path path (k ∷ ks) matched = record matched { direct = add_all (k ∷ ks) matched.direct }

-- The loop over the changed paths.
unfoldable pub match_paths : Dict (List String) → List String → Matched → Matched
match_paths owners [] matched = matched
match_paths owners (path ∷ paths) matched =
    match_paths owners paths (match_path path (owned_by owners path) matched)

-- `invalidated` and `changed` after one run of the `for` loop.
pub record Pass : Type 0 where
  pub invalidated : List String
  pub changed : Bool

unfoldable pub run_pass : List AdapterPartitionDescriptor → Pass → Pass
run_pass [] s = s
run_pass (q ∷ qs) s = elim (includes s.invalidated q.partition_key) [
  | true ↦ run_pass qs s
  | false ↦ elim (any (includes s.invalidated) q.dependency_keys) [
    | true ↦
        run_pass qs (record { invalidated = s.invalidated ++ q.partition_key ∷ []; changed = true })
    | false ↦ run_pass qs s
  ]
]

-- The `while` loop.
unfoldable pub close : ℕ → List AdapterPartitionDescriptor → List String → Option (List String)
unfolding run_pass
close zero partitions invalidated = none
close (suc fuel) partitions invalidated =
    let s = run_pass partitions (record { invalidated = invalidated; changed = false }) in
    elim s.changed [ true ↦ close fuel partitions s.invalidated | false ↦ some s.invalidated ]

-- Runs of the `for` loop that suffice: each but the last invalidates a partition.
abbrev pub enough_fuel : List AdapterPartitionDescriptor → ℕ
enough_fuel partitions = suc (length partitions)

abbrev pub matched_of :
    Platform → List AdapterPartitionDescriptor → List AdapterPathChange → Matched
matched_of p partitions changes =
    match_paths (add_partitions partitions []) (changed_paths_of p changes)
      (record { direct = []; unmatched = [] })

abbrev plan_hash : Platform → AdapterInvalidationPlan → String
plan_hash p plan = hash_canonical p (
    obj (
      ("changedPaths", arr text plan.changed_paths)
      ∷ ("directPartitionKeys", arr text plan.direct_partition_keys)
      ∷ ("dependentPartitionKeys", arr text plan.dependent_partition_keys)
      ∷ ("invalidatedPartitionKeys", arr text plan.invalidated_partition_keys)
      ∷ ("unmatchedPaths", arr text plan.unmatched_paths)
      ∷ ("complete", boolean plan.complete)
      ∷ []))

-- The plan of the sets that the loops leave.
unfoldable pub build_plan :
    Platform → List AdapterPathChange → Matched → List String → AdapterInvalidationPlan
build_plan p changes matched invalidated =
    let direct_keys = sorted p matched.direct in
    let invalidated_keys = sorted p invalidated in
    let unmatched_paths = sorted p matched.unmatched in
    let plan : AdapterInvalidationPlan = record {
      changed_paths = changed_paths_of p changes;
      direct_partition_keys = direct_keys;
      dependent_partition_keys = filter (λ key. not (includes direct_keys key)) invalidated_keys;
      invalidated_partition_keys = invalidated_keys;
      unmatched_paths = unmatched_paths;
      complete = nat_eq (length unmatched_paths) 0;
      output_hash = "";
    } in
    record plan { output_hash = plan_hash p plan }

-- `planPathPartitionInvalidation`
unfoldable pub plan_path_partition_invalidation :
    Platform
    → List AdapterPartitionDescriptor
    → List AdapterPathChange
    → Result AdapterValidationError (Option AdapterInvalidationPlan)
unfolding validate_partitions add_partitions match_paths close build_plan
plan_path_partition_invalidation p partitions changes =
    validate_partitions partitions
    >> (let matched = matched_of p partitions changes in
        elim (close (enough_fuel partitions) partitions matched.direct) [
          | none ↦ ok none
          | some invalidated ↦ ok (some (build_plan p changes matched invalidated))
        ])
