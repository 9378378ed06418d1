-- ===== src/Incremental/Data.antt =====
-- The records of packages/adapter-sdk/src/types.ts that the planner reads and makes.
use reverb_impact.Base.{String, Bool, Option, List}

pub data AdapterPathChangeKind : Type 0 where
  added modified deleted renamed copied type_changed : AdapterPathChangeKind

pub record AdapterPathChange : Type 0 where
  pub kind : AdapterPathChangeKind
  pub path : String
  pub previous_path : Option String

pub record AdapterPartitionDescriptor : Type 0 where
  pub partition_key : String
  pub owned_paths : List String
  pub dependency_keys : List String

pub record AdapterInvalidationPlan : Type 0 where
  pub changed_paths : List String
  pub direct_partition_keys : List String
  pub dependent_partition_keys : List String
  pub invalidated_partition_keys : List String
  pub unmatched_paths : List String
  pub complete : Bool
  pub output_hash : String

pub record AdapterValidationError : Type 0 where
  pub code : String
  pub message : String
