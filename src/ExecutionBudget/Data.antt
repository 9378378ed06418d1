-- ===== src/ExecutionBudget/Data.antt =====
-- The types of execution budgets. Instants are milliseconds of the epoch: a canonical instant is a
-- fixed-width ISO text (`instant` of values.ts), and `new Date(text).valueOf()` is this number.
use reverb_impact.Base.{ℕ, String, Bool, false, List, [], ◌∷◌, Option, ◌&&◌, ◌||◌, leb}

pub data ExecutionLane : Type 0 where
  bootstrap_index incremental_index pull_request reasoning : ExecutionLane

pub data BudgetDimension : Type 0 where
  provider_requests source_bytes storage_queries artifacts model_tokens latency_ms : BudgetDimension

-- The six amounts of `ExecutionBudgetLimitsV2` and of `ExecutionBudgetUsageV2`.
pub record Amounts (N : Type 0) : Type 0 where
  pub provider_requests : N
  pub source_bytes : N
  pub storage_queries : N
  pub artifacts : N
  pub model_tokens : N
  pub latency_ms : N

-- `MutableExecutionUsageV2`, the field `#usage`: all but the latency.
pub record Usage : Type 0 where
  pub provider_requests : ℕ
  pub source_bytes : ℕ
  pub storage_queries : ℕ
  pub artifacts : ℕ
  pub model_tokens : ℕ

-- `ReservableDimensionV2`: the keys of a delta that `usageToDimension` has.
pub data Reservable : Type 0 where
  requests bytes queries artifact tokens : Reservable

-- A key of the object handed to `reserve`: a known one, or any other own property.
pub data DeltaKey : Type 0 where
  known : Reservable → DeltaKey
  unknown : String → DeltaKey

pub data TelemetryEvent : Type 0 where
  exhausted_event : ExecutionLane → BudgetDimension → Amounts ℕ → TelemetryEvent
  completed_event : ExecutionLane → Amounts ℕ → List BudgetDimension → TelemetryEvent

pub data RangeError : Type 0 where
  bad_limits bad_reservation release_exceeds_usage : RangeError

-- The object: its public fields, its private ones, and what was emitted to the telemetry port, `none`
-- where no port was given.
pub record Budget : Type 0 where
  pub lane : ExecutionLane
  pub limits : Amounts ℕ
  pub started_at : ℕ
  pub usage : Usage
  pub exhausted : List BudgetDimension
  pub telemetry : Option (List TelemetryEvent)

pub record ExecutionBudgetReport : Type 0 where
  pub lane : ExecutionLane
  pub limits : Amounts ℕ
  pub usage : Amounts ℕ
  pub exhausted_dimensions : List BudgetDimension
  pub started_at : ℕ
  pub completed_at : ℕ

-- `usageToDimension`
abbrev pub usage_to_dimension : Reservable → BudgetDimension
usage_to_dimension requests = BudgetDimension.provider_requests
usage_to_dimension bytes = BudgetDimension.source_bytes
usage_to_dimension queries = BudgetDimension.storage_queries
usage_to_dimension artifact = BudgetDimension.artifacts
usage_to_dimension tokens = BudgetDimension.model_tokens

-- `this.#usage[key]`
abbrev pub used : Reservable → Usage → ℕ
used requests u = u.provider_requests
used bytes u = u.source_bytes
used queries u = u.storage_queries
used artifact u = u.artifacts
used tokens u = u.model_tokens

-- `this.limits[key]`
abbrev pub limit : Reservable → Amounts ℕ → ℕ
limit requests l = l.provider_requests
limit bytes l = l.source_bytes
limit queries l = l.storage_queries
limit artifact l = l.artifacts
limit tokens l = l.model_tokens

-- `this.#usage[key] = value`
abbrev pub put : Reservable → ℕ → Usage → Usage
put requests n u = record u { provider_requests = n }
put bytes n u = record u { source_bytes = n }
put queries n u = record u { storage_queries = n }
put artifact n u = record u { artifacts = n }
put tokens n u = record u { model_tokens = n }

-- The name by which messages speak of a dimension.
abbrev pub dimension_name : BudgetDimension → String
dimension_name BudgetDimension.provider_requests = "provider_requests"
dimension_name BudgetDimension.source_bytes = "source_bytes"
dimension_name BudgetDimension.storage_queries = "storage_queries"
dimension_name BudgetDimension.artifacts = "artifacts"
dimension_name BudgetDimension.model_tokens = "model_tokens"
dimension_name BudgetDimension.latency_ms = "latency_ms"

abbrev pub rank : BudgetDimension → ℕ
rank BudgetDimension.artifacts = 0
rank BudgetDimension.latency_ms = 1
rank BudgetDimension.model_tokens = 2
rank BudgetDimension.provider_requests = 3
rank BudgetDimension.source_bytes = 4
rank BudgetDimension.storage_queries = 5

abbrev pub same_dimension : BudgetDimension → BudgetDimension → Bool
same_dimension d e = leb (rank d) (rank e) && leb (rank e) (rank d)

abbrev pub has_dimension : List BudgetDimension → BudgetDimension → Bool
has_dimension [] d = false
has_dimension (e ∷ es) d = same_dimension e d || has_dimension es d
