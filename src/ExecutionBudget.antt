-- ===== src/ExecutionBudget.antt =====
-- Execution budgets of a run: packages/application/src/execution-budget-v2.ts, with the vocabulary and
-- the report of packages/domain/src/execution-v2.ts. A method returns the object that it leaves behind;
-- where it throws, the object is as before. The readings of the injected clock are arguments, in the
-- order in which they are taken. The report's `outputHash` is left out.
mod Data
pub mod Totals
pub mod Within
pub mod Reserving
pub mod Report
mod Examples
pub use Data.*
use reverb_impact.Base.{
  ℕ, ◌+◌, ◌-◌, String, Bool, true, false, ◌&&◌, ◌||◌, Option, none, some, List, [], ◌∷◌, ◌++◌,
  Result, ok, err, ◌>>=◌, leb, ltb, if◌then◌else◌, sort_by,
}
use mathlib.Core.Option
use Prim.Native.String
use reverb_impact.Ports.{
  Number, valid_non_negative_integer, amount_of, PortResult, port_success, port_failure,
  incomplete_provider_data,
}

-- A delta object, as its own entries.
abbrev pub Delta : Type 0
Delta = List (DeltaKey × Number)

-- `reservationEntries`
unfoldable pub reservation_entries : Delta → Result RangeError (List (Reservable × ℕ))
reservation_entries [] = ok []
reservation_entries ((unknown name, amount) ∷ delta) = err bad_reservation
reservation_entries ((known key, amount) ∷ delta) =
    let rest = reservation_entries delta in
    if valid_non_negative_integer amount
    then (do entries ← rest; ok ((key, amount_of amount) ∷ entries))
    else err bad_reservation

-- `elapsed`: the difference is truncated at 0, as `Math.max(0, …)` is.
unfoldable pub elapsed : ℕ → ℕ → ℕ
elapsed started_at now = now - started_at

-- The constructor's test of the limits.
unfoldable pub valid_limits : Amounts Number → Bool
valid_limits l =
    valid_non_negative_integer l.provider_requests
    && valid_non_negative_integer l.source_bytes
    && valid_non_negative_integer l.storage_queries
    && valid_non_negative_integer l.artifacts
    && valid_non_negative_integer l.model_tokens
    && valid_non_negative_integer l.latency_ms

-- The constructor; the last argument says whether a telemetry port is given.
unfoldable pub create : ExecutionLane → Amounts Number → ℕ → Bool → Result RangeError Budget
unfolding valid_limits
create lane l now observed =
    if valid_limits l
    then ok (record {
      lane = lane;
      limits = record {
        provider_requests = amount_of l.provider_requests;
        source_bytes = amount_of l.source_bytes;
        storage_queries = amount_of l.storage_queries;
        artifacts = amount_of l.artifacts;
        model_tokens = amount_of l.model_tokens;
        latency_ms = amount_of l.latency_ms;
      };
      started_at = now;
      usage = record {
        provider_requests = 0;
        source_bytes = 0;
        storage_queries = 0;
        artifacts = 0;
        model_tokens = 0;
      };
      exhausted = [];
      telemetry = if observed then some [] else none;
    })
    else err bad_limits

-- `usage()`
unfoldable pub usage_at : Budget → ℕ → Amounts ℕ
unfolding elapsed
usage_at b now = record {
  provider_requests = b.usage.provider_requests;
  source_bytes = b.usage.source_bytes;
  storage_queries = b.usage.storage_queries;
  artifacts = b.usage.artifacts;
  model_tokens = b.usage.model_tokens;
  latency_ms = elapsed b.started_at now;
}

-- `remaining()`
unfoldable pub remaining : Budget → ℕ → Amounts ℕ
unfolding usage_at
remaining b now = record {
  provider_requests = b.limits.provider_requests - b.usage.provider_requests;
  source_bytes = b.limits.source_bytes - b.usage.source_bytes;
  storage_queries = b.limits.storage_queries - b.usage.storage_queries;
  artifacts = b.limits.artifacts - b.usage.artifacts;
  model_tokens = b.limits.model_tokens - b.usage.model_tokens;
  latency_ms = b.limits.latency_ms - (usage_at b now).latency_ms;
}

-- `this.#exhausted.add(dimension)`: a set keeps its first insertion.
abbrev pub add_exhausted : BudgetDimension → Budget → Budget
add_exhausted d b =
    if has_dimension b.exhausted d then b else record b { exhausted = b.exhausted ++ d ∷ [] }

-- `this.telemetry?.emit(event)`
abbrev pub emit : TelemetryEvent → Budget → Budget
emit event b = record b { telemetry = Option.map (λ events. events ++ event ∷ []) b.telemetry }

-- `#exhaustedResult`
unfoldable pub exhausted_result : BudgetDimension → ℕ → Budget → Budget × PortResult (Unit {0})
exhausted_result d now b =
    let marked = add_exhausted d b in
    (
      emit (exhausted_event b.lane d (usage_at b now)) marked,
      port_failure (record {
        kind = incomplete_provider_data;
        code = "execution_budget_exceeded";
        safe_message =
            String.◌++◌ (String.◌++◌ "The " (dimension_name d)) " execution budget was exhausted.";
        retryable = false;
      }),
    )

-- The first loop of `reserve`: each amount is tested against the usage before the reservation.
unfoldable pub first_exceeded : Usage → Amounts ℕ → List (Reservable × ℕ) → Option Reservable
first_exceeded u l [] = none
first_exceeded u l ((key, amount) ∷ entries) =
    let rest = first_exceeded u l entries in
    if ltb (limit key l) (used key u + amount) then some key else rest

-- The second loop of `reserve`.
unfoldable pub add_all : List (Reservable × ℕ) → Usage → Usage
add_all [] u = u
add_all ((key, amount) ∷ entries) u = add_all entries (put key (used key u + amount) u)

-- `reserve`; `now` and `later` are its clock readings, the second one for the telemetry.
unfoldable pub reserve :
    Delta → (now later : ℕ) → Budget → Budget × Result RangeError (PortResult (Unit {0}))
unfolding exhausted_result elapsed
reserve delta now later b = elim (reservation_entries delta) [
  | err e ↦ (b, err e)
  | ok entries ↦
      if ltb b.limits.latency_ms (elapsed b.started_at now)
      then (let (b', r) = exhausted_result BudgetDimension.latency_ms later b in (b', ok r))
      else elim (first_exceeded b.usage b.limits entries) [
        | some key ↦ let (b', r) = exhausted_result (usage_to_dimension key) later b in (b', ok r)
        | none ↦ (record b { usage = add_all entries b.usage }, ok (port_success tt))
      ]
]

-- The first loop of `release`.
unfoldable pub covered : List (Reservable × ℕ) → Usage → Bool
covered [] u = true
covered ((key, amount) ∷ entries) u = leb amount (used key u) && covered entries u

-- The second loop of `release`.
unfoldable pub subtract_all : List (Reservable × ℕ) → Usage → Usage
subtract_all [] u = u
subtract_all ((key, amount) ∷ entries) u = subtract_all entries (put key (used key u - amount) u)

-- `release`
unfoldable pub release : Delta → Budget → Budget × Result RangeError (Unit {0})
release delta b = elim (reservation_entries delta) [
  | err e ↦ (b, err e)
  | ok entries ↦
      if covered entries b.usage
      then (record b { usage = subtract_all entries b.usage }, ok tt)
      else (b, err release_exceeds_usage)
]

-- `finalizeExecutionBudgetReportV2`: `[...new Set(dimensions)].sort()`, in the order of the names.
unfoldable pub insert_dimension : BudgetDimension → List BudgetDimension → List BudgetDimension
insert_dimension d [] = d ∷ []
insert_dimension d (e ∷ es) =
    let rest = insert_dimension d es in
    if same_dimension d e then e ∷ es else if ltb (rank d) (rank e) then d ∷ e ∷ es else e ∷ rest

unfoldable pub sorted_set : List BudgetDimension → List BudgetDimension
sorted_set [] = []
sorted_set (d ∷ ds) = insert_dimension d (sorted_set ds)

-- `complete`
unfoldable pub complete : ℕ → Budget → Budget × ExecutionBudgetReport
unfolding elapsed
complete completed_at b =
    let latency_ms = elapsed b.started_at completed_at in
    let marked =
      if ltb b.limits.latency_ms latency_ms
      then add_exhausted BudgetDimension.latency_ms b
      else b in
    let report : ExecutionBudgetReport = record {
      lane = b.lane;
      limits = b.limits;
      usage = record (usage_at b completed_at) { latency_ms = latency_ms };
      exhausted_dimensions = sorted_set marked.exhausted;
      started_at = b.started_at;
      completed_at = completed_at;
    } in
    (emit (completed_event b.lane report.usage report.exhausted_dimensions) marked, report)
