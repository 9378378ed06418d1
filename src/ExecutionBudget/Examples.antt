-- ===== src/ExecutionBudget/Examples.antt =====
-- Execution budgets at concrete inputs.
use reverb_impact.Base.{
  ℕ, ◌-◌, ◌≡◌, refl, ◌↔◌, true, false, ◌||◌, ◌&&◌, List, [], ◌∷◌, arith, ltb, ok, some,
}
use reverb_impact.Ports.{
  Number, whole, amount_of, valid_non_negative_integer, port_success, PortFailure, port_failure,
  incomplete_provider_data,
}
use reverb_impact.ExecutionBudget.{
  Amounts, Budget, Delta, Reservable, known, unknown, requests, bytes, BudgetDimension,
  pull_request, reserve, release, complete, reservation_entries, elapsed, exhausted_result,
  first_exceeded, has_dimension, same_dimension, bad_reservation, err,
}
use reverb_impact.ExecutionBudget.Within.{Within, IsObject}
use reverb_impact.ExecutionBudget.Reserving.{
  Fits, IsOver, reserve-success_iff, release-reserve, reserve_refused,
}
use reverb_impact.ExecutionBudget.Report.{IsAscending, complete-exhausted}

abbrev ten : Amounts Number
ten = record {
  provider_requests = whole 10;
  source_bytes = whole 10;
  storage_queries = whole 10;
  artifacts = whole 10;
  model_tokens = whole 10;
  latency_ms = whole 50;
}

abbrev fresh : Budget
fresh = record {
  lane = pull_request;
  limits = record {
    provider_requests = 10;
    source_bytes = 10;
    storage_queries = 10;
    artifacts = 10;
    model_tokens = 10;
    latency_ms = 50;
  };
  started_at = 100;
  usage = record {
    provider_requests = 0;
    source_bytes = 0;
    storage_queries = 0;
    artifacts = 0;
    model_tokens = 0;
  };
  exhausted = [];
  telemetry = some [];
}

abbrev small : Delta
small = (known requests, whole 4) ∷ (known bytes, whole 10) ∷ []

abbrev large : Delta
large = (known bytes, whole 11) ∷ []

small_granted : (reserve small 120 121 fresh).1 ≡ ok (port_success tt)
unfolding reserve reservation_entries valid_non_negative_integer amount_of first_exceeded
small_granted = refl

unknown_throws :
    reserve ((unknown "disk", whole 1) ∷ []) 120 121 fresh ≡ (fresh, err bad_reservation)
unfolding reserve reservation_entries
unknown_throws = refl

small-IsObject : IsObject small
small-IsObject = (refl, (refl, tt))

fresh-Within : Within fresh
fresh-Within k = ground arith

abbrev small_entries : List (Reservable × ℕ)
small_entries = (requests, 4) ∷ (bytes, 10) ∷ []

small_valid : reservation_entries small ≡ ok small_entries
unfolding reservation_entries valid_non_negative_integer amount_of
small_valid = refl

large_valid : reservation_entries large ≡ ok ((bytes, 11) ∷ [])
unfolding reservation_entries valid_non_negative_integer amount_of
large_valid = refl

reserve-success_iff_example :
    ((reserve small 120 121 fresh).1 ≡ ok (port_success tt)) ↔ Fits fresh 120 small_entries
reserve-success_iff_example =
    reserve-success_iff small 120 121 fresh small-IsObject fresh-Within small_valid

release-reserve_example : release small (reserve small 120 121 fresh).0 ≡ (fresh, ok tt)
release-reserve_example =
    release-reserve small 120 121 fresh small-IsObject fresh-Within small_valid small_granted

abbrev refusal : PortFailure
refusal = record {
  kind = incomplete_provider_data;
  code = "execution_budget_exceeded";
  safe_message = "The source_bytes execution budget was exhausted.";
  retryable = false;
}

large_refused : (reserve large 120 121 fresh).1 ≡ ok (port_failure refusal)
unfolding reserve exhausted_result
large_refused = rw (large_valid, reserve) (unfold first_exceeded elapsed in refl)

reserve_refused_example :
    ((reserve large 120 121 fresh).0.usage ≡ fresh.usage)
    × ((reserve large 120 121 fresh).0.limits ≡ fresh.limits)
    × ((reserve large 120 121 fresh).0.started_at ≡ fresh.started_at)
    × ((d : BudgetDimension) × (has_dimension (reserve large 120 121 fresh).0.exhausted d ≡ true)
        × IsOver fresh 120 ((bytes, 11) ∷ []) d)
reserve_refused_example =
    reserve_refused large 120 121 fresh (refl, tt) fresh-Within large_valid refusal large_refused

complete-exhausted_example :
    (has_dimension (complete 900 fresh).1.exhausted_dimensions BudgetDimension.latency_ms ≡ (
      has_dimension fresh.exhausted BudgetDimension.latency_ms
      || (ltb fresh.limits.latency_ms (900 - fresh.started_at)
          && same_dimension BudgetDimension.latency_ms BudgetDimension.latency_ms)))
    × IsAscending (complete 900 fresh).1.exhausted_dimensions
complete-exhausted_example = complete-exhausted 900 fresh BudgetDimension.latency_ms
