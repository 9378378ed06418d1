-- ===== src/SourceBudget.antt =====
-- The hard boundary of a run's provider reads: packages/application/src/source-budget.ts. A method that
-- awaits its delegate is two steps, what runs before the `await` and what runs after it, since other
-- calls may run in between. What the delegate answers is an argument.
pub mod Reading
pub mod Interleaving
pub mod Bounds
mod Examples
use reverb_impact.Base.{
  ℕ, zero, suc, ◌+◌, ◌-◌, min, max, String, Bool, true, false, ◌&&◌, ◌||◌, not, Option, none, some,
  List, Result, ok, err, leb, ltb, if◌then◌else◌, length,
}
use reverb_impact.Ports.{
  Number, valid_non_negative_integer, amount_of, PortFailure, PortResult, port_success,
  port_failure, incomplete_provider_data,
}

pub record ProviderSourceBudget (N : Type 0) : Type 0 where
  pub maximum_metadata_calls : N
  pub maximum_blob_reads : N
  pub maximum_blob_bytes : N

pub record ProviderSourceUsage : Type 0 where
  pub resolve_repository_calls : ℕ
  pub resolve_commit_calls : ℕ
  pub list_tree_calls : ℕ
  pub compare_calls : ℕ
  pub metadata_calls : ℕ
  pub blob_reads : ℕ
  pub blob_bytes : ℕ
  pub budget_exhaustions : ℕ

pub data MetadataOperation : Type 0 where
  resolve_repository resolve_commit list_tree compare_commits : MetadataOperation

-- A number of bytes as the arithmetic of a read meets it: a whole number from 0 on, the negative
-- `minus n`, which is -(n + 1), or NaN. Fractions and infinities are left out.
pub data Amount : Type 0 where
  whole_bytes minus : ℕ → Amount
  not_a_number : Amount

-- `left + right`
abbrev pub plus : Amount → Amount → Amount
plus (whole_bytes m) (whole_bytes n) = whole_bytes (m + n)
plus (whole_bytes m) (minus n) = if ltb n m then whole_bytes (m - n - 1) else minus (n - m)
plus (minus m) (whole_bytes n) = if ltb m n then whole_bytes (n - m - 1) else minus (m - n)
plus (minus m) (minus n) = minus (m + n + 1)
plus _ _ = not_a_number

-- `-value`; no test tells -0 from 0.
abbrev negated : Amount → Amount
negated (whole_bytes zero) = whole_bytes 0
negated (whole_bytes (suc n)) = minus n
negated (minus n) = whole_bytes (n + 1)
negated not_a_number = not_a_number

-- `left - right`
abbrev pub less_by : Amount → Amount → Amount
less_by left right = plus left (negated right)

-- `Math.min(left, right)`
abbrev pub least : Amount → Amount → Amount
least (whole_bytes m) (whole_bytes n) = whole_bytes (min m n)
least (whole_bytes m) (minus n) = minus n
least (minus m) (whole_bytes n) = minus m
least (minus m) (minus n) = minus (max m n)
least _ _ = not_a_number

-- `value <= 0`
abbrev pub is_used_up : Amount → Bool
is_used_up (whole_bytes n) = leb n 0
is_used_up (minus n) = true
is_used_up not_a_number = false

-- `byteLength > bound`
abbrev pub exceeds : ℕ → Amount → Bool
exceeds byte_length (whole_bytes n) = ltb n byte_length
exceeds byte_length (minus n) = true
exceeds byte_length not_a_number = false

pub record Reader : Type 0 where
  pub budget : ProviderSourceBudget ℕ
  pub reserved_blob_bytes : Amount
  pub usage : ProviderSourceUsage

pub record BlobResult : Type 0 where
  pub bytes : List ℕ

-- What comes of an awaited `delegate.readBlob`: a result, or a rejected promise.
pub data Reply : Type 0 where
  replied : PortResult BlobResult → Reply
  rejected : Reply

-- `exhausted`
abbrev pub exhausted {ℓ} : {A : Type ℓ} → String → PortResult A
exhausted message = port_failure (record {
  kind = incomplete_provider_data;
  code = "provider_source_budget_exceeded";
  safe_message = message;
  retryable = false;
})

-- The constructor; `none` stands for its RangeError.
unfoldable pub create : ProviderSourceBudget Number → Option Reader
create budget =
    if not (valid_non_negative_integer budget.maximum_metadata_calls)
      || not (valid_non_negative_integer budget.maximum_blob_reads)
      || not (valid_non_negative_integer budget.maximum_blob_bytes)
    then none
    else some (record {
      budget = record {
        maximum_metadata_calls = amount_of budget.maximum_metadata_calls;
        maximum_blob_reads = amount_of budget.maximum_blob_reads;
        maximum_blob_bytes = amount_of budget.maximum_blob_bytes;
      };
      reserved_blob_bytes = whole_bytes 0;
      usage = record {
        resolve_repository_calls = 0;
        resolve_commit_calls = 0;
        list_tree_calls = 0;
        compare_calls = 0;
        metadata_calls = 0;
        blob_reads = 0;
        blob_bytes = 0;
        budget_exhaustions = 0;
      };
    })

-- `this.#usage.budgetExhaustions += 1`
abbrev count_exhaustion : Reader → Reader
count_exhaustion r = record r {
  usage = record (r.usage) { budget_exhaustions = r.usage.budget_exhaustions + 1 };
}

-- `this.#usage[operation] += 1`
abbrev count_operation : MetadataOperation → ProviderSourceUsage → ProviderSourceUsage
count_operation resolve_repository u = record u {
  resolve_repository_calls = u.resolve_repository_calls + 1;
}
count_operation resolve_commit u = record u { resolve_commit_calls = u.resolve_commit_calls + 1 }
count_operation list_tree u = record u { list_tree_calls = u.list_tree_calls + 1 }
count_operation compare_commits u = record u { compare_calls = u.compare_calls + 1 }

-- `#reserveMetadata`; `none` is its `null`.
unfoldable pub reserve_metadata {ℓ} :
    {A : Type ℓ} → MetadataOperation → Reader → Reader × Option (PortResult A)
reserve_metadata operation r =
    if leb r.budget.maximum_metadata_calls r.usage.metadata_calls
    then (count_exhaustion r, some (exhausted "Provider metadata-call budget was exhausted."))
    else (
      record r {
        usage =
            count_operation operation
              (record (r.usage) { metadata_calls = r.usage.metadata_calls + 1 });
      },
      none,
    )

-- `resolveRepository`, `resolveCommit`, `listTree` and `compare`, given what the delegate answers.
unfoldable pub metadata_call {ℓ} :
    {A : Type ℓ} → MetadataOperation → PortResult A → Reader → Reader × PortResult A
unfolding reserve_metadata
metadata_call operation answer r =
    let (r', refused) = reserve_metadata operation r in
    elim refused [ some result ↦ (r', result) | none ↦ (r', answer) ]

-- `readBlob` refuses, or goes on with the most bytes that it asks the delegate for.
pub data ReadStart : Type 0 where
  refused : PortResult BlobResult → ReadStart
  asking : Amount → ReadStart

-- `remainingBytes`
abbrev pub remaining_bytes : Reader → Amount
remaining_bytes r =
    less_by (less_by (whole_bytes r.budget.maximum_blob_bytes) (whole_bytes r.usage.blob_bytes))
      r.reserved_blob_bytes

-- `readBlob` up to its `await`
unfoldable pub begin_read : Amount → Reader → Reader × ReadStart
begin_read maximum_bytes r =
    if leb r.budget.maximum_blob_reads r.usage.blob_reads
    then (count_exhaustion r, refused (exhausted "Provider blob-read budget was exhausted."))
    else if is_used_up (remaining_bytes r)
    then (count_exhaustion r, refused (exhausted "Provider blob-byte budget was exhausted."))
    else (
      record r {
        usage = record (r.usage) { blob_reads = r.usage.blob_reads + 1 };
        reserved_blob_bytes = plus r.reserved_blob_bytes (least maximum_bytes (remaining_bytes r));
      },
      asking (least maximum_bytes (remaining_bytes r)),
    )

-- The `finally` block.
abbrev unreserve : Amount → Reader → Reader
unreserve bounded_maximum r = record r {
  reserved_blob_bytes = less_by r.reserved_blob_bytes bounded_maximum;
}

-- `readBlob` after its `await`; `none` is a rejection passed on.
unfoldable pub end_read : Amount → Reply → Reader → Reader × Option (PortResult BlobResult)
end_read bounded_maximum rejected r = (unreserve bounded_maximum r, none)
end_read bounded_maximum (replied (port_failure f)) r =
    (unreserve bounded_maximum r, some (port_failure f))
end_read bounded_maximum (replied (port_success blob)) r =
    let r' = record r {
      usage = record (r.usage) { blob_bytes = r.usage.blob_bytes + length blob.bytes };
    } in
    if exceeds (length blob.bytes) bounded_maximum
    then (
      unreserve bounded_maximum (count_exhaustion r'),
      some (exhausted "Provider returned a blob larger than the bounded request."),
    )
    else (unreserve bounded_maximum r', some (port_success blob))
