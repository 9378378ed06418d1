-- ===== src/SourceBudget/Reading.antt =====
-- A read that asks for a whole number of bytes, while a whole number of bytes is reserved.
use reverb_impact.Base.{
  ℕ, zero, suc, ◌+◌, ◌-◌, min, ◌≤◌, ◌<◌, ◌≡◌, refl, ap, ◌⊎◌, inl, inr, true, false, arith,
  Bool-cases, leb, ltb,
}
use reverb_impact.Ports.{PortResult}
use reverb_impact.SourceBudget.{
  whole_bytes, minus, less_by, is_used_up, Reader, BlobResult, exhausted, count_exhaustion, refused,
  asking, begin_read,
}

-- A difference of whole numbers is one, or is negative.
less_by-cases :
    (m n : ℕ)
    → ((n ≤ m) × (less_by (whole_bytes m) (whole_bytes n) ≡ whole_bytes (m - n)))
      ⊎ ((k : ℕ) × (m < n) × (less_by (whole_bytes m) (whole_bytes n) ≡ minus k))
less_by-cases m zero = inl (omega arith, ap whole_bytes (omega arith))
less_by-cases m (suc n) = elim (Bool-cases (ltb n m)) [
  | inl more ↦ inl (ground arith, rw more (ap whole_bytes (omega arith)))
  | inr fewer ↦ inr (n - m, ground arith, rw fewer refl)
]

pub less_by-whole :
    (m n : ℕ) → n ≤ m → less_by (whole_bytes m) (whole_bytes n) ≡ whole_bytes (m - n)
less_by-whole m n enough = elim (less_by-cases m n) [
  | inl (h, same) ↦ same
  | inr (k, few, negative) ↦ absurd (omega (arith, enough, few))
]

minus-is_used_up : (k n : ℕ) → is_used_up (less_by (minus k) (whole_bytes n)) ≡ true
minus-is_used_up k zero = ground arith
minus-is_used_up k (suc n) = refl

-- Nothing remains, or a whole number of bytes.
remaining-cases :
    (most used reserved : ℕ)
    → let left = less_by (less_by (whole_bytes most) (whole_bytes used)) (whole_bytes reserved) in
      (is_used_up left ≡ true)
      ⊎ ((used + reserved < most) × (left ≡ whole_bytes (most - used - reserved)))
remaining-cases most used reserved = elim (less_by-cases most used) [
  | inr (k, few, negative) ↦ inl (rw negative (minus-is_used_up k reserved))
  | inl (enough, rest) ↦ elim (less_by-cases (most - used) reserved) [
    | inr (k, few, negative) ↦ inl (rw (rest, negative) refl)
    | inl (fits, left) ↦ elim (Bool-cases (leb (most - used - reserved) 0)) [
      | inl none_left ↦ inl (rw (rest, left) none_left)
      | inr some_left ↦ inr (ground arith, rw rest left)
    ]
  ]
]

-- A read is let through for `n` bytes: at most those that are asked for and those that remain.
pub record IsLetThrough (m n reserved : ℕ) (r : Reader) : Type 0 where
  pub within_asked : n ≤ m
  pub within_rest : n ≤ r.budget.maximum_blob_bytes - r.usage.blob_bytes - reserved
  pub within_budget : r.usage.blob_bytes + reserved + n ≤ r.budget.maximum_blob_bytes
  pub within_reads : r.usage.blob_reads < r.budget.maximum_blob_reads
  pub begun : begin_read (whole_bytes m) r ≡ (
    record r {
      usage = record (r.usage) { blob_reads = r.usage.blob_reads + 1 };
      reserved_blob_bytes = whole_bytes (reserved + n);
    },
    asking (whole_bytes n),
  )

-- A read is refused, or let through.
pub begin_read-cases :
    (m reserved : ℕ) (r : Reader)
    → r.reserved_blob_bytes ≡ whole_bytes reserved
    → ((result : PortResult BlobResult) × (begin_read (whole_bytes m) r
          ≡ (count_exhaustion r, refused result)))
      ⊎ ((n : ℕ) × IsLetThrough m n reserved r)
unfolding begin_read
begin_read-cases m reserved r is =
    elim (Bool-cases (leb r.budget.maximum_blob_reads r.usage.blob_reads)) [
      | inl spent ↦ inl (exhausted "Provider blob-read budget was exhausted.", rw spent refl)
      | inr reads_left ↦
          elim (remaining-cases r.budget.maximum_blob_bytes r.usage.blob_bytes reserved) [
            | inl spent ↦ inl (
              exhausted "Provider blob-byte budget was exhausted.",
              rw (reads_left, is, spent) refl,
            )
            | inr (room, left) ↦
                let rest = r.budget.maximum_blob_bytes - r.usage.blob_bytes - reserved in
                let more : leb rest 0 ≡ false = ground arith in
                inr (
                  min m rest,
                  record {
                    within_asked = omega arith;
                    within_rest = omega arith;
                    within_budget = omega (arith, room);
                    within_reads = ground arith;
                    begun = rw (reads_left, is, left, more) refl;
                  },
                )
          ]
    ]
