-- ===== src/SourceBudget/Examples.antt =====
-- A reader at concrete inputs.
use reverb_impact.Base.{◌-◌, ◌≤◌, ◌≡◌, refl, some, [], ◌∷◌, length}
use reverb_impact.Ports.{Number, whole, amount_of, valid_non_negative_integer, port_success}
use reverb_impact.SourceBudget.{
  Amount, whole_bytes, minus, not_a_number, ProviderSourceBudget, Reader, BlobResult, Reply,
  replied, asking, create, begin_read, end_read,
}
use reverb_impact.SourceBudget.Interleaving.{
  beginning, ending, Reach, here, next, Anything, KeepsMaximum,
}
use reverb_impact.SourceBudget.Bounds.{
  Accounted, BytesWithin, idle, reader-Accounted, reader-BytesWithin, read_bounded,
}

abbrev limits : ProviderSourceBudget Number
limits = record {
  maximum_metadata_calls = whole 2;
  maximum_blob_reads = whole 2;
  maximum_blob_bytes = whole 5;
}

abbrev start : Reader
start = record {
  budget = record { maximum_metadata_calls = 2; maximum_blob_reads = 2; maximum_blob_bytes = 5 };
  reserved_blob_bytes = whole_bytes 0;
  usage = record {
    resolve_repository_calls = 0;
    resolve_commit_calls = 0;
    list_tree_calls = 0;
    compare_calls = 0;
    metadata_calls = 0;
    blob_reads = 0;
    blob_bytes = 0;
    budget_exhaustions = 0;
  };
}

create-start : create limits ≡ some start
unfolding create valid_non_negative_integer amount_of
create-start = refl

abbrev blob : BlobResult
blob = record { bytes = 7 ∷ 8 ∷ [] }

abbrev asked_three : Reader
asked_three = record start {
  reserved_blob_bytes = whole_bytes 3;
  usage = record (start.usage) { blob_reads = 1 };
}

begun : begin_read (whole_bytes 3) start ≡ (asked_three, asking (whole_bytes 3))
unfolding begin_read
begun = refl

first_read :
    (Allowed : Amount → Reply → Type 0)
    → Reach Allowed (idle start) (record { reader = asked_three; waiting = whole_bytes 3 ∷ [] })
unfolding begin_read
first_read Allowed = next here (beginning (idle start) 3)

one_read :
    (Allowed : Amount → Reply → Type 0)
    → Allowed (whole_bytes 3) (replied (port_success blob))
    → Reach Allowed (idle start) (record {
      reader = (end_read (whole_bytes 3) (replied (port_success blob)) asked_three).0;
      waiting = [];
    })
one_read Allowed allowed =
    next (first_read Allowed)
      (ending asked_three [] [] (whole_bytes 3) (replied (port_success blob)) _ allowed refl)

reader-Accounted_example :
    Accounted (idle (end_read (whole_bytes 3) (replied (port_success blob)) asked_three).0)
reader-Accounted_example = reader-Accounted limits start create-start (one_read Anything tt)

reader-BytesWithin_example :
    BytesWithin (idle (end_read (whole_bytes 3) (replied (port_success blob)) asked_three).0)
reader-BytesWithin_example =
    reader-BytesWithin limits start create-start (one_read KeepsMaximum refl)

read_bounded_example : (length blob.bytes ≤ 3) × (length blob.bytes ≤ 5 - 0 - 0)
unfolding begin_read end_read
read_bounded_example =
    read_bounded 3 0 (whole_bytes 3) (replied (port_success blob)) start asked_three blob refl refl
      refl

-- A read that asks for NaN bytes is let through, and asks its delegate for NaN bytes.
nan_asked : (begin_read not_a_number start).1 ≡ asking not_a_number
unfolding begin_read
nan_asked = refl

-- Nothing that it is sent is too much.
nan_unbounded :
    (end_read not_a_number (replied (port_success blob)) start).1 ≡ some (port_success blob)
unfolding end_read
nan_unbounded = refl

-- After it, NaN bytes stay reserved.
nan_reserved :
    (end_read not_a_number
      (replied (port_success blob))
      (begin_read not_a_number start).0).0.reserved_blob_bytes
    ≡ not_a_number
unfolding begin_read end_read
nan_reserved = refl

-- While a read that asks for -4 bytes waits, another read may ask for 9 bytes, of a budget of 5.
negative_widens :
    (begin_read (whole_bytes 9) (begin_read (minus 3) start).0).1 ≡ asking (whole_bytes 9)
unfolding begin_read
negative_widens = refl
