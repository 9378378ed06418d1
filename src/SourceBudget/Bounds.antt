-- ===== src/SourceBudget/Bounds.antt =====
-- The bounds of a reader, over every interleaving.
use reverb_impact.Base.{
  ℕ, ◌+◌, ◌∙◌, ap, Bool-cases, inl, inr, false, ◌-◌, ◌≤◌, ◌≡◌, refl, subst, some, List, [], ◌∷◌,
  ◌++◌, arith, length,
}
use reverb_impact.Ports.{Number, port_success, port_failure}
use reverb_impact.SourceBudget.Reading.{less_by-whole, begin_read-cases}
use reverb_impact.SourceBudget.{
  Amount, whole_bytes, less_by, exceeds, Reader, ProviderSourceBudget, BlobResult,
  MetadataOperation, resolve_repository, resolve_commit, list_tree, compare_commits, Reply, replied,
  rejected, asking, create, metadata_call, begin_read, end_read,
}
use reverb_impact.SourceBudget.Interleaving.{
  System, opened, Step, calling, beginning, ending, Reach, here, next, Anything, KeepsMaximum,
}

-- The whole number of bytes that an amount is.
abbrev size : Amount → ℕ
size (whole_bytes n) = n
size _ = 0

abbrev pub total : List Amount → ℕ
total [] = 0
total (a ∷ rest) = size a + total rest

abbrev IsWhole : Amount → Type 0
IsWhole a = a ≡ whole_bytes (size a)

abbrev pub AreWhole : List Amount → Type 0
AreWhole [] = Unit
AreWhole (a ∷ rest) = IsWhole a × AreWhole rest

total-middle :
    (before after : List Amount) (a : Amount)
    → total (before ++ a ∷ after) ≡ size a + total (before ++ after)
total-middle [] after a = refl
total-middle (b ∷ before) after a = omega (arith, total-middle before after a)

AreWhole-middle :
    (before after : List Amount) (a : Amount)
    → AreWhole (before ++ a ∷ after)
    → IsWhole a × AreWhole (before ++ after)
AreWhole-middle [] after a w = w
AreWhole-middle (b ∷ before) after a (own, w) =
    let (this, rest) = AreWhole-middle before after a w in (this, (own, rest))

-- What holds of a reader and its waiting reads, whatever the delegate answers.
pub record Accounted (s : System) : Type 0 where
  pub metadata_bounded : s.reader.usage.metadata_calls ≤ s.reader.budget.maximum_metadata_calls
  pub metadata_total :
      s.reader.usage.metadata_calls
      ≡ s.reader.usage.resolve_repository_calls + s.reader.usage.resolve_commit_calls
        + s.reader.usage.list_tree_calls + s.reader.usage.compare_calls
  pub reads_bounded : s.reader.usage.blob_reads ≤ s.reader.budget.maximum_blob_reads
  pub waiting_whole : AreWhole s.waiting
  pub reserved_total : s.reader.reserved_blob_bytes ≡ whole_bytes (total s.waiting)

-- The bytes that were received and those that may still be received.
abbrev pub BytesWithin : System → Type 0
BytesWithin s = s.reader.usage.blob_bytes + total s.waiting ≤ s.reader.budget.maximum_blob_bytes

calling-Accounted :
    (s : System) (operation : MetadataOperation)
    → Accounted s
    → Accounted
        (record s { reader = (metadata_call {A = ℕ} operation (port_success 0) s.reader).0 })
unfolding metadata_call
calling-Accounted s resolve_repository a = ground arith
calling-Accounted s resolve_commit a = ground arith
calling-Accounted s list_tree a = ground arith
calling-Accounted s compare_commits a = ground arith

beginning-Accounted :
    (s : System) (m : ℕ)
    → Accounted s
    → Accounted (record {
      reader = (begin_read (whole_bytes m) s.reader).0;
      waiting = opened (begin_read (whole_bytes m) s.reader).1 s.waiting;
    })
beginning-Accounted s m a = elim (begin_read-cases m (total s.waiting) s.reader a.reserved_total) [
  | inl (result, stopped) ↦ rw stopped (record {
    metadata_bounded = a.metadata_bounded;
    metadata_total = a.metadata_total;
    reads_bounded = a.reads_bounded;
    waiting_whole = a.waiting_whole;
    reserved_total = a.reserved_total;
  })
  | inr (n, let_through) ↦ rw let_through.begun (record {
    metadata_bounded = a.metadata_bounded;
    metadata_total = a.metadata_total;
    reads_bounded = let h = let_through.within_reads in omega (arith, h);
    waiting_whole = (refl, a.waiting_whole);
    reserved_total = ap whole_bytes (omega arith);
  })
]

-- What a reply changes: the received bytes and the exhaustions.
unreserved-Accounted :
    (r later : Reader) (before after : List Amount) (bounded : Amount)
    → Accounted (record { reader = r; waiting = before ++ bounded ∷ after })
    → later.budget ≡ r.budget
    → later.usage.metadata_calls ≡ r.usage.metadata_calls
    → later.usage.resolve_repository_calls ≡ r.usage.resolve_repository_calls
    → later.usage.resolve_commit_calls ≡ r.usage.resolve_commit_calls
    → later.usage.list_tree_calls ≡ r.usage.list_tree_calls
    → later.usage.compare_calls ≡ r.usage.compare_calls
    → later.usage.blob_reads ≡ r.usage.blob_reads
    → later.reserved_blob_bytes ≡ less_by r.reserved_blob_bytes bounded
    → Accounted (record { reader = later; waiting = before ++ after })
unreserved-Accounted r later before after bounded a b m c1 c2 c3 c4 reads freed =
    let (own, others) = AreWhole-middle before after bounded a.waiting_whole in
    let split = total-middle before after bounded in
    record {
      metadata_bounded = rw (b, m) a.metadata_bounded;
      metadata_total = rw (m, c1, c2, c3, c4) a.metadata_total;
      reads_bounded = rw (b, reads) a.reads_bounded;
      waiting_whole = others;
      reserved_total =
          freed
          ∙ ap (λ x. less_by x bounded) a.reserved_total
          ∙ ap (λ x. less_by (whole_bytes (total (before ++ bounded ∷ after))) x) own
          ∙ less_by-whole (total (before ++ bounded ∷ after)) (size bounded) (omega (arith, split))
          ∙ ap whole_bytes (omega (arith, split));
    }

ending-Accounted :
    (r : Reader) (before after : List Amount) (bounded : Amount) (reply : Reply)
    → Accounted (record { reader = r; waiting = before ++ bounded ∷ after })
    → Accounted (record { reader = (end_read bounded reply r).0; waiting = before ++ after })
unfolding end_read
ending-Accounted r before after bounded rejected a =
    unreserved-Accounted r _ before after bounded a refl refl refl refl refl refl refl refl
ending-Accounted r before after bounded (replied (port_failure f)) a =
    unreserved-Accounted r _ before after bounded a refl refl refl refl refl refl refl refl
ending-Accounted r before after bounded (replied (port_success blob)) a =
    elim (Bool-cases (exceeds (length blob.bytes) bounded)) [
      | inl more ↦
          rw more (
            unreserved-Accounted r _ before after bounded a refl refl refl refl refl refl refl refl)
      | inr fits ↦
          rw fits (
            unreserved-Accounted r _ before after bounded a refl refl refl refl refl refl refl refl)
    ]

Step-Accounted :
    {Allowed : Amount → Reply → Type 0} {s t : System}
    → Step Allowed s t
    → Accounted s
    → Accounted t
Step-Accounted (calling s operation) a = calling-Accounted s operation a
Step-Accounted (beginning s maximum_bytes) a = beginning-Accounted s maximum_bytes a
Step-Accounted (ending r before after bounded reply s allowed same) a =
    ending-Accounted r before after bounded reply (subst Accounted same a)

Reach-Accounted :
    {Allowed : Amount → Reply → Type 0} {s t : System}
    → Reach Allowed s t
    → Accounted s
    → Accounted t
Reach-Accounted here a = a
Reach-Accounted (next r st) a = Step-Accounted st (Reach-Accounted r a)

calling-BytesWithin :
    (s : System) (operation : MetadataOperation)
    → BytesWithin s
    → BytesWithin
        (record s { reader = (metadata_call {A = ℕ} operation (port_success 0) s.reader).0 })
unfolding metadata_call
calling-BytesWithin s resolve_repository w = ground arith
calling-BytesWithin s resolve_commit w = ground arith
calling-BytesWithin s list_tree w = ground arith
calling-BytesWithin s compare_commits w = ground arith

beginning-BytesWithin :
    (s : System) (m : ℕ)
    → Accounted s
    → BytesWithin s
    → BytesWithin (record {
      reader = (begin_read (whole_bytes m) s.reader).0;
      waiting = opened (begin_read (whole_bytes m) s.reader).1 s.waiting;
    })
beginning-BytesWithin s m a w =
    elim (begin_read-cases m (total s.waiting) s.reader a.reserved_total) [
      | inl (result, stopped) ↦ rw stopped w
      | inr (n, let_through) ↦
          let h = let_through.within_budget in rw let_through.begun (omega (arith, h))
    ]

ending-BytesWithin :
    (r : Reader) (before after : List Amount) (bounded : Amount) (reply : Reply)
    → KeepsMaximum bounded reply
    → Accounted (record { reader = r; waiting = before ++ bounded ∷ after })
    → BytesWithin (record { reader = r; waiting = before ++ bounded ∷ after })
    → BytesWithin (record { reader = (end_read bounded reply r).0; waiting = before ++ after })
unfolding end_read
ending-BytesWithin r before after bounded rejected k a w =
    omega (arith, w, total-middle before after bounded)
ending-BytesWithin r before after bounded (replied (port_failure f)) k a w =
    omega (arith, w, total-middle before after bounded)
ending-BytesWithin r before after bounded (replied (port_success blob)) k a w =
    let (own, others) = AreWhole-middle before after bounded a.waiting_whole in
    let fits : exceeds (length blob.bytes) (whole_bytes (size bounded)) ≡ false =
      subst (λ x. exceeds (length blob.bytes) x ≡ false) own k in
    let bound : length blob.bytes ≤ size bounded = ground arith in
    rw k (omega (arith, w, bound, total-middle before after bounded))

Step-BytesWithin :
    {s t : System} → Step KeepsMaximum s t → Accounted s → BytesWithin s → BytesWithin t
Step-BytesWithin (calling s operation) a w = calling-BytesWithin s operation w
Step-BytesWithin (beginning s maximum_bytes) a w = beginning-BytesWithin s maximum_bytes a w
Step-BytesWithin (ending r before after bounded reply s allowed same) a w =
    ending-BytesWithin r before after bounded reply allowed (subst Accounted same a)
      (subst BytesWithin same w)

Reach-BytesWithin :
    {s t : System} → Reach KeepsMaximum s t → Accounted s → BytesWithin s → BytesWithin t
Reach-BytesWithin here a w = w
Reach-BytesWithin (next r st) a w =
    Step-BytesWithin st (Reach-Accounted r a) (Reach-BytesWithin r a w)

-- A caller gets at most the bytes that the delegate was asked for.
answered-bounded :
    (n : ℕ) (reply : Reply) (later : Reader) (blob : BlobResult)
    → (end_read (whole_bytes n) reply later).1 ≡ some (port_success blob)
    → length blob.bytes ≤ n
unfolding end_read
answered-bounded n rejected later blob got = ground arith
answered-bounded n (replied (port_failure f)) later blob got = ground arith
answered-bounded n (replied (port_success b)) later blob got = ground arith

-- A reader with no read under way.
abbrev pub idle : Reader → System
idle r = record { reader = r; waiting = [] }

create-Accounted :
    (budget : ProviderSourceBudget Number) {r : Reader}
    → create budget ≡ some r
    → Accounted (idle r) × BytesWithin (idle r)
unfolding create
create-Accounted budget made = ground arith

-- Where each read asks for a whole number of bytes from 0 on: from a reader that the constructor made,
-- however the calls of concurrent callers interleave and whatever the delegate answers, the metadata calls and the blob reads that were let through stay
-- within their budgets, the metadata calls are the sum of the four counters, and the reserved bytes
-- are those of the reads that wait.
pub reader-Accounted :
    (budget : ProviderSourceBudget Number) (r : Reader) {t : System}
    → create budget ≡ some r
    → Reach Anything (idle r) t
    → Accounted t
reader-Accounted budget r made steps = Reach-Accounted steps (create-Accounted budget made).0

-- If each read asks for a whole number of bytes from 0 on, and the delegate never sends more than it is
-- asked for, then in every interleaving the bytes that
-- were received and those that waiting reads may still receive fit into the byte budget together.
pub reader-BytesWithin :
    (budget : ProviderSourceBudget Number) (r : Reader) {t : System}
    → create budget ≡ some r
    → Reach KeepsMaximum (idle r) t
    → BytesWithin t
reader-BytesWithin budget r made steps =
    let (a, w) = create-Accounted budget made in Reach-BytesWithin steps a w

-- Where a caller asks for a whole number of bytes from 0 on and such a number is reserved, then, whatever
-- the delegate answers, a read that is let through gives the caller at most the bytes that the caller asked
-- for and at most what the byte budget still had when the read began.
pub read_bounded :
    (maximum_bytes reserved : ℕ) (bounded : Amount) (reply : Reply) (r later : Reader)
    (blob : BlobResult)
    → r.reserved_blob_bytes ≡ whole_bytes reserved
    → (begin_read (whole_bytes maximum_bytes) r).1 ≡ asking bounded
    → (end_read bounded reply later).1 ≡ some (port_success blob)
    → (length blob.bytes ≤ maximum_bytes)
      × (length blob.bytes ≤ r.budget.maximum_blob_bytes - r.usage.blob_bytes - reserved)
read_bounded maximum_bytes reserved bounded reply r later blob is asked got =
    elim (begin_read-cases maximum_bytes reserved r is) [
      | inl (result, stopped) ↦ absurd (cc)
      | inr (n, let_through) ↦
          let begun = let_through.begun in
          let same : bounded ≡ whole_bytes n = cc in
          let within =
            answered-bounded n reply later blob
              (subst (λ b. (end_read b reply later).1 ≡ some (port_success blob)) same got) in
          let asked_for = let_through.within_asked in
          let rest = let_through.within_rest in
          (omega (arith, within, asked_for), omega (arith, within, rest))
    ]
