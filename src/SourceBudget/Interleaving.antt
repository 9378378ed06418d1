-- ===== src/SourceBudget/Interleaving.antt =====
-- Concurrent callers of one reader, as steps of the reader and of its unfinished reads.
use reverb_impact.Base.{ℕ, false, ◌≡◌, List, ◌∷◌, ◌++◌, length}
use reverb_impact.Ports.{port_success, port_failure}
use reverb_impact.SourceBudget.{
  Amount, whole_bytes, exceeds, Reader, MetadataOperation, Reply, replied, rejected, ReadStart,
  refused, asking, metadata_call, begin_read, end_read,
}

-- The reader, and the bounded maxima of the reads that wait for the delegate.
pub record System : Type 0 where
  pub reader : Reader
  pub waiting : List Amount

abbrev pub opened : ReadStart → List Amount → List Amount
opened (refused result) waiting = waiting
opened (asking bounded) waiting = bounded ∷ waiting

-- A read asks for a whole number of bytes from 0 on, and a delegate that keeps to `Allowed` answers any
-- waiting read at any time.
pub data Step (Allowed : Amount → Reply → Type 0) : System → System → Type 0 where
  calling :
      (s : System) (operation : MetadataOperation)
      → Step Allowed s
          (record s { reader = (metadata_call {A = ℕ} operation (port_success 0) s.reader).0 })
  beginning :
      (s : System) (maximum_bytes : ℕ)
      → Step Allowed s (record {
        reader = (begin_read (whole_bytes maximum_bytes) s.reader).0;
        waiting = opened (begin_read (whole_bytes maximum_bytes) s.reader).1 s.waiting;
      })
  ending :
      (r : Reader) (before after : List Amount) (bounded : Amount) (reply : Reply) (s : System)
      → Allowed bounded reply
      → s ≡ record { reader = r; waiting = before ++ bounded ∷ after }
      → Step Allowed s (record { reader = (end_read bounded reply r).0; waiting = before ++ after })

pub data Reach (Allowed : Amount → Reply → Type 0) (s : System) : System → Type 0 where
  here : Reach Allowed s s
  next : {t u : System} → Reach Allowed s t → Step Allowed t u → Reach Allowed s u

-- Any delegate.
abbrev pub Anything : Amount → Reply → Type 0
Anything bounded reply = Unit

-- A delegate that sends no more than it is asked for.
abbrev pub KeepsMaximum : Amount → Reply → Type 0
KeepsMaximum bounded (replied (port_success blob)) = exceeds (length blob.bytes) bounded ≡ false
KeepsMaximum bounded (replied (port_failure failure)) = Unit
KeepsMaximum bounded rejected = Unit
