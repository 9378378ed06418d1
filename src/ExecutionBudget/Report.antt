-- ===== src/ExecutionBudget/Report.antt =====
-- The report that `complete` returns.
use reverb_impact.Base.{
  ℕ, ◌<◌, ◌-◌, ◌≡◌, refl, sym, inl, inr, Bool, true, false, ◌||◌, ◌&&◌, List, [], ◌∷◌, ◌++◌, arith,
  ltb, All, Bool-cases,
}
use reverb_impact.ExecutionBudget.{
  BudgetDimension, Budget, rank, same_dimension, has_dimension, add_exhausted, insert_dimension,
  sorted_set, complete,
}

same_dimension-eq : (d e : BudgetDimension) → same_dimension d e ≡ true → d ≡ e
same_dimension-eq d e h = ground arith

same_dimension_refl : (d : BudgetDimension) → same_dimension d d ≡ true
same_dimension_refl d = ground arith

or_twice : (a b : Bool) → (a || b) ≡ (a || (a || b))
or_twice true b = refl
or_twice false b = refl

or_swap : (a b c : Bool) → (a || (b || c)) ≡ (b || (a || c))
or_swap true true c = refl
or_swap true false c = refl
or_swap false b c = refl

has_dimension-insert_dimension :
    (d e : BudgetDimension) (es : List BudgetDimension)
    → has_dimension (insert_dimension d es) e ≡ (same_dimension d e || has_dimension es e)
unfolding insert_dimension
has_dimension-insert_dimension d e [] = refl
has_dimension-insert_dimension d e (f ∷ es) = elim (Bool-cases (same_dimension d f)) [
  | inl same ↦
      rw (same_dimension-eq d f same, same_dimension_refl f)
        (or_twice (same_dimension f e) (has_dimension es e))
  | inr other ↦ elim (Bool-cases (ltb (rank d) (rank f))) [
    | inl lower ↦ rw (other, lower)
    | inr higher ↦
        rw (other, higher, has_dimension-insert_dimension d e es)
          (or_swap (same_dimension f e) (same_dimension d e) (has_dimension es e))
  ]
]

has_dimension-sorted_set :
    (ds : List BudgetDimension) (e : BudgetDimension)
    → has_dimension (sorted_set ds) e ≡ has_dimension ds e
unfolding sorted_set
has_dimension-sorted_set [] e = refl
has_dimension-sorted_set (d ∷ ds) e =
    rw (has_dimension-insert_dimension d e (sorted_set ds), has_dimension-sorted_set ds e)

has_dimension-append :
    (ds : List BudgetDimension) (d e : BudgetDimension)
    → has_dimension (ds ++ d ∷ []) e ≡ (has_dimension ds e || same_dimension d e)
has_dimension-append [] d e = ground arith
has_dimension-append (f ∷ ds) d e = ground (arith, has_dimension-append ds d e)

-- Listed by rising names, none twice.
abbrev pub IsAscending : List BudgetDimension → Type 0
IsAscending [] = Unit
IsAscending (d ∷ ds) = All (λ e. rank d < rank e) ds × IsAscending ds

insert_dimension-above :
    (r : ℕ) (d : BudgetDimension) (es : List BudgetDimension)
    → r < rank d
    → All (λ e. r < rank e) es
    → All (λ e. r < rank e) (insert_dimension d es)
unfolding insert_dimension
insert_dimension-above r d [] h hs = (h, tt)
insert_dimension-above r d (e ∷ es) h (k, ks) = ground (arith, insert_dimension-above r d es h ks)

above_trans :
    (r s : ℕ) (es : List BudgetDimension)
    → r < s
    → All (λ e. s < rank e) es
    → All (λ e. r < rank e) es
above_trans r s [] h hs = tt
above_trans r s (e ∷ es) h (k, ks) = (omega arith, above_trans r s es h ks)

insert_dimension-IsAscending :
    (d : BudgetDimension) (es : List BudgetDimension)
    → IsAscending es
    → IsAscending (insert_dimension d es)
unfolding insert_dimension
insert_dimension-IsAscending d [] a = (tt, tt)
insert_dimension-IsAscending d (e ∷ es) (above, a) = elim (Bool-cases (same_dimension d e)) [
  | inl same ↦ rw same (above, a)
  | inr other ↦ elim (Bool-cases (ltb (rank d) (rank e))) [
    | inl lower ↦
        let low : rank d < rank e = ground arith in
        rw (other, lower) ((low, above_trans (rank d) (rank e) es low above), (above, a))
    | inr higher ↦
        let up : rank e < rank d = ground arith in
        rw (other, higher)
          (insert_dimension-above (rank e) d es up above, insert_dimension-IsAscending d es a)
  ]
]

sorted_set-IsAscending : (ds : List BudgetDimension) → IsAscending (sorted_set ds)
unfolding sorted_set
sorted_set-IsAscending [] = tt
sorted_set-IsAscending (d ∷ ds) =
    insert_dimension-IsAscending d (sorted_set ds) (sorted_set-IsAscending ds)

or_false : (a : Bool) → (a || false) ≡ a
or_false true = refl
or_false false = refl

or_absorbed : (a b : Bool) → (b ≡ true → a ≡ true) → a ≡ (a || b)
or_absorbed a b h = ground arith

same_member :
    (ds : List BudgetDimension) (d e : BudgetDimension)
    → has_dimension ds d ≡ true
    → same_dimension d e ≡ true
    → has_dimension ds e ≡ true
same_member ds d e h s = rw (← same_dimension-eq d e s) h

marked_latency :
    (b : Budget) (d : BudgetDimension)
    → has_dimension (add_exhausted BudgetDimension.latency_ms b).exhausted d
      ≡ (has_dimension b.exhausted d || same_dimension BudgetDimension.latency_ms d)
marked_latency b d = elim (Bool-cases (has_dimension b.exhausted BudgetDimension.latency_ms)) [
  | inl old ↦
      rw old (or_absorbed _ _ (λ s. same_member b.exhausted BudgetDimension.latency_ms d old s))
  | inr new ↦ rw new (has_dimension-append b.exhausted BudgetDimension.latency_ms d)
]

-- The report lists, by rising names and none twice, exactly the dimensions that were marked before
-- and, where the whole run took longer than its limit, the latency.
pub complete-exhausted :
    (completed_at : ℕ) (b : Budget) (d : BudgetDimension)
    → (has_dimension (complete completed_at b).1.exhausted_dimensions d ≡ (
        has_dimension b.exhausted d
        || (ltb b.limits.latency_ms (completed_at - b.started_at)
            && same_dimension BudgetDimension.latency_ms d)))
      × IsAscending (complete completed_at b).1.exhausted_dimensions
unfolding complete
complete-exhausted completed_at b d = (
  elim (Bool-cases (ltb b.limits.latency_ms (completed_at - b.started_at))) [
    | inl late ↦ rw (late, complete, has_dimension-sorted_set) (marked_latency b d)
    | inr in_time ↦
        rw (in_time, complete, has_dimension-sorted_set)
          (sym (or_false (has_dimension b.exhausted d)))
  ],
  sorted_set-IsAscending _,
)
