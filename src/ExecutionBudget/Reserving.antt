-- ===== src/ExecutionBudget/Reserving.antt =====
-- When a reservation is granted, what a refused one leaves, and that a release undoes it.
use reverb_impact.Base.{
  ℕ, ◌+◌, ◌≤◌, ◌<◌, ◌≡◌, refl, ap, ◌∙◌, ◌⊎◌, ◌↔◌, inl, inr, true, List, [], ◌∷◌, ◌++◌, arith, ok,
  Option-cases, Bool-cases, ltb,
}
use reverb_impact.Ports.{PortFailure, port_success, port_failure}
use reverb_impact.ExecutionBudget.{
  Reservable, BudgetDimension, Budget, Delta, used, limit, usage_to_dimension, has_dimension,
  add_exhausted, reservation_entries, elapsed, exhausted_result, first_exceeded, add_all, reserve,
  covered, subtract_all, release,
}
use reverb_impact.ExecutionBudget.Totals.{
  asked, HasDistinctKeys, used-add_all, first_exceeded_fits, used-subtract_all, covered_of_asked,
  first_exceeded_over, first_exceeded_of_fits, usage_ext,
}
use reverb_impact.ExecutionBudget.Within.{Within, IsObject, reservation_entries-HasDistinctKeys}

has_dimension-append :
    (ds : List BudgetDimension) (d : BudgetDimension) → has_dimension (ds ++ d ∷ []) d ≡ true
has_dimension-append [] d = ground arith
has_dimension-append (e ∷ ds) d = ground (arith, has_dimension-append ds d)

has_dimension-add_exhausted :
    (d : BudgetDimension) (b : Budget) → has_dimension (add_exhausted d b).exhausted d ≡ true
has_dimension-add_exhausted d b = ground (arith, has_dimension-append b.exhausted d)

-- The run is within its time, and every dimension has room for what the entries ask of it.
abbrev pub Fits : Budget → ℕ → List (Reservable × ℕ) → Type 0
Fits b now entries =
    (elapsed b.started_at now ≤ b.limits.latency_ms)
    × ((k : Reservable) → used k b.usage + asked k entries ≤ limit k b.limits)

-- The dimension is over: the run took too long, or there is less room than is asked.
abbrev pub IsOver : Budget → ℕ → List (Reservable × ℕ) → BudgetDimension → Type 0
IsOver b now entries d =
    ((d ≡ BudgetDimension.latency_ms) × (b.limits.latency_ms < elapsed b.started_at now))
    ⊎ ((k : Reservable) × (d ≡ usage_to_dimension k)
        × (limit k b.limits < used k b.usage + asked k entries))

module _ (delta : Delta) (now later : ℕ) (b : Budget) (object : IsObject delta) (within : Within b)
    {entries : List (Reservable × ℕ)} (valid : reservation_entries delta ≡ ok entries) where
  distinct : HasDistinctKeys entries
  distinct = reservation_entries-HasDistinctKeys delta entries object valid

  -- A valid reservation is granted exactly when the run is within its time and every dimension has
  -- room for what is asked.
  pub reserve-success_iff :
      ((reserve delta now later b).1 ≡ ok (port_success tt)) ↔ Fits b now entries
  unfolding reserve exhausted_result
  reserve-success_iff = (granted, fitting)
    where
      granted : (reserve delta now later b).1 ≡ ok (port_success tt) → Fits b now entries
      granted e = (
        ground (arith, valid),
        λ k.
            ground
              (arith, valid, e, within k, first_exceeded_fits k entries b.usage b.limits distinct),
      )

      fitting : Fits b now entries → (reserve delta now later b).1 ≡ ok (port_success tt)
      fitting (in_time, room) =
          ground (arith, valid, first_exceeded_of_fits entries b.usage b.limits room)

  -- A granted reservation adds exactly what was asked.
  pub reserve-used :
      (reserve delta now later b).1 ≡ ok (port_success tt)
      → (k : Reservable)
      → used k (reserve delta now later b).0.usage ≡ used k b.usage + asked k entries
  unfolding reserve exhausted_result
  reserve-used e k = ground (arith, valid, used-add_all k entries b.usage)

  reserve_state :
      (reserve delta now later b).1 ≡ ok (port_success tt)
      → (reserve delta now later b).0 ≡ record b { usage = add_all entries b.usage }
  unfolding reserve exhausted_result
  reserve_state e = ground (arith, valid)

  release_granted : release delta (record b { usage = add_all entries b.usage }) ≡ (b, ok tt)
  unfolding release
  release_granted = rw (valid, release) (ground (arith, fits, restored))
    where
      fits : covered entries (add_all entries b.usage) ≡ true
      fits =
          covered_of_asked entries (add_all entries b.usage)
            (λ k. omega (arith, used-add_all k entries b.usage))

      restored : subtract_all entries (add_all entries b.usage) ≡ b.usage
      restored = usage_ext _ b.usage (λ k. omega (
        arith,
        used-add_all k entries b.usage,
        used-subtract_all k entries (add_all entries b.usage),
      ))

  -- Releasing what was granted gives back the object as it was before, and does not throw.
  pub release-reserve :
      (reserve delta now later b).1 ≡ ok (port_success tt)
      → release delta (reserve delta now later b).0 ≡ (b, ok tt)
  release-reserve e = ap (release delta) (reserve_state e) ∙ release_granted

  -- A valid reservation that is refused changes no usage, no limit and no start, and marks as
  -- exhausted a dimension that is indeed over.
  pub reserve_refused :
      (failure : PortFailure)
      → (reserve delta now later b).1 ≡ ok (port_failure failure)
      → ((reserve delta now later b).0.usage ≡ b.usage)
        × ((reserve delta now later b).0.limits ≡ b.limits)
        × ((reserve delta now later b).0.started_at ≡ b.started_at)
        × ((d : BudgetDimension) × (has_dimension (reserve delta now later b).0.exhausted d ≡ true)
            × IsOver b now entries d)
  unfolding reserve exhausted_result
  reserve_refused failure e = (
    ground (arith, valid),
    ground (arith, valid),
    ground (arith, valid),
    elim (Bool-cases (ltb b.limits.latency_ms (elapsed b.started_at now))) [
      | inl late ↦ (
        BudgetDimension.latency_ms,
        ground (arith, valid, has_dimension-add_exhausted BudgetDimension.latency_ms b),
        inl (refl, ground (arith, late)),
      )
      | inr in_time ↦ elim (Option-cases (first_exceeded b.usage b.limits entries)) [
        | inl fits ↦ absurd (ground (arith, valid))
        | inr (key, over) ↦ (
          usage_to_dimension key,
          ground (arith, valid, has_dimension-add_exhausted (usage_to_dimension key) b),
          inr (key, refl, first_exceeded_over key entries b.usage b.limits over),
        )
      ]
    ],
  )
