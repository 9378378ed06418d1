-- ===== src/Incremental/Valid.antt =====
-- When the planner accepts its partitions, and that it then ends with a plan.
use reverb_impact.Base.{
  ◌≤◌, String, true, false, some, List, [], ◌∷◌, map, includes, length, ◌==◌, ◌≡◌, ◌≢◌, refl, ◌↔◌,
  inl, inr, arith, eq_iff, Bool-cases, All, Result-cases, ok, unique, unique_from, Distinct,
  guard-then-ok,
}
use reverb_impact.Canonical.{Platform}
use reverb_impact.Incremental.Data.{
  AdapterPathChange, AdapterPartitionDescriptor, AdapterInvalidationPlan,
}
use reverb_impact.Incremental.Planning.{
  all_unique, validate_from, validate_partitions, plan_path_partition_invalidation, matched_of,
  build_plan,
}
use reverb_impact.Incremental.Closing.{close-enough_fuel}

-- No key is empty or stands twice, and no partition lists a path or a dependency twice.
abbrev pub IsValid : List AdapterPartitionDescriptor → Type 0
IsValid partitions =
    Distinct (map (λ q. q.partition_key) partitions)
    × All (λ q. (q.partition_key ≢ "") × Distinct q.owned_paths × Distinct q.dependency_keys)
        partitions

unique_from-length : (seen xs : List String) → length (unique_from seen xs) ≤ length xs
unfolding unique_from
unique_from-length seen [] = omega arith
unique_from-length seen (x ∷ xs) = elim (Bool-cases (includes seen x)) [
  | inl old ↦ rw (old, unique_from) (let r = unique_from-length seen xs in omega (arith, r))
  | inr new ↦ rw (new, unique_from) (let r = unique_from-length (x ∷ seen) xs in omega (arith, r))
]

apart-cons :
    (x : String) (seen xs : List String)
    → All (λ y. includes (x ∷ seen) y ≡ false) xs
      ↔ (All (λ y. includes seen y ≡ false) xs × (includes xs x ≡ false))
apart-cons x seen [] = ((λ h. (tt, refl)), (λ h. tt))
apart-cons x seen (y ∷ ys) =
    let rest = apart-cons x seen ys in
    (
      (λ (h, hs).
          let (apart, new) = rest.0 hs in
          ((ground arith, apart), ground (arith, eq_iff x y, eq_iff y x))),
      (λ ((h, hs), new). (ground (arith, eq_iff x y, eq_iff y x), rest.1 (hs, ground arith))),
    )

-- Nothing is dropped exactly when no item is seen or stands twice.
unique_from-Distinct_iff :
    (seen xs : List String)
    → (length (unique_from seen xs) ≡ length xs)
      ↔ (All (λ x. includes seen x ≡ false) xs × Distinct xs)
unfolding unique_from
unique_from-Distinct_iff seen [] = ((λ e. (tt, tt)), (λ h. refl))
unique_from-Distinct_iff seen (x ∷ xs) = elim (Bool-cases (includes seen x)) [
  | inl old ↦
      rw (old, unique_from)
        (
          (λ e. let r = unique_from-length seen xs in absurd (omega (arith, e, r))),
          (λ ((new, rest), d). absurd (cc)),
        )
  | inr new ↦
      let later = unique_from-Distinct_iff (x ∷ seen) xs in
      rw (new, unique_from)
        (
          (λ e.
              let (apart, d) = later.0 (omega (arith, e)) in
              let (rest, fresh) = (apart-cons x seen xs).0 apart in ((refl, rest), (fresh, d))),
          (λ ((same, rest), (fresh, d)).
              let e = later.1 ((apart-cons x seen xs).1 (rest, fresh), d) in omega (arith, e)),
        )
]

none_seen : (ys : List String) → All (λ y. includes [] y ≡ false) ys
none_seen [] = tt
none_seen (y ∷ ys) = (refl, none_seen ys)

all_unique-Distinct : (xs : List String) → (all_unique xs ≡ true) ↔ Distinct xs
unfolding unique
all_unique-Distinct xs =
    let same = unique_from-Distinct_iff [] xs in
    (
      (λ e. let (apart, d) = same.0 (ground arith) in d),
      (λ d. let e = same.1 (none_seen xs, d) in ground arith),
    )

-- What the loop accepts, with the keys seen before.
abbrev IsValidFrom : List String → List AdapterPartitionDescriptor → Type 0
IsValidFrom seen partitions =
    All (λ k. includes seen k ≡ false) (map (λ q. q.partition_key) partitions) × IsValid partitions

validate_from-IsValid :
    (seen : List String) (qs : List AdapterPartitionDescriptor)
    → (validate_from seen qs ≡ ok tt) ↔ IsValidFrom seen qs
unfolding validate_from
validate_from-IsValid seen [] = ((λ e. (tt, (tt, tt))), (λ h. refl))
validate_from-IsValid seen (q ∷ qs) =
    let later = validate_from-IsValid (q.partition_key ∷ seen) qs in
    let apart = apart-cons q.partition_key seen (map (λ q. q.partition_key) qs) in
    let paths = all_unique-Distinct q.owned_paths in
    let dependencies = all_unique-Distinct q.dependency_keys in
    let named = eq_iff q.partition_key "" in
    (
      (λ e.
          let (key, e1) = guard-then-ok _ _ _ e in
          let (own, e2) = guard-then-ok _ _ _ e1 in
          let (deps, e3) = guard-then-ok _ _ _ e2 in
          let (fresh, (distinct, valid)) = later.0 e3 in
          let (unseen, new) = apart.0 fresh in
          (
            (ground arith, unseen),
            (
              (new, distinct),
              (
                (
                  (λ empty. let b = named.1 empty in ground arith),
                  paths.0 own,
                  dependencies.0 deps,
                ),
                valid,
              ),
            ),
          )),
      (λ ((key, unseen), ((new, distinct), ((not_empty, own, deps), valid))).
          let e = later.1 (apart.1 (unseen, new), (distinct, valid)) in
          let a = paths.1 own in
          let b = dependencies.1 deps in
          elim (Bool-cases (q.partition_key == "")) [
            | inl empty ↦ absurd (not_empty (named.0 empty))
            | inr full ↦ rw (full, key, a, b, e) refl
          ]),
    )

-- The planner ends, with a plan, exactly when its partitions are valid: no key is empty or stands
-- twice, and no partition lists a path or a dependency twice.
pub plan-ok_iff :
    (p : Platform) (partitions : List AdapterPartitionDescriptor) (changes : List AdapterPathChange)
    → ((plan : AdapterInvalidationPlan) × (plan_path_partition_invalidation p partitions changes
          ≡ ok (some plan)))
      ↔ IsValid partitions
unfolding plan_path_partition_invalidation validate_partitions
plan-ok_iff p partitions changes =
    let valid = validate_from-IsValid [] partitions in
    (
      (λ (plan, e). elim (Result-cases (validate_from [] partitions)) [
        | inr (failure, bad) ↦ absurd (ground arith)
        | inl (u, good) ↦ let (seen, h) = valid.0 good in h
      ]),
      (λ h.
          let good = valid.1 (none_seen (map (λ q. q.partition_key) partitions), h) in
          let (keys, closes) =
            close-enough_fuel partitions (matched_of p partitions changes).direct in
          (build_plan p changes (matched_of p partitions changes) keys, rw (good, closes) refl)),
    )
