-- ===== src/Incremental/Plans.antt =====
-- What `planPathPartitionInvalidation` of packages/adapter-sdk/src/incremental.ts plans.
use reverb_impact.Base.{
  String, true, false, ◌&&◌, some, List, [], ◌∷◌, includes, length, ◌==◌, ◌≡◌, ◌≢◌, refl, sym, ◌∙◌,
  ap, subst, ◌↔◌, inl, inr, Memᴰ, arith, eq_iff, Result-cases, ok, any-eq-true, any-of-Memᴰ,
  includes-Memᴰ, includes-of-Memᴰ, includes-sorted_unique, &&-eq-true, nat_eq, lookup,
}
use reverb_impact.Canonical.{Platform}
use reverb_impact.Incremental.Data.{
  AdapterPathChange, AdapterPartitionDescriptor, AdapterInvalidationPlan,
}
use reverb_impact.Incremental.Planning.{
  sorted, owned_by, add_partitions, changed_paths_of, matched_of, close, enough_fuel, build_plan,
  validate_partitions, plan_path_partition_invalidation,
}
use reverb_impact.Incremental.Matching.{
  is_empty, owned_by-add_partitions, match_paths-direct, match_paths-unmatched,
}
use reverb_impact.Incremental.Closing.{close-enough_fuel, close-grows, close-least, close-IsClosed}
use reverb_impact.Incremental.Changes.{
  IsChanged, IsDirect, IsInvalidated, directly, by_dependency, changed_paths_of-IsChanged,
}

module _ (p : Platform) (partitions : List AdapterPartitionDescriptor)
    (changes : List AdapterPathChange) where
  abbrev owners : String → List String
  owners x = owned_by (add_partitions partitions []) x

  -- The owners of a path are the keys of the partitions that list it.
  owners-IsOwned :
      (x s : String)
      → (includes (owners x) s ≡ true) ↔ (
          (q : AdapterPartitionDescriptor) × Memᴰ q partitions
          × (q.partition_key ≡ s)
          × Memᴰ x q.owned_paths)
  unfolding lookup
  owners-IsOwned x s =
      let all = owned_by-add_partitions partitions [] x s in
      (
        (λ e.
            let (q, m, t) =
              any-eq-true (λ q. includes q.owned_paths x && q.partition_key == s) partitions
                (sym all ∙ e) in
            let (owns, same) = &&-eq-true (includes q.owned_paths x) (q.partition_key == s) t in
            (q, m, (eq_iff q.partition_key s).0 same, includes-Memᴰ q.owned_paths x owns)),
        (λ (q, m, same, owns).
            let a = includes-of-Memᴰ q.owned_paths x owns in
            let b = (eq_iff q.partition_key s).1 same in
            all
            ∙ any-of-Memᴰ (λ q. includes q.owned_paths x && q.partition_key == s) partitions m
                (rw (a, b) refl)),
      )

  direct-IsDirect :
      (k : String)
      → (includes (matched_of p partitions changes).direct k ≡ true) ↔ IsDirect partitions changes k
  direct-IsDirect k =
      let all =
        match_paths-direct (add_partitions partitions []) (changed_paths_of p changes)
          (record { direct = []; unmatched = [] }) k in
      (
        (λ e.
            let (x, m, has) =
              any-eq-true (λ x. includes (owners x) k) (changed_paths_of p changes) (sym all ∙ e) in
            let (q, mq, same, owns) = (owners-IsOwned x k).0 has in
            (
              q,
              mq,
              same,
              x,
              owns,
              (changed_paths_of-IsChanged p changes x).0
                  (includes-of-Memᴰ (changed_paths_of p changes) x m),
            )),
        (λ (q, mq, same, x, owns, changed).
            all
            ∙ any-of-Memᴰ (λ x. includes (owners x) k) (changed_paths_of p changes)
                (includes-Memᴰ (changed_paths_of p changes) x
                  ((changed_paths_of-IsChanged p changes x).1 changed))
                ((owners-IsOwned x k).1 (q, mq, same, owns))),
      )

  -- A plan is built from what the loop leaves.
  plan-close :
      {plan : AdapterInvalidationPlan}
      → plan_path_partition_invalidation p partitions changes ≡ ok (some plan)
      → (keys : List String) × (close
            (enough_fuel partitions)
            partitions
            (matched_of p partitions changes).direct
          ≡ some keys)
        × (plan ≡ build_plan p changes (matched_of p partitions changes) keys)
  unfolding plan_path_partition_invalidation
  plan-close {plan} e = elim (Result-cases (validate_partitions partitions)) [
    | inr (failure, bad) ↦ absurd (ground arith)
    | inl (u, good) ↦
        let (keys, closes) =
          close-enough_fuel partitions (matched_of p partitions changes).direct in
        (keys, closes, ground arith)
  ]

  -- Of a plan, the invalidated partitions are exactly those that own a changed path, the previous
  -- path of a moved file included, and those that depend, in any number of steps, on one of them.
  pub plan-IsInvalidated_iff :
      {plan : AdapterInvalidationPlan} (k : String)
      → plan_path_partition_invalidation p partitions changes ≡ ok (some plan)
      → Memᴰ k plan.invalidated_partition_keys ↔ IsInvalidated partitions changes k
  unfolding build_plan
  plan-IsInvalidated_iff {plan} k e =
      let (keys, closes, made) = plan-close e in
      let direct = (matched_of p partitions changes).direct in
      let listed : plan.invalidated_partition_keys ≡ sorted p keys =
        ap (λ (plan : AdapterInvalidationPlan). plan.invalidated_partition_keys) made in
      let set = includes-sorted_unique p.collate_le keys k in
      (
        (λ m.
            close-least (IsInvalidated partitions changes) (enough_fuel partitions) partitions
              direct (λ q mq d dep h. by_dependency q mq d dep h)
              (λ j h. directly ((direct-IsDirect j).0 h)) closes k
              (sym set ∙ includes-of-Memᴰ (sorted p keys) k (subst (Memᴰ k) listed m))),
        (λ i.
            subst (Memᴰ k) (sym listed)
              (includes-Memᴰ (sorted p keys) k (set ∙ held keys closes k i))),
      )
    where
      held :
          (keys : List String)
          → close (enough_fuel partitions) partitions (matched_of p partitions changes).direct
            ≡ some keys
          → (j : String) → IsInvalidated partitions changes j
          → includes keys j ≡ true
      held keys closes j (directly d) =
          close-grows (enough_fuel partitions) partitions (matched_of p partitions changes).direct
            closes j ((direct-IsDirect j).1 d)
      held keys closes j (by_dependency q mq d dep i) =
          close-IsClosed (enough_fuel partitions) partitions
            (matched_of p partitions changes).direct closes q mq d dep (held keys closes d i)

  empty-IsOwned :
      (x : String)
      → (is_empty (owners x) ≡ false)
        ↔ ((q : AdapterPartitionDescriptor) × Memᴰ q partitions × Memᴰ x q.owned_paths)
  empty-IsOwned x = (
    (λ e. some_owner (owners x) refl e),
    (λ (q, m, owns).
        has_owner (owners x) q.partition_key
          ((owners-IsOwned x q.partition_key).1 (q, m, refl, owns))),
  )
    where
      some_owner :
          (keys : List String)
          → owners x ≡ keys
          → is_empty keys ≡ false
          → (q : AdapterPartitionDescriptor) × Memᴰ q partitions × Memᴰ x q.owned_paths
      some_owner [] same e = absurd (cc)
      some_owner (k ∷ ks) same e =
          let self = (eq_iff k k).1 refl in
          let first : includes (k ∷ ks) k ≡ true = rw self refl in
          let has = ap (λ keys. includes keys k) same ∙ first in
          let (q, m, own, owns) = (owners-IsOwned x k).0 has in (q, m, owns)

      has_owner : (keys : List String) (k : String) → includes keys k ≡ true → is_empty keys ≡ false
      has_owner [] k e = absurd (cc)
      has_owner (j ∷ ks) k e = refl

  -- A plan is complete exactly when a partition owns each changed path.
  pub plan-complete_iff :
      {plan : AdapterInvalidationPlan}
      → plan_path_partition_invalidation p partitions changes ≡ ok (some plan)
      → (plan.complete ≡ true) ↔ (
          (x : String)
          → IsChanged changes x
          → (q : AdapterPartitionDescriptor) × Memᴰ q partitions × Memᴰ x q.owned_paths)
  unfolding build_plan
  plan-complete_iff {plan} e =
      let (keys, closes, made) = plan-close e in
      let unmatched = (matched_of p partitions changes).unmatched in
      let whole : plan.complete ≡ nat_eq (length (sorted p unmatched)) 0 =
        ap (λ (plan : AdapterInvalidationPlan). plan.complete) made in
      (
        (λ c x changed. (empty-IsOwned x).0 (owned (sym whole ∙ c) x changed)),
        (λ all. whole ∙ none_left (sorted p unmatched) (λ x listed. unlisted all x listed)),
      )
    where
      unmatched-of :
          (x : String)
          → includes (sorted p (matched_of p partitions changes).unmatched) x
            ≡ (includes (changed_paths_of p changes) x && is_empty (owners x))
      unmatched-of x =
          includes-sorted_unique p.collate_le (matched_of p partitions changes).unmatched x
          ∙ match_paths-unmatched (add_partitions partitions []) (changed_paths_of p changes)
              (record { direct = []; unmatched = [] }) x

      none_of :
          (xs : List String) (x : String) → nat_eq (length xs) 0 ≡ true → includes xs x ≡ false
      none_of [] x e = refl
      none_of (y ∷ ys) x e = absurd (ground arith)

      owned :
          nat_eq (length (sorted p (matched_of p partitions changes).unmatched)) 0 ≡ true
          → (x : String) → IsChanged changes x
          → is_empty (owners x) ≡ false
      owned c x changed =
          let none = none_of (sorted p (matched_of p partitions changes).unmatched) x c in
          let all = unmatched-of x in
          let listed = (changed_paths_of-IsChanged p changes x).1 changed in ground arith

      none_left :
          (xs : List String) → ((x : String) → includes xs x ≢ true) → nat_eq (length xs) 0 ≡ true
      none_left [] h = refl
      none_left (x ∷ xs) h = let self = (eq_iff x x).1 refl in absurd (h x (rw self refl))

      unlisted :
          ((x : String)
            → IsChanged changes x
            → (q : AdapterPartitionDescriptor) × Memᴰ q partitions × Memᴰ x q.owned_paths)
          → (x : String) → includes (sorted p (matched_of p partitions changes).unmatched) x ≢ true
      unlisted all x listed =
          let (in_paths, lonely) =
            &&-eq-true (includes (changed_paths_of p changes) x) (is_empty (owners x))
              (sym (unmatched-of x) ∙ listed) in
          let has =
            (empty-IsOwned x).1 (all x ((changed_paths_of-IsChanged p changes x).0 in_paths)) in
          cc
