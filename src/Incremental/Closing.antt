-- ===== src/Incremental/Closing.antt =====
-- The `while` loop of the planner: it ends, and leaves the least set that holds the partitions
-- invalidated directly and every partition that depends on one it holds.
use reverb_impact.Base.{
  ℕ, zero, suc, ◌≤◌, ◌<◌, String, true, false, some, List, [], ◌∷◌, includes, length, ◌≡◌, refl,
  sym, ◌∙◌, subst, inl, inr, Memᴰ, arith, Bool-cases, All-Memᴰ, any-of-Memᴰ,
}
use reverb_impact.Incremental.Data.{AdapterPartitionDescriptor}
use reverb_impact.Incremental.Planning.{Pass, run_pass, close, enough_fuel}
use reverb_impact.Incremental.Passes.{
  IsClosed, IsSettled, missing, missing-lt, run_pass-grows, run_pass-IsClosed, run_pass-unchanged,
  run_pass-adds,
}

abbrev first : List String → Pass
first keys = record { invalidated = keys; changed = false }

missing-le-length :
    (qs : List AdapterPartitionDescriptor) (keys : List String) → missing qs keys ≤ length qs
missing-le-length [] keys = omega arith
missing-le-length (q ∷ qs) keys = let rest = missing-le-length qs keys in ground arith

close-total :
    (n : ℕ) (qs : List AdapterPartitionDescriptor) (keys : List String)
    → missing qs keys < n
    → (result : List String) × (close n qs keys ≡ some result)
unfolding close
close-total zero qs keys h = absurd (omega (arith, h))
close-total (suc n) qs keys h = elim (Bool-cases (run_pass qs (first keys)).changed) [
  | inr stable ↦ ((run_pass qs (first keys)).invalidated, rw (stable, close) refl)
  | inl grew ↦
      let next = (run_pass qs (first keys)).invalidated in
      let (q, m, new, added) = run_pass-adds qs (first keys) refl grew in
      let less = missing-lt qs keys next (run_pass-grows qs (first keys)) m new added in
      let (result, e) = close-total n qs next (omega (arith, h, less)) in
      (result, rw (grew, close) e)
]

-- The loop ends within as many runs as there are partitions, and one.
pub close-enough_fuel :
    (qs : List AdapterPartitionDescriptor) (keys : List String)
    → (result : List String) × (close (enough_fuel qs) qs keys ≡ some result)
close-enough_fuel qs keys =
    close-total (enough_fuel qs) qs keys
      (let bound = missing-le-length qs keys in omega (arith, bound))

-- What the loop leaves holds what it started with.
pub close-grows :
    (n : ℕ) (qs : List AdapterPartitionDescriptor) (keys : List String) {result : List String}
    → close n qs keys ≡ some result
    → (k : String) → includes keys k ≡ true
    → includes result k ≡ true
unfolding close
close-grows zero qs keys e k h = absurd (cc)
close-grows (suc n) qs keys {result} e k h =
    let kept = run_pass-grows qs (first keys) k h in
    elim (Bool-cases (run_pass qs (first keys)).changed) [
      | inr stable ↦
          let same : (run_pass qs (first keys)).invalidated ≡ result = ground arith in
          subst (λ r. includes r k ≡ true) same kept
      | inl grew ↦ close-grows n qs (run_pass qs (first keys)).invalidated (ground arith) k kept
    ]

pub close-least {ℓ} :
    (P : String → Type ℓ) (n : ℕ) (qs : List AdapterPartitionDescriptor) (keys : List String)
    {result : List String}
    → IsClosed P qs
    → ((k : String) → includes keys k ≡ true → P k)
    → close n qs keys ≡ some result
    → (k : String) → includes result k ≡ true
    → P k
unfolding close
close-least P zero qs keys closed held e k h = absurd (cc)
close-least P (suc n) qs keys {result} closed held e k h =
    let next = run_pass-IsClosed P qs (first keys) closed held in
    elim (Bool-cases (run_pass qs (first keys)).changed) [
      | inr stable ↦
          let same : (run_pass qs (first keys)).invalidated ≡ result = ground arith in
          next k (subst (λ r. includes r k ≡ true) (sym same) h)
      | inl grew ↦
          close-least P n qs (run_pass qs (first keys)).invalidated closed next (ground arith) k h
    ]

settled-dependency :
    (keys : List String) (q : AdapterPartitionDescriptor) (d : String)
    → IsSettled keys q
    → Memᴰ d q.dependency_keys
    → includes keys d ≡ true
    → includes keys q.partition_key ≡ true
settled-dependency keys q d (inl old) m h = old
settled-dependency keys q d (inr alone) m h =
    let depends = any-of-Memᴰ (includes keys) q.dependency_keys m h in absurd (cc)

-- What the loop leaves holds every partition that depends on one it holds.
pub close-IsClosed :
    (n : ℕ) (qs : List AdapterPartitionDescriptor) (keys : List String) {result : List String}
    → close n qs keys ≡ some result
    → IsClosed (λ k. includes result k ≡ true) qs
unfolding close
close-IsClosed zero qs keys e q m d dep h = absurd (cc)
close-IsClosed (suc n) qs keys {result} e q m d dep h =
    elim (Bool-cases (run_pass qs (first keys)).changed) [
      | inr stable ↦
          let (same, settled) = run_pass-unchanged qs (first keys) stable in
          let is : (run_pass qs (first keys)).invalidated ≡ result = ground arith in
          let own : keys ≡ result = sym same ∙ is in
          settled-dependency result q d
            (subst (λ r. IsSettled r q) own (All-Memᴰ (IsSettled keys) qs settled m)) dep h
      | inl grew ↦
          close-IsClosed n qs (run_pass qs (first keys)).invalidated (ground arith) q m d dep h
    ]
