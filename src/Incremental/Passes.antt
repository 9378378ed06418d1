-- ===== src/Incremental/Passes.antt =====
-- One run of the `for` loop of the planner over the partitions.
use reverb_impact.Base.{
  ℕ, suc, ◌≤◌, ◌<◌, String, true, false, ◌||◌, List, [], ◌∷◌, ◌++◌, any, includes, ◌==◌, ◌≡◌, refl,
  sym, ap, subst, inl, inr, ◌⊎◌, Memᴰ, arith, eq_iff, Bool-cases, All, includes-append, any-eq-true,
  if◌then◌else◌,
}
use reverb_impact.Incremental.Data.{AdapterPartitionDescriptor}
use reverb_impact.Incremental.Planning.{Pass, run_pass}

-- A predicate that passes from a dependency to the partitions that depend on it.
abbrev pub IsClosed {ℓ} : (String → Type ℓ) → List AdapterPartitionDescriptor → Type ℓ
IsClosed P partitions =
    (q : AdapterPartitionDescriptor)
    → Memᴰ q partitions
    → (d : String) → Memᴰ d q.dependency_keys
    → P d
    → P q.partition_key

abbrev with_key : AdapterPartitionDescriptor → Pass → Pass
with_key q s = record { invalidated = s.invalidated ++ q.partition_key ∷ []; changed = true }

-- A partition is passed over, since it is invalidated or depends on nothing that is, or it is added.
run_pass-cases :
    (q : AdapterPartitionDescriptor) (qs : List AdapterPartitionDescriptor) (s : Pass)
    → ((run_pass (q ∷ qs) s ≡ run_pass qs s)
        × ((includes s.invalidated q.partition_key ≡ true)
            ⊎ (any (includes s.invalidated) q.dependency_keys ≡ false)))
      ⊎ ((run_pass (q ∷ qs) s ≡ run_pass qs (with_key q s))
          × (includes s.invalidated q.partition_key ≡ false)
          × (any (includes s.invalidated) q.dependency_keys ≡ true))
unfolding run_pass
run_pass-cases q qs s = elim (Bool-cases (includes s.invalidated q.partition_key)) [
  | inl old ↦ inl (rw (old, run_pass) refl, inl old)
  | inr new ↦ elim (Bool-cases (any (includes s.invalidated) q.dependency_keys)) [
    | inl depends ↦ inr (rw (new, depends, run_pass) refl, new, depends)
    | inr alone ↦ inl (rw (new, alone, run_pass) refl, inr alone)
  ]
]

includes-with_key :
    (q : AdapterPartitionDescriptor) (s : Pass) (k : String)
    → includes (with_key q s).invalidated k ≡ (includes s.invalidated k || q.partition_key == k)
includes-with_key q s k =
    let split = includes-append s.invalidated (q.partition_key ∷ []) k in ground arith

-- A pass keeps what is invalidated.
pub run_pass-grows :
    (qs : List AdapterPartitionDescriptor) (s : Pass) (k : String)
    → includes s.invalidated k ≡ true
    → includes (run_pass qs s).invalidated k ≡ true
unfolding run_pass
run_pass-grows [] s k h = h
run_pass-grows (q ∷ qs) s k h = elim (run_pass-cases q qs s) [
  | inl (passed, why) ↦ rw passed (run_pass-grows qs s k h)
  | inr (added, new, depends) ↦
      rw added (run_pass-grows qs (with_key q s) k (rw (includes-with_key q s k, h) refl))
]

-- A pass invalidates only what a closed predicate allows.
pub run_pass-IsClosed {ℓ} :
    (P : String → Type ℓ) (qs : List AdapterPartitionDescriptor) (s : Pass)
    → IsClosed P qs
    → ((k : String) → includes s.invalidated k ≡ true → P k)
    → (k : String) → includes (run_pass qs s).invalidated k ≡ true
    → P k
unfolding run_pass
run_pass-IsClosed P [] s closed held k h = held k h
run_pass-IsClosed P (q ∷ qs) s closed held k h =
    let later : IsClosed P qs = λ r m. closed r (Memᴰ.tail m) in
    elim (run_pass-cases q qs s) [
      | inl (passed, why) ↦
          run_pass-IsClosed P qs s later held k
            (subst (λ (t : Pass). includes t.invalidated k ≡ true) passed h)
      | inr (added, new, depends) ↦
          run_pass-IsClosed P qs (with_key q s) later (grown depends) k
            (subst (λ (t : Pass). includes t.invalidated k ≡ true) added h)
    ]
  where
    grown :
        any (includes s.invalidated) q.dependency_keys ≡ true
        → (j : String) → includes (with_key q s).invalidated j ≡ true
        → P j
    grown depends j e = elim (Bool-cases (includes s.invalidated j)) [
      | inl old ↦ held j old
      | inr new ↦
          let split = includes-with_key q s j in
          let same : q.partition_key ≡ j = (eq_iff q.partition_key j).0 (ground arith) in
          let (d, m, has) = any-eq-true (includes s.invalidated) q.dependency_keys depends in
          subst P same (closed q (Memᴰ.head refl) d m (held d has))
    ]

-- What a pass that changes nothing says of each partition.
abbrev pub IsSettled : List String → AdapterPartitionDescriptor → Type 0
IsSettled keys q =
    (includes keys q.partition_key ≡ true) ⊎ (any (includes keys) q.dependency_keys ≡ false)

run_pass-changed :
    (qs : List AdapterPartitionDescriptor) (s : Pass)
    → s.changed ≡ true
    → (run_pass qs s).changed ≡ true
unfolding run_pass
run_pass-changed [] s h = h
run_pass-changed (q ∷ qs) s h = elim (run_pass-cases q qs s) [
  | inl (passed, why) ↦ rw passed (run_pass-changed qs s h)
  | inr (added, new, depends) ↦ rw added (run_pass-changed qs (with_key q s) refl)
]

pub run_pass-unchanged :
    (qs : List AdapterPartitionDescriptor) (s : Pass)
    → (run_pass qs s).changed ≡ false
    → ((run_pass qs s).invalidated ≡ s.invalidated) × All (IsSettled s.invalidated) qs
unfolding run_pass
run_pass-unchanged [] s h = (refl, tt)
run_pass-unchanged (q ∷ qs) s h = elim (run_pass-cases q qs s) [
  | inl (passed, why) ↦
      let (same, settled) =
        run_pass-unchanged qs s (subst (λ (t : Pass). t.changed ≡ false) passed h) in
      (rw passed same, (why, settled))
  | inr (added, new, depends) ↦
      let e = run_pass-changed qs (with_key q s) refl in
      let f = ap (λ (t : Pass). t.changed) added in absurd (cc)
]

-- Partitions that are not invalidated.
abbrev pub missing : List AdapterPartitionDescriptor → List String → ℕ
missing [] keys = 0
missing (q ∷ qs) keys =
    let rest = missing qs keys in if includes keys q.partition_key then rest else suc rest

missing-le :
    (qs : List AdapterPartitionDescriptor) (keys more : List String)
    → ((k : String) → includes keys k ≡ true → includes more k ≡ true)
    → missing qs more ≤ missing qs keys
missing-le [] keys more grows = omega arith
missing-le (q ∷ qs) keys more grows =
    let rest = missing-le qs keys more grows in
    let here = grows q.partition_key in
    elim (Bool-cases (includes keys q.partition_key)) [
      | inl old ↦ let kept = here old in rw (old, kept) rest
      | inr new ↦ ground arith
    ]

pub missing-lt :
    (qs : List AdapterPartitionDescriptor) (keys more : List String)
    {q : AdapterPartitionDescriptor}
    → ((k : String) → includes keys k ≡ true → includes more k ≡ true)
    → Memᴰ q qs
    → includes keys q.partition_key ≡ false
    → includes more q.partition_key ≡ true
    → missing qs more < missing qs keys
missing-lt (r ∷ qs) keys more {q} grows (Memᴰ.head same) new added =
    let rest = missing-le qs keys more grows in
    let own : q.partition_key ≡ r.partition_key =
      ap (λ (q : AdapterPartitionDescriptor). q.partition_key) same in
    rw (sym own, new, added) (omega (arith, rest))
missing-lt (r ∷ qs) keys more grows (Memᴰ.tail m) new added =
    let rest = missing-lt qs keys more grows m new added in
    let here = grows r.partition_key in
    elim (Bool-cases (includes keys r.partition_key)) [
      | inl old ↦ let kept = here old in rw (old, kept) rest
      | inr fresh ↦ ground arith
    ]
missing-lt [] keys more grows m new added = elim m [ ]

-- A pass that changes something invalidates a partition that was not.
pub run_pass-adds :
    (qs : List AdapterPartitionDescriptor) (s : Pass)
    → s.changed ≡ false
    → (run_pass qs s).changed ≡ true
    → (q : AdapterPartitionDescriptor) × Memᴰ q qs
      × (includes s.invalidated q.partition_key ≡ false)
      × (includes (run_pass qs s).invalidated q.partition_key ≡ true)
unfolding run_pass
run_pass-adds [] s was h = absurd (cc)
run_pass-adds (q ∷ qs) s was h = elim (run_pass-cases q qs s) [
  | inl (passed, why) ↦
      let (r, m, new, added) =
        run_pass-adds qs s was (subst (λ (t : Pass). t.changed ≡ true) passed h) in
      (r, Memᴰ.tail m, new, rw passed added)
  | inr (added, new, depends) ↦ (
    q,
    Memᴰ.head refl,
    new,
    rw added (
        run_pass-grows qs (with_key q s) q.partition_key (
          let split = includes-with_key q s q.partition_key in
          let self = (eq_iff q.partition_key q.partition_key).1 refl in ground arith)),
  )
]
