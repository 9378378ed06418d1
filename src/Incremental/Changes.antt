-- ===== src/Incremental/Changes.antt =====
-- Which paths are changed and which partitions are invalidated, said without the planner's sets and loops.
use reverb_impact.Base.{
  String, true, ◌||◌, some, List, [], ◌∷◌, ◌++◌, includes, ◌==◌, ◌≡◌, ◌≢◌, refl, sym, ◌∙◌, ap,
  subst, ◌↔◌, inl, inr, ◌⊎◌, Memᴰ, arith, eq_iff, Bool-cases, Option-cases, includes-append,
  includes-sorted_unique,
}
use reverb_impact.Canonical.{Platform}
use reverb_impact.Incremental.Data.{AdapterPathChange, AdapterPartitionDescriptor}
use reverb_impact.Incremental.Planning.{all_paths, paths_of, changed_paths_of}

-- A change has the path, or had it before and moved.
abbrev pub IsChanged : List AdapterPathChange → String → Type 0
IsChanged changes x =
    (change : AdapterPathChange) × Memᴰ change changes
    × ((x ≡ change.path) ⊎ ((change.previous_path ≡ some x) × (x ≢ "")))

-- A partition of the key owns a changed path.
abbrev pub IsDirect : List AdapterPartitionDescriptor → List AdapterPathChange → String → Type 0
IsDirect partitions changes k =
    (q : AdapterPartitionDescriptor) × Memᴰ q partitions
    × (q.partition_key ≡ k)
    × (x : String) × Memᴰ x q.owned_paths
    × IsChanged changes x

-- A partition owns a changed path, or depends on one that is invalidated.
pub data IsInvalidated (partitions : List AdapterPartitionDescriptor)
    (changes : List AdapterPathChange) : String → Type 0 where
  directly : {k : String} → IsDirect partitions changes k → IsInvalidated partitions changes k
  by_dependency :
      (q : AdapterPartitionDescriptor)
      → Memᴰ q partitions
      → (d : String) → Memᴰ d q.dependency_keys
      → IsInvalidated partitions changes d
      → IsInvalidated partitions changes q.partition_key

paths_of-IsChanged :
    (change : AdapterPathChange) (x : String)
    → (includes (paths_of change) x ≡ true)
      ↔ ((x ≡ change.path) ⊎ ((change.previous_path ≡ some x) × (x ≢ "")))
paths_of-IsChanged change x = elim (Option-cases change.previous_path) [
  | inl none_before ↦ rw none_before (
    (λ e. inl (sym ((eq_iff change.path x).0 (ground arith)))),
    (λ c. elim c [
      | inl same ↦ let own = (eq_iff change.path x).1 (sym same) in ground arith
      | inr (before, named) ↦ absurd (cc)
    ]),
  )
  | inr (previous, before) ↦ rw before (elim (Bool-cases (previous == "")) [
    | inl blank ↦ rw blank (
      (λ e. inl (sym ((eq_iff change.path x).0 (ground arith)))),
      (λ c. elim c [
        | inl same ↦ let own = (eq_iff change.path x).1 (sym same) in ground arith
        | inr (is, named) ↦
            let same : previous ≡ x = cc in absurd (named (sym same ∙ (eq_iff previous "").0 blank))
      ]),
    )
    | inr named ↦ rw named (
      (λ e. elim (Bool-cases (change.path == x)) [
        | inl own ↦ inl (sym ((eq_iff change.path x).0 own))
        | inr other ↦
            let same : previous ≡ x = (eq_iff previous x).0 (ground arith) in
            inr
              (ap some same, λ empty. let q = (eq_iff previous "").1 (same ∙ empty) in absurd (cc))
      ]),
      (λ c. elim c [
        | inl same ↦ let own = (eq_iff change.path x).1 (sym same) in ground arith
        | inr (is, not_empty) ↦
            let same : previous ≡ x = cc in let own = (eq_iff previous x).1 same in ground arith
      ]),
    )
  ])
]

all_paths-IsChanged :
    (changes : List AdapterPathChange) (x : String)
    → (includes (all_paths changes) x ≡ true) ↔ IsChanged changes x
all_paths-IsChanged [] x = ((λ e. absurd (cc)), (λ (c, m, w). elim m [ ]))
all_paths-IsChanged (change ∷ changes) x =
    let split = includes-append (paths_of change) (all_paths changes) x in
    let rest = all_paths-IsChanged changes x in
    let here = paths_of-IsChanged change x in
    (
      (λ e. elim (Bool-cases (includes (paths_of change) x)) [
        | inl own ↦ (change, Memᴰ.head refl, here.0 own)
        | inr other ↦ let (c, m, w) = rest.0 (ground arith) in (c, Memᴰ.tail m, w)
      ]),
      (λ c. later split rest.1 here.1 c),
    )
  where
    later :
        includes (paths_of change ++ all_paths changes) x
          ≡ (includes (paths_of change) x || includes (all_paths changes) x)
        → (IsChanged changes x → includes (all_paths changes) x ≡ true)
        → (((x ≡ change.path) ⊎ ((change.previous_path ≡ some x) × (x ≢ "")))
            → includes (paths_of change) x ≡ true)
        → IsChanged (change ∷ changes) x
        → includes (paths_of change ++ all_paths changes) x ≡ true
    later split rest here (c, Memᴰ.head same, w) =
        let own =
          here (subst (λ c. (x ≡ c.path) ⊎ ((c.previous_path ≡ some x) × (x ≢ ""))) same w) in
        split ∙ rw own refl
    later split rest here (c, Memᴰ.tail m, w) = let q = rest (c, m, w) in ground arith

-- A changed path is one that a change names.
pub changed_paths_of-IsChanged :
    (p : Platform) (changes : List AdapterPathChange) (x : String)
    → (includes (changed_paths_of p changes) x ≡ true) ↔ IsChanged changes x
changed_paths_of-IsChanged p changes x =
    let set = includes-sorted_unique p.collate_le (all_paths changes) x in
    let named = all_paths-IsChanged changes x in
    ((λ e. named.0 (sym set ∙ e)), (λ c. set ∙ named.1 c))
