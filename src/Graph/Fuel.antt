-- ===== src/Graph/Fuel.antt =====
-- The search of `deriveBoundedTransitiveCandidates` of packages/domain/src/graph.ts comes to an end: an
-- item of the queue outweighs all that following its edges adds.
use reverb_impact.Base.{
  ℕ, zero, suc, ◌+◌, ◌*◌, ◌-◌, ◌≤◌, ◌<◌, String, some, List, [], ◌∷◌, ◌++◌, map, length, leb,
  includes, ◌≡◌, refl, inl, inr, arith, Dict, values, lookup, insert, sort_by, length-sort_by, All,
  All-Memᴰ, All-insert, Memᴰ-lookup, Bool-cases, Option-cases, leb→lt, length-append,
}
use reverb_impact.Canonical.{Platform}
use reverb_impact.Graph.{EvidenceEdge, TransitiveImpactCandidate}
use reverb_impact.Graph.Merging.{edge_order}
use reverb_impact.Graph.Transitive.{
  TransitiveInput, Frontier, Search, depth_limit, is_usable, or_empty, fill, adjacency, follow,
  follow_all, visit, search, steps_needed, start, depth_order, derive_bounded_transitive_candidates,
}

*-le : (a b c : ℕ) → a ≤ b → a * c ≤ b * c
*-le zero b c h = omega arith
*-le (suc a) (suc b) c h = omega (arith, *-le a b c (omega arith))
*-le (suc a) zero c h = absurd (omega arith)

abbrev Short : ℕ → String × List EvidenceEdge → Type 0
Short k entry = length entry.1 ≤ k

or_empty-Short :
    (k : ℕ) (repository : String) (m : Dict (List EvidenceEdge))
    → All (Short k) m
    → length (or_empty (lookup repository m)) ≤ k
or_empty-Short k repository m h = elim (Option-cases (lookup repository m)) [
  | inl nothing ↦ rw nothing (omega arith)
  | inr (edges, found) ↦ rw found (All-Memᴰ (Short k) m h (Memᴰ-lookup repository m found))
]

All-Short : (k l : ℕ) (m : Dict (List EvidenceEdge)) → k ≤ l → All (Short k) m → All (Short l) m
All-Short k l [] below h = tt
All-Short k l (e ∷ m) below (s, h) = (omega arith, All-Short k l m below h)

fill-Short :
    (workspace : String) (edges : List EvidenceEdge) (k : ℕ) (m : Dict (List EvidenceEdge))
    → All (Short k) m
    → All (Short (length edges + k)) (fill workspace edges m)
unfolding fill
fill-Short workspace [] k m h = All-Short k (length {A = EvidenceEdge} [] + k) m (omega arith) h
fill-Short workspace (edge ∷ edges) k m h = elim (Bool-cases (is_usable workspace edge)) [
  | inr skipped ↦ rw skipped (
      All-Short (length edges + k) (length (edge ∷ edges) + k) (fill workspace edges m)
        (omega arith) (fill-Short workspace edges k m h))
  | inl used ↦
      let at = edge.producer_repository_id in
      let old = or_empty (lookup at m) in
      let longer : length (old ++ edge ∷ []) ≤ suc k =
        omega (arith, length-append old (edge ∷ []), or_empty-Short k at m h) in
      let more = fill-Short workspace edges (suc k) (insert at (old ++ edge ∷ []) m) (
        All-insert (Short (suc k)) at (old ++ edge ∷ []) m longer
          (All-Short k (suc k) m (omega arith) h)) in
      rw used (All-Short (length edges + suc k) (length (edge ∷ edges) + k) _ (omega arith) more)
]

steps_needed-pos : (b k : ℕ) → 0 < steps_needed b k
steps_needed-pos b zero = omega arith
steps_needed-pos b (suc k) = omega arith

module _ (p : Platform) (input : TransitiveInput) where
  abbrev branching : ℕ
  branching = length input.current_edges

  abbrev leaving : String → List EvidenceEdge
  leaving repository =
      or_empty (lookup repository (adjacency p input.workspace_id input.current_edges))

  sorted-Short :
      (k : ℕ) (m : Dict (List EvidenceEdge))
      → All (Short k) m
      → All (Short k) (map (λ entry. (entry.0, sort_by (edge_order p) entry.1)) m)
  sorted-Short k [] h = tt
  sorted-Short k (entry ∷ m) (s, h) =
      (omega (arith, length-sort_by (edge_order p) entry.1), sorted-Short k m h)

  leaving-Short : (repository : String) → length (leaving repository) ≤ branching
  unfolding adjacency
  leaving-Short repository =
      let filled = fill-Short input.workspace_id input.current_edges 0 [] tt in
      let bound =
        or_empty-Short (branching + 0) repository
          (adjacency p input.workspace_id input.current_edges)
          (sorted-Short (branching + 0) _ filled) in
      omega arith

  abbrev limit : ℕ
  limit = depth_limit input.maximum_depth

  -- The steps that the items of a queue need.
  abbrev weight : List Frontier → ℕ
  weight [] = 0
  weight (item ∷ queue) = steps_needed branching (limit - length item.edges) + weight queue

  weight-append : (xs ys : List Frontier) → weight (xs ++ ys) ≡ weight xs + weight ys
  weight-append [] ys = omega arith
  weight-append (x ∷ xs) ys = omega (arith, weight-append xs ys)

  follow-weight :
      (current : Frontier) (edge : EvidenceEdge) (st : Search)
      → weight (follow p input current edge st).queue
        ≤ weight st.queue + steps_needed branching (limit - suc (length current.edges))
  unfolding follow
  follow-weight current edge st =
      elim (Bool-cases (includes current.repository_path edge.consumer_repository_id)) [
        | inl seen ↦ rw seen (omega arith)
        | inr fresh ↦
            let added : Frontier = record {
              repository_id = edge.consumer_repository_id;
              repository_path = current.repository_path ++ edge.consumer_repository_id ∷ [];
              edges = current.edges ++ edge ∷ [];
            } in
            let grown : length (current.edges ++ edge ∷ []) ≡ suc (length current.edges) =
              omega (arith, length-append current.edges (edge ∷ [])) in
            rw (fresh, weight-append st.queue (added ∷ []), grown) (omega arith)
      ]

  follow_all-weight :
      (current : Frontier) (edges : List EvidenceEdge) (st : Search)
      → weight (follow_all p input current edges st).queue
        ≤ weight st.queue
          + length edges * steps_needed branching (limit - suc (length current.edges))
  unfolding follow_all
  follow_all-weight current [] st = omega arith
  follow_all-weight current (edge ∷ edges) st =
      let one = follow-weight current edge st in
      let rest = follow_all-weight current edges (follow p input current edge st) in omega arith

  -- An item that may be followed outweighs what following it adds.
  visit-weight :
      (current : Frontier) (st : Search)
      → weight (visit p input current st).queue
        < steps_needed branching (limit - length current.edges) + weight st.queue
  unfolding visit
  visit-weight current st = elim (Bool-cases (leb limit (length current.edges))) [
    | inl deep ↦ rw deep (omega (arith, steps_needed-pos branching (limit - length current.edges)))
    | inr shallow ↦
        let after = follow_all-weight current (leaving current.repository_id) st in
        let product =
          *-le (length (leaving current.repository_id)) branching
            (steps_needed branching (limit - suc (length current.edges)))
            (leaving-Short current.repository_id) in
        let deeper : limit - length current.edges ≡ suc (limit - suc (length current.edges)) =
          omega (arith, leb→lt limit (length current.edges) shallow) in
        rw (shallow, deeper) (omega arith)
  ]

  -- With as much fuel as the queue weighs, the search comes to its end.
  search-total :
      (fuel : ℕ) (queue : List Frontier) (found : Dict TransitiveImpactCandidate)
      → weight queue ≤ fuel
      → (result : Dict TransitiveImpactCandidate) × (search p input fuel queue found ≡ some result)
  unfolding search
  search-total fuel [] found h = (found, refl)
  search-total zero (current ∷ queue) found h =
      absurd (omega (arith, steps_needed-pos branching (limit - length current.edges)))
  search-total (suc fuel) (current ∷ queue) found h =
      let st : Search = record { queue = queue; candidates = found } in
      search-total fuel (visit p input current st).queue (visit p input current st).candidates
        (omega (arith, visit-weight current st))

  -- For every input the search ends: the fuel that it starts with empties the queue.
  pub derive-total :
      (result : List TransitiveImpactCandidate) × (derive_bounded_transitive_candidates p input
        ≡ some result)
  unfolding derive_bounded_transitive_candidates
  derive-total =
      let (found, ended) = search-total (steps_needed branching limit) (start input ∷ []) [] (
        let bare : limit - length (start input).edges ≡ limit = omega arith in
        rw bare (omega arith)) in
      (sort_by (depth_order p) (values found), rw ended refl)
