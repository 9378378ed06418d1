-- ===== src/Graph/Candidates.antt =====
-- The candidates of `deriveBoundedTransitiveCandidates` of packages/domain/src/graph.ts are simple walks
-- of bounded length.
use reverb_impact.Base.{
  ℕ, zero, suc, ◌≤◌, ◌<◌, String, false, some, List, [], ◌∷◌, ◌++◌, length, leb, includes, ◌≡◌,
  refl, sym, ap, ◌∙◌, subst, inl, inr, arith, Dict, values, lookup, sort_by, All, All-append,
  All-Memᴰ, All-insert, Memᴰ, Memᴰ-map, Memᴰ-sort_by, Bool-cases, Option-cases, length-append,
  leb→lt, leb→le,
}
use reverb_impact.Canonical.{Platform}
use reverb_impact.Graph.{EvidenceEdge, TransitiveImpactCandidate}
use reverb_impact.Graph.Transitive.{
  TransitiveInput, Frontier, Search, depth_limit, or_empty, adjacency, candidate_for, add_candidate,
  follow, follow_all, visit, search, steps_needed, start, depth_order,
  derive_bounded_transitive_candidates,
}
use reverb_impact.Graph.Walks.{
  stops-append, IsRoute-append, Distinct-append, Usable, IsWalk, IsTransitive, Outgoing,
  adjacency-Outgoing,
}

module _ (p : Platform) (input : TransitiveInput) where
  abbrev IsItem : Frontier → Type 0
  IsItem item =
      IsWalk p input item.edges item.repository_path item.repository_id
      × (length item.edges ≤ depth_limit input.maximum_depth)

  abbrev Found : String × TransitiveImpactCandidate → Type 0
  Found entry = IsTransitive p input entry.1

  abbrev IsSound : Search → Type 0
  IsSound st = All IsItem st.queue × All Found st.candidates

  extend-IsWalk :
      (current : Frontier) (edge : EvidenceEdge)
      → IsWalk p input current.edges current.repository_path current.repository_id
      → (edge.producer_repository_id ≡ current.repository_id) × Usable p input edge
      → includes current.repository_path edge.consumer_repository_id ≡ false
      → IsWalk p input
          (current.edges ++ edge ∷ [])
          (current.repository_path ++ edge.consumer_repository_id ∷ [])
          edge.consumer_repository_id
  extend-IsWalk current edge (route, passes, simple, usable) (leaves, use_it) fresh = (
    IsRoute-append input.producer_repository_id current.repository_id current.edges edge route
        leaves,
    ap (λ l. l ++ edge.consumer_repository_id ∷ []) passes
        ∙ ap (λ l. input.producer_repository_id ∷ l) (sym (stops-append current.edges edge)),
    Distinct-append current.repository_path edge.consumer_repository_id simple fresh,
    All-append (Usable p input) current.edges (edge ∷ []) usable (use_it, tt),
  )

  add_candidate-Found :
      (key : String) (c : TransitiveImpactCandidate) (m : Dict TransitiveImpactCandidate)
      → IsTransitive p input c
      → All Found m
      → All Found (add_candidate key c m)
  unfolding add_candidate
  add_candidate-Found key c m t h = elim (Option-cases (lookup key m)) [
    | inl new ↦ rw (new, add_candidate) (All-insert Found key c m t h)
    | inr (prior, old) ↦ rw (old, add_candidate) h
  ]

  follow-IsSound :
      (current : Frontier) (edge : EvidenceEdge) (st : Search)
      → IsItem current
      → length current.edges < depth_limit input.maximum_depth
      → (edge.producer_repository_id ≡ current.repository_id) × Usable p input edge
      → IsSound st
      → IsSound (follow p input current edge st)
  unfolding follow candidate_for
  follow-IsSound current edge st (walk, _) shallow leaves (queue, found) =
      elim (Bool-cases (includes current.repository_path edge.consumer_repository_id)) [
        | inl seen ↦ rw seen (queue, found)
        | inr fresh ↦
            let edges = current.edges ++ edge ∷ [] in
            let longer = extend-IsWalk current edge walk leaves fresh in
            let grown : length edges ≡ suc (length current.edges) =
              omega (arith, length-append current.edges (edge ∷ [])) in
            let bounded : length edges ≤ depth_limit input.maximum_depth = rw grown (omega arith) in
            rw fresh (
              All-append IsItem st.queue _ queue ((longer, bounded), tt),
              elim (Bool-cases (leb 2 (length edges))) [
                | inr short ↦ rw short found
                | inl long ↦ rw long (
                    add_candidate-Found _ _ st.candidates
                      (edges, longer, refl, refl, leb→le 2 (length edges) long, bounded) found)
              ],
            )
      ]

  follow_all-IsSound :
      (current : Frontier) (edges : List EvidenceEdge) (st : Search)
      → IsItem current
      → length current.edges < depth_limit input.maximum_depth
      → Outgoing p input (current.repository_id, edges)
      → IsSound st
      → IsSound (follow_all p input current edges st)
  unfolding follow_all
  follow_all-IsSound current [] st item shallow out sound = sound
  follow_all-IsSound current (edge ∷ edges) st item shallow (leaves, out) sound =
      follow_all-IsSound current edges (follow p input current edge st) item shallow out
        (follow-IsSound current edge st item shallow leaves sound)

  visit-IsSound :
      (current : Frontier) (st : Search)
      → IsItem current
      → IsSound st
      → IsSound (visit p input current st)
  unfolding visit
  visit-IsSound current st item sound =
      elim (Bool-cases (leb (depth_limit input.maximum_depth) (length current.edges))) [
        | inl deep ↦ rw deep sound
        | inr shallow ↦ rw shallow (
            follow_all-IsSound current
              (or_empty
                (lookup current.repository_id (adjacency p input.workspace_id input.current_edges)))
              st item (leb→lt (depth_limit input.maximum_depth) (length current.edges) shallow)
              (adjacency-Outgoing p input current.repository_id) sound)
      ]

  search-Found :
      (fuel : ℕ) (queue : List Frontier) (found : Dict TransitiveImpactCandidate)
      {result : Dict TransitiveImpactCandidate}
      → IsSound (record { queue = queue; candidates = found })
      → search p input fuel queue found ≡ some result
      → All Found result
  unfolding search
  search-Found fuel [] found sound e = let same : found ≡ _ = cc in subst (All Found) same sound.1
  search-Found zero (current ∷ queue) found sound e = absurd (ground arith)
  search-Found (suc fuel) (current ∷ queue) found ((item, items), there) e =
      let st : Search = record { queue = queue; candidates = found } in
      let next = visit p input current st in
      search-Found fuel next.queue next.candidates (visit-IsSound current st item (items, there)) e

  -- A candidate that is derived stands for a walk of the input's edges, of its workspace and not
  -- invalidated, from the producer to the downstream repository: each edge starts where the one
  -- before it ends, the repository path is the walk's and has no repository twice, the edge ids
  -- are the walk's, and the depth is its length, at least two and at most the limit.
  pub derive-IsTransitive :
      {candidates : List TransitiveImpactCandidate} {c : TransitiveImpactCandidate}
      → derive_bounded_transitive_candidates p input ≡ some candidates
      → Memᴰ c candidates
      → IsTransitive p input c
  unfolding derive_bounded_transitive_candidates
  derive-IsTransitive {candidates} {c} e m =
      elim (Option-cases (
        search p input (steps_needed (length input.current_edges) (depth_limit input.maximum_depth))
          (start input ∷ []) [])) [
            | inl nothing ↦ absurd (ground arith)
            | inr (found, ended) ↦
                let all =
                  search-Found _ (start input ∷ []) [] {result = found}
                    ((((refl, refl, (refl, tt), tt), omega arith), tt), tt) ended in
                let same : sort_by (depth_order p) (values found) ≡ candidates = ground arith in
                let (entry, there, value) =
                  Memᴰ-map (λ e. e.1) found
                    (Memᴰ-sort_by (depth_order p) (values found)
                      (subst (λ l. Memᴰ c l) (sym same) m)) in
                subst (IsTransitive p input) (sym value) (All-Memᴰ Found found all there)
          ]
