-- ===== src/Graph/Walks.antt =====
-- What a candidate of `deriveBoundedTransitiveCandidates` of packages/domain/src/graph.ts stands for.
use reverb_impact.Base.{
  ℕ, ◌≤◌, String, false, Option, none, some, List, [], ◌∷◌, ◌++◌, map, length, includes, ◌==◌, ◌≡◌,
  refl, sym, ◌∙◌, inl, inr, arith, Dict, lookup, insert, sort_by, All, All-append, All-sort_by,
  All-Memᴰ, All-insert, Memᴰ, Memᴰ-lookup, Distinct, Bool-cases, Option-cases, eq_iff,
}
use reverb_impact.Canonical.{Platform}
use reverb_impact.Graph.{EvidenceEdge, TransitiveImpactCandidate}
use reverb_impact.Graph.Observation.{is_set}
use reverb_impact.Graph.Merging.{edge_order}
use reverb_impact.Graph.Transitive.{
  TransitiveInput, depth_limit, is_usable, or_empty, fill, adjacency,
}

-- The edges lead from the first repository to the second, each starting where the one before it ends.
abbrev pub IsRoute : String → List EvidenceEdge → String → Type 0
IsRoute a [] b = a ≡ b
IsRoute a (edge ∷ edges) b =
    (edge.producer_repository_id ≡ a) × IsRoute edge.consumer_repository_id edges b

pub IsRoute-append :
    (a b : String) (edges : List EvidenceEdge) (edge : EvidenceEdge)
    → IsRoute a edges b
    → edge.producer_repository_id ≡ b
    → IsRoute a (edges ++ edge ∷ []) edge.consumer_repository_id
IsRoute-append a b [] edge r e = (e ∙ sym r, refl)
IsRoute-append a b (first ∷ edges) edge (here, r) e =
    (here, IsRoute-append first.consumer_repository_id b edges edge r e)

-- The repositories that a walk passes after its start.
abbrev pub stops : List EvidenceEdge → List String
stops edges = map (λ edge. edge.consumer_repository_id) edges

pub stops-append :
    (edges : List EvidenceEdge) (edge : EvidenceEdge)
    → stops (edges ++ edge ∷ []) ≡ stops edges ++ edge.consumer_repository_id ∷ []
stops-append [] edge = refl
stops-append (first ∷ edges) edge = rw (stops-append edges edge) refl

includes-append :
    (xs : List String) (x y : String)
    → includes xs y ≡ false
    → x == y ≡ false
    → includes (xs ++ x ∷ []) y ≡ false
includes-append [] x y h e = ground arith
includes-append (z ∷ xs) x y h e = ground (arith, includes-append xs x y)

pub Distinct-append :
    (xs : List String) (x : String) → Distinct xs → includes xs x ≡ false → Distinct (xs ++ x ∷ [])
Distinct-append [] x d h = (refl, tt)
Distinct-append (y ∷ xs) x (new, d) h = (
  includes-append xs x y new (ground (arith, eq_iff x y, eq_iff y x)),
  Distinct-append xs x d (ground arith),
)

module _ (p : Platform) (input : TransitiveInput) where
  -- An edge of the input's workspace that is not invalidated.
  abbrev pub Usable : EvidenceEdge → Type 0
  Usable edge =
      Memᴰ edge input.current_edges
      × (edge.workspace_id ≡ input.workspace_id)
      × (edge.invalidated_at ≡ none)

  -- The edges are a walk from the producer along usable edges that passes no repository twice.
  abbrev pub IsWalk : List EvidenceEdge → List String → String → Type 0
  IsWalk edges path to =
      IsRoute input.producer_repository_id edges to
      × (path ≡ input.producer_repository_id ∷ stops edges)
      × Distinct path
      × All Usable edges

  -- A simple walk of at least two and at most as many edges as asked stands behind the candidate.
  abbrev pub IsTransitive : TransitiveImpactCandidate → Type 0
  IsTransitive c =
      (edges : List EvidenceEdge) × IsWalk edges c.repository_path c.downstream_repository_id
      × (c.evidence_edge_ids ≡ map (λ edge. edge.id) edges)
      × (c.depth ≡ length edges)
      × (2 ≤ c.depth)
      × (c.depth ≤ depth_limit input.maximum_depth)

  abbrev pub Outgoing : String × List EvidenceEdge → Type 0
  Outgoing entry = All (λ edge. (edge.producer_repository_id ≡ entry.0) × Usable edge) entry.1

  or_empty-Outgoing :
      (repository : String) (m : Dict (List EvidenceEdge))
      → All Outgoing m
      → Outgoing (repository, or_empty (lookup repository m))
  or_empty-Outgoing repository m h = elim (Option-cases (lookup repository m)) [
    | inl nothing ↦ rw nothing tt
    | inr (edges, found) ↦ rw found (All-Memᴰ Outgoing m h (Memᴰ-lookup repository m found))
  ]

  fill-Outgoing :
      (edges : List EvidenceEdge) (m : Dict (List EvidenceEdge))
      → ((e : EvidenceEdge) → Memᴰ e edges → Memᴰ e input.current_edges)
      → All Outgoing m
      → All Outgoing (fill input.workspace_id edges m)
  unfolding fill is_usable
  fill-Outgoing [] m inside h = h
  fill-Outgoing (edge ∷ edges) m inside h =
      let later = λ (e : EvidenceEdge) (t : Memᴰ e edges). inside e (Memᴰ.tail t) in
      let at = edge.producer_repository_id in
      elim (Bool-cases (is_usable input.workspace_id edge)) [
        | inr skipped ↦ rw skipped (fill-Outgoing edges m later h)
        | inl used ↦
            let usable : Usable edge = (
              inside edge (Memᴰ.head refl),
              (eq_iff edge.workspace_id input.workspace_id).0 (ground arith),
              unset edge.invalidated_at (ground arith),
            ) in
            rw used (
              fill-Outgoing edges (insert at (or_empty (lookup at m) ++ edge ∷ []) m) later (
                All-insert Outgoing at (or_empty (lookup at m) ++ edge ∷ []) m
                  (All-append (λ e. (e.producer_repository_id ≡ at) × Usable e)
                    (or_empty (lookup at m)) (edge ∷ []) (or_empty-Outgoing at m h)
                    ((refl, usable), tt))
                  h))
      ]
    where
      unset : (at : Option ℕ) → is_set at ≡ false → at ≡ none
      unset none e = refl
      unset (some n) e = absurd (ground arith)

  sorted-Outgoing :
      (m : Dict (List EvidenceEdge))
      → All Outgoing m
      → All Outgoing (map (λ entry. (entry.0, sort_by (edge_order p) entry.1)) m)
  sorted-Outgoing [] h = tt
  sorted-Outgoing (entry ∷ m) (o, h) = (
    All-sort_by (edge_order p) (λ edge. (edge.producer_repository_id ≡ entry.0) × Usable edge)
        entry.1 o,
    sorted-Outgoing m h,
  )

  pub adjacency-Outgoing :
      (repository : String)
      → Outgoing (
        repository,
        or_empty (lookup repository (adjacency p input.workspace_id input.current_edges)),
      )
  unfolding adjacency
  adjacency-Outgoing repository =
      or_empty-Outgoing repository (adjacency p input.workspace_id input.current_edges) (
        sorted-Outgoing (fill input.workspace_id input.current_edges [])
          (fill-Outgoing input.current_edges [] (λ e m. m) tt))
