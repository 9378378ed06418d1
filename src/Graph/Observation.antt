-- ===== src/Graph/Observation.antt =====
-- `applyCompleteReferenceObservation` and `currentEvidenceEdges` of packages/domain/src/graph.ts.
use reverb_impact.Base.{
  ℕ, ◌-◌, String, Bool, true, false, not, ◌&&◌, ◌||◌, Option, none, some, List, [], ◌∷◌, map,
  filter, ◌==◌, leb, includes, if◌then◌else◌, ◌≡◌, ◌≢◌, refl, sym, ◌∙◌, ap, subst, ◌⊎◌, inl, inr,
  arith, eq_iff, Bool-cases, ◌↔◌, Memᴰ, Memᴰ-map, Memᴰ-map_of, Memᴰ-filter, filter-Memᴰ,
}
use reverb_impact.Graph.{EvidenceEdge, complete_reference_absence}

-- `edge.invalidatedAt !== undefined`
abbrev pub is_set : Option ℕ → Bool
is_set none = false
is_set (some at) = true

module _ (consumer : String) (current_ids : List String) where
  -- The test that leaves an edge as it is.
  unfoldable pub keeps : Bool → EvidenceEdge → Bool
  keeps complete edge =
      not complete
      || not (edge.consumer_repository_id == consumer)
      || is_set edge.invalidated_at
      || includes current_ids edge.stable_reference_id

  unfoldable pub observe_edge : ℕ → Bool → EvidenceEdge → EvidenceEdge
  unfolding keeps
  observe_edge at complete edge = if keeps complete edge then edge else record edge {
    invalidated_at = some at;
    invalidation_reason = some complete_reference_absence;
  }

  -- `applyCompleteReferenceObservation`; the set of current references is a list.
  unfoldable pub apply_complete_reference_observation :
      List EvidenceEdge → ℕ → Bool → List EvidenceEdge
  unfolding observe_edge
  apply_complete_reference_observation edges at complete = map (observe_edge at complete) edges

-- `validAt` with no end
abbrev valid_from : ℕ → ℕ → Bool
valid_from start at = leb start at

-- The test of `currentEvidenceEdges`; the difference is taken of an instant that is not later.
unfoldable pub is_current : ℕ → ℕ → EvidenceEdge → Bool
is_current as_of freshness_ttl_ms edge =
    not (is_set edge.invalidated_at)
    && valid_from edge.last_observed_at as_of
    && leb (as_of - edge.last_observed_at) freshness_ttl_ms

-- `currentEvidenceEdges`
unfoldable pub current_evidence_edges : List EvidenceEdge → ℕ → ℕ → List EvidenceEdge
unfolding is_current
current_evidence_edges edges as_of freshness_ttl_ms =
    filter (is_current as_of freshness_ttl_ms) edges

module _ (consumer : String) (current_ids : List String) where
  observe-again :
      (t later : ℕ) (complete : Bool) (edge : EvidenceEdge)
      → observe_edge consumer current_ids later complete
          (observe_edge consumer current_ids t complete edge)
        ≡ observe_edge consumer current_ids t complete edge
  unfolding observe_edge keeps
  observe-again t later complete edge =
      elim (Bool-cases (keeps consumer current_ids complete edge)) [
        | inl kept ↦ ground arith
        | inr changed ↦ ground arith
      ]

  -- Observing again with the same references, at any time, changes nothing: an edge that was
  -- invalidated keeps its instant.
  pub apply-idempotent :
      (edges : List EvidenceEdge) (t later : ℕ) (complete : Bool)
      → apply_complete_reference_observation consumer current_ids
          (apply_complete_reference_observation consumer current_ids edges t complete)
          later
          complete
        ≡ apply_complete_reference_observation consumer current_ids edges t complete
  unfolding apply_complete_reference_observation
  apply-idempotent [] t later complete = refl
  apply-idempotent (edge ∷ edges) t later complete =
      rw (observe-again t later complete edge, apply-idempotent edges t later complete) refl

  -- The reference of the edge is not one that the observation found to be gone.
  abbrev pub Survives : EvidenceEdge → Type 0
  Survives edge =
      (edge.consumer_repository_id ≢ consumer)
      ⊎ (includes current_ids edge.stable_reference_id ≡ true)

  observe_edge-current :
      (t as_of ttl : ℕ) (edge : EvidenceEdge)
      → is_current as_of ttl (observe_edge consumer current_ids t true edge) ≡ true
      → (observe_edge consumer current_ids t true edge ≡ edge) × Survives edge
  unfolding observe_edge keeps is_current
  observe_edge-current t as_of ttl edge e =
      elim (Bool-cases (edge.consumer_repository_id == consumer)) [
        | inr other ↦ (
          ground arith,
          inl (λ same.
              let on = (eq_iff edge.consumer_repository_id consumer).1 same in ground arith),
        )
        | inl mine ↦ elim (Bool-cases (includes current_ids edge.stable_reference_id)) [
          | inl found ↦ (ground arith, inr found)
          | inr gone ↦ absurd (ground arith)
        ]
      ]

  observe_edge-Survives :
      (t : ℕ) (edge : EvidenceEdge)
      → Survives edge
      → observe_edge consumer current_ids t true edge ≡ edge
  unfolding observe_edge keeps
  observe_edge-Survives t edge (inr found) = ground arith
  observe_edge-Survives t edge (inl other) =
      elim (Bool-cases (edge.consumer_repository_id == consumer)) [
        | inl mine ↦ absurd (other ((eq_iff edge.consumer_repository_id consumer).0 mine))
        | inr apart ↦ ground arith
      ]

  -- After a complete observation of a consumer, the current edges are the ones that were current, less
  -- the consumer's edges whose reference was not seen.
  pub observed-current_iff :
      (edges : List EvidenceEdge) (t as_of ttl : ℕ) (edge : EvidenceEdge)
      → Memᴰ edge (
          current_evidence_edges
            (apply_complete_reference_observation consumer current_ids edges t true)
            as_of
            ttl)
        ↔ (Memᴰ edge (current_evidence_edges edges as_of ttl) × Survives edge)
  unfolding apply_complete_reference_observation current_evidence_edges
  observed-current_iff edges t as_of ttl edge = (
    (λ m.
        let (observed, now) =
          Memᴰ-filter (is_current as_of ttl) (map (observe_edge consumer current_ids t true) edges)
            m in
        let (before, there, same) =
          Memᴰ-map (observe_edge consumer current_ids t true) edges observed in
        let (unchanged, survives) =
          observe_edge-current t as_of ttl before (ap (is_current as_of ttl) (sym same) ∙ now) in
        let self : edge ≡ before = same ∙ unchanged in
        (
          filter-Memᴰ (is_current as_of ttl) edges (subst (λ x. Memᴰ x edges) (sym self) there) now,
          subst Survives (sym self) survives,
        )),
    (λ (m, survives).
        let (there, now) = Memᴰ-filter (is_current as_of ttl) edges m in
        filter-Memᴰ (is_current as_of ttl) (map (observe_edge consumer current_ids t true) edges)
          (subst (λ x. Memᴰ x (map (observe_edge consumer current_ids t true) edges))
            (observe_edge-Survives t edge survives)
            (Memᴰ-map_of (observe_edge consumer current_ids t true) edges there))
          now),
  )
