-- ===== src/Graph/Soundness.antt =====
-- What an edge of `joinChangedContracts` of packages/domain/src/graph.ts rests on.
use reverb_impact.Base.{
  String, some, List, [], ◌∷◌, ok, Option-cases, Bool-cases, eq_iff, ◌≡◌, refl, sym, subst, inl,
  inr, arith, Dict, values, lookup, All, All-Memᴰ, All-insert, Memᴰ, Memᴰ-map, Memᴰ-sort_by,
  sort_by, ok-injective, find-eq-some, >>=-eq-ok,
}
use reverb_impact.Canonical.{Platform}
use reverb_impact.Graph.{
  IndexedContractDefinition, IndexedContractReference, IndexedContractChange, EvidenceEdge,
  JoinResult, definition_for_change,
}
use reverb_impact.Graph.Joining.{ReferenceStep, skipped, diagnosed, linked, join_reference}
use reverb_impact.Graph.Merging.{
  JoinState, JoinInput, selected_generations, record_step, replaces, dedupe_key, join_references,
  join_changes, empty_join, edge_order, join_changed_contracts,
}
use reverb_impact.Graph.Edges.{Accepted, join_reference-Accepted}

module _ (p : Platform) (input : JoinInput) where
  abbrev generations : Dict String
  generations = selected_generations input.selections []

  -- A change and a reference of the input stand behind the edge: its definition is the change's, and the
  -- reference was accepted for the two.
  abbrev pub IsSupported : EvidenceEdge → Type 0
  IsSupported edge =
      (change : IndexedContractChange) × (reference : IndexedContractReference) × Memᴰ change
        input.changes
      × Memᴰ reference input.references
      × Memᴰ edge.definition input.definitions
      × (edge.definition.repository_id ≡ change.producer_repository_id)
      × (edge.definition.canonical_key ≡ change.canonical_key)
      × Accepted p input.registry input.observed_at change edge.definition reference generations
          edge

  abbrev AllSupported : JoinState → Type 0
  AllSupported st = All (λ entry. IsSupported entry.1) st.edges

  module _ (change : IndexedContractChange) (definition : IndexedContractDefinition)
      (listed : Memᴰ change input.changes)
      (chosen : definition_for_change change input.definitions ≡ some definition) where
    linked-IsSupported :
        (reference : IndexedContractReference) {edge : EvidenceEdge}
        → Memᴰ reference input.references
        → join_reference p input.registry input.observed_at generations change definition reference
          ≡ ok (linked edge)
        → IsSupported edge
    unfolding definition_for_change
    linked-IsSupported reference {edge} m e =
        let accepted =
          join_reference-Accepted p input.registry input.observed_at change definition reference
            generations e in
        let (here, passes) = find-eq-some _ input.definitions chosen in
        let (workspace, kind, generation, structural, joins) = accepted in
        let (same, _, _, _, _, _) = joins in
        let (a, b, c, d) = subst Stands (sym same) (
          here,
          (eq_iff definition.repository_id change.producer_repository_id).0 (ground arith),
          (eq_iff definition.canonical_key change.canonical_key).0 (ground arith),
          accepted,
        ) in
        (change, reference, listed, m, a, b, c, d)
      where
        Stands : IndexedContractDefinition → Type 0
        Stands d =
            Memᴰ d input.definitions
            × (d.repository_id ≡ change.producer_repository_id)
            × (d.canonical_key ≡ change.canonical_key)
            × Accepted p input.registry input.observed_at change d reference generations edge

    record_step-AllSupported :
        (reference : IndexedContractReference) (st : JoinState) (step : ReferenceStep)
        → Memᴰ reference input.references
        → join_reference p input.registry input.observed_at generations change definition reference
          ≡ ok step
        → AllSupported st
        → AllSupported (record_step change reference st step)
    unfolding record_step
    record_step-AllSupported reference st skipped m e h = h
    record_step-AllSupported reference st (diagnosed d) m e h = h
    record_step-AllSupported reference st (linked edge) m e h =
        elim (Bool-cases (replaces (lookup (dedupe_key change reference) st.edges) edge)) [
          | inl new ↦ rw new (
              All-insert (λ entry. IsSupported entry.1) (dedupe_key change reference) edge st.edges
                (linked-IsSupported reference m e) h)
          | inr old ↦ rw old h
        ]

    join_references-AllSupported :
        (references : List IndexedContractReference) (st : JoinState) {result : JoinState}
        → ((r : IndexedContractReference) → Memᴰ r references → Memᴰ r input.references)
        → AllSupported st
        → join_references p input.registry input.observed_at generations change definition
            references st
          ≡ ok result
        → AllSupported result
    unfolding join_references
    join_references-AllSupported [] st inside h e = subst AllSupported (ok-injective e) h
    join_references-AllSupported (reference ∷ references) st inside h e =
        let (step, stepped, rest) =
          >>=-eq-ok
            (join_reference p input.registry input.observed_at generations change definition
              reference)
            _ e in
        join_references-AllSupported references (record_step change reference st step)
          (λ r m. inside r (Memᴰ.tail m))
          (record_step-AllSupported reference st step (inside reference (Memᴰ.head refl)) stepped h)
          rest

  join_changes-AllSupported :
      (changes : List IndexedContractChange) (st : JoinState) {result : JoinState}
      → ((c : IndexedContractChange) → Memᴰ c changes → Memᴰ c input.changes)
      → AllSupported st
      → join_changes p input generations changes st ≡ ok result
      → AllSupported result
  unfolding join_changes
  join_changes-AllSupported [] st inside h e = subst AllSupported (ok-injective e) h
  join_changes-AllSupported (change ∷ changes) st {result} inside h e =
      let later = λ (c : IndexedContractChange) (m : Memᴰ c changes). inside c (Memᴰ.tail m) in
      elim (Option-cases (definition_for_change change input.definitions)) [
        | inl nothing ↦
            join_changes-AllSupported changes st {result = result} later h (ground arith)
        | inr (definition, q) ↦
            let (next, joined, rest) =
              >>=-eq-ok
                (join_references p input.registry input.observed_at generations change definition
                  input.references st)
                (λ next. join_changes p input generations changes next) {c = result}
                (ground arith) in
            join_changes-AllSupported changes next later
              (join_references-AllSupported change definition (inside change (Memᴰ.head refl)) q
                input.references st (λ r m. m) h joined)
              rest
      ]

  -- Every edge of a join that succeeds rests on a change and a reference of its input: the edge's
  -- definition is a listed one of the change's producer and key; the reference is of the change's
  -- workspace and kind and of the generation selected for its repository, and its context is
  -- neither declared nor behavioural; the edge joins the two, is not invalidated, and its basis is
  -- supported: exact where the reference has no context and names the key, registry_resolved where
  -- the registry resolves the reference's target to the definition's service and the constrained
  -- key is the change's, heuristic where the context is heuristic and the constrained key is the
  -- change's.
  pub join-IsSupported :
      {result : JoinResult} {edge : EvidenceEdge}
      → join_changed_contracts p input ≡ ok result
      → Memᴰ edge result.edges
      → IsSupported edge
  unfolding join_changed_contracts
  join-IsSupported {result} {edge} e m =
      let (st, joined, same) =
        >>=-eq-ok (join_changes p input generations input.changes empty_join) _ e in
      let edges : sort_by (edge_order p) (values st.edges) ≡ result.edges = cc in
      let inside =
        Memᴰ-sort_by (edge_order p) (values st.edges) (subst (λ l. Memᴰ edge l) (sym edges) m) in
      let (entry, there, value) = Memᴰ-map (λ e. e.1) st.edges inside in
      subst IsSupported (sym value) (
        All-Memᴰ (λ entry. IsSupported entry.1) st.edges
          (join_changes-AllSupported input.changes empty_join (λ c m. m) tt joined) there)
