-- ===== src/Graph/Transitive.antt =====
-- `deriveBoundedTransitiveCandidates` of packages/domain/src/graph.ts. The loop over the queue runs on
-- fuel, of which `steps_needed` gives enough.
use reverb_impact.Base.{
  ◌<>◌, ℕ, zero, suc, ◌*◌, min, max, String, Bool, not, ◌&&◌, Option, none, some, List, [], ◌∷◌,
  ◌++◌, map, length, ◌==◌, leb, includes, if◌then◌else◌, Dict, values, lookup, insert, sort_by,
}
use mathlib.Core.Option
use reverb_impact.Canonical.{Platform, text, number, arr, obj, hash_canonical}
use reverb_impact.Graph.{EvidenceEdge, TransitiveImpactCandidate}
use reverb_impact.Graph.Observation.{is_set}
use reverb_impact.Graph.Merging.{edge_order}

-- `maximumDepth` is a whole number from 0 on, if there is one; fractions and NaN, which the clamp of the
-- source lets through, are left out.
pub record TransitiveInput : Type 0 where
  pub workspace_id : String
  pub producer_repository_id : String
  pub definition_key : String
  pub current_edges : List EvidenceEdge
  pub maximum_depth : Option ℕ

-- An item of the queue.
pub record Frontier : Type 0 where
  pub repository_id : String
  pub repository_path : List String
  pub edges : List EvidenceEdge

-- The queue and the candidates found.
pub record Search : Type 0 where
  pub queue : List Frontier
  pub candidates : Dict TransitiveImpactCandidate

abbrev asked_depth : Option ℕ → ℕ
asked_depth none = 2
asked_depth (some n) = n

-- `maximumDepth`
abbrev pub depth_limit : Option ℕ → ℕ
depth_limit asked = min 3 (max 2 (asked_depth asked))

-- The test of the loop that fills `adjacency`.
unfoldable pub is_usable : String → EvidenceEdge → Bool
is_usable workspace_id edge = edge.workspace_id == workspace_id && not (is_set edge.invalidated_at)

-- `?? []`
abbrev pub or_empty : Option (List EvidenceEdge) → List EvidenceEdge
or_empty none = []
or_empty (some edges) = edges

-- The loop that fills `adjacency`.
unfoldable pub fill :
    String → List EvidenceEdge → Dict (List EvidenceEdge) → Dict (List EvidenceEdge)
fill workspace_id [] m = m
fill workspace_id (edge ∷ edges) m = fill workspace_id edges (
    if is_usable workspace_id edge
    then insert edge.producer_repository_id
        (or_empty (lookup edge.producer_repository_id m) ++ edge ∷ []) m
    else m)

-- `adjacency`, with its lists sorted
unfoldable pub adjacency : Platform → String → List EvidenceEdge → Dict (List EvidenceEdge)
unfolding fill
adjacency p workspace_id edges =
    map (λ entry. (entry.0, sort_by (edge_order p) entry.1)) (fill workspace_id edges [])

-- The candidate for an edge that ends `edges`, a walk along `path`.
unfoldable pub candidate_for :
    Platform
    → TransitiveInput
    → EvidenceEdge
    → List String
    → List EvidenceEdge
    → TransitiveImpactCandidate
candidate_for p input edge path edges = record {
  fingerprint =
      "fnd_"
      <> hash_canonical p (
          obj (
            ("claim", text "transitive_candidate")
            ∷ ("workspaceId", text input.workspace_id)
            ∷ ("producerRepositoryId", text input.producer_repository_id)
            ∷ ("downstreamRepositoryId", text edge.consumer_repository_id)
            ∷ ("definitionKey", text input.definition_key)
            ∷ ("repositoryPath", arr text path)
            ∷ []));
  workspace_id = input.workspace_id;
  producer_repository_id = input.producer_repository_id;
  downstream_repository_id = edge.consumer_repository_id;
  definition_key = input.definition_key;
  depth = length edges;
  repository_path = path;
  evidence_edge_ids = map (λ value. value.id) edges;
}

-- `if (!candidates.has(key)) candidates.set(key, …)`
unfoldable pub add_candidate :
    String
    → TransitiveImpactCandidate
    → Dict TransitiveImpactCandidate
    → Dict TransitiveImpactCandidate
add_candidate key c m = elim (lookup key m) [ none ↦ insert key c m | some prior ↦ m ]

-- The body of the loop over the edges that leave the current repository.
unfoldable pub follow : Platform → TransitiveInput → Frontier → EvidenceEdge → Search → Search
unfolding add_candidate
follow p input current edge st =
    let path = current.repository_path ++ edge.consumer_repository_id ∷ [] in
    let edges = current.edges ++ edge ∷ [] in
    let c = candidate_for p input edge path edges in
    let key = edge.consumer_repository_id <> "\0" <> p.stringify (number (length edges)) in
    if includes current.repository_path edge.consumer_repository_id then st else record {
      queue =
          st.queue
          ++ record {
            repository_id = edge.consumer_repository_id;
            repository_path = path;
            edges = edges;
          }
            ∷ [];
      candidates =
          if leb 2 (length edges) then add_candidate key c st.candidates else st.candidates;
    }

-- The loop over the edges that leave the current repository.
unfoldable pub follow_all :
    Platform → TransitiveInput → Frontier → List EvidenceEdge → Search → Search
unfolding follow
follow_all p input current [] st = st
follow_all p input current (edge ∷ edges) st =
    follow_all p input current edges (follow p input current edge st)

-- The body of the loop over the queue, for the item taken from it.
unfoldable pub visit : Platform → TransitiveInput → Frontier → Search → Search
unfolding follow_all
visit p input current st =
    if leb (depth_limit input.maximum_depth) (length current.edges)
    then st
    else follow_all p input current
        (or_empty
          (lookup current.repository_id (adjacency p input.workspace_id input.current_edges)))
        st

-- The loop over the queue: `none` where the fuel runs out before the queue is empty.
unfoldable pub search :
    Platform
    → TransitiveInput
    → ℕ
    → List Frontier
    → Dict TransitiveImpactCandidate
    → Option (Dict TransitiveImpactCandidate)
unfolding visit
search p input fuel [] found = some found
search p input zero (current ∷ queue) found = none
search p input (suc fuel) (current ∷ queue) found =
    let st = visit p input current (record { queue = queue; candidates = found }) in
    search p input fuel st.queue st.candidates

-- The steps for an item of the queue that may be followed `k` edges more, where at most `branching`
-- edges leave a repository.
abbrev pub steps_needed : (branching k : ℕ) → ℕ
steps_needed branching zero = 1
steps_needed branching (suc k) = suc (branching * steps_needed branching k)

abbrev pub start : TransitiveInput → Frontier
start input = record {
  repository_id = input.producer_repository_id;
  repository_path = input.producer_repository_id ∷ [];
  edges = [];
}

abbrev depth_text : Platform → TransitiveImpactCandidate → String
depth_text p c = p.stringify (number c.depth) <> "\0" <> c.downstream_repository_id

abbrev pub depth_order : Platform → TransitiveImpactCandidate → TransitiveImpactCandidate → Bool
depth_order p left right = p.collate_le (depth_text p left) (depth_text p right)

-- `deriveBoundedTransitiveCandidates`
unfoldable pub derive_bounded_transitive_candidates :
    Platform → TransitiveInput → Option (List TransitiveImpactCandidate)
unfolding search
derive_bounded_transitive_candidates p input =
    Option.map (λ found. sort_by (depth_order p) (values found))
      (search p input (steps_needed (length input.current_edges) (depth_limit input.maximum_depth))
        (start input ∷ []) [])
