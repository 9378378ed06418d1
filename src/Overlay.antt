-- ===== src/Overlay.antt =====
-- The artifacts of a pull request's head as a base generation with an overlay:
-- packages/domain/src/overlay.ts, with its types of packages/domain/src/models.ts. `localeCompare` is a
-- parameter, `collate_le left right` for `left.localeCompare(right) <= 0`.
pub mod Steps
pub mod Resolution
mod Examples
use reverb_impact.Base.{
  ℕ, String, Bool, true, false, not, Option, none, some, List, [], ◌∷◌, map, ok, err, ◌>>=◌, ◌==◌,
  if◌then◌else◌, includes, Dict, lookup, insert, erase, values, sort_by,
}
use reverb_impact.Errors.{Checked, error, invalid_schema}
use mathlib.Core.Option

pub data FileClassification : Type 0 where
  source generated vendored binary oversized symlink submodule unsupported : FileClassification

pub data ParseState : Type 0 where
  not_applicable parsed skipped failed : ParseState

-- `Omit<FileArtifact, 'generationId'>`
pub record ArtifactContent : Type 0 where
  pub path : String
  pub source_blob_id : String
  pub content_hash : Option String
  pub size : ℕ
  pub language : String
  pub classification : FileClassification
  pub parse_state : ParseState
  pub parser_id : String
  pub parser_version : String
  pub config_revision : String
  pub line_count : Option ℕ
  pub reused_from_generation_id : Option String

pub record FileArtifact : Type 0 where
  pub generation_id : String
  pub content : ArtifactContent
  pub open content use *

pub data OverlayKind : Type 0 where
  replacement tombstone : OverlayKind

pub record OverlayEntry : Type 0 where
  pub overlay_id : String
  pub path : String
  pub kind : OverlayKind
  pub artifact : Option ArtifactContent
  pub previous_path : Option String

pub data OverlayLookup : Type 0 where
  head : ArtifactContent → OverlayLookup
  base : FileArtifact → OverlayLookup
  deleted missing : OverlayLookup

abbrev from_base : Option FileArtifact → OverlayLookup
from_base none = missing
from_base (some artifact) = base artifact

-- The tests on the overlay entry, in order.
abbrev lookup_entry : OverlayKind → Option ArtifactContent → Option FileArtifact → OverlayLookup
lookup_entry tombstone artifact below = deleted
lookup_entry replacement (some artifact) below = head artifact
lookup_entry replacement none below = from_base below

-- `resolveOverlayArtifact`
unfoldable pub resolve_overlay_artifact :
    String → Dict FileArtifact → Dict OverlayEntry → OverlayLookup
resolve_overlay_artifact path base_artifacts overlay_entries = elim (lookup path overlay_entries) [
  | none ↦ from_base (lookup path base_artifacts)
  | some entry ↦ lookup_entry entry.kind entry.artifact (lookup path base_artifacts)
]

-- `{ ...artifact, generationId, ...(other generation ? { reusedFromGenerationId } : {}) }`
abbrev pub reuse : String → FileArtifact → FileArtifact
reuse generation_id artifact =
    if artifact.generation_id == generation_id
    then record artifact { generation_id = generation_id }
    else (record {
      generation_id = generation_id;
      content = record (artifact.content) {
        reused_from_generation_id = some artifact.generation_id;
      };
    })

-- `{ ...entry.artifact, generationId }`
abbrev pub stamp : String → ArtifactContent → FileArtifact
stamp generation_id content = record { generation_id = generation_id; content = content }

-- `artifacts.has(path)`
abbrev pub has : String → Dict FileArtifact → Bool
has path artifacts = elim (lookup path artifacts) [ none ↦ false | some _ ↦ true ]

-- The loop over the base artifacts.
unfoldable pub load_base :
    String → List FileArtifact → Dict FileArtifact → Checked (Dict FileArtifact)
load_base generation_id [] artifacts = ok artifacts
load_base generation_id (a ∷ rest) artifacts =
    let loaded = load_base generation_id rest (insert a.path (reuse generation_id a) artifacts) in
    if has a.path artifacts
    then err (error invalid_schema "Base generation contains duplicate paths.")
    else loaded

-- What one overlay entry does to the map.
unfoldable pub apply_entry : String → OverlayEntry → Dict FileArtifact → Checked (Dict FileArtifact)
apply_entry generation_id entry artifacts = elim entry.kind [
  | tombstone ↦ ok (erase entry.path artifacts)
  | replacement ↦ elim entry.artifact [
    | none ↦
        err (error invalid_schema "Overlay replacement must contain an artifact for the same path.")
    | some content ↦
        if content.path == entry.path
        then ok (insert entry.path (stamp generation_id content) artifacts)
        else err
            (error invalid_schema "Overlay replacement must contain an artifact for the same path.")
  ]
]

-- The loop over the overlay entries; `changed` is `changedPaths`.
unfoldable pub apply_entries :
    String → List OverlayEntry → List String → Dict FileArtifact → Checked (Dict FileArtifact)
apply_entries generation_id [] changed artifacts = ok artifacts
apply_entries generation_id (e ∷ rest) changed artifacts =
    if includes changed e.path
    then err (error invalid_schema "Overlay contains duplicate paths.")
    else (do
      next ← apply_entry generation_id e artifacts
      apply_entries generation_id rest (e.path ∷ changed) next)

-- The comparison by which the result is sorted.
abbrev pub path_order : (String → String → Bool) → FileArtifact → FileArtifact → Bool
path_order collate_le left right = collate_le left.path right.path

-- `materializeOverlayArtifacts`
unfoldable pub materialize_overlay_artifacts :
    (collate_le : String → String → Bool)
    → String
    → List FileArtifact
    → List OverlayEntry
    → Checked (List FileArtifact)
materialize_overlay_artifacts collate_le generation_id base_artifacts overlay_entries = do
  loaded ← load_base generation_id base_artifacts []
  artifacts ← apply_entries generation_id overlay_entries [] loaded
  ok (sort_by (path_order collate_le) (values artifacts))

-- `canPromoteAnalyzedHeadTree`
unfoldable pub can_promote_analyzed_head_tree : String → String → Bool
can_promote_analyzed_head_tree analyzed_head_tree actual_merge_tree =
    analyzed_head_tree == actual_merge_tree
