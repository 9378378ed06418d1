-- ===== src/Overlay/Examples.antt =====
-- A base generation of two files and an overlay that deletes one, replaces none and adds one.
use reverb_impact.Base.{
  String, Bool, true, ◌≡◌, refl, ◌↔◌, none, some, List, [], ◌∷◌, ok, err, Memᴰ, lookup, insert,
  erase, sort_by,
}
use reverb_impact.Errors.{error, invalid_schema}
use reverb_impact.Overlay.{
  ArtifactContent, FileArtifact, source, parsed, replacement, tombstone, OverlayEntry, load_base,
  apply_entry, apply_entries, resolve_overlay_artifact, materialize_overlay_artifacts,
}
use reverb_impact.Overlay.Steps.{by_path, entries_by_path}
use reverb_impact.Overlay.Resolution.{expected, materialize-resolve}

-- Every text before every other.
abbrev any_order : String → String → Bool
any_order left right = true

abbrev file : String → ArtifactContent
file path = record {
  path = path;
  source_blob_id = "blob";
  content_hash = none;
  size = 3;
  language = "typescript";
  classification = source;
  parse_state = parsed;
  parser_id = "npm.typescript";
  parser_version = "1";
  config_revision = "cfg";
  line_count = some 1;
  reused_from_generation_id = none;
}

abbrev base_files : List FileArtifact
base_files =
    record { generation_id = "g1"; content = file "a.ts" }
    ∷ record { generation_id = "g1"; content = file "b.ts" }
    ∷ []

abbrev changes : List OverlayEntry
changes =
    record {
      overlay_id = "o";
      path = "a.ts";
      kind = tombstone;
      artifact = none;
      previous_path = none;
    }
    ∷ record {
      overlay_id = "o";
      path = "c.ts";
      kind = replacement;
      artifact = some (file "c.ts");
      previous_path = none;
    }
    ∷ []

abbrev view : List FileArtifact
view =
    record {
      generation_id = "g2";
      content = record (file "b.ts") { reused_from_generation_id = some "g1" };
    }
    ∷ record { generation_id = "g2"; content = file "c.ts" }
    ∷ []

materialized : materialize_overlay_artifacts any_order "g2" base_files changes ≡ ok view
unfolding materialize_overlay_artifacts load_base apply_entry apply_entries lookup insert erase
    sort_by
materialized = refl

repeated_base :
    materialize_overlay_artifacts any_order "g2"
      (record { generation_id = "g1"; content = file "a.ts" }
        ∷ record { generation_id = "g1"; content = file "a.ts" }
        ∷ [])
      []
    ≡ err (error invalid_schema "Base generation contains duplicate paths.")
unfolding materialize_overlay_artifacts load_base lookup insert
repeated_base = refl

abbrev kept : FileArtifact
kept = record {
  generation_id = "g2";
  content = record (file "b.ts") { reused_from_generation_id = some "g1" };
}

materialize-resolve_example : Memᴰ kept view ↔ (
    expected "g2" (resolve_overlay_artifact "b.ts" (by_path base_files) (entries_by_path changes))
    ≡ some kept)
materialize-resolve_example =
    materialize-resolve any_order "g2" base_files changes materialized kept
