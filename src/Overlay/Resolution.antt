-- ===== src/Overlay/Resolution.antt =====
-- The materialized view and the lookup of a single path agree.
use mathlib.Core.Option
use reverb_impact.Base.{
  String, Bool, ◌≡◌, refl, sym, subst, ◌∙◌, ◌⊎◌, ◌↔◌, Option, none, some, List, [], ◌∷◌, arith, ok,
  inl, inr, Bool-cases, Option-cases, >>=-eq-ok, ok-injective, ◌==◌, includes, Distinct, All,
  All-Memᴰ, Memᴰ, Memᴰ-map, Memᴰ-map_of, Dict, keys, values, lookup, insert, erase, insert-Distinct,
  erase-Distinct, All-insert, All-erase, lookup-of-Memᴰ, Memᴰ-lookup, eq_iff, IsOrder, IsSorted,
  sort_by-IsSorted, Memᴰ-sort_by, sort_by-Memᴰ,
}
use reverb_impact.Overlay.{
  ArtifactContent, FileArtifact, OverlayKind, replacement, tombstone, OverlayEntry, OverlayLookup,
  head, base, deleted, missing, reuse, stamp, has, resolve_overlay_artifact, load_base, apply_entry,
  apply_entries, path_order, materialize_overlay_artifacts,
}
use reverb_impact.Overlay.Steps.{
  by_path, entries_by_path, left_by, lookup-load_base, lookup-apply_entries,
}

-- Each artifact stands once, under its own path.
record IsIndex (m : Dict FileArtifact) : Type 0 where
  distinct : Distinct (keys m)
  keyed : All (λ e. e.1.path ≡ e.0) m

insert-IsIndex :
    (a : FileArtifact) (m : Dict FileArtifact) → IsIndex m → IsIndex (insert a.path a m)
insert-IsIndex a m i = record {
  distinct = insert-Distinct a.path a m i.distinct;
  keyed = All-insert (λ e. e.1.path ≡ e.0) a.path a m refl i.keyed;
}

reuse-path : (g : String) (a : FileArtifact) → (reuse g a).path ≡ a.path
reuse-path g a = ground arith

load_base-IsIndex :
    (g : String) (base : List FileArtifact) (m : Dict FileArtifact) {m' : Dict FileArtifact}
    → load_base g base m ≡ ok m'
    → IsIndex m
    → IsIndex m'
unfolding load_base
load_base-IsIndex g [] m e i = let same : m ≡ _ = cc in subst IsIndex same i
load_base-IsIndex g (a ∷ rest) m e i = elim (Bool-cases (has a.path m)) [
  | inl twice ↦ cc (rw twice at e)
  | inr new ↦
      let step =
        subst (λ p. IsIndex (insert p (reuse g a) m)) (reuse-path g a)
          (insert-IsIndex (reuse g a) m i) in
      load_base-IsIndex g rest (insert a.path (reuse g a) m) (rw new at e) step
]

kind_cases : (k : OverlayKind) → (k ≡ tombstone) ⊎ (k ≡ replacement)
kind_cases tombstone = inl refl
kind_cases replacement = inr refl

-- An entry that is applied deletes its path, or puts an artifact there that has this path.
apply_entry_outcome :
    (g : String) (e : OverlayEntry) (m : Dict FileArtifact) {m' : Dict FileArtifact}
    → apply_entry g e m ≡ ok m'
    → ((e.kind ≡ tombstone) × (m' ≡ erase e.path m))
      ⊎ ((c : ArtifactContent) × (e.artifact ≡ some c)
          × (c.path ≡ e.path)
          × (m' ≡ insert e.path (stamp g c) m))
unfolding apply_entry
apply_entry_outcome g e m h = elim (Option-cases e.artifact) [
  | inl bare ↦ inl (ground arith, ground arith)
  | inr (c, given) ↦ elim (kind_cases e.kind) [
    | inl t ↦ inl (t, ground arith)
    | inr r ↦ inr (c, given, ground (arith, eq_iff c.path e.path), ground arith)
  ]
]

apply_entry-IsIndex :
    (g : String) (e : OverlayEntry) (m : Dict FileArtifact) {m' : Dict FileArtifact}
    → apply_entry g e m ≡ ok m'
    → IsIndex m
    → IsIndex m'
apply_entry-IsIndex g e m h i = elim (apply_entry_outcome g e m h) [
  | inl (_, same) ↦ rw same (record {
    distinct = erase-Distinct e.path m i.distinct;
    keyed = All-erase (λ x. x.1.path ≡ x.0) e.path m i.keyed;
  })
  | inr (c, _, here, same) ↦ rw (same, ← here) (insert-IsIndex (stamp g c) m i)
]

apply_entries-IsIndex :
    (g : String) (es : List OverlayEntry) (changed : List String) (m : Dict FileArtifact)
    {m' : Dict FileArtifact}
    → apply_entries g es changed m ≡ ok m'
    → IsIndex m
    → IsIndex m'
unfolding apply_entries
apply_entries-IsIndex g [] changed m h i = let same : m ≡ _ = cc in subst IsIndex same i
apply_entries-IsIndex g (e ∷ es) changed m h i = elim (Bool-cases (includes changed e.path)) [
  | inl again ↦ cc (rw again at h)
  | inr new ↦
      let (next, applied, rest) = >>=-eq-ok (apply_entry g e m) _ (rw new at h) in
      apply_entries-IsIndex g es (e.path ∷ changed) next rest (apply_entry-IsIndex g e m applied i)
]

-- An entry that was applied has what its kind needs.
apply_entries_usable :
    (g p : String) (es : List OverlayEntry) (changed : List String) (m : Dict FileArtifact)
    {m' : Dict FileArtifact} (entry : OverlayEntry)
    → apply_entries g es changed m ≡ ok m'
    → lookup p (entries_by_path es) ≡ some entry
    → (entry.kind ≡ tombstone) ⊎ ((c : ArtifactContent) × (entry.artifact ≡ some c))
unfolding apply_entries lookup
apply_entries_usable g p [] changed m entry h l = cc
apply_entries_usable g p (e ∷ es) changed m entry h l =
    elim (Bool-cases (includes changed e.path)) [
      | inl again ↦ cc (rw again at h)
      | inr new ↦
          let (next, applied, rest) = >>=-eq-ok (apply_entry g e m) _ (rw new at h) in
          elim (Bool-cases (e.path == p)) [
            | inl same ↦
                let this : e ≡ entry = ground arith in
                subst (λ x. (x.kind ≡ tombstone) ⊎ ((c : ArtifactContent) × (x.artifact ≡ some c)))
                  this (usable (apply_entry_outcome g e m applied))
            | inr other ↦
                apply_entries_usable g p es (e.path ∷ changed) next entry rest (ground arith)
          ]
    ]
  where
    usable :
        {n : Dict FileArtifact}
        → ((e.kind ≡ tombstone) × (n ≡ erase e.path m))
          ⊎ ((c : ArtifactContent) × (e.artifact ≡ some c)
              × (c.path ≡ e.path)
              × (n ≡ insert e.path (stamp g c) m))
        → (e.kind ≡ tombstone) ⊎ ((c : ArtifactContent) × (e.artifact ≡ some c))
    usable (inl (t, _)) = inl t
    usable (inr (c, given, _, _)) = inr (c, given)

Memᴰ-values_iff :
    (m : Dict FileArtifact) (a : FileArtifact)
    → IsIndex m
    → Memᴰ a (values m) ↔ (lookup a.path m ≡ some a)
Memᴰ-values_iff m a i = (found, listed)
  where
    found : Memᴰ a (values m) → lookup a.path m ≡ some a
    found mem =
        let ((k, v), here, same) = Memᴰ-map (λ (e : String × FileArtifact). e.1) m mem in
        let key : v.path ≡ k =
          All-Memᴰ (λ (e : String × FileArtifact). e.1.path ≡ e.0) m i.keyed here in
        rw (same, key) (lookup-of-Memᴰ m i.distinct here)

    listed : lookup a.path m ≡ some a → Memᴰ a (values m)
    listed e = Memᴰ-map_of (λ (x : String × FileArtifact). x.1) m (Memᴰ-lookup a.path m e)

-- The artifact that a lookup stands for in the derived generation `g`.
abbrev pub expected : String → OverlayLookup → Option FileArtifact
expected g (head content) = some (stamp g content)
expected g (base artifact) = some (reuse g artifact)
expected g deleted = none
expected g missing = none

left_by-expected :
    (g p : String) (base_artifacts : Dict FileArtifact) (entries : Dict OverlayEntry)
    (loaded : Option FileArtifact)
    → loaded ≡ Option.map (reuse g) (lookup p base_artifacts)
    → ((entry : OverlayEntry)
        → lookup p entries ≡ some entry
        → (entry.kind ≡ tombstone) ⊎ ((c : ArtifactContent) × (entry.artifact ≡ some c)))
    → elim (lookup p entries) [ none ↦ loaded | some e ↦ left_by g e ]
      ≡ expected g (resolve_overlay_artifact p base_artifacts entries)
unfolding resolve_overlay_artifact
left_by-expected g p base_artifacts entries loaded e usable =
    elim (Option-cases (lookup p entries)) [
      | inl untouched ↦ ground arith
      | inr (entry, found) ↦ elim (usable entry found) [
        | inl t ↦ ground arith
        | inr (c, given) ↦ ground arith
      ]
    ]

module _ (collate_le : String → String → Bool) (g : String) (base_artifacts : List FileArtifact)
    (entries : List OverlayEntry) {result : List FileArtifact} where
  -- Where materializing succeeds, its result holds exactly the artifacts that the lookup of their own
  -- path gives: the overlay's for a replaced path, the reused base artifact for an untouched one, and
  -- none for a deleted or unknown path.
  pub materialize-resolve :
      materialize_overlay_artifacts collate_le g base_artifacts entries ≡ ok result
      → (a : FileArtifact)
      → Memᴰ a result ↔ (
          expected g
            (resolve_overlay_artifact a.path (by_path base_artifacts) (entries_by_path entries))
          ≡ some a)
  unfolding materialize_overlay_artifacts lookup
  materialize-resolve e a =
      let (loaded, began, rest) = >>=-eq-ok (load_base g base_artifacts []) _ e in
      let (final, applied, sorted) = >>=-eq-ok (apply_entries g entries [] loaded) _ rest in
      let index =
        apply_entries-IsIndex g entries [] loaded applied
          (load_base-IsIndex g base_artifacts [] began (record { distinct = tt; keyed = tt })) in
      let at_path =
        lookup-apply_entries g a.path entries [] loaded applied
        ∙ left_by-expected g a.path (by_path base_artifacts) (entries_by_path entries)
            (lookup a.path loaded) (lookup-load_base g a.path base_artifacts [] began)
            (λ entry found. apply_entries_usable g a.path entries [] loaded entry applied found) in
      let same = ok-injective sorted in
      let values_iff = Memᴰ-values_iff final a index in
      (
        λ mem.
            sym at_path
            ∙ values_iff.0 (
                Memᴰ-sort_by (path_order collate_le) (values final)
                  (subst (λ l. Memᴰ a l) (sym same) mem)),
        λ l.
            subst (λ l. Memᴰ a l) same
              (sort_by-Memᴰ (path_order collate_le) (values final) (values_iff.1 (at_path ∙ l))),
      )

  -- The result is sorted by the paths, if the collation orders texts.
  pub materialize-IsSorted :
      materialize_overlay_artifacts collate_le g base_artifacts entries ≡ ok result
      → IsOrder collate_le
      → IsSorted (path_order collate_le) result
  unfolding materialize_overlay_artifacts
  materialize-IsSorted e (total, trans) =
      let (loaded, began, rest) = >>=-eq-ok (load_base g base_artifacts []) _ e in
      let (final, applied, sorted) = >>=-eq-ok (apply_entries g entries [] loaded) _ rest in
      subst (IsSorted (path_order collate_le)) (ok-injective sorted) (
        sort_by-IsSorted (path_order collate_le)
          (λ a b. total a.path b.path, λ a b c. trans a.path b.path c.path) (values final))
