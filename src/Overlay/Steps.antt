-- ===== src/Overlay/Steps.antt =====
-- What the two loops leave at a path.
use mathlib.Core.Option
use reverb_impact.Base.{
  String, true, ◌≡◌, refl, Option, none, some, List, [], ◌∷◌, map, arith, ok, inl, inr, Bool-cases,
  Option-cases, >>=-eq-ok, ◌==◌, if◌then◌else◌, includes, Dict, lookup, insert, eq_iff,
  lookup-insert, lookup-erase,
}
use reverb_impact.Overlay.{
  FileArtifact, replacement, tombstone, OverlayEntry, reuse, stamp, load_base, apply_entry,
  apply_entries,
}

abbrev pub by_path : List FileArtifact → Dict FileArtifact
by_path artifacts = map (λ a. (a.path, a)) artifacts

abbrev pub entries_by_path : List OverlayEntry → Dict OverlayEntry
entries_by_path entries = map (λ e. (e.path, e)) entries

abbrev pub first {ℓ} : {A : Type ℓ} → Option A → Option A → Option A
first none other = other
first (some a) other = some a

pub lookup-load_base :
    (g p : String) (base : List FileArtifact) (m : Dict FileArtifact) {m' : Dict FileArtifact}
    → load_base g base m ≡ ok m'
    → lookup p m' ≡ first (lookup p m) (Option.map (reuse g) (lookup p (by_path base)))
unfolding load_base lookup
lookup-load_base g p [] m e = ground arith
lookup-load_base g p (a ∷ base) m {m'} e = ground (
  arith,
  lookup-load_base g p base (insert a.path (reuse g a) m) {m' = m'},
  lookup-insert a.path p (reuse g a) m,
  eq_iff a.path p,
)

-- What an entry leaves at its path.
abbrev pub left_by : String → OverlayEntry → Option FileArtifact
left_by g e = elim e.kind [ tombstone ↦ none | replacement ↦ Option.map (stamp g) e.artifact ]

lookup-apply_entry :
    (g p : String) (e : OverlayEntry) (m : Dict FileArtifact) {m' : Dict FileArtifact}
    → apply_entry g e m ≡ ok m'
    → lookup p m' ≡ (if e.path == p then left_by g e else lookup p m)
unfolding apply_entry
lookup-apply_entry g p e m {m'} h = elim (Option-cases e.artifact) [
  | inl bare ↦ ground (arith, lookup-erase e.path p m)
  | inr (c, given) ↦ ground (arith, lookup-erase e.path p m, lookup-insert e.path p (stamp g c) m)
]

-- A path that was changed before cannot be changed again.
lookup_changed :
    (g p : String) (es : List OverlayEntry) (changed : List String) (m : Dict FileArtifact)
    {m' : Dict FileArtifact}
    → apply_entries g es changed m ≡ ok m'
    → includes changed p ≡ true
    → lookup p (entries_by_path es) ≡ none
unfolding apply_entries lookup
lookup_changed g p [] changed m h c = refl
lookup_changed g p (e ∷ es) changed m {m'} h c = elim (Bool-cases (includes changed e.path)) [
  | inl again ↦ cc (rw again at h)
  | inr new ↦
      let (next, applied, rest) = >>=-eq-ok (apply_entry g e m) _ (rw new at h) in
      ground (arith, eq_iff e.path p, lookup_changed g p es (e.path ∷ changed) next rest)
]

pub lookup-apply_entries :
    (g p : String) (es : List OverlayEntry) (changed : List String) (m : Dict FileArtifact)
    {m' : Dict FileArtifact}
    → apply_entries g es changed m ≡ ok m'
    → lookup p m'
      ≡ elim (lookup p (entries_by_path es)) [ none ↦ lookup p m | some e ↦ left_by g e ]
unfolding apply_entries lookup
lookup-apply_entries g p [] changed m h = ground arith
lookup-apply_entries g p (e ∷ es) changed m {m'} h = elim (Bool-cases (includes changed e.path)) [
  | inl again ↦ cc (rw again at h)
  | inr new ↦
      let (next, applied, rest) = >>=-eq-ok (apply_entry g e m) _ (rw new at h) in
      ground (
        arith,
        eq_iff e.path p,
        lookup_changed g p es (e.path ∷ changed) next rest,
        lookup-apply_entries g p es (e.path ∷ changed) next rest,
        lookup-apply_entry g p e m applied,
      )
]
