-- ===== src/Registry/Activation.antt =====
-- What the snapshots that `createRegistrySnapshot` and `activateServiceAliasSuggestion` of
-- packages/domain/src/registry.ts make are.
use reverb_impact.Base.{
  ℕ, ◌+◌, String, List, [], ◌∷◌, ◌++◌, ok, ◌≡◌, sym, ap, subst, ◌↔◌, ◌⊎◌, inl, inr, Memᴰ,
  Memᴰ-sort_by, sort_by-Memᴰ, >>-eq-ok,
}
use reverb_impact.Canonical.{Platform, Json}
use reverb_impact.Registry.Data.{operator, ServiceAlias, ServiceIdentity, RegistrySnapshot}
use reverb_impact.Registry.Validation.{non_empty}
use reverb_impact.Registry.Valid.{IsValid, validate-IsValid}
use reverb_impact.Registry.Snapshots.{
  CreateRegistrySnapshotInput, alias_order, service_order, build_snapshot, create_registry_snapshot,
  ServiceAliasSuggestion, activation_input, activate_service_alias_suggestion,
}

-- A snapshot that is created is valid, has the input's sequence, and lists the input's services and
-- aliases and no others.
pub create-IsValid :
    (p : Platform) (input : CreateRegistrySnapshotInput) {s : RegistrySnapshot}
    → create_registry_snapshot p input ≡ ok s
    → IsValid s
      × (s.revision.sequence ≡ input.sequence)
      × ((x : ServiceIdentity) → Memᴰ x s.services ↔ Memᴰ x input.services)
      × ((a : ServiceAlias) → Memᴰ a s.aliases ↔ Memᴰ a input.aliases)
unfolding create_registry_snapshot build_snapshot
create-IsValid p input {s} e =
    let (same, valid) = validate-IsValid p (build_snapshot p input) s e in
    (
      subst IsValid (sym same) valid,
      ap (λ r. r.revision.sequence) same,
      subst
          (λ (r : RegistrySnapshot).
            (x : ServiceIdentity) → Memᴰ x r.services ↔ Memᴰ x input.services)
          (sym same)
          (λ x. (
            (λ m. Memᴰ-sort_by (service_order p) input.services m),
            (λ m. sort_by-Memᴰ (service_order p) input.services m),
          )),
      subst (λ (r : RegistrySnapshot). (a : ServiceAlias) → Memᴰ a r.aliases ↔ Memᴰ a input.aliases)
          (sym same)
          (λ a. (
            (λ m. Memᴰ-sort_by (alias_order p) input.aliases m),
            (λ m. sort_by-Memᴰ (alias_order p) input.aliases m),
          )),
    )

append-Memᴰ :
    (rest : List ServiceAlias) (x : ServiceAlias) (a : ServiceAlias)
    → Memᴰ a (rest ++ x ∷ []) ↔ (Memᴰ a rest ⊎ (a ≡ x))
append-Memᴰ [] x a = (last_one, (λ h. elim h [ inl m ↦ elim m [ ] | inr e ↦ Memᴰ.head e ]))
  where
    last_one : Memᴰ a (x ∷ []) → Memᴰ a [] ⊎ (a ≡ x)
    last_one (Memᴰ.head e) = inr e
    last_one (Memᴰ.tail m) = elim m [ ]
append-Memᴰ (y ∷ rest) x a =
    let (to, from) = append-Memᴰ rest x a in
    ((λ m. forth to m), (λ h. elim h [ inl m ↦ back from m | inr e ↦ Memᴰ.tail (from (inr e)) ]))
  where
    forth :
        (Memᴰ a (rest ++ x ∷ []) → Memᴰ a rest ⊎ (a ≡ x))
        → Memᴰ a (y ∷ rest ++ x ∷ [])
        → Memᴰ a (y ∷ rest) ⊎ (a ≡ x)
    forth to (Memᴰ.head e) = inl (Memᴰ.head e)
    forth to (Memᴰ.tail m) = elim (to m) [ inl t ↦ inl (Memᴰ.tail t) | inr e ↦ inr e ]

    back :
        (Memᴰ a rest ⊎ (a ≡ x) → Memᴰ a (rest ++ x ∷ []))
        → Memᴰ a (y ∷ rest)
        → Memᴰ a (y ∷ rest ++ x ∷ [])
    back from (Memᴰ.head e) = Memᴰ.head e
    back from (Memᴰ.tail t) = Memᴰ.tail (from (inl t))

-- A suggestion that is activated gives a valid snapshot with the next sequence number, whose services
-- are the old ones and whose aliases are the old ones and the suggested one, of the operator.
pub activate-IsValid :
    (p : Platform) (snapshot : RegistrySnapshot) (suggestion : ServiceAliasSuggestion)
    (approved_by : String) (created_at : ℕ) (extensions : Json) {s : RegistrySnapshot}
    → activate_service_alias_suggestion p snapshot suggestion approved_by created_at extensions
      ≡ ok s
    → IsValid s
      × (s.revision.sequence ≡ snapshot.revision.sequence + 1)
      × ((x : ServiceIdentity) → Memᴰ x s.services ↔ Memᴰ x snapshot.services)
      × ((a : ServiceAlias)
          → Memᴰ a s.aliases
            ↔ (Memᴰ a snapshot.aliases ⊎ (a ≡ record (suggestion.alias) { provenance = operator })))
unfolding activate_service_alias_suggestion
activate-IsValid p snapshot suggestion approved_by created_at extensions e =
    let (named, created) =
      >>-eq-ok (non_empty p approved_by "Alias suggestion approver")
        (create_registry_snapshot p
          (activation_input snapshot suggestion approved_by created_at extensions))
        e in
    let (valid, next, services, aliases) =
      create-IsValid p (activation_input snapshot suggestion approved_by created_at extensions)
        created in
    (
      valid,
      next,
      services,
      λ a.
          let (to, from) =
            append-Memᴰ snapshot.aliases (record (suggestion.alias) { provenance = operator }) a in
          ((λ m. to ((aliases a).0 m)), (λ h. (aliases a).1 (from h))),
    )
