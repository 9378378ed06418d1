-- ===== src/Graph/Edges.antt =====
-- The edges of `joinChangedContracts` of packages/domain/src/graph.ts: each stands for a change and a
-- reference that support it.
use reverb_impact.Base.{
  ℕ, String, Bool, true, false, not, ◌||◌, Option, none, some, ok, ◌==◌, opt_eq, opt_eq-true,
  Option-cases, eq_iff, ◌≡◌, refl, subst, ◌≢◌, if◌then◌else◌, inl, inr, arith, Dict, lookup,
  ok-injective, >>=-eq-ok,
}
use reverb_impact.Errors.{Checked}
use reverb_impact.Contracts.{same_contract_kind}
use reverb_impact.Canonical.{Platform}
use reverb_impact.Registry.Data.{RegistrySnapshot}
use reverb_impact.Graph.{
  EvidenceBasis, exact, registry_resolved, heuristic, declared_context, behavioural_context,
  IndexedContractDefinition, IndexedContractReference, IndexedContractChange, EvidenceEdge,
  evidence_stratum_key, path_for,
}
use reverb_impact.Graph.Joining.{
  context_only, ReferenceStep, skipped, linked, AliasStep, refused, kept, unresolved,
  not_structural, alias_step, final_basis, link, conclude_reference, outside, join_reference,
}
use reverb_impact.Graph.Support.{
  Supports, StepBacked, Backed, alias_step-StepBacked, final_basis-Backed,
}

-- The edge joins the definition and the reference, on a basis that the two support, and is not
-- invalidated.
abbrev pub Joins :
    Platform
    → RegistrySnapshot
    → ℕ
    → IndexedContractChange
    → IndexedContractDefinition
    → IndexedContractReference
    → EvidenceEdge
    → Type 0
Joins p registry at change definition reference edge =
    (edge.definition ≡ definition)
    × (edge.reference ≡ reference)
    × (edge.producer_repository_id ≡ definition.repository_id)
    × (edge.consumer_repository_id ≡ reference.repository_id)
    × (edge.invalidated_at ≡ none)
    × Supports p registry at change definition reference edge.basis

unresolved-unlinked :
    (reference : IndexedContractReference) (message : String) {edge : EvidenceEdge}
    → unresolved reference message ≢ linked edge
unresolved-unlinked reference message e = elim (Option-cases reference.unresolved_pattern) [
  | inl plain ↦ absurd (ground arith)
  | inr (pattern, there) ↦ absurd (ground arith)
]

pick :
    (b c : Bool) (s : ReferenceStep) (m : Checked ReferenceStep) {edge : EvidenceEdge}
    → s ≢ linked edge
    → (if b then ok skipped else if c then ok s else m) ≡ ok (linked edge)
    → (b ≡ false) × (c ≡ false) × (m ≡ ok (linked edge))
pick true c s m n e = absurd (ground arith)
pick false true s m n e = absurd (n (ok-injective e))
pick false false s m n e = (refl, refl, e)

outside-false :
    (a b c : Bool) → (not a || not b || not c) ≡ false → (a ≡ true) × (b ≡ true) × (c ≡ true)
outside-false true true true e = (refl, refl, refl)
outside-false true true false e = absurd (ground arith)
outside-false true false c e = absurd (ground arith)
outside-false false b c e = absurd (ground arith)

module _ (p : Platform) (registry : RegistrySnapshot) (at : ℕ) (change : IndexedContractChange)
    (definition : IndexedContractDefinition) (reference : IndexedContractReference) where
  link-Joins :
      (basis : EvidenceBasis) {edge : EvidenceEdge}
      → Supports p registry at change definition reference basis
      → link p registry at change definition reference basis ≡ ok (linked edge)
      → Joins p registry at change definition reference edge
  unfolding link
  link-Joins basis {edge} s e =
      let (key, made, same) =
        >>=-eq-ok
          (evidence_stratum_key p change.contract_kind definition reference basis
            (path_for basis definition reference))
          _ e in
      let on : basis ≡ edge.basis = cc in
      (cc, cc, cc, cc, cc, subst (Supports p registry at change definition reference) on s)

  conclude-Joins :
      (step : AliasStep) {edge : EvidenceEdge}
      → StepBacked p registry at change definition reference step
      → conclude_reference p registry at change definition reference step ≡ ok (linked edge)
      → Joins p registry at change definition reference edge
  unfolding conclude_reference
  conclude-Joins (refused d) s e = absurd (ground arith)
  conclude-Joins (kept basis) {edge} s e =
      decide (final_basis change reference basis) refl
        (final_basis-Backed p registry at change definition reference basis s)
    where
      decide :
          (b : Option EvidenceBasis)
          → final_basis change reference basis ≡ b
          → Backed p registry at change definition reference b
          → Joins p registry at change definition reference edge
      decide none q k =
          absurd (unresolved-unlinked reference not_structural {edge = edge} (ground arith))
      decide (some exact) q k = link-Joins exact {edge = edge} k (ground arith)
      decide (some registry_resolved) q k =
          link-Joins registry_resolved {edge = edge} k (ground arith)
      decide (some heuristic) q k = link-Joins heuristic {edge = edge} k (ground arith)
      decide (some declared_context) q k = elim k [ ]
      decide (some behavioural_context) q k = elim k [ ]

  -- What a linked reference passed.
  abbrev pub Accepted : Dict String → EvidenceEdge → Type 0
  Accepted generations edge =
      (reference.workspace_id ≡ change.workspace_id)
      × (same_contract_kind reference.contract_kind change.contract_kind ≡ true)
      × (lookup reference.repository_id generations ≡ some reference.generation_id)
      × (context_only reference.context_basis ≡ false)
      × Joins p registry at change definition reference edge

  pub join_reference-Accepted :
      (generations : Dict String) {edge : EvidenceEdge}
      → join_reference p registry at generations change definition reference ≡ ok (linked edge)
      → Accepted generations edge
  unfolding join_reference outside
  join_reference-Accepted generations {edge} e =
      let (inside, structural, made) =
        pick (outside generations change reference) (context_only reference.context_basis)
          (unresolved reference
            "Context-only evidence cannot establish a structural consumer reference.")
          _ (unresolved-unlinked reference _) e in
      let (same_workspace, same_kind, generation) =
        outside-false (reference.workspace_id == change.workspace_id)
          (same_contract_kind reference.contract_kind change.contract_kind)
          (opt_eq (lookup reference.repository_id generations) (some reference.generation_id))
          inside in
      let (step, resolved, concluded) =
        >>=-eq-ok (alias_step p registry at change definition reference)
          (λ step. conclude_reference p registry at change definition reference step) made in
      (
        (eq_iff reference.workspace_id change.workspace_id).0 same_workspace,
        same_kind,
        opt_eq-true (lookup reference.repository_id generations) (some reference.generation_id)
            generation,
        structural,
        conclude-Joins step
            (alias_step-StepBacked p registry at change definition reference step resolved)
            concluded,
      )
