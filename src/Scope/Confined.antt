-- ===== src/Scope/Confined.antt =====
-- That the readers of packages/application/src/scoped-reads.ts stay inside the scope.
use Prim.Native.Char.{code}
use mathlib.Core.Path.{ap₂}
use text.Mathlib.TextLemmas.{nil-append, cons-append, head-eq_of_cons-eq, tail-eq_of_cons-eq}
use reverb_impact.Base.{
  ◌≢◌, String, Bool, true, false, ◌&&◌, List, [], ◌∷◌, any, includes, ◌==◌, ◌<>◌, ◌≡◌, refl, sym,
  ◌∙◌, ap, subst, ◌⊎◌, inl, inr, Memᴰ, arith, eq_iff, ok, &&-eq-true, Bool-cases, All, All-Memᴰ,
  Memᴰ-map, includes-Memᴰ,
}
use reverb_impact.Canonical.{Platform}
use reverb_impact.Ports.{PortResult, port_success, port_failure, PortResult-cases}
use reverb_impact.Graph.{IndexedContractReference}
use reverb_impact.Scope.Data.{ScopedReadCapability, ResolveInput, ResolvedAnalysisScope}
use reverb_impact.Scope.Preparing.{build_prepared}
use reverb_impact.Scope.Finalizing.{build_resolved, assert_scoped_repository_read}
use reverb_impact.Scope.Resolving.{Authorization, resolve_analysis_scope}
use reverb_impact.Scope.Resolved.{IsInScope}
use reverb_impact.Scope.Answers.{resolve-resolved_of, resolve-capability_iff}
use reverb_impact.Scope.Reads.{
  outside_scope, enforce_scope, when_allowed, ReaderCall, repository_of, scoped_repository_read,
  GenerationOf, ScopedReferenceQuery, ReferenceQuery, enforce_all, allowed_pairs, pair_key,
  is_foreign, store_query, read_references,
}

-- The capability covers the repository of the workspace.
abbrev pub IsCovered : ScopedReadCapability → String → String → Type 0
IsCovered capability workspace_id repository_id =
    (capability.workspace_id ≡ workspace_id) × Memᴰ repository_id capability.repository_ids

covers-IsCovered :
    (capability : ScopedReadCapability) (workspace_id repository_id : String)
    → (capability.workspace_id == workspace_id && includes capability.repository_ids repository_id)
      ≡ true
    → IsCovered capability workspace_id repository_id
covers-IsCovered capability workspace_id repository_id h =
    let (same, listed) =
      &&-eq-true (capability.workspace_id == workspace_id)
        (includes capability.repository_ids repository_id) h in
    (
      (eq_iff capability.workspace_id workspace_id).0 same,
      includes-Memᴰ capability.repository_ids repository_id listed,
    )

-- A repository outside the capability fails, and one inside passes.
enforce_scope-cases :
    (capability : ScopedReadCapability) (workspace_id repository_id : String)
    → ((enforce_scope capability workspace_id repository_id ≡ port_success tt)
        × IsCovered capability workspace_id repository_id)
      ⊎ (enforce_scope capability workspace_id repository_id ≡ port_failure outside_scope)
unfolding enforce_scope assert_scoped_repository_read
enforce_scope-cases capability workspace_id repository_id =
    elim (Bool-cases (
      capability.workspace_id == workspace_id
      && includes capability.repository_ids repository_id)) [
        | inl covers ↦ inl (
          rw (covers, enforce_scope, assert_scoped_repository_read) refl,
          covers-IsCovered capability workspace_id repository_id covers,
        )
        | inr outside ↦ inr (rw (outside, enforce_scope, assert_scoped_repository_read) refl)
      ]

-- Through the capability of a resolution that succeeds, a reader makes at most the call that it is
-- asked for, and only of a repository in scope, of the requested workspace.
pub resolve-confines_reads {ℓ} :
    {A : Type ℓ} (p : Platform) (port : Authorization) (input : ResolveInput)
    (reader : ReaderCall → PortResult A) {r : ResolvedAnalysisScope} (workspace_id : String)
    (call : ReaderCall) {made : ReaderCall}
    → resolve_analysis_scope p port input ≡ ok (port_success r)
    → Memᴰ made (scoped_repository_read reader r.capability workspace_id call).calls
    → (made ≡ call)
      × (workspace_id ≡ input.workspace_id)
      × IsInScope port input (repository_of made)
unfolding scoped_repository_read build_resolved build_prepared
resolve-confines_reads p port input reader {r} workspace_id call {made} e m =
    let (registry, producer, answer) = resolve-resolved_of p port input e in
    let own : r.capability.workspace_id ≡ input.workspace_id =
      ap (λ (r : ResolvedAnalysisScope). r.capability.workspace_id) answer ∙ registry.0 in
    elim (enforce_scope-cases r.capability workspace_id (repository_of call)) [
      | inl (passes, (same, listed)) ↦
          is_call passes m
            (sym same ∙ own, (resolve-capability_iff p port input (repository_of call) e).0 listed)
      | inr fails ↦ no_call fails m
    ]
  where
    is_call :
        {allowed : PortResult (Unit {0})}
        → allowed ≡ port_success tt
        → Memᴰ made (when_allowed allowed call (reader call)).calls
        → (workspace_id ≡ input.workspace_id) × IsInScope port input (repository_of call)
        → (made ≡ call)
          × (workspace_id ≡ input.workspace_id)
          × IsInScope port input (repository_of made)
    is_call {allowed = port_success u} e (Memᴰ.head same) (ws, scope) =
        (same, ws, subst (λ c. IsInScope port input (repository_of c)) (sym same) scope)
    is_call {allowed = port_success u} e (Memᴰ.tail t) h = elim t [ ]
    is_call {allowed = port_failure f} e m h = cc

    no_call :
        {allowed : PortResult (Unit {0})}
        → allowed ≡ port_failure outside_scope
        → Memᴰ made (when_allowed allowed call (reader call)).calls
        → (made ≡ call)
          × (workspace_id ≡ input.workspace_id)
          × IsInScope port input (repository_of made)
    no_call {allowed = port_success u} e m = cc
    no_call {allowed = port_failure f} e m = elim m [ ]

enforce_all-IsCovered :
    (capability : ScopedReadCapability) (workspace_id : String) (rs : List GenerationOf)
    → enforce_all capability workspace_id rs ≡ port_success tt
    → All (λ r. IsCovered capability workspace_id r.repository_id) rs
unfolding enforce_all
enforce_all-IsCovered capability workspace_id [] e = tt
enforce_all-IsCovered capability workspace_id (r ∷ rs) e =
    elim (enforce_scope-cases capability workspace_id r.repository_id) [
      | inl (passes, covered) ↦
          (covered, enforce_all-IsCovered capability workspace_id rs (ground arith))
      | inr fails ↦ absurd (ground arith)
    ]

-- No character of the text is NUL, the separator of the keys of pairs.
abbrev pub IsPlain : String → Type 0
IsPlain String.[] = Unit
IsPlain (String.◌∷◌ c s) = (code c ≢ 0) × IsPlain s

pair_key-nil : (b : String) → pair_key "" b ≡ String.◌∷◌ "\0" b
pair_key-nil b =
    nil-append ("\0" <> b) ∙ cons-append "\0" "" b ∙ ap (λ s. String.◌∷◌ "\0" s) (nil-append b)

-- Two pairs with plain first parts and one key are the same.
pair_key-injective :
    (a c : String) {b d : String}
    → IsPlain a
    → IsPlain c
    → pair_key a b ≡ pair_key c d
    → (a ≡ c) × (b ≡ d)
pair_key-injective String.[] String.[] {b} {d} u w e =
    (refl, tail-eq_of_cons-eq (sym (pair_key-nil b) ∙ e ∙ pair_key-nil d))
pair_key-injective String.[] (String.◌∷◌ y c) {b} {d} u (bad, w) e =
    let heads = sym (pair_key-nil b) ∙ e ∙ cons-append y c ("\0" <> d) in
    absurd (bad (ap code (sym (head-eq_of_cons-eq heads))))
pair_key-injective (String.◌∷◌ x a) String.[] {b} {d} (bad, u) w e =
    let heads = sym (cons-append x a ("\0" <> b)) ∙ e ∙ pair_key-nil d in
    absurd (bad (ap code (head-eq_of_cons-eq heads)))
pair_key-injective (String.◌∷◌ x a) (String.◌∷◌ y c) {b} {d} (fine, u) (good, w) e =
    let both = sym (cons-append x a ("\0" <> b)) ∙ e ∙ cons-append y c ("\0" <> d) in
    let (same, rest) = pair_key-injective a c u w (tail-eq_of_cons-eq both) in
    (ap₂ String.◌∷◌ (head-eq_of_cons-eq both) same, rest)

-- The reference belongs to the query's workspace, and its repository and generation are a pair that the
-- query names, of a repository that the capability covers.
abbrev pub IsAskedFor :
    ScopedReadCapability → ScopedReferenceQuery → IndexedContractReference → Type 0
IsAskedFor capability query reference =
    (reference.workspace_id ≡ query.workspace_id)
    × IsCovered capability query.workspace_id reference.repository_id
    × (asked : GenerationOf) × Memᴰ asked query.repositories
    × (reference.repository_id ≡ asked.repository_id)
    × (reference.generation_id ≡ asked.generation_id)

not_foreign-IsAskedFor :
    (capability : ScopedReadCapability) (query : ScopedReferenceQuery)
    (reference : IndexedContractReference)
    → All (λ r. IsPlain r.repository_id) query.repositories
    → IsPlain reference.repository_id
    → All (λ r. IsCovered capability query.workspace_id r.repository_id) query.repositories
    → is_foreign query reference ≡ false
    → IsAskedFor capability query reference
not_foreign-IsAskedFor capability query reference plain_query plain covered h =
    let key = pair_key reference.repository_id reference.generation_id in
    let listed : includes (allowed_pairs query.repositories) key ≡ true = ground arith in
    let (asked, m, same) =
      Memᴰ-map (λ r. pair_key r.repository_id r.generation_id) query.repositories
        (includes-Memᴰ (allowed_pairs query.repositories) key listed) in
    let (repository, generation) =
      pair_key-injective reference.repository_id asked.repository_id plain
        (All-Memᴰ (λ r. IsPlain r.repository_id) query.repositories plain_query m) same in
    (
      (eq_iff reference.workspace_id query.workspace_id).0 (ground arith),
      subst (IsCovered capability query.workspace_id) (sym repository) (
          All-Memᴰ (λ r. IsCovered capability query.workspace_id r.repository_id) query.repositories
            covered m),
      asked,
      m,
      repository,
      generation,
    )

any-eq-false {ℓ} :
    {A : Type ℓ} (q : A → Bool) (xs : List A) → any q xs ≡ false → All (λ a. q a ≡ false) xs
any-eq-false q [] e = tt
any-eq-false q (x ∷ xs) e = (ground arith, any-eq-false q xs (ground arith))

-- None of the references is foreign to the query.
none_foreign-IsAskedFor :
    (capability : ScopedReadCapability) (query : ScopedReferenceQuery)
    (references : List IndexedContractReference)
    → All (λ r. IsPlain r.repository_id) query.repositories
    → All (λ r. IsPlain r.repository_id) references
    → All (λ r. IsCovered capability query.workspace_id r.repository_id) query.repositories
    → All (λ a. is_foreign query a ≡ false) references
    → All (IsAskedFor capability query) references
none_foreign-IsAskedFor capability query [] plain_query plain covered own = tt
none_foreign-IsAskedFor capability query (r ∷ rs) plain_query (fine, plain) covered (mine, own) = (
  not_foreign-IsAskedFor capability query r plain_query fine covered mine,
  none_foreign-IsAskedFor capability query rs plain_query plain covered own,
)

-- Where no repository identity of the query or of the answer has a NUL character, each reference that
-- `readReferences` returns, whatever the evidence store answers, belongs to the workspace of the query,
-- has the repository and the generation of a pair that the query names, and is of a repository that the
-- capability covers; and the store is asked for the generations of the query only.
pub read_references-IsAskedFor :
    (evidence : ReferenceQuery → PortResult (List IndexedContractReference))
    (capability : ScopedReadCapability) (query : ScopedReferenceQuery)
    {references : List IndexedContractReference}
    → All (λ r. IsPlain r.repository_id) query.repositories
    → All (λ r. IsPlain r.repository_id) references
    → (read_references evidence capability query).answer ≡ port_success references
    → All (IsAskedFor capability query) references
      × ((read_references evidence capability query).calls ≡ store_query query ∷ [])
unfolding read_references
read_references-IsAskedFor evidence capability query {references} plain_query plain e =
    elim (PortResult-cases (enforce_all capability query.workspace_id query.repositories)) [
      | inr (f, fails) ↦ absurd (ground arith)
      | inl (u, passes) ↦ elim (PortResult-cases (evidence (store_query query))) [
        | inr (f, fails) ↦ absurd (ground arith)
        | inl (found, answers) ↦ elim (Bool-cases (any (is_foreign query) found)) [
          | inl foreign ↦ absurd (ground arith)
          | inr own ↦
              let same : found ≡ references = ground arith in
              (
                none_foreign-IsAskedFor capability query references plain_query plain
                    (enforce_all-IsCovered capability query.workspace_id query.repositories passes)
                    (subst (All (λ a. is_foreign query a ≡ false)) same
                      (any-eq-false (is_foreign query) found own)),
                ground arith,
              )
        ]
      ]
    ]
