-- ===== src/Delivery/Disclosed.antt =====
-- That a projection discloses what may be read, and omits the rest with a reason.
use reverb_impact.Base.{
  String, true, none, some, List, [], ◌∷◌, ◌==◌, ◌≡◌, refl, sym, ◌∙◌, ap, ◌↔◌, ◌⊎◌, inl, inr, Memᴰ,
  arith, eq_iff, Bool-cases, Option-cases, lookup, lookup-insert, lookup-nil, sort_by, Memᴰ-sort_by,
}
use reverb_impact.Canonical.{Platform}
use reverb_impact.Delivery.Disclosure.{
  DisclosureFact, Audience, static, personalized, DisclosureInput, fact_order, omission_reason,
  Projected, project_fact, project_facts, project_finding_disclosure,
}

-- A grant names the fact, the app can read it, and so can the whole audience of a static projection, or
-- the viewer of a personal one.
abbrev pub IsPermitted : Audience → DisclosureFact → Type 0
IsPermitted audience fact =
    (fact.explicit_grant ≡ true) × (fact.app_can_read ≡ true) × (elim audience [
      | static ↦ fact.whole_producer_audience_can_read ≡ true
      | personalized ↦ fact.viewer_can_read ≡ true
    ])

omission_reason-none :
    (audience : Audience) (fact : DisclosureFact)
    → (omission_reason audience fact ≡ none) ↔ IsPermitted audience fact
unfolding omission_reason
omission_reason-none static fact =
    ((λ e. (ground arith, ground arith, ground arith)), (λ (g, a, w). rw (g, a, w) refl))
omission_reason-none personalized fact =
    ((λ e. (ground arith, ground arith, ground arith)), (λ (g, a, w). rw (g, a, w) refl))

-- What the loop allows was allowed before or is the value of a permitted fact of the name.
project_facts-allowed :
    (audience : Audience) (facts : List DisclosureFact) (state : Projected) (name : String)
    {value : String}
    → lookup name (project_facts audience facts state).allowed ≡ some value
    → (lookup name state.allowed ≡ some value)
      ⊎ ((fact : DisclosureFact) × Memᴰ fact facts
          × (fact.name ≡ name)
          × (fact.value ≡ value)
          × IsPermitted audience fact)
unfolding project_facts
project_facts-allowed audience [] state name e = inl e
project_facts-allowed audience (fact ∷ facts) state name {value} e =
    elim (project_facts-allowed audience facts
      (project_fact (omission_reason audience fact) fact state) name e) [
        | inr (f, m, same, is, permitted) ↦ inr (f, Memᴰ.tail m, same, is, permitted)
        | inl before ↦ elim (Option-cases (omission_reason audience fact)) [
          | inr (reason, omitted) ↦
              inl (ap (λ o. lookup name (project_fact o fact state).allowed) (sym omitted) ∙ before)
          | inl free ↦
              let put =
                ap (λ o. lookup name (project_fact o fact state).allowed) (sym free) ∙ before in
              let set = sym (lookup-insert fact.name name fact.value state.allowed) ∙ put in
              elim (Bool-cases (fact.name == name)) [
                | inl same ↦
                    let is : fact.value ≡ value = ground arith in
                    inr (
                      fact,
                      Memᴰ.head refl,
                      (eq_iff fact.name name).0 same,
                      is,
                      (omission_reason-none audience fact).0 free,
                    )
                | inr other ↦ inl (ground arith)
              ]
        ]
      ]

-- Whatever the facts, a projection shows a value under a name only where a fact of that name and value
-- has an explicit grant, the app can read it, and the whole audience of a static projection, or the
-- viewer of a personal one, can read it.
pub project-IsPermitted :
    (p : Platform) (input : DisclosureInput) (name : String) {value : String}
    → lookup name (project_finding_disclosure p input).allowed ≡ some value
    → (fact : DisclosureFact) × Memᴰ fact input.facts
      × (fact.name ≡ name)
      × (fact.value ≡ value)
      × IsPermitted input.audience fact
unfolding project_finding_disclosure
project-IsPermitted p input name {value} e =
    elim (project_facts-allowed input.audience (sort_by (fact_order p) input.facts)
      (record { allowed = []; omitted = [] }) name e) [
        | inl before ↦ absurd (nothing before)
        | inr (fact, m, same, is, permitted) ↦
            (fact, Memᴰ-sort_by (fact_order p) input.facts m, same, is, permitted)
      ]
  where
    nothing : lookup name [] ≡ some value → ⊥
    nothing h = lookup-nil name h
