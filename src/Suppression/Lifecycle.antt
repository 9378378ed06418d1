-- ===== src/Suppression/Lifecycle.antt =====
-- When a rule is active, and when a candidate is suppressed.
use reverb_impact.Base.{
  ℕ, ◌<◌, ◌≤◌, ◌≡◌, refl, ◌↔◌, inl, inr, String, Bool, true, false, Option, none, some, List, [],
  ◌∷◌, arith, filter, Option-cases, Bool-cases, All, Memᴰ, Memᴰ-filter, filter-Memᴰ, Memᴰ-sort_by,
  sort_by-Memᴰ, IsOrder, sort_by-IsSorted, sort_by, last-Memᴰ, last-IsSorted, eq_iff, ◌==◌, ◌≢◌,
  sym, subst, last,
}
use reverb_impact.Suppression.{
  StateChange, renewed, revoked, or_else, InvalidationPredicate, SuppressionRule,
  SuppressionStateEvent, SuppressionVersions, active, holds, invalidation_reason,
  first_invalidation, event_order, latest_event, is_revoked, effective_expiry, effective_review,
  resolve_unrevoked, resolve_suppression,
}

first_invalidation-none_iff :
    (ps : List InvalidationPredicate) (v : SuppressionVersions)
    → (first_invalidation ps v ≡ none) ↔ All (λ p. holds p v ≡ true) ps
unfolding first_invalidation invalidation_reason
first_invalidation-none_iff [] v = ((λ e. tt), (λ h. refl))
first_invalidation-none_iff (p ∷ ps) v =
    let (to, from) = first_invalidation-none_iff ps v in
    elim (Bool-cases (holds p v)) [
      | inl kept ↦
          ((λ e. (kept, to (ground arith))), (λ (h, hs). let rest = from hs in ground arith))
      | inr gone ↦ ((λ e. absurd (ground arith)), (λ (h, hs). cc))
    ]

-- The rule was not revoked by its latest event, neither the expiry nor the review date has come, and
-- everything that the rule recorded still holds.
abbrev pub IsInForce : SuppressionRule → SuppressionVersions → List SuppressionStateEvent → Type 0
IsInForce rule v events =
    ((e : SuppressionStateEvent)
      → latest_event rule.id events ≡ some e
      → is_revoked e.state ≡ false)
    × (v.now < effective_expiry (latest_event rule.id events) rule)
    × (v.now < effective_review (latest_event rule.id events) rule)
    × All (λ p. holds p v ≡ true) rule.invalidation_predicates

unrevoked-active_iff :
    (latest : Option SuppressionStateEvent) (rule : SuppressionRule) (v : SuppressionVersions)
    → ((resolve_unrevoked latest rule v).state ≡ active) ↔ (
        (v.now < effective_expiry latest rule)
        × (v.now < effective_review latest rule)
        × All (λ p. holds p v ≡ true) rule.invalidation_predicates)
unfolding resolve_unrevoked
unrevoked-active_iff latest rule v =
    let (to, from) = first_invalidation-none_iff rule.invalidation_predicates v in
    elim (Option-cases (first_invalidation rule.invalidation_predicates v)) [
      | inl all_hold ↦
          ((λ e. (ground arith, ground arith, to all_hold)), (λ (a, b, c). ground arith))
      | inr (reason, fails) ↦
          ((λ e. absurd (ground arith)), (λ (a, b, c). let still = from c in cc))
    ]

-- In terms of the event that the code picks.
pub resolve-active_latest :
    (rule : SuppressionRule) (v : SuppressionVersions) (events : List SuppressionStateEvent)
    → ((resolve_suppression rule v events).state ≡ active) ↔ IsInForce rule v events
unfolding resolve_suppression
resolve-active_latest rule v events = elim (Option-cases (latest_event rule.id events)) [
  | inl quiet ↦
      let (to, from) = unrevoked-active_iff none rule v in
      rw (quiet, resolve_suppression)
        (
          (λ e. let (a, b, c) = to e in ((λ f h. absurd (ground arith)), a, b, c)),
          (λ (n, a, b, c). from (a, b, c)),
        )
  | inr (event, found) ↦
      let (to, from) = unrevoked-active_iff (some event) rule v in
      elim (Bool-cases (is_revoked event.state)) [
        | inl gone ↦
            rw (found, resolve_suppression, gone)
              (
                (λ e. absurd (ground arith)),
                (λ (n, a, b, c). let h = n event refl in absurd (ground arith)),
              )
        | inr kept ↦
            rw (found, resolve_suppression, kept)
              (
                (λ e. let (a, b, c) = to e in ((λ f h. ground arith), a, b, c)),
                (λ (n, a, b, c). from (a, b, c)),
              )
      ]
]

event_order-IsOrder : IsOrder event_order
event_order-IsOrder = ((λ a b h. ground arith), (λ a b c h k. ground arith))

-- The event that decides is one of the given events and is the rule's, and no event of the rule is
-- later.
pub latest_event-IsLatest :
    (rule_id : String) (events : List SuppressionStateEvent) {e : SuppressionStateEvent}
    → latest_event rule_id events ≡ some e
    → Memᴰ e events
      × (e.suppression_rule_id ≡ rule_id)
      × ((other : SuppressionStateEvent)
          → Memᴰ other events
          → other.suppression_rule_id ≡ rule_id
          → other.occurred_at ≤ e.occurred_at)
unfolding latest_event
latest_event-IsLatest rule_id events {e} found =
    let mine = λ (e : SuppressionStateEvent). e.suppression_rule_id == rule_id in
    let (m, own) = Memᴰ-filter mine events (
      Memᴰ-sort_by event_order (filter mine events)
        (last-Memᴰ (sort_by event_order (filter mine events)) found)) in
    (
      m,
      (eq_iff e.suppression_rule_id rule_id).0 own,
      λ other listed theirs. below mine other e (
          last-IsSorted event_order event_order-IsOrder (sort_by event_order (filter mine events))
            (sort_by-IsSorted event_order event_order-IsOrder (filter mine events)) found
            (sort_by-Memᴰ event_order (filter mine events) (
              filter-Memᴰ mine events listed
                ((eq_iff other.suppression_rule_id rule_id).1 theirs)))),
    )
  where
    below :
        (mine : SuppressionStateEvent → Bool) (a b : SuppressionStateEvent)
        → event_order a b ≡ true
        → a.occurred_at ≤ b.occurred_at
    below mine a b h = ground arith

last-none-Memᴰ {ℓ} : {A : Type ℓ} (xs : List A) {a : A} → last xs ≡ none → ¬ Memᴰ a xs
last-none-Memᴰ [] e m = elim m [ ]
last-none-Memᴰ (x ∷ []) e m = absurd (cc)
last-none-Memᴰ (x ∷ y ∷ ys) e m = last-none-Memᴰ (y ∷ ys) e (Memᴰ.head refl)

-- Where no event decides, none of the events is the rule's.
latest_event-none :
    (rule_id : String) (events : List SuppressionStateEvent) (other : SuppressionStateEvent)
    → latest_event rule_id events ≡ none
    → Memᴰ other events
    → other.suppression_rule_id ≢ rule_id
unfolding latest_event
latest_event-none rule_id events other quiet listed theirs =
    let mine = λ (e : SuppressionStateEvent). e.suppression_rule_id == rule_id in
    last-none-Memᴰ (sort_by event_order (filter mine events)) quiet (
      sort_by-Memᴰ event_order (filter mine events)
        (filter-Memᴰ mine events listed ((eq_iff other.suppression_rule_id rule_id).1 theirs)))

-- No event is the rule's, or this is one, and none of the rule's is later.
abbrev pub IsLatest : String → List SuppressionStateEvent → Option SuppressionStateEvent → Type 0
IsLatest rule_id events none =
    (other : SuppressionStateEvent) → Memᴰ other events → other.suppression_rule_id ≢ rule_id
IsLatest rule_id events (some e) =
    Memᴰ e events
    × (e.suppression_rule_id ≡ rule_id)
    × ((other : SuppressionStateEvent)
        → Memᴰ other events
        → other.suppression_rule_id ≡ rule_id
        → other.occurred_at ≤ e.occurred_at)

-- The date is still to come: the one that the event sets, or else the rule's own.
abbrev pub IsAhead : ℕ → Option ℕ → ℕ → Type 0
IsAhead now (some set) own = now < set
IsAhead now none own = now < own

-- The rule is in force if this is its latest event: it is no revocation, the expiry and the review are
-- ahead, and everything that the rule recorded holds.
abbrev pub IsInForceAfter :
    SuppressionRule → SuppressionVersions → Option SuppressionStateEvent → Type 0
IsInForceAfter rule v none =
    (v.now < rule.expires_at)
    × (v.now < rule.review_at)
    × All (λ p. holds p v ≡ true) rule.invalidation_predicates
IsInForceAfter rule v (some e) =
    (e.state ≡ renewed)
    × IsAhead v.now e.next_expires_at rule.expires_at
    × IsAhead v.now e.next_review_at rule.review_at
    × All (λ p. holds p v ≡ true) rule.invalidation_predicates

or_else-IsAhead : (now own : ℕ) (set : Option ℕ) → (now < or_else set own) ↔ IsAhead now set own
or_else-IsAhead now own none = ((λ h. h), (λ h. h))
or_else-IsAhead now own (some t) = ((λ h. h), (λ h. h))

is_revoked-false : (s : StateChange) → (is_revoked s ≡ false) ↔ (s ≡ renewed)
is_revoked-false revoked = ((λ e. absurd (cc)), (λ e. absurd (cc)))
is_revoked-false renewed = ((λ e. refl), (λ e. refl))

-- Some event of the rule than which none is later, or none where the rule has no events, decides: the
-- rule is active exactly when that event is no revocation, the expiry and the review date that it sets, or
-- else the rule's own, are still to come, and everything that the rule recorded holds.
pub resolve-active_iff :
    (rule : SuppressionRule) (v : SuppressionVersions) (events : List SuppressionStateEvent)
    → (latest : Option SuppressionStateEvent) × IsLatest rule.id events latest
      × (((resolve_suppression rule v events).state ≡ active) ↔ IsInForceAfter rule v latest)
resolve-active_iff rule v events =
    let (to, from) = resolve-active_latest rule v events in
    elim (Option-cases (latest_event rule.id events)) [
      | inl quiet ↦ (
        none,
        (λ other m. latest_event-none rule.id events other quiet m),
        (
          (λ e.
              let (n, a, b, c) = to e in
              (
                subst (λ l. v.now < effective_expiry l rule) quiet a,
                subst (λ l. v.now < effective_review l rule) quiet b,
                c,
              )),
          (λ (a, b, c). from (
            (λ e h. absurd (ground arith)),
            subst (λ l. v.now < effective_expiry l rule) (sym quiet) a,
            subst (λ l. v.now < effective_review l rule) (sym quiet) b,
            c,
          )),
        ),
      )
      | inr (event, found) ↦
          let (expiry, expiry_of) = or_else-IsAhead v.now rule.expires_at event.next_expires_at in
          let (review, review_of) = or_else-IsAhead v.now rule.review_at event.next_review_at in
          let (kept, kept_of) = is_revoked-false event.state in
          (
            some event,
            latest_event-IsLatest rule.id events found,
            (
              (λ e.
                  let (n, a, b, c) = to e in
                  (
                    kept (n event found),
                    expiry (subst (λ l. v.now < effective_expiry l rule) found a),
                    review (subst (λ l. v.now < effective_review l rule) found b),
                    c,
                  )),
              (λ (n, a, b, c). from (
                (λ e h.
                    let same : event ≡ e = ground arith in
                    subst (λ (x : SuppressionStateEvent). is_revoked x.state ≡ false) same
                      (kept_of n)),
                subst (λ l. v.now < effective_expiry l rule) (sym found) (expiry_of a),
                subst (λ l. v.now < effective_review l rule) (sym found) (review_of b),
                c,
              )),
            ),
          )
    ]
