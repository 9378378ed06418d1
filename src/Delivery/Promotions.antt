-- ===== src/Delivery/Promotions.antt =====
-- Which strata are promoted when a check is planned: packages/domain/src/delivery.ts.
use reverb_impact.Base.{
  String, Bool, true, false, ◌&&◌, ◌||◌, Option, none, some, List, [], ◌∷◌, map, filter, ◌==◌, ◌≡◌,
  refl, sym, ◌∙◌, ap, subst, ◌⊎◌, inl, inr, Memᴰ, arith, eq_iff, Bool-cases, if◌then◌else◌, Dict,
  lookup, insert, from_entries, lookup-insert, Distinct, keys, insert-Distinct, lookup-of-Memᴰ,
  Memᴰ-filter, filter-Memᴰ, Memᴰ-map, includes, includes-Memᴰ, ◌≤◌, IsOrder, leb, leb→le, last-Memᴰ,
  last-IsSorted, sort_by, sort_by-IsSorted, Memᴰ-sort_by, sort_by-Memᴰ, &&-eq-true,
  lookup-from_entries,
}
use reverb_impact.Canonical.{Platform}
use reverb_impact.Promotion.Data.{
  PromotionRecord, PromotionState, unmeasured, preview, promoted, demoted,
}
use reverb_impact.Promotion.Deciding.{promotion_versions_equal}
use reverb_impact.Controls.Switches.{is_promoted}
use reverb_impact.Delivery.Data.{CurrentDeliveryStratum, PlanInput}
use reverb_impact.Delivery.Planning.{
  current_promotion, strata_of, promotion_of, promotions_of, promoted_of, is_promotion, accepted,
}

-- A map that gives each key a value by a function.
lookup-from_entries-map {ℓ} :
    {V : Type ℓ} (f : String → V) (ks : List String) (d : Dict V) (k : String)
    → lookup k (from_entries d (map (λ s. (s, f s)) ks))
      ≡ (if includes ks k then some (f k) else lookup k d)
unfolding from_entries
lookup-from_entries-map f [] d k = refl
lookup-from_entries-map f (s ∷ ks) d k =
    lookup-from_entries-map f ks (insert s (f s) d) k
    ∙ (ap (λ o. if includes ks k then some (f k) else o) (lookup-insert s k (f s) d)
        ∙ join_keys (Bool-cases (s == k)) (includes ks k))
  where
    join_keys :
        ((s == k) ≡ true) ⊎ ((s == k) ≡ false)
        → (b : Bool)
        → (if b then some (f k) else if s == k then some (f s) else lookup k d)
          ≡ (if s == k || b then some (f k) else lookup k d)
    join_keys (inl same) true = rw same refl
    join_keys (inl same) false = rw same (ap (λ z. some (f z)) ((eq_iff s k).0 same))
    join_keys (inr other) true = rw other refl
    join_keys (inr other) false = rw other refl

from_entries-Distinct {ℓ} :
    {V : Type ℓ} (es d : Dict V) → Distinct (keys d) → Distinct (keys (from_entries d es))
unfolding from_entries
from_entries-Distinct [] d h = h
from_entries-Distinct ((k, v) ∷ es) d h =
    from_entries-Distinct es (insert k v d) (insert-Distinct k v d h)

-- A promotion of the stratum that no later one follows.
abbrev pub IsLatest : List PromotionRecord → String → PromotionRecord → Type 0
IsLatest promotions stratum promotion =
    Memᴰ promotion promotions
    × (promotion.stratum_key ≡ stratum)
    × ((other : PromotionRecord)
        → Memᴰ other promotions
        → other.stratum_key ≡ stratum
        → other.decided_at ≤ promotion.decided_at)

-- The stratum's latest promotion is promoted, at the versions that the stratum has now.
abbrev pub IsPromotion : Platform → PlanInput → String → PromotionRecord → Type 0
IsPromotion p input stratum promotion =
    IsLatest input.promotions stratum promotion
    × (promotion.state ≡ promoted)
    × (now : CurrentDeliveryStratum) × Memᴰ now input.current_strata
    × (now.stratum_key ≡ stratum)
    × (promotion_versions_equal p promotion.evidence.versions now.versions ≡ true)

leb-IsOrder : IsOrder (λ (left right : PromotionRecord). leb left.decided_at right.decided_at)
leb-IsOrder =
    ((λ (a b : PromotionRecord) e. ground arith), (λ (a b c : PromotionRecord) e f. ground arith))

current_promotion-IsLatest :
    (promotions : List PromotionRecord) (stratum : String) {promotion : PromotionRecord}
    → current_promotion promotions stratum ≡ some promotion
    → IsLatest promotions stratum promotion
unfolding current_promotion
current_promotion-IsLatest promotions stratum {promotion} e =
    let le =
      λ (left : PromotionRecord) (right : PromotionRecord). leb left.decided_at right.decided_at in
    let same = λ (value : PromotionRecord). value.stratum_key == stratum in
    let kept = filter same promotions in
    let (m, own) =
      Memᴰ-filter same promotions (Memᴰ-sort_by le kept (last-Memᴰ (sort_by le kept) e)) in
    (
      m,
      (eq_iff promotion.stratum_key stratum).0 own,
      λ other mo is. leb→le other.decided_at promotion.decided_at (
          last-IsSorted le leb-IsOrder (sort_by le kept) (sort_by-IsSorted le leb-IsOrder kept) e (
            sort_by-Memᴰ le kept
              (filter-Memᴰ same promotions mo ((eq_iff other.stratum_key stratum).1 is)))),
    )

is_promoted-true : (state : PromotionState) → is_promoted state ≡ true → state ≡ promoted
is_promoted-true promoted e = refl
is_promoted-true unmeasured e = absurd (cc)
is_promoted-true preview e = absurd (cc)
is_promoted-true demoted e = absurd (cc)

accepted-some :
    (p : Platform) (o : Option PromotionRecord) (s : Option CurrentDeliveryStratum)
    {q : PromotionRecord}
    → accepted p o s ≡ some q
    → (o ≡ some q)
      × (is_promoted q.state ≡ true)
      × (now : CurrentDeliveryStratum) × (s ≡ some now)
      × (promotion_versions_equal p q.evidence.versions now.versions ≡ true)
accepted-some p none s e = absurd (cc)
accepted-some p (some promotion) none e = absurd (cc)
accepted-some p (some promotion) (some now) {q} e =
    elim (Bool-cases (
      is_promoted promotion.state
      && promotion_versions_equal p promotion.evidence.versions now.versions)) [
        | inr refused ↦ absurd (ground arith)
        | inl ok_both ↦
            let same : promotion ≡ q = ground arith in
            let (state, versions) =
              &&-eq-true (is_promoted promotion.state)
                (promotion_versions_equal p promotion.evidence.versions now.versions) ok_both in
            (
              ap some same,
              ap (λ (q : PromotionRecord). is_promoted q.state) (sym same) ∙ state,
              now,
              refl,
              ap
                    (λ (q : PromotionRecord).
                      promotion_versions_equal p q.evidence.versions now.versions)
                    (sym same)
                  ∙ versions,
            )
      ]

pub promotion_of-IsPromotion :
    (p : Platform) (input : PlanInput) (stratum : String) {promotion : PromotionRecord}
    → promotion_of p input stratum ≡ some promotion
    → IsPromotion p input stratum promotion
unfolding promotion_of
promotion_of-IsPromotion p input stratum {promotion} e =
    let (is, state, now, at, versions) =
      accepted-some p (current_promotion input.promotions stratum)
        (lookup stratum (strata_of input)) e in
    let found =
      sym (lookup-from_entries (λ value. value.stratum_key) stratum input.current_strata) ∙ at in
    let here = λ (value : CurrentDeliveryStratum). value.stratum_key == stratum in
    let (m, own) =
      Memᴰ-filter here input.current_strata (last-Memᴰ (filter here input.current_strata) found) in
    (
      current_promotion-IsLatest input.promotions stratum is,
      is_promoted-true promotion.state state,
      now,
      m,
      (eq_iff now.stratum_key stratum).0 own,
      versions,
    )

pub lookup-promotions_of :
    (p : Platform) (input : PlanInput) (k : String)
    → lookup k (promotions_of p input)
      ≡ (if includes input.enabled_strata k then some (promotion_of p input k) else none)
unfolding lookup
lookup-promotions_of p input k =
    lookup-from_entries-map (promotion_of p input) input.enabled_strata [] k

pub promoted_of-IsPromotion :
    (p : Platform) (input : PlanInput) (stratum : String)
    → Memᴰ stratum (promoted_of p input)
    → Memᴰ stratum input.enabled_strata
      × (promotion : PromotionRecord) × IsPromotion p input stratum promotion
promoted_of-IsPromotion p input stratum m =
    let (entry, kept, same) =
      Memᴰ-map (λ e. e.0) (filter (λ e. is_promotion e.1) (promotions_of p input)) m in
    let (held, live) = Memᴰ-filter (λ e. is_promotion e.1) (promotions_of p input) kept in
    let at =
      lookup-of-Memᴰ (promotions_of p input)
        (from_entries-Distinct (map (λ s. (s, promotion_of p input s)) input.enabled_strata) [] tt)
        held in
    let is = sym (lookup-promotions_of p input entry.0) ∙ at in
    elim (Bool-cases (includes input.enabled_strata entry.0)) [
      | inr off ↦ absurd (ground arith)
      | inl on ↦
          let value : promotion_of p input entry.0 ≡ entry.1 = ground arith in
          let (promotion, live_one) = promotion_in entry.1 live in
          (
            subst (λ s. Memᴰ s input.enabled_strata) (sym same)
                (includes-Memᴰ input.enabled_strata entry.0 on),
            promotion,
            subst (λ s. IsPromotion p input s promotion) (sym same)
                (promotion_of-IsPromotion p input entry.0 (value ∙ live_one)),
          )
    ]
  where
    promotion_in :
        (o : Option PromotionRecord) → is_promotion o ≡ true → (q : PromotionRecord) × (o ≡ some q)
    promotion_in none e = absurd (cc)
    promotion_in (some q) e = (q, refl)
