-- ===== src/Base/Loops.antt =====
-- Loops that push to two lists, and maps made from the entries of a list.
use Prim.Native.String.{String}
use mathlib.Core.Path.{◌≡◌, refl, sym, ap, ◌∙◌}
use mathlib.Core.Logic.{◌⊎◌, inl, inr}
use mathlib.Core.Bool.{Bool, false}
use mathlib.Core.Option.{Option, none, some}
use mathlib.Core.List.{List, [], ◌∷◌, map, Memᴰ}
use native.Mathlib.Omega.{arith}
use reverb_impact.Base.Tests.{◌==◌, Bool-cases, Option-cases}
use reverb_impact.Base.Lists.{includes, last, filter, Distinct}
use reverb_impact.Base.Sorting.{insert_by, sort_by}
use reverb_impact.Base.Dicts.{Dict, lookup, insert, lookup-insert}

-- The two lists that a loop pushes to, one item to one of them at each turn.
module _ {ℓ κ μ} {X : Type ℓ} {A : Type κ} {B : Type μ} (turn : X → A ⊎ B) where
  abbrev pub pushed_left : List X → List A
  pushed_left [] = []
  pushed_left (x ∷ xs) = elim (turn x) [ inl a ↦ a ∷ pushed_left xs | inr b ↦ pushed_left xs ]

  abbrev pub pushed_right : List X → List B
  pushed_right [] = []
  pushed_right (x ∷ xs) = elim (turn x) [ inl a ↦ pushed_right xs | inr b ↦ b ∷ pushed_right xs ]

⊎-cases {ℓ κ} :
    {A : Type ℓ} {B : Type κ} (s : A ⊎ B) → ((a : A) × (s ≡ inl a)) ⊎ ((b : B) × (s ≡ inr b))
⊎-cases (inl a) = inl (a, refl)
⊎-cases (inr b) = inr (b, refl)

module _ {ℓ κ μ} {X : Type ℓ} {A : Type κ} {B : Type μ} (turn : X → A ⊎ B) where
  pub Memᴰ-pushed_right :
      (xs : List X) {b : B} → Memᴰ b (pushed_right turn xs) → (x : X) × Memᴰ x xs × (turn x ≡ inr b)
  Memᴰ-pushed_right [] m = elim m [ ]
  Memᴰ-pushed_right (x ∷ xs) {b} m = here (turn x) refl (λ t. Memᴰ-pushed_right xs t) m
    where
      here :
          (s : A ⊎ B)
          → turn x ≡ s
          → (Memᴰ b (pushed_right turn xs) → (y : X) × Memᴰ y xs × (turn y ≡ inr b))
          → Memᴰ b (elim s [ inl a ↦ pushed_right turn xs | inr c ↦ c ∷ pushed_right turn xs ])
          → (y : X) × Memᴰ y (x ∷ xs) × (turn y ≡ inr b)
      here (inl a) e ih t = let (y, m', q) = ih t in (y, Memᴰ.tail m', q)
      here (inr c) e ih (Memᴰ.head q) = (x, Memᴰ.head refl, e ∙ ap inr (sym q))
      here (inr c) e ih (Memᴰ.tail t) = let (y, m', q) = ih t in (y, Memᴰ.tail m', q)

  pub pushed_right-Memᴰ :
      (xs : List X) {x : X} {b : B} → Memᴰ x xs → turn x ≡ inr b → Memᴰ b (pushed_right turn xs)
  pushed_right-Memᴰ (y ∷ ys) {x} {b} (Memᴰ.head e) q =
      let here : turn y ≡ inr b = ap turn (sym e) ∙ q in rw (here, pushed_right) (Memᴰ.head refl)
  pushed_right-Memᴰ (y ∷ ys) (Memᴰ.tail t) q = elim (⊎-cases (turn y)) [
    | inl (a, e) ↦ rw (e, pushed_right) (pushed_right-Memᴰ ys t q)
    | inr (c, e) ↦ rw (e, pushed_right) (Memᴰ.tail (pushed_right-Memᴰ ys t q))
  ]
  pushed_right-Memᴰ [] m q = elim m [ ]

  pub pushed_left-Memᴰ :
      (xs : List X) {x : X} {a : A} → Memᴰ x xs → turn x ≡ inl a → Memᴰ a (pushed_left turn xs)
  pushed_left-Memᴰ (y ∷ ys) {x} {a} (Memᴰ.head e) q =
      let here : turn y ≡ inl a = ap turn (sym e) ∙ q in rw (here, pushed_left) (Memᴰ.head refl)
  pushed_left-Memᴰ (y ∷ ys) (Memᴰ.tail t) q = elim (⊎-cases (turn y)) [
    | inl (c, e) ↦ rw (e, pushed_left) (Memᴰ.tail (pushed_left-Memᴰ ys t q))
    | inr (b, e) ↦ rw (e, pushed_left) (pushed_left-Memᴰ ys t q)
  ]
  pushed_left-Memᴰ [] m q = elim m [ ]

  pub Memᴰ-pushed_left :
      (xs : List X) {a : A} → Memᴰ a (pushed_left turn xs) → (x : X) × Memᴰ x xs × (turn x ≡ inl a)
  Memᴰ-pushed_left [] m = elim m [ ]
  Memᴰ-pushed_left (x ∷ xs) {a} m = here (turn x) refl (λ t. Memᴰ-pushed_left xs t) m
    where
      here :
          (s : A ⊎ B)
          → turn x ≡ s
          → (Memᴰ a (pushed_left turn xs) → (y : X) × Memᴰ y xs × (turn y ≡ inl a))
          → Memᴰ a (elim s [ inl c ↦ c ∷ pushed_left turn xs | inr b ↦ pushed_left turn xs ])
          → (y : X) × Memᴰ y (x ∷ xs) × (turn y ≡ inl a)
      here (inr b) e ih t = let (y, m', q) = ih t in (y, Memᴰ.tail m', q)
      here (inl c) e ih (Memᴰ.head q) = (x, Memᴰ.head refl, e ∙ ap inl (sym q))
      here (inl c) e ih (Memᴰ.tail t) = let (y, m', q) = ih t in (y, Memᴰ.tail m', q)

  -- Where a turn keeps the key of its item, the keys pushed are among the items' keys.
  module _ (f : X → String) (g : B → String)
      (keeps : (x : X) (b : B) → turn x ≡ inr b → g b ≡ f x) where
    includes-pushed_right :
        (xs : List X) (s : String)
        → includes (map f xs) s ≡ false
        → includes (map g (pushed_right turn xs)) s ≡ false
    includes-pushed_right [] s h = refl
    includes-pushed_right (x ∷ xs) s h = elim (⊎-cases (turn x)) [
      | inl (a, e) ↦ rw (e, pushed_right) (includes-pushed_right xs s (ground arith))
      | inr (b, e) ↦
          rw (e, pushed_right)
            (let same = keeps x b e in let rest = includes-pushed_right xs s in ground arith)
    ]

    pub pushed_right-Distinct :
        (xs : List X) → Distinct (map f xs) → Distinct (map g (pushed_right turn xs))
    pushed_right-Distinct [] d = tt
    pushed_right-Distinct (x ∷ xs) (new, d) = elim (⊎-cases (turn x)) [
      | inl (a, e) ↦ rw (e, pushed_right) (pushed_right-Distinct xs d)
      | inr (b, e) ↦
          rw (e, pushed_right)
            (rw (keeps x b e) (includes-pushed_right xs (f x) new), pushed_right-Distinct xs d)
    ]

-- Sorting by a key sorts the keys.
module _ {ℓ} {A : Type ℓ} (f : A → String) (le : String → String → Bool) where
  map-insert_by :
      (x : A) (ys : List A)
      → map f (insert_by (λ a b. le (f a) (f b)) x ys) ≡ insert_by le (f x) (map f ys)
  map-insert_by x [] = refl
  map-insert_by x (y ∷ ys) = elim (Bool-cases (le (f x) (f y))) [
    | inl lower ↦ rw lower refl
    | inr higher ↦ rw higher (ap (λ r. f y ∷ r) (map-insert_by x ys))
  ]

  pub map-sort_by :
      (xs : List A) → map f (sort_by (λ a b. le (f a) (f b)) xs) ≡ sort_by le (map f xs)
  unfolding sort_by
  map-sort_by [] = refl
  map-sort_by (x ∷ xs) =
      map-insert_by x (sort_by (λ a b. le (f a) (f b)) xs)
      ∙ ap (insert_by le (f x)) (map-sort_by xs)

-- `new Map(entries)`, on top of the entries set before.
unfoldable pub from_entries {ℓ} : {V : Type ℓ} → Dict V → Dict V → Dict V
from_entries set_before [] = set_before
from_entries set_before ((k, v) ∷ es) = from_entries (insert k v set_before) es

-- `o ?? d`
abbrev pub or_else {ℓ} : {A : Type ℓ} → Option A → Option A → Option A
or_else none d = d
or_else (some x) d = some x

last-cons {ℓ} : {A : Type ℓ} (x : A) (ys : List A) → last (x ∷ ys) ≡ or_else (last ys) (some x)
last-cons x [] = refl
last-cons x (y ∷ ys) = elim (Option-cases (last ys)) [
  | inl e ↦ rw (last-cons y ys, e) refl
  | inr (z, e) ↦ rw (last-cons y ys, e) refl
]

-- A map made from items by their keys holds the last item of each key.
module _ {ℓ} {V : Type ℓ} (key : V → String) where
  lookup-from_entries_on :
      (k : String) (vs : List V) (d : Dict V)
      → lookup k (from_entries d (map (λ v. (key v, v)) vs))
        ≡ or_else (last (filter (λ v. key v == k) vs)) (lookup k d)
  unfolding from_entries
  lookup-from_entries_on k [] d = refl
  lookup-from_entries_on k (v ∷ vs) d =
      rw (lookup-from_entries_on k vs (insert (key v) v d), lookup-insert)
        (elim (Bool-cases (key v == k)) [
          | inl same ↦
              rw (same, last-cons)
                (elim (Option-cases (last (filter (λ v. key v == k) vs))) [
                  | inl e ↦ rw e refl
                  | inr (z, e) ↦ rw e refl
                ])
          | inr other ↦ rw other refl
        ])

  pub lookup-from_entries :
      (k : String) (vs : List V)
      → lookup k (from_entries [] (map (λ v. (key v, v)) vs)) ≡ last (filter (λ v. key v == k) vs)
  unfolding lookup
  lookup-from_entries k vs =
      lookup-from_entries_on k vs [] ∙ drop (last (filter (λ v. key v == k) vs))
    where
      drop : (o : Option V) → or_else o none ≡ o
      drop none = refl
      drop (some z) = refl
