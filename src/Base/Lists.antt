-- ===== src/Base/Lists.antt =====
-- Lists measured by native numbers, Boolean searches, and predicates over all items.
use Prim.Native.Nat.{ℕ, suc, ◌+◌}
use Prim.Native.String.{String}
use mathlib.Core.Path.{◌≡◌, refl, sym, ap, subst}
use mathlib.Core.Logic.{inl, inr}
use mathlib.Core.Bool.{Bool, true, false, ◌&&◌, ◌||◌}
use mathlib.Core.Option.{Option, none, some}
use mathlib.Core.List.{List, [], ◌∷◌, ◌++◌, map, Memᴰ}
use native.Mathlib.Omega.{arith}
use text.Mathlib.TextEquality.{eq_iff}
use reverb_impact.Base.Tests.{◌==◌, if◌then◌else◌, Bool-cases}

module _ {ℓ} {A : Type ℓ} where
  abbrev pub length : List A → ℕ
  length [] = 0
  length (x ∷ xs) = suc (length xs)

  -- `xs.filter(p)`
  abbrev pub filter : (A → Bool) → List A → List A
  filter p [] = []
  filter p (x ∷ xs) = let rest = filter p xs in if p x then x ∷ rest else rest

  -- `xs.find(p)`
  abbrev pub find : (A → Bool) → List A → Option A
  find p [] = none
  find p (x ∷ xs) = let rest = find p xs in if p x then some x else rest

  -- `xs.some(p)`
  abbrev pub any : (A → Bool) → List A → Bool
  any p [] = false
  any p (x ∷ xs) = p x || any p xs

  -- `xs.every(p)`
  abbrev pub all : (A → Bool) → List A → Bool
  all p [] = true
  all p (x ∷ xs) = p x && all p xs

  -- `xs.at(-1)`
  abbrev pub last : List A → Option A
  last [] = none
  last (x ∷ []) = some x
  last (x ∷ y ∷ ys) = last (y ∷ ys)

  abbrev pub head : List A → Option A
  head [] = none
  head (x ∷ xs) = some x

  abbrev pub All {κ} : (A → Type κ) → List A → Type κ
  All P [] = Unit
  All P (x ∷ xs) = P x × All P xs

-- `xs.includes(s)`, and `has` on a set that is kept as the list of its items.
abbrev pub includes : List String → String → Bool
includes [] s = false
includes (x ∷ xs) s = x == s || includes xs s

-- `new Set(xs)`: the first occurrences, in order.
unfoldable pub unique_from : List String → List String → List String
unique_from seen [] = []
unique_from seen (x ∷ xs) = elim (includes seen x) [
  | true ↦ unique_from seen xs
  | false ↦ x ∷ unique_from (x ∷ seen) xs
]

unfoldable pub unique : List String → List String
unfolding unique_from
unique xs = unique_from [] xs

-- No item stands twice.
abbrev pub Distinct : List String → Type 0
Distinct [] = Unit
Distinct (x ∷ xs) = (includes xs x ≡ false) × Distinct xs

module _ {ℓ} {A : Type ℓ} where
  pub length-append : (xs ys : List A) → length (xs ++ ys) ≡ length xs + length ys
  length-append [] ys = omega arith
  length-append (x ∷ xs) ys = omega (arith, length-append xs ys)

  pub Memᴰ-filter :
      (p : A → Bool) (xs : List A) {a : A} → Memᴰ a (filter p xs) → Memᴰ a xs × (p a ≡ true)
  Memᴰ-filter p [] m = elim m [ ]
  Memᴰ-filter p (x ∷ xs) {a} m = split (p x) refl (λ t. Memᴰ-filter p xs t) m
    where
      split :
          (b : Bool)
          → p x ≡ b
          → (Memᴰ a (filter p xs) → Memᴰ a xs × (p a ≡ true))
          → Memᴰ a (if b then x ∷ filter p xs else filter p xs)
          → Memᴰ a (x ∷ xs) × (p a ≡ true)
      split true e ih (Memᴰ.head h) = (Memᴰ.head h, cc)
      split true e ih (Memᴰ.tail t) = let (m', q) = ih t in (Memᴰ.tail m', q)
      split false e ih t = let (m', q) = ih t in (Memᴰ.tail m', q)

module _ {ℓ κ} {A : Type ℓ} (P : A → Type κ) where
  pub All-append : (xs ys : List A) → All P xs → All P ys → All P (xs ++ ys)
  All-append [] ys h k = k
  All-append (x ∷ xs) ys (p, h) k = (p, All-append xs ys h k)

  pub All-filter : (p : A → Bool) (xs : List A) → All P xs → All P (filter p xs)
  All-filter p [] h = tt
  All-filter p (x ∷ xs) (q, h) = ground (arith, All-filter p xs h)

  pub All-Memᴰ : (xs : List A) {a : A} → All P xs → Memᴰ a xs → P a
  All-Memᴰ (x ∷ xs) (q, h) (Memᴰ.head e) = subst P (sym e) q
  All-Memᴰ (x ∷ xs) (q, h) (Memᴰ.tail t) = All-Memᴰ xs h t
  All-Memᴰ [] h m = elim m [ ]

  pub All-of-Memᴰ : (xs : List A) → ((a : A) → Memᴰ a xs → P a) → All P xs
  All-of-Memᴰ [] h = tt
  All-of-Memᴰ (x ∷ xs) h = (h x (Memᴰ.head refl), All-of-Memᴰ xs (λ a m. h a (Memᴰ.tail m)))

pub All-imp {ℓ κ μ} :
    {A : Type ℓ} {P : A → Type κ} {Q : A → Type μ}
    → ((a : A) → P a → Q a)
    → (xs : List A) → All P xs
    → All Q xs
All-imp f [] h = tt
All-imp f (x ∷ xs) (p, h) = (f x p, All-imp f xs h)

-- What a search by a Boolean test returns.
module _ {ℓ} {A : Type ℓ} (p : A → Bool) where
  pub find-eq-some : (xs : List A) {a : A} → find p xs ≡ some a → Memᴰ a xs × (p a ≡ true)
  find-eq-some [] e = cc
  find-eq-some (x ∷ xs) {a} e = elim (Bool-cases (p x)) [
    | inl yes_p ↦ let same : x ≡ a = ground arith in (Memᴰ.head (sym same), cc)
    | inr no_p ↦ let (m, q) = find-eq-some xs (ground arith) in (Memᴰ.tail m, q)
  ]

  pub find-eq-none : (xs : List A) → find p xs ≡ none → All (λ a. p a ≡ false) xs
  find-eq-none [] e = tt
  find-eq-none (x ∷ xs) e = ground (arith, find-eq-none xs)

  pub all-eq-true : (xs : List A) → all p xs ≡ true → All (λ a. p a ≡ true) xs
  all-eq-true [] e = tt
  all-eq-true (x ∷ xs) e = ground (arith, all-eq-true xs)

  pub any-eq-true : (xs : List A) → any p xs ≡ true → (a : A) × Memᴰ a xs × (p a ≡ true)
  any-eq-true [] e = cc
  any-eq-true (x ∷ xs) e = elim (Bool-cases (p x)) [
    | inl yes_p ↦ (x, Memᴰ.head refl, yes_p)
    | inr no_p ↦ let (a, m, q) = any-eq-true xs (ground arith) in (a, Memᴰ.tail m, q)
  ]

  pub any-of-Memᴰ : (xs : List A) {a : A} → Memᴰ a xs → p a ≡ true → any p xs ≡ true
  any-of-Memᴰ (x ∷ xs) (Memᴰ.head e) q = let here : p x ≡ true = cc in rw here
  any-of-Memᴰ (x ∷ xs) (Memᴰ.tail t) q = ground (arith, any-of-Memᴰ xs t q)
  any-of-Memᴰ [] m q = elim m [ ]

pub includes-Memᴰ : (xs : List String) (s : String) → includes xs s ≡ true → Memᴰ s xs
includes-Memᴰ [] s e = cc
includes-Memᴰ (x ∷ xs) s e = elim (Bool-cases (x == s)) [
  | inl same ↦ Memᴰ.head (sym ((eq_iff x s).0 same))
  | inr other ↦ Memᴰ.tail (includes-Memᴰ xs s (ground arith))
]

pub includes-of-Memᴰ : (xs : List String) (s : String) → Memᴰ s xs → includes xs s ≡ true
includes-of-Memᴰ (x ∷ xs) s (Memᴰ.head e) = ground (arith, eq_iff x s)
includes-of-Memᴰ (x ∷ xs) s (Memᴰ.tail t) = ground (arith, includes-of-Memᴰ xs s t)
includes-of-Memᴰ [] s m = elim m [ ]

pub Memᴰ-map {ℓ κ} :
    {A : Type ℓ} {B : Type κ} (f : A → B) (xs : List A) {b : B}
    → Memᴰ b (map f xs)
    → (a : A) × Memᴰ a xs × (b ≡ f a)
Memᴰ-map f [] m = elim m [ ]
Memᴰ-map f (x ∷ xs) (Memᴰ.head e) = (x, Memᴰ.head refl, e)
Memᴰ-map f (x ∷ xs) (Memᴰ.tail t) = let (a, m, e) = Memᴰ-map f xs t in (a, Memᴰ.tail m, e)

pub Memᴰ-map_of {ℓ κ} :
    {A : Type ℓ} {B : Type κ} (f : A → B) (xs : List A) {a : A} → Memᴰ a xs → Memᴰ (f a) (map f xs)
Memᴰ-map_of f (x ∷ xs) (Memᴰ.head e) = Memᴰ.head (ap f e)
Memᴰ-map_of f (x ∷ xs) (Memᴰ.tail t) = Memᴰ.tail (Memᴰ-map_of f xs t)
Memᴰ-map_of f [] m = elim m [ ]

pub filter-Memᴰ {ℓ} :
    {A : Type ℓ} (p : A → Bool) (xs : List A) {a : A}
    → Memᴰ a xs
    → p a ≡ true
    → Memᴰ a (filter p xs)
filter-Memᴰ p (x ∷ xs) (Memᴰ.head e) q = let here : p x ≡ true = cc in rw here (Memᴰ.head e)
filter-Memᴰ p (x ∷ xs) (Memᴰ.tail t) q = elim (Bool-cases (p x)) [
  | inl kept ↦ rw kept (Memᴰ.tail (filter-Memᴰ p xs t q))
  | inr dropped ↦ rw dropped (filter-Memᴰ p xs t q)
]
filter-Memᴰ p [] m q = elim m [ ]

-- A search that finds nothing, from the items.
pub find-eq-none-of {ℓ} :
    {A : Type ℓ} (p : A → Bool) (xs : List A) → All (λ a. p a ≡ false) xs → find p xs ≡ none
find-eq-none-of p [] h = refl
find-eq-none-of p (x ∷ xs) (h, hs) = let rest = find-eq-none-of p xs hs in ground arith

pub includes-append :
    (xs ys : List String) (s : String) → includes (xs ++ ys) s ≡ (includes xs s || includes ys s)
includes-append [] ys s = refl
includes-append (x ∷ xs) ys s = ground (arith, includes-append xs ys s)
