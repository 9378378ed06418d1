-- ===== src/Base/Sorting.antt =====
-- `Array.prototype.sort`, which is stable, as insertion sort by a comparison `le left right` that says
-- that the comparator does not return a positive number.
use mathlib.Core.Path.{◌≡◌, refl, sym, subst}
use mathlib.Core.Option.{some}
use mathlib.Core.Logic.{inl, inr}
use mathlib.Core.Bool.{Bool, true, false}
use native.Mathlib.Omega.{arith}
use Prim.Native.Nat.{suc}
use mathlib.Core.List.{List, [], ◌∷◌, Memᴰ}
use reverb_impact.Base.Tests.{if◌then◌else◌, Bool-cases}
use reverb_impact.Base.Lists.{length, last, find, All, All-Memᴰ, All-of-Memᴰ}

module _ {ℓ} {A : Type ℓ} (le : A → A → Bool) where
  abbrev pub insert_by : A → List A → List A
  insert_by x [] = x ∷ []
  insert_by x (y ∷ ys) = let rest = insert_by x ys in if le x y then x ∷ y ∷ ys else y ∷ rest

  unfoldable pub sort_by : List A → List A
  sort_by [] = []
  sort_by (x ∷ xs) = insert_by x (sort_by xs)

  -- Each item is at most every later one.
  abbrev pub IsSorted : List A → Type 0
  IsSorted [] = Unit
  IsSorted (x ∷ xs) = All (λ y. le x y ≡ true) xs × IsSorted xs

  Memᴰ-insert_by : (x : A) (ys : List A) {a : A} → Memᴰ a (insert_by x ys) → Memᴰ a (x ∷ ys)
  Memᴰ-insert_by x [] m = m
  Memᴰ-insert_by x (y ∷ ys) {a} m = split (le x y) (λ t. Memᴰ-insert_by x ys t) m
    where
      swap : Memᴰ a (x ∷ ys) → Memᴰ a (x ∷ y ∷ ys)
      swap (Memᴰ.head e) = Memᴰ.head e
      swap (Memᴰ.tail t) = Memᴰ.tail (Memᴰ.tail t)

      split :
          (b : Bool)
          → (Memᴰ a (insert_by x ys) → Memᴰ a (x ∷ ys))
          → Memᴰ a (if b then x ∷ y ∷ ys else y ∷ insert_by x ys)
          → Memᴰ a (x ∷ y ∷ ys)
      split true ih t = t
      split false ih (Memᴰ.head e) = Memᴰ.tail (Memᴰ.head e)
      split false ih (Memᴰ.tail t) = swap (ih t)

  insert_by-head : (x : A) (ys : List A) → Memᴰ x (insert_by x ys)
  insert_by-head x [] = Memᴰ.head refl
  insert_by-head x (y ∷ ys) = elim (Bool-cases (le x y)) [
    | inl lower ↦ rw lower (Memᴰ.head refl)
    | inr higher ↦ rw higher (Memᴰ.tail (insert_by-head x ys))
  ]

  insert_by-tail : (x : A) (ys : List A) {a : A} → Memᴰ a ys → Memᴰ a (insert_by x ys)
  insert_by-tail x (y ∷ ys) (Memᴰ.head e) = elim (Bool-cases (le x y)) [
    | inl lower ↦ rw lower (Memᴰ.tail (Memᴰ.head e))
    | inr higher ↦ rw higher (Memᴰ.head e)
  ]
  insert_by-tail x (y ∷ ys) (Memᴰ.tail t) = elim (Bool-cases (le x y)) [
    | inl lower ↦ rw lower (Memᴰ.tail (Memᴰ.tail t))
    | inr higher ↦ rw higher (Memᴰ.tail (insert_by-tail x ys t))
  ]
  insert_by-tail x [] m = elim m [ ]

  -- Sorting keeps the items.
  pub Memᴰ-sort_by : (xs : List A) {a : A} → Memᴰ a (sort_by xs) → Memᴰ a xs
  unfolding sort_by
  Memᴰ-sort_by [] m = m
  Memᴰ-sort_by (x ∷ xs) {a} m = cons (Memᴰ-insert_by x (sort_by xs) m) (λ t. Memᴰ-sort_by xs t)
    where
      cons : Memᴰ a (x ∷ sort_by xs) → (Memᴰ a (sort_by xs) → Memᴰ a xs) → Memᴰ a (x ∷ xs)
      cons (Memᴰ.head e) ih = Memᴰ.head e
      cons (Memᴰ.tail t) ih = Memᴰ.tail (ih t)

  pub sort_by-Memᴰ : (xs : List A) {a : A} → Memᴰ a xs → Memᴰ a (sort_by xs)
  unfolding sort_by
  sort_by-Memᴰ (x ∷ xs) (Memᴰ.head e) = rw e (insert_by-head x (sort_by xs))
  sort_by-Memᴰ (x ∷ xs) (Memᴰ.tail t) = insert_by-tail x (sort_by xs) (sort_by-Memᴰ xs t)
  sort_by-Memᴰ [] m = elim m [ ]

  pub All-sort_by {κ} : (P : A → Type κ) (xs : List A) → All P xs → All P (sort_by xs)
  All-sort_by P xs h = All-of-Memᴰ P (sort_by xs) (λ a m. All-Memᴰ P xs h (Memᴰ-sort_by xs m))

  -- A comparison that orders the items.
  abbrev pub IsOrder : Type ℓ
  IsOrder =
      ((a b : A) → le a b ≡ false → le b a ≡ true)
      × ((a b c : A) → le a b ≡ true → le b c ≡ true → le a c ≡ true)

  module _ (order : IsOrder) where
    insert_by-IsSorted : (x : A) (ys : List A) → IsSorted ys → IsSorted (insert_by x ys)
    insert_by-IsSorted x [] s = (tt, tt)
    insert_by-IsSorted x (y ∷ ys) (below, s) = elim (Bool-cases (le x y)) [
      | inl lower ↦
          let P = λ (z : A). le x z ≡ true in
          let later =
            All-of-Memᴰ P ys
              (λ z m. order.1 x y z lower (All-Memᴰ (λ z. le y z ≡ true) ys below m)) in
          rw lower ((lower, later), (below, s))
      | inr higher ↦ rw higher (
        All-of-Memᴰ (λ z. le y z ≡ true) (insert_by x ys)
            (λ z m. bound higher z (Memᴰ-insert_by x ys m)),
        insert_by-IsSorted x ys s,
      )
    ]
      where
        bound : le x y ≡ false → (z : A) → Memᴰ z (x ∷ ys) → le y z ≡ true
        bound higher z (Memᴰ.head e) = rw e (order.0 x y higher)
        bound higher z (Memᴰ.tail t) = All-Memᴰ (λ z. le y z ≡ true) ys below t

    pub sort_by-IsSorted : (xs : List A) → IsSorted (sort_by xs)
    unfolding sort_by
    sort_by-IsSorted [] = tt
    sort_by-IsSorted (x ∷ xs) = insert_by-IsSorted x (sort_by xs) (sort_by-IsSorted xs)

pub last-Memᴰ {ℓ} : {A : Type ℓ} (xs : List A) {e : A} → last xs ≡ some e → Memᴰ e xs
last-Memᴰ [] found = absurd (ground arith)
last-Memᴰ (x ∷ []) {e} found = let same : x ≡ e = cc in Memᴰ.head (sym same)
last-Memᴰ (x ∷ y ∷ ys) found = Memᴰ.tail (last-Memᴰ (y ∷ ys) found)

-- Every item of a sorted list is at most the last one.
pub last-IsSorted {ℓ} :
    {A : Type ℓ} (le : A → A → Bool) (order : IsOrder le) (xs : List A) {e a : A}
    → IsSorted le xs
    → last xs ≡ some e
    → Memᴰ a xs
    → le a e ≡ true
last-IsSorted le order (x ∷ []) {e} s found (Memᴰ.head q) =
    let same : x ≡ e = cc in
    elim (Bool-cases (le x x)) [ inl t ↦ cc | inr f ↦ let t = order.0 x x f in cc ]
last-IsSorted le order (x ∷ []) s found (Memᴰ.tail m) = elim m [ ]
last-IsSorted le order (x ∷ y ∷ ys) {e} (below, s) found (Memᴰ.head q) =
    rw q (All-Memᴰ (λ z. le x z ≡ true) (y ∷ ys) below (last-Memᴰ (y ∷ ys) found))
last-IsSorted le order (x ∷ y ∷ ys) (below, s) found (Memᴰ.tail m) =
    last-IsSorted le order (y ∷ ys) s found m
last-IsSorted le order [] s found m = elim m [ ]

-- In a sorted list, the item that a search finds is at most every item that passes the test.
pub find-IsSorted {ℓ} :
    {A : Type ℓ} (le : A → A → Bool) (order : IsOrder le) (p : A → Bool) (xs : List A) {e a : A}
    → IsSorted le xs
    → find p xs ≡ some e
    → Memᴰ a xs
    → p a ≡ true
    → le e a ≡ true
find-IsSorted le order p [] s found m passes = elim m [ ]
find-IsSorted le order p (x ∷ xs) {e} {a} (below, s) found m passes = elim (Bool-cases (p x)) [
  | inl here ↦ let same : x ≡ e = ground arith in subst (λ z. le z a ≡ true) same (low m)
  | inr not_here ↦ find-IsSorted le order p xs s (ground arith) (later not_here m) passes
]
  where
    low : Memᴰ a (x ∷ xs) → le x a ≡ true
    low (Memᴰ.head q) = rw q (elim (Bool-cases (le x x)) [ inl t ↦ t | inr f ↦ order.0 x x f ])
    low (Memᴰ.tail t) = All-Memᴰ (λ z. le x z ≡ true) xs below t

    later : p x ≡ false → Memᴰ a (x ∷ xs) → Memᴰ a xs
    later off (Memᴰ.head q) = absurd (cc)
    later off (Memᴰ.tail t) = t

length-insert_by {ℓ} :
    {A : Type ℓ} (le : A → A → Bool) (x : A) (ys : List A)
    → length (insert_by le x ys) ≡ suc (length ys)
length-insert_by le x [] = refl
length-insert_by le x (y ∷ ys) = ground (arith, length-insert_by le x ys)

pub length-sort_by {ℓ} :
    {A : Type ℓ} (le : A → A → Bool) (xs : List A) → length (sort_by le xs) ≡ length xs
unfolding sort_by
length-sort_by le [] = refl
length-sort_by le (x ∷ xs) =
    omega (arith, length-sort_by le xs, length-insert_by le x (sort_by le xs))
