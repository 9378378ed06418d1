-- ===== src/Base/Unique.antt =====
-- Sets as sorted lists of texts: what `[...new Set(xs)].sort()` holds.
use Prim.Native.String.{String}
use mathlib.Core.Path.{◌≡◌, refl}
use mathlib.Core.Logic.{inl, inr}
use mathlib.Core.Bool.{Bool, true, false, ◌||◌}
use mathlib.Core.List.{List, [], ◌∷◌}
use native.Mathlib.Omega.{arith}
use text.Mathlib.TextEquality.{eq_iff}
use reverb_impact.Base.Tests.{◌==◌, Bool-cases}
use reverb_impact.Base.Lists.{includes, unique_from, unique, Distinct}
use reverb_impact.Base.Sorting.{insert_by, sort_by}

includes-unique_from :
    (seen xs : List String) (s : String)
    → (includes seen s || includes (unique_from seen xs) s) ≡ (includes seen s || includes xs s)
unfolding unique_from
includes-unique_from seen [] s = refl
includes-unique_from seen (x ∷ xs) s = elim (Bool-cases (includes seen x)) [
  | inl old ↦ rw (old, unique_from) (ground (arith, includes-unique_from seen xs s, eq_iff x s))
  | inr new ↦ rw (new, unique_from) (ground (arith, includes-unique_from (x ∷ seen) xs s))
]

pub includes-unique : (xs : List String) (s : String) → includes (unique xs) s ≡ includes xs s
unfolding unique
includes-unique xs s = includes-unique_from [] xs s

seen-unique_from :
    (seen xs : List String) (s : String)
    → includes seen s ≡ true
    → includes (unique_from seen xs) s ≡ false
unfolding unique_from
seen-unique_from seen [] s h = refl
seen-unique_from seen (x ∷ xs) s h = elim (Bool-cases (includes seen x)) [
  | inl old ↦ rw (old, unique_from) (seen-unique_from seen xs s h)
  | inr new ↦ rw (new, unique_from) (ground (arith, eq_iff x s, seen-unique_from (x ∷ seen) xs s))
]

unique_from-Distinct : (seen xs : List String) → Distinct (unique_from seen xs)
unfolding unique_from
unique_from-Distinct seen [] = tt
unique_from-Distinct seen (x ∷ xs) = elim (Bool-cases (includes seen x)) [
  | inl old ↦ rw (old, unique_from) (unique_from-Distinct seen xs)
  | inr new ↦
      rw (new, unique_from)
        (
          seen-unique_from (x ∷ seen) xs x (ground (arith, eq_iff x x)),
          unique_from-Distinct (x ∷ seen) xs,
        )
]

pub unique-Distinct : (xs : List String) → Distinct (unique xs)
unfolding unique
unique-Distinct xs = unique_from-Distinct [] xs

module _ (le : String → String → Bool) where
  includes-insert_by :
      (x : String) (ys : List String) (s : String)
      → includes (insert_by le x ys) s ≡ (x == s || includes ys s)
  includes-insert_by x [] s = refl
  includes-insert_by x (y ∷ ys) s = ground (arith, includes-insert_by x ys s)

  pub includes-sort_by :
      (xs : List String) (s : String) → includes (sort_by le xs) s ≡ includes xs s
  unfolding sort_by
  includes-sort_by [] s = refl
  includes-sort_by (x ∷ xs) s =
      ground (arith, includes-insert_by x (sort_by le xs) s, includes-sort_by xs s)

  insert_by-Distinct :
      (x : String) (ys : List String)
      → includes ys x ≡ false
      → Distinct ys
      → Distinct (insert_by le x ys)
  insert_by-Distinct x [] h d = (refl, tt)
  insert_by-Distinct x (y ∷ ys) h (new, d) =
      ground (arith, eq_iff x y, eq_iff y x, includes-insert_by x ys y, insert_by-Distinct x ys)

  pub sort_by-Distinct : (xs : List String) → Distinct xs → Distinct (sort_by le xs)
  unfolding sort_by
  sort_by-Distinct [] d = tt
  sort_by-Distinct (x ∷ xs) (new, d) =
      insert_by-Distinct x (sort_by le xs) (ground (arith, includes-sort_by xs x))
        (sort_by-Distinct xs d)

  -- The sorted set of a list.
  unfoldable pub sorted_unique : List String → List String
  sorted_unique xs = sort_by le (unique xs)

  pub includes-sorted_unique :
      (xs : List String) (s : String) → includes (sorted_unique xs) s ≡ includes xs s
  unfolding sorted_unique
  includes-sorted_unique xs s = rw (includes-sort_by, includes-unique)

  pub sorted_unique-Distinct : (xs : List String) → Distinct (sorted_unique xs)
  unfolding sorted_unique
  sorted_unique-Distinct xs = sort_by-Distinct (unique xs) (unique-Distinct xs)
