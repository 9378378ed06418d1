-- ===== src/Base/Dicts.antt =====
-- JavaScript's `Map` with text keys, as an association list in insertion order: setting a key that is
-- there keeps its place.
use Prim.Native.String.{String}
use mathlib.Core.Path.{◌≡◌, refl, sym, subst}
use mathlib.Core.Bool.{false, ◌||◌}
use mathlib.Core.Option.{Option, none, some}
use mathlib.Core.List.{List, [], ◌∷◌, map, Memᴰ}
use native.Mathlib.Omega.{arith}
use text.Mathlib.TextEquality.{eq_iff}
use mathlib.Core.Logic.{◌≢◌, inl, inr}
use reverb_impact.Base.Tests.{◌==◌, if◌then◌else◌, Bool-cases}
use reverb_impact.Base.Lists.{includes, Distinct, All}

abbrev pub Dict {ℓ} : Type ℓ → Type ℓ
Dict V = List (String × V)

module _ {ℓ} {V : Type ℓ} where
  -- `map.get(key)`
  unfoldable pub lookup : String → Dict V → Option V
  lookup k [] = none
  lookup k ((j, v) ∷ m) = let rest = lookup k m in if j == k then some v else rest

  -- `map.set(key, value)`
  unfoldable pub insert : String → V → Dict V → Dict V
  insert k v [] = (k, v) ∷ []
  insert k v ((j, w) ∷ m) = let rest = insert k v m in if j == k then (j, v) ∷ m else (j, w) ∷ rest

  -- `map.delete(key)`; a key stands at most once, and taking out every entry is the same.
  unfoldable pub erase : String → Dict V → Dict V
  erase k [] = []
  erase k ((j, w) ∷ m) = let rest = erase k m in if j == k then rest else (j, w) ∷ rest

  -- `[...map.values()]`
  abbrev pub values : Dict V → List V
  values m = map (λ e. e.1) m

  abbrev pub keys : Dict V → List String
  keys m = map (λ e. e.0) m

  pub lookup-nil : (k : String) {v : V} → lookup k [] ≢ some v
  unfolding lookup
  lookup-nil k e = cc

  pub lookup-insert :
      (set_key key : String) (value : V) (entries : Dict V)
      → lookup key (insert set_key value entries)
        ≡ (if set_key == key then some value else lookup key entries)
  unfolding lookup insert
  lookup-insert set_key key value [] = refl
  lookup-insert set_key key value (e ∷ entries) =
      let rest = lookup-insert set_key key value entries in
      ground (arith, rest, eq_iff set_key key, eq_iff e.0 set_key, eq_iff e.0 key)

  pub lookup-erase :
      (k j : String) (m : Dict V) → lookup j (erase k m) ≡ (if k == j then none else lookup j m)
  unfolding lookup erase
  lookup-erase k j [] = ground arith
  lookup-erase k j ((i, w) ∷ m) =
      ground (arith, eq_iff k j, eq_iff i k, eq_iff i j, lookup-erase k j m)

  pub Memᴰ-lookup : (k : String) (m : Dict V) {v : V} → lookup k m ≡ some v → Memᴰ (k, v) m
  unfolding lookup
  Memᴰ-lookup k [] e = cc
  Memᴰ-lookup k ((j, w) ∷ m) e = elim (Bool-cases (j == k)) [
    | inl same ↦ Memᴰ.head (ground (arith, eq_iff j k))
    | inr other ↦ Memᴰ.tail (Memᴰ-lookup k m (ground arith))
  ]

  pub lookup-map_keys : (k : String) (m : Dict V) → includes (keys m) k ≡ false → lookup k m ≡ none
  unfolding lookup
  lookup-map_keys k [] e = refl
  lookup-map_keys k ((j, w) ∷ m) e = ground (arith, lookup-map_keys k m)

  -- In a map with distinct keys every entry is found.
  pub lookup-of-Memᴰ :
      (m : Dict V) {k : String} {v : V} → Distinct (keys m) → Memᴰ (k, v) m → lookup k m ≡ some v
  unfolding lookup
  lookup-of-Memᴰ ((j, w) ∷ m) {k} {v} (new, d) (Memᴰ.head e) = ground (arith, eq_iff j k)
  lookup-of-Memᴰ ((j, w) ∷ m) {k} {v} (new, d) (Memᴰ.tail t) =
      ground (arith, eq_iff j k, lookup-of-Memᴰ m d t, lookup-map_keys k m)
  lookup-of-Memᴰ [] d t = elim t [ ]

  includes-keys-insert :
      (k j : String) (v : V) (m : Dict V)
      → includes (keys (insert k v m)) j ≡ (k == j || includes (keys m) j)
  unfolding insert
  includes-keys-insert k j v [] = refl
  includes-keys-insert k j v ((i, w) ∷ m) =
      ground (arith, eq_iff k j, eq_iff i k, eq_iff i j, includes-keys-insert k j v m)

  pub insert-Distinct :
      (k : String) (v : V) (m : Dict V) → Distinct (keys m) → Distinct (keys (insert k v m))
  unfolding insert
  insert-Distinct k v [] d = (refl, tt)
  insert-Distinct k v ((j, w) ∷ m) (new, d) =
      ground (arith, eq_iff j k, eq_iff k j, insert-Distinct k v m d, includes-keys-insert k j v m)

  includes-keys-erase :
      (k j : String) (m : Dict V)
      → includes (keys m) j ≡ false
      → includes (keys (erase k m)) j ≡ false
  unfolding erase
  includes-keys-erase k j [] e = refl
  includes-keys-erase k j ((i, w) ∷ m) e = ground (arith, includes-keys-erase k j m)

  pub erase-Distinct : (k : String) (m : Dict V) → Distinct (keys m) → Distinct (keys (erase k m))
  unfolding erase
  erase-Distinct k [] d = tt
  erase-Distinct k ((j, w) ∷ m) (new, d) =
      ground (arith, erase-Distinct k m d, includes-keys-erase k j m)

module _ {ℓ κ} {V : Type ℓ} (P : String × V → Type κ) where
  pub All-insert : (k : String) (v : V) (m : Dict V) → P (k, v) → All P m → All P (insert k v m)
  unfolding insert
  All-insert k v [] p h = (p, tt)
  All-insert k v ((j, w) ∷ m) p (q, h) = elim (Bool-cases (j == k)) [
    | inl same ↦ rw same (subst (λ i. P (i, v)) (sym ((eq_iff j k).0 same)) p, h)
    | inr other ↦ rw other (q, All-insert k v m p h)
  ]

  pub All-erase : (k : String) (m : Dict V) → All P m → All P (erase k m)
  unfolding erase
  All-erase k [] h = tt
  All-erase k ((j, w) ∷ m) (q, h) = elim (Bool-cases (j == k)) [
    | inl same ↦ rw same (All-erase k m h)
    | inr other ↦ rw other (q, All-erase k m h)
  ]
