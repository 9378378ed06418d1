-- ===== src/ExecutionBudget/Totals.antt =====
-- What the two loops of `reserve` and of `release` do to each dimension.
use reverb_impact.Base.{
  ℕ, ◌+◌, ◌-◌, ◌≤◌, ◌<◌, ◌≡◌, refl, Bool, true, false, ◌||◌, none, some, List, [], ◌∷◌, arith,
  if◌then◌else◌,
}
use reverb_impact.ExecutionBudget.{
  Reservable, requests, bytes, queries, artifact, tokens, Usage, Amounts, used, limit, put,
  first_exceeded, add_all, covered, subtract_all,
}

abbrev pub same_key : Reservable → Reservable → Bool
same_key requests requests = true
same_key bytes bytes = true
same_key queries queries = true
same_key artifact artifact = true
same_key tokens tokens = true
same_key _ _ = false

-- How much the entries ask of a dimension.
abbrev pub asked : Reservable → List (Reservable × ℕ) → ℕ
asked k [] = 0
asked k ((j, amount) ∷ entries) = (if same_key k j then amount else 0) + asked k entries

abbrev pub mentions : Reservable → List (Reservable × ℕ) → Bool
mentions k [] = false
mentions k ((j, amount) ∷ entries) = same_key k j || mentions k entries

-- An object has each key once.
abbrev pub HasDistinctKeys : List (Reservable × ℕ) → Type 0
HasDistinctKeys [] = Unit
HasDistinctKeys ((k, amount) ∷ entries) = (mentions k entries ≡ false) × HasDistinctKeys entries

used-put :
    (k j : Reservable) (n : ℕ) (u : Usage)
    → used k (put j n u) ≡ (if same_key k j then n else used k u)
used-put requests j n u = ground arith
used-put bytes j n u = ground arith
used-put queries j n u = ground arith
used-put artifact j n u = ground arith
used-put tokens j n u = ground arith

same_key-eq : (k j : Reservable) → same_key k j ≡ true → k ≡ j
same_key-eq k j h = ground arith

same_key_refl : (k : Reservable) → same_key k k ≡ true
same_key_refl k = ground arith

le_of_sum : {c : ℕ} (a b : ℕ) → a + b ≤ c → b ≤ c
le_of_sum a b h = omega arith

le_of_sum_mid : {c : ℕ} (u a b : ℕ) → u + (a + b) ≤ c → u + b ≤ c
le_of_sum_mid u a b h = omega arith

pub used-add_all :
    (k : Reservable) (entries : List (Reservable × ℕ)) (u : Usage)
    → used k (add_all entries u) ≡ used k u + asked k entries
unfolding add_all
used-add_all k [] u = omega arith
used-add_all k ((j, amount) ∷ entries) u = ground (
  arith,
  used-add_all k entries (put j (used j u + amount) u),
  used-put k j (used j u + amount) u,
  same_key-eq k j,
)

asked_absent :
    (k : Reservable) (entries : List (Reservable × ℕ))
    → mentions k entries ≡ false
    → asked k entries ≡ 0
asked_absent k [] h = refl
asked_absent k ((j, amount) ∷ entries) h = ground (arith, asked_absent k entries)

-- What passes the first loop fits, in every dimension.
pub first_exceeded_fits :
    (k : Reservable) (entries : List (Reservable × ℕ)) (u : Usage) (l : Amounts ℕ)
    → HasDistinctKeys entries
    → used k u ≤ limit k l
    → first_exceeded u l entries ≡ none
    → used k u + asked k entries ≤ limit k l
unfolding first_exceeded
first_exceeded_fits k [] u l d fits e = omega arith
first_exceeded_fits k ((j, amount) ∷ entries) u l (absent, d) fits e =
    ground (arith, first_exceeded_fits k entries u l, asked_absent k entries, same_key-eq k j)

pub used-subtract_all :
    (k : Reservable) (entries : List (Reservable × ℕ)) (u : Usage)
    → used k (subtract_all entries u) ≡ used k u - asked k entries
unfolding subtract_all
used-subtract_all k [] u = omega arith
used-subtract_all k ((j, amount) ∷ entries) u = ground (
  arith,
  used-subtract_all k entries (put j (used j u - amount) u),
  used-put k j (used j u - amount) u,
  same_key-eq k j,
)

pub covered_of_asked :
    (entries : List (Reservable × ℕ)) (u : Usage)
    → ((k : Reservable) → asked k entries ≤ used k u)
    → covered entries u ≡ true
unfolding covered
covered_of_asked [] u h = refl
covered_of_asked ((j, amount) ∷ entries) u h =
    ground (arith, h j, same_key_refl j, covered_of_asked entries u (λ k. le_of_sum _ _ (h k)))

pub asked_of_covered :
    (k : Reservable) (entries : List (Reservable × ℕ)) (u : Usage)
    → HasDistinctKeys entries
    → covered entries u ≡ true
    → asked k entries ≤ used k u
unfolding covered
asked_of_covered k [] u d h = omega arith
asked_of_covered k ((j, amount) ∷ entries) u (absent, d) h =
    ground (arith, asked_of_covered k entries u d, asked_absent k entries, same_key-eq k j)

-- A reservation that fits in every dimension passes the first loop.
pub first_exceeded_of_fits :
    (entries : List (Reservable × ℕ)) (u : Usage) (l : Amounts ℕ)
    → ((k : Reservable) → used k u + asked k entries ≤ limit k l)
    → first_exceeded u l entries ≡ none
unfolding first_exceeded
first_exceeded_of_fits [] u l h = refl
first_exceeded_of_fits ((j, amount) ∷ entries) u l h = ground (
  arith,
  h j,
  same_key_refl j,
  first_exceeded_of_fits entries u l (λ k. le_of_sum_mid _ _ _ (h k)),
)

-- The usage is the amounts of its dimensions.
pub usage_ext : (u v : Usage) → ((k : Reservable) → used k u ≡ used k v) → u ≡ v
usage_ext u v h = ground (arith, h requests, h bytes, h queries, h artifact, h tokens)

pub first_exceeded_over :
    (key : Reservable) (entries : List (Reservable × ℕ)) (u : Usage) (l : Amounts ℕ)
    → first_exceeded u l entries ≡ some key
    → limit key l < used key u + asked key entries
unfolding first_exceeded
first_exceeded_over key [] u l e = cc
first_exceeded_over key ((j, amount) ∷ entries) u l e =
    ground (arith, same_key_refl j, first_exceeded_over key entries u l)
