-- ===== src/Controls/Ownership.antt =====
-- What `DeliveryOwnershipRegistry` promises: the first owner that claims a check keeps it.
use mathlib.Core.Option
use reverb_impact.Base.{
  String, Bool, true, false, not, ◌&&◌, ◌||◌, Option, none, some, List, [], ◌∷◌, ◌==◌, ◌≡◌, refl,
  sym, ◌∙◌, ap, ◌↔◌, ◌⊎◌, inl, inr, arith, eq_iff, Bool-cases, if◌then◌else◌, find, nat_eq, Dict,
  lookup, insert, lookup-insert, ok, err, or_else,
}
use reverb_impact.Canonical.{Platform}
use reverb_impact.Controls.Owners.{Check, check_key, may_own, claim, owner_of}

-- A claim that names its check and its owner.
abbrev pub is_named : Platform → Check × String → Bool
is_named p c =
    not
      (nat_eq (p.utf16_length (p.trim c.0.check_name)) 0 || nat_eq (p.utf16_length (p.trim c.1)) 0)

-- The owner of a check, as the claims made so far tell it: that of the first that names its check and
-- its owner. Checks are one where their keys are.
abbrev pub first_owner : Platform → List (Check × String) → Check → Option String
first_owner p claims check =
    Option.map (λ c. c.1) (find (λ c. is_named p c && check_key p c.0 == check_key p check) claims)

-- The map after a claim; a claim that throws leaves it.
unfoldable pub after_claim : Platform → Dict String → Check × String → Dict String
unfolding claim
after_claim p owners c = elim (claim p owners c.0 c.1) [ ok next ↦ next | err e ↦ owners ]

unfoldable pub run_claims : Platform → Dict String → List (Check × String) → Dict String
unfolding after_claim
run_claims p owners [] = owners
run_claims p owners (c ∷ cs) = run_claims p (after_claim p owners c) cs

after-blank :
    (p : Platform) (owners : Dict String) (c : Check × String)
    → is_named p c ≡ false
    → after_claim p owners c ≡ owners
unfolding after_claim claim
after-blank p owners c blank = rw (blank, after_claim, claim) refl

after-free :
    (p : Platform) (owners : Dict String) (c : Check × String)
    → is_named p c ≡ true
    → may_own (lookup (check_key p c.0) owners) c.1 ≡ true
    → after_claim p owners c ≡ insert (check_key p c.0) c.1 owners
unfolding after_claim claim
after-free p owners c named free = rw (named, free, after_claim, claim) refl

after-taken :
    (p : Platform) (owners : Dict String) (c : Check × String)
    → is_named p c ≡ true
    → may_own (lookup (check_key p c.0) owners) c.1 ≡ false
    → after_claim p owners c ≡ owners
unfolding after_claim claim
after-taken p owners c named taken = rw (named, taken, after_claim, claim) refl

or_else-none {ℓ} : {A : Type ℓ} (o : Option A) → or_else o none ≡ o
or_else-none none = refl
or_else-none (some x) = refl

-- A claim gives its check an owner where it has none, and changes no other.
after_claim-lookup :
    (p : Platform) (owners : Dict String) (c : Check × String) (k : String)
    → lookup k (after_claim p owners c)
      ≡ or_else (lookup k owners) (if is_named p c && check_key p c.0 == k then some c.1 else none)
after_claim-lookup p owners c k = elim (Bool-cases (is_named p c)) [
  | inr blank ↦
      ap (lookup k) (after-blank p owners c blank) ∙ sym (rw blank (or_else-none (lookup k owners)))
  | inl named ↦ elim (Bool-cases (check_key p c.0 == k)) [
    | inr other ↦
        rw (named, other)
          (keep (Bool-cases (may_own (lookup (check_key p c.0) owners) c.1)) named other
            ∙ sym (or_else-none (lookup k owners)))
    | inl same ↦
        rw (named, same)
          (own named ((eq_iff (check_key p c.0) k).0 same) (lookup (check_key p c.0) owners) refl)
  ]
]
  where
    keep :
        (may_own (lookup (check_key p c.0) owners) c.1 ≡ true)
          ⊎ (may_own (lookup (check_key p c.0) owners) c.1 ≡ false)
        → is_named p c ≡ true
        → (check_key p c.0 == k) ≡ false
        → lookup k (after_claim p owners c) ≡ lookup k owners
    keep (inl free) named other =
        ap (lookup k) (after-free p owners c named free)
        ∙ (lookup-insert (check_key p c.0) k c.1 owners ∙ rw other refl)
    keep (inr taken) named other = ap (lookup k) (after-taken p owners c named taken)

    own :
        is_named p c ≡ true
        → check_key p c.0 ≡ k
        → (o : Option String) → lookup (check_key p c.0) owners ≡ o
        → lookup k (after_claim p owners c) ≡ or_else (lookup k owners) (some c.1)
    own named same none held =
        let free : may_own (lookup (check_key p c.0) owners) c.1 ≡ true = rw held refl in
        let here = (eq_iff (check_key p c.0) k).1 same in
        let at_k : lookup k owners ≡ none = ap (λ j. lookup j owners) (sym same) ∙ held in
        ap (lookup k) (after-free p owners c named free)
        ∙ (lookup-insert (check_key p c.0) k c.1 owners ∙ rw (here, at_k) refl)
    own named same (some existing) held =
        let here = (eq_iff (check_key p c.0) k).1 same in
        let at_k : lookup k owners ≡ some existing = ap (λ j. lookup j owners) (sym same) ∙ held in
        elim (Bool-cases (existing == c.1)) [
          | inl again ↦
              let free : may_own (lookup (check_key p c.0) owners) c.1 ≡ true =
                rw (held, again) refl in
              let is = (eq_iff existing c.1).0 again in
              ap (lookup k) (after-free p owners c named free)
              ∙ (lookup-insert (check_key p c.0) k c.1 owners ∙ rw (here, at_k) (ap some (sym is)))
          | inr taken ↦
              let refused : may_own (lookup (check_key p c.0) owners) c.1 ≡ false =
                rw (held, taken) refl in
              ap (lookup k) (after-taken p owners c named refused) ∙ rw at_k refl
        ]

run_claims-lookup :
    (p : Platform) (claims : List (Check × String)) (owners : Dict String) (check : Check)
    → lookup (check_key p check) (run_claims p owners claims)
      ≡ or_else (lookup (check_key p check) owners) (first_owner p claims check)
unfolding run_claims
run_claims-lookup p [] owners check = sym (or_else-none (lookup (check_key p check) owners))
run_claims-lookup p (c ∷ cs) owners check =
    run_claims-lookup p cs (after_claim p owners c) check
    ∙ (rw (after_claim-lookup p owners c (check_key p check)) (
        chain (lookup (check_key p check) owners)
          (is_named p c && check_key p c.0 == check_key p check)))
  where
    chain :
        (o : Option String) (b : Bool)
        → or_else (or_else o (if b then some c.1 else none)) (first_owner p cs check)
          ≡ or_else o (
              Option.map
                (λ c. c.1)
                (if b
                  then some c
                  else find (λ c. is_named p c && check_key p c.0 == check_key p check) cs))
    chain none true = refl
    chain none false = refl
    chain (some x) b = refl

-- After any claims, those that were refused included, a check is owned by the first that claimed it
-- under a name, and by nobody where none did; and a further claim succeeds exactly when it is named and
-- the check has no owner or that owner.
pub claims-first_owner :
    (p : Platform) (claims : List (Check × String)) (check : Check) (owner : String)
    → (owner_of p (run_claims p [] claims) check ≡ first_owner p claims check)
      × (((next : Dict String) × (claim p (run_claims p [] claims) check owner ≡ ok next)) ↔ (
          (is_named p (check, owner) ≡ true)
          × ((first_owner p claims check ≡ none) ⊎ (first_owner p claims check ≡ some owner))))
unfolding owner_of claim lookup
claims-first_owner p claims check owner =
    let owned = run_claims-lookup p claims [] check in
    (
      owned,
      (
        (λ (next, e). elim (Bool-cases (is_named p (check, owner))) [
          | inr blank ↦ absurd (ground arith)
          | inl named ↦
              elim (Bool-cases
                (may_own (lookup (check_key p check) (run_claims p [] claims)) owner)) [
                  | inr taken ↦ absurd (ground arith)
                  | inl free ↦ (
                    named,
                    owner_cases (first_owner p claims check)
                        (ap (λ o. may_own o owner) (sym owned) ∙ free),
                  )
                ]
        ]),
        (λ (named, who).
            let free : may_own (lookup (check_key p check) (run_claims p [] claims)) owner ≡ true =
              rw owned (owner_allowed (first_owner p claims check) who) in
            (insert (check_key p check) owner (run_claims p [] claims), rw (named, free) refl)),
      ),
    )
  where
    owner_cases : (o : Option String) → may_own o owner ≡ true → (o ≡ none) ⊎ (o ≡ some owner)
    owner_cases none e = inl refl
    owner_cases (some existing) e = inr (ap some ((eq_iff existing owner).0 e))

    owner_allowed : (o : Option String) → (o ≡ none) ⊎ (o ≡ some owner) → may_own o owner ≡ true
    owner_allowed none w = refl
    owner_allowed (some existing) (inl w) = absurd (cc)
    owner_allowed (some existing) (inr w) =
        let same : existing ≡ owner = cc in (eq_iff existing owner).1 same
