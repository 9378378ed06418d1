-- ===== src/Controls/Examples.antt =====
-- Two writers of one check.
use reverb_impact.Base.{
  String, true, List, [], ◌∷◌, none, some, ◌≡◌, refl, ◌↔◌, ◌⊎◌, Dict, lookup, insert, ok,
}
use reverb_impact.Canonical.{Platform}
use reverb_impact.Controls.Owners.{Check, claim, owner_of}
use reverb_impact.Controls.Ownership.{
  is_named, first_owner, run_claims, after_claim, claims-first_owner,
}

abbrev node : Platform
node = record {
  collate_le = λ one two. true;
  code_unit_le = λ one two. true;
  utf16_length = λ one. 5;
  trim = λ one. one;
  normalize_nfc = λ one. one;
  to_lower_case = λ one. one;
  stringify = λ one. "1";
  iso_text = λ one. "";
  sha256_text = λ one. one;
}

abbrev check : Check
check = record { installation_id = 1; repository_external_id = 1; check_name = "reverb" }

abbrev claims : List (Check × String)
claims = (check, "hosted") ∷ (check, "action") ∷ []

first_writer : owner_of node (run_claims node [] claims) check ≡ some "hosted"
unfolding owner_of run_claims after_claim claim lookup insert
first_writer = refl

claims-first_owner_example :
    (owner_of node (run_claims node [] claims) check ≡ first_owner node claims check)
    × (((next : Dict String) × (claim node (run_claims node [] claims) check "hosted" ≡ ok next))
        ↔ ((is_named node (check, "hosted") ≡ true)
            × ((first_owner node claims check ≡ none)
                ⊎ (first_owner node claims check ≡ some "hosted"))))
claims-first_owner_example = claims-first_owner node claims check "hosted"
