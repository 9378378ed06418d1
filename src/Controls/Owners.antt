-- ===== src/Controls/Owners.antt =====
-- `DeliveryOwnershipRegistry` of packages/host-github/src/controls.ts: the owners of checks, as the map that
-- the code keeps.
use reverb_impact.Base.{
  ℕ, String, Bool, true, not, ◌||◌, Option, none, some, ◌==◌, ◌<>◌, nat_eq, Dict, lookup, insert,
  Result, ok, ◌>>◌, guard,
}
use reverb_impact.Canonical.{Platform, number}

-- The input of `claim`, and without its owner that of `owner`.
pub record Check : Type 0 where
  pub installation_id : ℕ
  pub repository_external_id : ℕ
  pub check_name : String

-- `${installationId}\0${repositoryExternalId}\0${checkName}`
abbrev pub check_key : Platform → Check → String
check_key p check =
    p.stringify (number check.installation_id)
    <> "\0"
    <> p.stringify (number check.repository_external_id)
    <> "\0"
    <> check.check_name

-- `existing !== undefined && existing !== owner` is false
abbrev pub may_own : Option String → String → Bool
may_own none owner = true
may_own (some existing) owner = existing == owner

-- What `claim` throws for an owner that another has.
abbrev pub owned_message : Option String → String
owned_message none = ""
owned_message (some existing) =
    "Check delivery is already owned by " <> existing <> "; duplicate writers are forbidden."

-- `DeliveryOwnershipRegistry.claim`; what it throws leaves the map as it is.
unfoldable pub claim : Platform → Dict String → Check → String → Result String (Dict String)
claim p owners check owner = do
  guard
      (not (
        nat_eq (p.utf16_length (p.trim check.check_name)) 0
        || nat_eq (p.utf16_length (p.trim owner)) 0))
      "Delivery ownership requires a check name and owner."
  guard (may_own (lookup (check_key p check) owners) owner)
      (owned_message (lookup (check_key p check) owners))
  ok (insert (check_key p check) owner owners)

-- `DeliveryOwnershipRegistry.owner`
unfoldable pub owner_of : Platform → Dict String → Check → Option String
owner_of p owners check = lookup (check_key p check) owners
