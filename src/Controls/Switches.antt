-- ===== src/Controls/Switches.antt =====
-- `HostedOperationalControls` of packages/host-github/src/controls.ts. A method that changes the object
-- returns the object that it leaves.
use reverb_impact.Base.{
  ℕ, suc, String, Bool, true, false, not, ◌&&◌, List, [], ◌∷◌, ◌++◌, includes, ◌==◌, ◌<>◌,
  if◌then◌else◌, Result, ok, ◌>>◌, guard,
}
use text.Mathlib.Text.{starts_with}
use reverb_impact.Promotion.Data.{
  PromotionState, promoted, PromotionDecision, promote, PromotionRecord,
}

pub data HostedCapability : Type 0 where
  read parser model write : HostedCapability

pub record HostedKillSwitchSnapshot : Type 0 where
  pub read_disabled : Bool
  pub parser_disabled : Bool
  pub model_disabled : Bool
  pub write_disabled : Bool

pub record HostedOperationalControls : Type 0 where
  pub switches : HostedKillSwitchSnapshot
  pub advisory : List String

-- The object that the constructor makes.
abbrev pub initial_controls : HostedOperationalControls
initial_controls = record {
  switches = record {
    read_disabled = false;
    parser_disabled = false;
    model_disabled = true;
    write_disabled = true;
  };
  advisory = [];
}

-- `setDisabled`
unfoldable pub set_disabled :
    HostedOperationalControls → HostedCapability → Bool → HostedOperationalControls
set_disabled c read b = record c { switches = record (c.switches) { read_disabled = b } }
set_disabled c parser b = record c { switches = record (c.switches) { parser_disabled = b } }
set_disabled c model b = record c { switches = record (c.switches) { model_disabled = b } }
set_disabled c write b = record c { switches = record (c.switches) { write_disabled = b } }

abbrev pub is_promoted : PromotionState → Bool
is_promoted promoted = true
is_promoted _ = false

abbrev pub is_promote : PromotionDecision → Bool
is_promote promote = true
is_promote _ = false

-- `${workspaceId}\0${repositoryId}\0${stratumKey}\0`
abbrev pub stratum_prefix : String → String → String → String
stratum_prefix workspace_id repository_id stratum_key =
    workspace_id <> "\0" <> repository_id <> "\0" <> stratum_key <> "\0"

-- The prefix, with the output hash of a promotion.
abbrev pub advisory_key : String → String → String → String → String
advisory_key workspace_id repository_id stratum_key output_hash =
    workspace_id <> "\0" <> repository_id <> "\0" <> stratum_key <> "\0" <> output_hash

-- `enableAdvisory`
unfoldable pub enable_advisory :
    HostedOperationalControls
    → String
    → String
    → String
    → PromotionRecord
    → Result String HostedOperationalControls
enable_advisory c workspace_id repository_id stratum_key promotion =
    let key = advisory_key workspace_id repository_id stratum_key promotion.output_hash in
    guard
      (promotion.stratum_key == stratum_key
        && is_promoted promotion.state
        && is_promote promotion.decision)
      "Advisory delivery requires a current promoted stratum record."
    >> ok (record c {
      advisory = if includes c.advisory key then c.advisory else c.advisory ++ key ∷ [];
    })

-- The keys that the loop of `disableAdvisory` leaves, and how many it deletes.
abbrev pub without_prefix : String → List String → List String
without_prefix prefix [] = []
without_prefix prefix (key ∷ keys) =
    let rest = without_prefix prefix keys in if starts_with key prefix then rest else key ∷ rest

abbrev pub count_prefix : String → List String → ℕ
count_prefix prefix [] = 0
count_prefix prefix (key ∷ keys) =
    let rest = count_prefix prefix keys in if starts_with key prefix then suc rest else rest

-- `disableAdvisory`: the object that it leaves, and what it returns.
unfoldable pub disable_advisory :
    HostedOperationalControls → String → String → String → HostedOperationalControls × ℕ
disable_advisory c workspace_id repository_id stratum_key =
    let prefix = stratum_prefix workspace_id repository_id stratum_key in
    (record c { advisory = without_prefix prefix c.advisory }, count_prefix prefix c.advisory)

-- `isAdvisoryEnabled`
unfoldable pub is_advisory_enabled :
    HostedOperationalControls → String → String → PromotionRecord → Bool
is_advisory_enabled c workspace_id repository_id promotion =
    not c.switches.write_disabled
    && is_promoted promotion.state
    && includes c.advisory
        (advisory_key workspace_id repository_id promotion.stratum_key promotion.output_hash)

-- `applyPromotionDecision`
unfoldable pub apply_promotion_decision :
    HostedOperationalControls → String → String → PromotionRecord → HostedOperationalControls
unfolding disable_advisory
apply_promotion_decision c workspace_id repository_id promotion =
    if not (is_promoted promotion.state)
    then (disable_advisory c workspace_id repository_id promotion.stratum_key).0
    else c
