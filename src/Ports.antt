-- ===== src/Ports.antt =====
-- The results of the ports: packages/application/src/ports.ts. Also JavaScript's numbers, as far as
-- `Number.isSafeInteger(value) && value >= 0` tells them apart.
use reverb_impact.Base.{ℕ, String, Bool, false, leb, ◌≡◌, refl, ◌⊎◌, inl, inr}

pub data PortFailureKind : Type 0 where
  domain infrastructure authorization_denied incomplete_provider_data : PortFailureKind
  cancelled not_found conflict : PortFailureKind

pub record PortFailure : Type 0 where
  pub kind : PortFailureKind
  pub code : String
  pub safe_message : String
  pub retryable : Bool

pub data PortResult {ℓ} (A : Type ℓ) : Type ℓ where
  port_success : A → PortResult A
  port_failure : PortFailure → PortResult A

-- `whole n` is a whole number from 0 on; `other` is a negative, fractional or non-finite number.
pub data Number : Type 0 where
  whole : ℕ → Number
  other : Number

abbrev pub max_safe_integer : ℕ
max_safe_integer = 9007199254740991

-- Number.isSafeInteger(value) && value >= 0
unfoldable pub valid_non_negative_integer : Number → Bool
valid_non_negative_integer (whole n) = leb n max_safe_integer
valid_non_negative_integer other = false

-- The whole number that a valid number is.
unfoldable pub amount_of : Number → ℕ
amount_of (whole n) = n
amount_of other = 0

pub PortResult-cases {ℓ} :
    {A : Type ℓ} (r : PortResult A)
    → ((a : A) × (r ≡ port_success a)) ⊎ ((e : PortFailure) × (r ≡ port_failure e))
PortResult-cases (port_success a) = inl (a, refl)
PortResult-cases (port_failure e) = inr (e, refl)
