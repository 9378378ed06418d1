-- ===== src/Contracts.antt =====
-- The contract kinds of packages/domain/src/vocabularies.ts.
use reverb_impact.Base.{ℕ, String, Bool, nat_eq}

pub data ContractKind : Type 0 where
  typescript_symbol openapi_operation protobuf_method protobuf_field : ContractKind

-- The text that a kind is in the source.
abbrev pub kind_name : ContractKind → String
kind_name typescript_symbol = "typescript_symbol"
kind_name openapi_operation = "openapi_operation"
kind_name protobuf_method = "protobuf_method"
kind_name protobuf_field = "protobuf_field"

abbrev kind_index : ContractKind → ℕ
kind_index typescript_symbol = 0
kind_index openapi_operation = 1
kind_index protobuf_method = 2
kind_index protobuf_field = 3

-- `===` on kinds.
abbrev pub same_contract_kind : ContractKind → ContractKind → Bool
same_contract_kind a b = nat_eq (kind_index a) (kind_index b)
