-- ===== src/Errors.antt =====
-- Domain errors: packages/domain/src/errors.ts. The safe details of an error are left out; the
-- `invariant` function is the library's `guard`.
use reverb_impact.Base.{String, Result, guard, Bool}

pub data DomainErrorCode : Type 0 where
  invalid_id invalid_sha invalid_hash invalid_path invalid_instant : DomainErrorCode
  invalid_enum invalid_schema unsupported_schema_major invalid_state_transition : DomainErrorCode
  invalid_registry ambiguous_alias unknown_repository unknown_service : DomainErrorCode
  incomplete_source authorization_denied cancelled invalid_review : DomainErrorCode
  review_unauthorized invalid_review_supersession suppression_unauthorized : DomainErrorCode
  invalid_suppression invalid_corpus_case future_snapshot_leakage : DomainErrorCode
  invalid_sampling_probability invalid_sampling_weight : DomainErrorCode
  invalid_corpus_measurement invalid_label_provenance empty_sampling_frame : DomainErrorCode
  invalid_corpus_manifest invalid_mutation_import invalid_labeling_panel : DomainErrorCode
  adjudication_required invalid_binomial required_case_unlabelled : DomainErrorCode
  invalid_agreement_panel non_frozen_simulation_input : DomainErrorCode
  promotion_requires_simulation unrecorded_promotion_policy : DomainErrorCode
  infrastructure_failure : DomainErrorCode

pub record ReverbError : Type 0 where
  pub code : DomainErrorCode
  pub message : String

abbrev pub Checked {ℓ} : Type ℓ → Type ℓ
Checked A = Result ReverbError A

abbrev pub error : DomainErrorCode → String → ReverbError
error code message = record { code = code; message = message }

-- `invariant`
abbrev pub invariant : Bool → DomainErrorCode → String → Checked (Unit {0})
invariant condition code message = guard condition (error code message)

-- `String(error.code)`
abbrev pub code_text : DomainErrorCode → String
code_text invalid_id = "invalid_id"
code_text invalid_sha = "invalid_sha"
code_text invalid_hash = "invalid_hash"
code_text invalid_path = "invalid_path"
code_text invalid_instant = "invalid_instant"
code_text invalid_enum = "invalid_enum"
code_text invalid_schema = "invalid_schema"
code_text unsupported_schema_major = "unsupported_schema_major"
code_text invalid_state_transition = "invalid_state_transition"
code_text invalid_registry = "invalid_registry"
code_text ambiguous_alias = "ambiguous_alias"
code_text unknown_repository = "unknown_repository"
code_text unknown_service = "unknown_service"
code_text incomplete_source = "incomplete_source"
code_text authorization_denied = "authorization_denied"
code_text cancelled = "cancelled"
code_text invalid_review = "invalid_review"
code_text review_unauthorized = "review_unauthorized"
code_text invalid_review_supersession = "invalid_review_supersession"
code_text suppression_unauthorized = "suppression_unauthorized"
code_text invalid_suppression = "invalid_suppression"
code_text invalid_corpus_case = "invalid_corpus_case"
code_text future_snapshot_leakage = "future_snapshot_leakage"
code_text invalid_sampling_probability = "invalid_sampling_probability"
code_text invalid_sampling_weight = "invalid_sampling_weight"
code_text invalid_corpus_measurement = "invalid_corpus_measurement"
code_text invalid_label_provenance = "invalid_label_provenance"
code_text empty_sampling_frame = "empty_sampling_frame"
code_text invalid_corpus_manifest = "invalid_corpus_manifest"
code_text invalid_mutation_import = "invalid_mutation_import"
code_text invalid_labeling_panel = "invalid_labeling_panel"
code_text adjudication_required = "adjudication_required"
code_text invalid_binomial = "invalid_binomial"
code_text required_case_unlabelled = "required_case_unlabelled"
code_text invalid_agreement_panel = "invalid_agreement_panel"
code_text non_frozen_simulation_input = "non_frozen_simulation_input"
code_text promotion_requires_simulation = "promotion_requires_simulation"
code_text unrecorded_promotion_policy = "unrecorded_promotion_policy"
code_text infrastructure_failure = "infrastructure_failure"
