-- ===== src/Errors/Formats.antt =====
-- The texts of Python's objects: `isoformat` and `fromisoformat` of datetime, `str(exc)` and `type(exc).__name__`. What Python and the libraries say of their own exceptions, and
-- `repr` of texts, is a parameter.
use wager.Prelude.{String, List, [], ◌∷◌, concat, show_uuid, Option}
use wager.Models.{Instant}
use wager.Prelude.Int.{show_ℤ}
use wager.Errors.{
  Reason, plain, bet_does_not_exist, bet_not_found, no_hypothesis_node, references_missing_node,
  invalid_bet_status, unknown_bet_fields, already_has_leads_to, option_not_found_for_bet,
  hypothesis_not_found_for_bet, chosen_option_not_found, invalid_chosen_option_index, ErrorCode,
  gdocs_failed, llm_failed, empty_extraction, bet_not_found_code, bad_signature, pipeline_failed,
  already_pending, internal_error, Exception, value_error, integration_error, llm_validation_error,
  empty_extraction_error, pipeline_error, api_error, foreign_error,
}

pub record Formats : Type 0 where
  -- f"{t!r}"
  pub repr : String → String
  -- f"{sorted(names)}"
  pub repr_sorted : List String → String
  -- Of an exception that is not one of the program's classes.
  pub text : Exception → String
  pub class_name : Exception → String
  -- `t.isoformat()`, and `datetime.fromisoformat(text)`, which raises on other texts (`none`).
  pub isoformat : Instant → String
  pub fromisoformat : String → Option Instant

-- `ErrorCode.value`.
unfoldable pub code_value : ErrorCode → String
code_value gdocs_failed = "gdocs_fetch_failed"
code_value llm_failed = "llm_failed"
code_value empty_extraction = "empty_extraction"
code_value bet_not_found_code = "bet_not_found"
code_value bad_signature = "bad_signature"
code_value pipeline_failed = "pipeline_error"
code_value already_pending = "already_pending"
code_value internal_error = "internal_error"

module _ (f : Formats) where
  unfoldable pub reason_text : Reason → String
  reason_text (plain t) = t
  reason_text (bet_does_not_exist i) = concat ("bet " ∷ show_uuid i ∷ " does not exist" ∷ [])
  reason_text (bet_not_found i) = concat ("bet " ∷ show_uuid i ∷ " not found" ∷ [])
  reason_text (no_hypothesis_node i) =
      concat ("bet " ∷ show_uuid i ∷ " has no HYPOTHESIS node" ∷ [])
  reason_text (references_missing_node a b) =
      concat ("edge " ∷ show_uuid a ∷ " -> " ∷ show_uuid b ∷ " references a missing node" ∷ [])
  reason_text (invalid_bet_status t) = concat ("invalid bet status " ∷ f.repr t ∷ [])
  reason_text (unknown_bet_fields ks) = concat ("unknown bet fields: " ∷ f.repr_sorted ks ∷ [])
  reason_text (already_has_leads_to i) =
      concat ("bet " ∷ show_uuid i ∷ " already has a leads_to edge (decision written)" ∷ [])
  reason_text (option_not_found_for_bet o i) =
      concat ("chosen option " ∷ show_uuid o ∷ " not found for bet " ∷ show_uuid i ∷ [])
  reason_text (hypothesis_not_found_for_bet h i) =
      concat ("hypothesis " ∷ show_uuid h ∷ " not found for bet " ∷ show_uuid i ∷ [])
  reason_text (chosen_option_not_found i) =
      concat ("chosen option " ∷ show_uuid i ∷ " not found" ∷ [])
  reason_text (invalid_chosen_option_index i) =
      concat ("invalid chosen_option_index " ∷ show_ℤ i ∷ [])

  unfoldable pub class_name : Exception → String
  class_name (value_error r) = "ValueError"
  class_name (integration_error r) = "IntegrationError"
  class_name (llm_validation_error t) = "LLMValidationError"
  class_name (empty_extraction_error t) = "EmptyExtractionError"
  class_name (pipeline_error p e) = "PipelineError"
  class_name (api_error c t n) = "ApiError"
  class_name e = f.class_name e

  unfoldable pub exception_text : Exception → String
  unfolding reason_text class_name code_value
  exception_text (value_error r) = reason_text r
  exception_text (integration_error r) = reason_text r
  exception_text (llm_validation_error t) = t
  exception_text (empty_extraction_error t) = t
  exception_text (pipeline_error phase cause) =
      concat ("[" ∷ phase ∷ "] " ∷ class_name cause ∷ ": " ∷ exception_text cause ∷ [])
  exception_text (api_error code message status) =
      concat ("[" ∷ code_value code ∷ "] " ∷ message ∷ [])
  exception_text (foreign_error t) = t
  exception_text e = f.text e
