-- ===== src/Errors.antt =====
-- errors.py, the ApiError of api/errors.py, and the exceptions of Python, psycopg and LangGraph that the
-- program meets.
pub mod Formats
use wager.Prelude.{ℕ, String, Bool, true, false, List}
use wager.Prelude.Int.{ℤ}
use wager.Models.{Uuid}

-- The text of an exception, with what the f-string puts in it.
pub data Reason : Type 0 where
  plain : String → Reason
  bet_does_not_exist bet_not_found no_hypothesis_node : Uuid → Reason
  references_missing_node : Uuid → Uuid → Reason
  invalid_bet_status : String → Reason
  unknown_bet_fields : List String → Reason
  already_has_leads_to : Uuid → Reason
  option_not_found_for_bet hypothesis_not_found_for_bet : Uuid → Uuid → Reason
  chosen_option_not_found : Uuid → Reason
  invalid_chosen_option_index : ℤ → Reason

-- A statement that Postgres refuses.
pub data Fault : Type 0 where
  unique_violation foreign_key_violation check_violation undefined_column bad_value : Fault

-- `class ErrorCode` of api/errors.py.
pub data ErrorCode : Type 0 where
  gdocs_failed llm_failed empty_extraction bet_not_found_code bad_signature pipeline_failed :
      ErrorCode
  already_pending internal_error : ErrorCode

pub data Exception : Type 0 where
  value_error : Reason → Exception
  index_error type_error overflow_error attribute_error : Exception
  key_error : String → Exception
  database_error : Fault → Exception
  -- What a third-party call raises.
  foreign_error : String → Exception
  integration_error : Reason → Exception
  llm_validation_error : String → Exception
  empty_extraction_error : String → Exception
  -- `PipelineError(phase, cause)`.
  pipeline_error : String → Exception → Exception
  -- `ApiError(code, message, status)`.
  api_error : ErrorCode → String → ℕ → Exception
  -- LangGraph's `GraphBubbleUp`, which `interrupt` raises: the options and the proposed index.
  graph_interrupt : Uuid → List String → ℤ → Exception

-- `except IntegrationError`: `LLMValidationError` is a subclass.
abbrev pub is_integration_error : Exception → Bool
is_integration_error (integration_error _) = true
is_integration_error (llm_validation_error _) = true
is_integration_error _ = false

abbrev pub is_pipeline_error : Exception → Bool
is_pipeline_error (pipeline_error _ _) = true
is_pipeline_error _ = false

abbrev pub is_graph_bubble_up : Exception → Bool
is_graph_bubble_up (graph_interrupt _ _ _) = true
is_graph_bubble_up _ = false

abbrev pub is_empty_extraction : Exception → Bool
is_empty_extraction (empty_extraction_error _) = true
is_empty_extraction _ = false

abbrev pub is_api_error : Exception → Bool
is_api_error (api_error _ _ _) = true
is_api_error _ = false
