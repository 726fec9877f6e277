-- ===== src/Config.antt =====
-- config.py: the settings of one process.
use wager.Prelude.{String, Bool}

pub record Settings (F : Type 0) : Type 0 where
  pub database_url : String
  pub llm_base_url : String
  pub llm_api_key : String
  pub llm_model : String
  pub google_service_account_file : String
  pub google_doc_id : String
  pub google_calendar_id : String
  pub slack_bot_token : String
  pub slack_signing_secret : String
  pub slack_channel_id : String
  pub pm_slack_user_id : String
  pub github_token : String
  pub github_repo : String
  pub posthog_host : String
  pub posthog_project_id : String
  pub posthog_personal_api_key : String
  pub bet_tolerance_pp : F
  pub demo_mode : Bool
