-- ===== src/Api.antt =====
-- api/: the HTTP routes. The framework, which is not code of the repository, calls a route with the parsed
-- request, turns what it raises into a response by the registered handlers, and runs a route's background
-- task after its response.
pub mod Phase1
pub mod Webhook
pub mod Reads
pub mod Reviews
pub mod Serve
pub mod Middleware
pub mod Agreement
pub mod Forgery
pub mod Keeps
pub mod Sync
pub mod Starts
use wager.Prelude.{ℕ, String, Option, List, Bool}
use wager.Prelude.Int.{ℤ}
use wager.Models.{Uuid, Date, NodeType, NodeStatus, EdgeType}
use wager.Errors.{Exception, ErrorCode, api_error, pipeline_error, pipeline_failed, internal_error}
use wager.Errors.Formats.{Formats, code_value, exception_text}
use wager.Exec.{Result, ok, err}

-- The dictionaries that the routes return, by their keys.
pub record NodePage (F : Type 0) : Type 0 where
  pub id : Uuid
  pub kind : NodeType
  pub content : String
  pub confidence : Option F
  pub source : String
  pub status : NodeStatus

pub record EdgePage : Type 0 where
  pub from_node : Uuid
  pub to_node : Uuid
  pub edge_type : EdgeType

pub record OutcomePage (F : Type 0) : Type 0 where
  pub actual_lift : F
  pub delta : F
  pub within_tolerance : Bool

pub record BetPage (F : Type 0) : Type 0 where
  pub id : Uuid
  pub status : String
  pub metric_name : Option String
  pub predicted_lift : Option F
  pub review_date : Option Date
  pub nodes : List (NodePage F)
  pub edges : List EdgePage
  pub outcome : Option (OutcomePage F)

pub record CalibrationPage (F : Type 0) : Type 0 where
  pub mean_abs_delta : Option F
  pub hit_rate : Option F
  pub n_resolved : ℕ
  pub tolerance_pp : F

-- `{"checked": …, "resolved": [bet ids], "flagged": [{"bet_id": …, "flags": […]}]}`
pub record ReviewsPage : Type 0 where
  pub checked_bets : ℕ
  pub resolved : List Uuid
  pub flagged : List (Uuid × List String)

pub data Body (F : Type 0) : Type 0 where
  -- `{"error": {"code": …, "message": …}}`
  error_body : String → String → Body F
  healthy : Body F
  -- `{"bet_id": …, "status": …}`
  started : Uuid → String → Body F
  -- The same with the options and the proposed index.
  pending : Uuid → String → List String → ℤ → Body F
  -- `{"text": …}`
  message : String → Body F
  reviews : ReviewsPage → Body F
  bet_page : BetPage F → Body F
  calibration_page : CalibrationPage F → Body F

pub record Response (F : Type 0) : Type 0 where
  pub status : ℕ
  pub body : Body F

module _ {F : Type 0} where
  -- `register_error_handlers`: the handler of the exception's class.
  unfoldable pub handle : Formats → Exception → Response F
  handle f (api_error code text status) = record {
    status = status;
    body = error_body (code_value code) text;
  }
  handle f (pipeline_error phase cause) = record {
    status = 500;
    body = error_body (code_value pipeline_failed) (exception_text f (pipeline_error phase cause));
  }
  handle f e = record {
    status = 500;
    body = error_body (code_value internal_error) (exception_text f e);
  }

  -- A route with the status of its success.
  abbrev pub respond : Formats → ℕ → Result (Body F) → Response F
  respond f status (ok body) = record { status = status; body = body }
  respond f status (err e) = handle f e
