-- ===== src/State.antt =====
-- state.py: what one run of a graph carries from node to node. A node gives its new state: the keys
-- that it returns replaced, and its flags appended, as LangGraph merges them.
use wager.Prelude.{String, Option, none, List, [], ◌++◌}
use wager.Models.{Uuid, Date, DataFlag, GraphNode}
use wager.World.{Action}

pub record BetState (F : Type 0) : Type 0 where
  pub bet_id : Uuid
  pub doc_id : String
  pub meeting_date : Date
  pub raw_transcript : String
  pub facts : List (GraphNode F)
  pub assumptions : List (GraphNode F)
  pub hypotheses : List (GraphNode F)
  pub options : List (GraphNode F)
  pub proposed_option_id : Option Uuid
  pub chosen_option_id : Option Uuid
  pub decision_node_id : Option Uuid
  pub metric_name : Option String
  pub metric_query : Option String
  pub predicted_lift : Option F
  pub review_date : Option Date
  pub github_issue_url : Option String
  pub calendar_event_id : Option String
  pub actual_lift : Option F
  pub delta : Option F
  pub calibration_mean_abs_delta : Option F
  pub calibration_hit_rate : Option F
  pub flags : List DataFlag

abbrev pub NodeFn : Type 0 → Type 0
NodeFn F = BetState F → Action F (BetState F)

module _ {F : Type 0} where
  unfoldable pub create_initial_state : Uuid → String → Date → BetState F
  create_initial_state bet_id doc_id meeting_date = record {
    bet_id = bet_id;
    doc_id = doc_id;
    meeting_date = meeting_date;
    raw_transcript = "";
    facts = [];
    assumptions = [];
    hypotheses = [];
    options = [];
    proposed_option_id = none;
    chosen_option_id = none;
    decision_node_id = none;
    metric_name = none;
    metric_query = none;
    predicted_lift = none;
    review_date = none;
    github_issue_url = none;
    calendar_event_id = none;
    actual_lift = none;
    delta = none;
    calibration_mean_abs_delta = none;
    calibration_hit_rate = none;
    flags = [];
  }

  -- The reducer of the key `flags`.
  abbrev pub add_flags : BetState F → List DataFlag → BetState F
  add_flags s new = record s { flags = s.flags ++ new }
