-- ===== src/Pipeline/Graphs.antt =====
-- nodeutil.py, pipeline/phase1.py and pipeline/phase2.py: the nodes under `add_node_checked`, the two
-- graphs as sequences of nodes, and `run_due_reviews`. The log lines are those of `Logs`. LangGraph, which
-- is not code of the repository, runs the nodes in the order of the edges, and resumes an
-- interrupted run at the node that raised, with the state that was saved before it.
use wager.Prelude.{
  ℕ, ◌+◌, String, Bool, true, false, ◌||◌, Option, none, some, List, [], ◌∷◌, ◌++◌, if◌then◌else◌,
}
use wager.Prelude.Int.{ℤ}
use wager.Models.{DataFlag, Bet}
use wager.Errors.{
  Exception, pipeline_error, is_pipeline_error, is_integration_error, is_graph_bubble_up,
}
use wager.Exec.{Result, ok, err, pure, ◌>>=◌}
use wager.Floats.{Floats}
use wager.World.{World, Action, get_settings, with_conn}
use wager.Store.Reads.{due_bets}
use wager.State.{BetState, NodeFn, create_initial_state}
use wager.Pipeline.Extraction.{docs_intake, extract_facts, derive_reasoning}
use wager.Pipeline.Decision.{confirm_decision, write_decision}
use wager.Pipeline.Effects.{link_github, schedule_review}
use wager.Pipeline.Review.{
  load_bet, fetch_metric, compare_outcome, update_calibration, report_outcome,
}

-- What the `except` clauses of `wrapped` let through.
abbrev pub passes : Exception → Bool
passes e = (is_pipeline_error e || is_integration_error e) || is_graph_bubble_up e

abbrev pub translated : String → Exception → Exception
translated name e = if passes e then e else pipeline_error name e

module _ {F : Type 0} where
  abbrev pub translate : {A : Type 0} → String → Result A × World F → Result A × World F
  translate name (ok a, w) = (ok a, w)
  translate name (err e, w) = (err (translated name e), w)

  -- The node that `add_node_checked` registers.
  unfoldable pub checked : String → NodeFn F → NodeFn F
  checked name fn state w = translate name (fn state w)

  -- The nodes of a graph in the order of its edges, each with its name.
  unfoldable pub run_nodes : List (String × NodeFn F) → NodeFn F
  run_nodes [] state = pure state
  run_nodes ((name, fn) ∷ rest) state = do next ← checked name fn state; run_nodes rest next

  -- Phase 1 before the node that interrupts, with the two system prompts.
  abbrev pub extraction_nodes : String → String → List (String × NodeFn F)
  extraction_nodes facts_prompt reasoning_prompt =
      ("docs_intake", docs_intake)
      ∷ ("extract_facts", extract_facts facts_prompt)
      ∷ ("derive_reasoning", derive_reasoning reasoning_prompt)
      ∷ []

module _ {F : Type 0} ⦃fl : Floats F⦄ where
  -- Phase 1 from the node that interrupts: not yet resumed, or resumed with an index.
  abbrev pub decision_nodes : Option ℤ → List (String × NodeFn F)
  decision_nodes resume =
      ("confirm_decision", confirm_decision resume)
      ∷ ("write_decision", write_decision)
      ∷ ("link_github", link_github)
      ∷ ("schedule_review", schedule_review)
      ∷ []

  -- `graph.invoke(state, …)` of phase 1, and the resumption of a saved state.
  unfoldable pub phase1 : String → String → NodeFn F
  phase1 facts_prompt reasoning_prompt state = do
    extracted ← run_nodes (extraction_nodes facts_prompt reasoning_prompt) state
    run_nodes (decision_nodes none) extracted

  -- All nodes of phase 1, for a run that goes on at any of them.
  abbrev pub phase1_nodes : String → String → Option ℤ → List (String × NodeFn F)
  phase1_nodes facts_prompt reasoning_prompt resume =
      extraction_nodes facts_prompt reasoning_prompt ++ decision_nodes resume

  unfoldable pub phase1_resume : ℤ → NodeFn F
  phase1_resume index = run_nodes (decision_nodes (some index))

  abbrev pub review_nodes : List (String × NodeFn F)
  review_nodes =
      ("load_bet", load_bet)
      ∷ ("fetch_metric", fetch_metric)
      ∷ ("compare_outcome", compare_outcome)
      ∷ ("update_calibration", update_calibration)
      ∷ ("report_outcome", report_outcome)
      ∷ []

  unfoldable pub phase2 : NodeFn F
  phase2 = run_nodes review_nodes

-- The `flag` of an entry: the text of an exception, or the message of a flag.
pub data FlagText : Type 0 where
  of_exception : Exception → FlagText
  of_message : String → FlagText

-- One entry of `results`.
pub record ReviewResult (F : Type 0) : Type 0 where
  pub metric_name : Option String
  pub predicted_lift : Option F
  pub actual_lift : Option F
  pub delta : Option F
  pub resolved : Bool
  pub flag : Option FlagText

pub record Summary (F : Type 0) : Type 0 where
  pub checked_bets : ℕ
  pub resolved : ℕ
  pub flagged : ℕ
  pub results : List (ReviewResult F)

abbrev pub is_set : {A : Type 0} → Option A → Bool
is_set none = false
is_set (some a) = true

abbrev first_message : List DataFlag → Option FlagText
first_message [] = none
first_message (f ∷ fs) = some (of_message f.message)

abbrev pub has_flags : List DataFlag → Bool
has_flags [] = false
has_flags (f ∷ fs) = true

module _ {F : Type 0} where
  abbrev pub empty_summary : Summary F
  empty_summary = record { checked_bets = 0; resolved = 0; flagged = 0; results = [] }

  -- The entry of a run that raised, and of one that returned its final state.
  abbrev pub failed_entry : Bet F → Exception → ReviewResult F
  failed_entry bet e = record {
    metric_name = bet.metric_name;
    predicted_lift = bet.predicted_lift;
    actual_lift = none;
    delta = none;
    resolved = false;
    flag = some (of_exception e);
  }

  abbrev pub final_entry : BetState F → ReviewResult F
  final_entry final = record {
    metric_name = final.metric_name;
    predicted_lift = final.predicted_lift;
    actual_lift = final.actual_lift;
    delta = final.delta;
    resolved = is_set final.delta;
    flag = first_message final.flags;
  }

  -- What one round of the loop adds for a bet, by how its run ended.
  unfoldable pub tally : Bet F → Result (BetState F) → Summary F → Summary F
  tally bet (err e) s = record s {
    flagged = s.flagged + 1;
    results = s.results ++ failed_entry bet e ∷ [];
  }
  tally bet (ok final) s = record {
    checked_bets = s.checked_bets + 1;
    resolved = (if is_set final.delta then s.resolved + 1 else s.resolved);
    flagged = (if has_flags final.flags then s.flagged + 1 else s.flagged);
    results = s.results ++ final_entry final ∷ [];
  }

  -- `try: … except Exception as exc`: the result as a value.
  abbrev pub attempt : {A : Type 0} → Action F A → Action F (Result A)
  attempt m w = (ok (m w).0, (m w).1)

module _ {F : Type 0} ⦃fl : Floats F⦄ where
  abbrev pub review : Bet F → Action F (BetState F)
  review bet = phase2 (create_initial_state bet.id bet.doc_id bet.meeting_date)

  unfoldable pub review_all : List (Bet F) → Summary F → Action F (Summary F)
  review_all [] s = pure s
  review_all (bet ∷ bets) s = do final ← attempt (review bet); review_all bets (tally bet final s)

  unfoldable pub run_due_reviews : Action F (Summary F)
  run_due_reviews = do
    settings ← get_settings
    bets ← with_conn (due_bets settings.demo_mode)
    review_all bets empty_summary
