-- ===== src/Pipeline/Logs.antt =====
-- nodeutil.py: the log lines of the nodes that `add_node_checked` registers, one for each time that a node
-- runs. `duration_ms` is left out. `Graphs` has the same nodes without their lines.
pub mod Traces
use wager.Prelude.{String, Bool, ◌||◌, Option, none, List, [], ◌∷◌, ◌++◌, if◌then◌else◌}
use wager.Errors.{Exception, is_pipeline_error, is_integration_error, is_graph_bubble_up}
use wager.Exec.{Result, ok, err}
use wager.World.{World}
use wager.State.{BetState, NodeFn}
use wager.Pipeline.Graphs.{translate}

-- The context variables.
pub record Context : Type 0 where
  pub bet_id_ctx : Option String
  pub run_id_ctx : Option String

abbrev pub default_context : Context
default_context = record { bet_id_ctx = none; run_id_ctx = none }

pub record LogLine : Type 0 where
  pub bet_id : Option String
  pub run_id : Option String
  pub node : String
  pub status : String

-- `_structured_log`.
abbrev pub structured_log : Context → String → String → LogLine
structured_log ctx node status = record {
  bet_id = ctx.bet_id_ctx;
  run_id = ctx.run_id_ctx;
  node = node;
  status = status;
}

-- The status that the `except` clauses log, in their order.
unfoldable pub error_status : Exception → String
error_status e =
    if is_pipeline_error e || is_integration_error e
    then "error"
    else if is_graph_bubble_up e
    then "interrupt"
    else "error"

abbrev pub log_status : {A : Type 0} → Result A → String
log_status (ok a) = "ok"
log_status (err e) = error_status e

-- What a run returns, the world after it, and the lines that it logs.
abbrev pub Logged : Type 0 → Type 0
Logged F = (Result (BetState F) × World F) × List LogLine

module _ {F : Type 0} where
  -- The function `wrapped` that `add_node_checked` makes of a node.
  unfoldable pub wrapped : Context → String → NodeFn F → BetState F → World F → Logged F
  wrapped ctx name fn state w =
      (translate name (fn state w), structured_log ctx name (log_status (fn state w).0) ∷ [])

  abbrev pub then_run : Logged F → (BetState F → World F → Logged F) → Logged F
  then_run ((ok state, w), lines) rest = let r = rest state w in (r.0, lines ++ r.1)
  then_run ((err e, w), lines) rest = ((err e, w), lines)

  -- The nodes of a graph in the order of its edges.
  unfoldable pub run_wrapped : Context → List (String × NodeFn F) → BetState F → World F → Logged F
  run_wrapped ctx [] state w = ((ok state, w), [])
  run_wrapped ctx ((name, fn) ∷ nodes) state w =
      then_run (wrapped ctx name fn state w) (run_wrapped ctx nodes)
