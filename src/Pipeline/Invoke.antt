-- ===== src/Pipeline/Invoke.antt =====
-- `graph.invoke(…)` as the callers see it: LangGraph, which is not code of the repository, ends a run that
-- reached an interrupt with the payload under `__interrupt__`; any other exception passes through.
use wager.Prelude.{String, List}
use wager.Prelude.Int.{ℤ}
use wager.Models.{Uuid}
use wager.Errors.{Exception, graph_interrupt}
use wager.Exec.{Result, ok, err, None}
use wager.World.{Action}
use wager.State.{BetState}

pub data Run (F : Type 0) : Type 0 where
  interrupted : Uuid → List String → ℤ → Run F
  finished : BetState F → Run F

-- The Postgres checkpointer: `_saver()` with its `setup()`, and the resumption of a thread with the index
-- in `Command(resume={"chosen_option_index": …})`, which gives the values of the state.
pub record Checkpointer (F : Type 0) : Type 0 where
  pub setup : Action F None
  pub resume : Uuid → ℤ → Action F (BetState F)

module _ {F : Type 0} where
  abbrev pub run_of_exception : Exception → Result (Run F)
  run_of_exception (graph_interrupt bet options index) = ok (interrupted bet options index)
  run_of_exception e = err e

  abbrev pub run_of : Result (BetState F) → Result (Run F)
  run_of (ok s) = ok (finished s)
  run_of (err e) = run_of_exception e

  abbrev pub invoke : Action F (BetState F) → Action F (Run F)
  invoke m w = (run_of (m w).0, (m w).1)
