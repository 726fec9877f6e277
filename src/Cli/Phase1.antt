-- ===== src/Cli/Phase1.antt =====
-- The commands `run-phase1` and `confirm` of cli.py.
use wager.Prelude.{
  ℕ, suc, String, Bool, false, ◌==◌, Option, List, [], ◌∷◌, ◌++◌, concat, show_ℕ, show_uuid,
  if◌then◌else◌,
}
use wager.Prelude.Int.{ℤ, pos, negsuc}
use wager.Prelude.Dates.{iso_date}
use wager.Models.{Uuid}
use wager.Errors.{Exception, is_empty_extraction, is_integration_error}
use wager.Errors.Formats.{Formats, exception_text}
use wager.Exec.{Result, ok, err, pure, ◌>>=◌, ◌>>◌}
use wager.Floats.{Floats}
use wager.World.{Action, get_settings, draw_uuid}
use wager.State.{BetState, create_initial_state}
use wager.Pipeline.Graphs.{attempt, phase1}
use wager.Pipeline.Invoke.{Run, interrupted, finished, Checkpointer, invoke}
use wager.Api.Phase1.{or_default, get_today, insert_new_bet}
use wager.Cli.{Output, Command, returned, refused, crash, or_none}

abbrev is_index : ℕ → ℤ → Bool
is_index i (pos n) = i == n
is_index i (negsuc n) = false

-- `for i, option in enumerate(value["options"])`, from an index on.
unfoldable option_lines : ℕ → ℤ → List String → List String
option_lines i proposed [] = []
option_lines i proposed (option ∷ options) =
    concat
      ("  " ∷ (if is_index i proposed then "*" else " ") ∷ " (" ∷ show_ℕ i ∷ ") " ∷ option ∷ [])
    ∷ option_lines (suc i) proposed options

pub pending_lines : Uuid → List String → ℤ → List String
unfolding option_lines
pending_lines bet options proposed =
    concat ("bet " ∷ show_uuid bet ∷ " PENDING_CONFIRMATION" ∷ [])
      ∷ ""
      ∷ option_lines 0 proposed options
    ++ ""
      ∷ concat
          ("confirm with: python -m pm_agent.cli confirm " ∷ show_uuid bet ∷ " --option <i>" ∷ [])
      ∷ []

-- The `except` clauses of `run_phase1`.
abbrev pub run_failed : Formats → Exception → Output
run_failed f e =
    if is_empty_extraction e
    then refused "extraction produced no facts"
    else if is_integration_error e
    then refused (concat ("phase1 failed: " ∷ exception_text f e ∷ []))
    else crash e

module _ {F : Type 0} where
  -- What follows the `try` of `run_phase1`.
  unfoldable pub run_output : Formats → Uuid → Result (Run F) → Output
  run_output f bet (ok (interrupted _ options proposed)) =
      returned (pending_lines bet options proposed)
  run_output f bet (ok (finished s)) = returned []
  run_output f bet (err e) = run_failed f e

  -- The command: what is raised before the `try` is not caught.
  abbrev pub phase1_output : Formats → Result (Uuid × Result (Run F)) → Output
  phase1_output f (ok (bet, run)) = run_output f bet run
  phase1_output f (err e) = crash e

  unfoldable pub confirm_output : Formats → Result (Result (BetState F)) → Output
  confirm_output f (ok (ok s)) = returned (
      concat ("✅ Recorded. Bet tracked — I'll come back on " ∷ or_none iso_date s.review_date ∷ [])
      ∷ [])
  confirm_output f (ok (err e)) = refused (concat ("confirm failed: " ∷ exception_text f e ∷ []))
  confirm_output f (err e) = crash e

module _ {F : Type 0} (saver : Checkpointer F) where
  -- The command has no document of its own: the thread's state has it.
  abbrev pub confirm_run : Uuid → ℤ → Action F (Result (BetState F))
  confirm_run bet option = saver.setup >> attempt (saver.resume bet option)

  unfoldable pub confirm : Uuid → ℤ → Command F
  confirm bet option w = (
    confirm_output w.host.services.formats (confirm_run bet option w).0,
    (confirm_run bet option w).1,
  )

module _ {F : Type 0} ⦃fl : Floats F⦄ (saver : Checkpointer F)
    (facts_prompt reasoning_prompt : String) where
  abbrev pub run_bet : Uuid → String → Action F (Uuid × Result (Run F))
  run_bet bet doc = do
    insert_new_bet bet doc
    saver.setup
    today ← get_today
    run ←
        attempt (invoke (phase1 facts_prompt reasoning_prompt (create_initial_state bet doc today)))
    pure (bet, run)

  abbrev pub new_run : Option String → Action F (Uuid × Result (Run F))
  new_run doc_id = do
    settings ← get_settings
    bet ← draw_uuid
    run_bet bet (or_default doc_id settings.google_doc_id)

  unfoldable pub run_phase1 : Option String → Command F
  run_phase1 doc_id w =
      (phase1_output w.host.services.formats (new_run doc_id w).0, (new_run doc_id w).1)
