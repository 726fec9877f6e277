-- ===== src/Cli/Commands.antt =====
-- The commands of `app` in cli.py, by their names.
use wager.Prelude.{String, Option}
use wager.Prelude.Int.{ℤ}
use wager.Models.{Uuid}
use wager.Floats.{Floats}
use wager.Pipeline.Invoke.{Checkpointer}
use wager.Cli.{Command}
use wager.Cli.Phase1 as Phase1
use wager.Cli.Reviews as Reviews
use wager.Cli.Show as Show

pub data CliCommand : Type 0 where
  run_phase1 : Option String → CliCommand
  confirm : Uuid → ℤ → CliCommand
  check_due_reviews calibration : CliCommand
  show_bet : Uuid → CliCommand

module _ {F : Type 0} ⦃fl : Floats F⦄ (saver : Checkpointer F)
    (facts_prompt reasoning_prompt : String) where
  unfoldable pub run_command : CliCommand → Command F
  run_command (run_phase1 doc_id) = Phase1.run_phase1 saver facts_prompt reasoning_prompt doc_id
  run_command (confirm bet option) = Phase1.confirm saver bet option
  run_command check_due_reviews = Reviews.check_due_reviews
  run_command (show_bet bet) = Show.show_bet bet
  run_command calibration = Show.calibration
