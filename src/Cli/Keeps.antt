-- ===== src/Cli/Keeps.antt =====
-- The commands under an invariant of the database that the writes of the store keep.
use wager.Prelude.{String, Option, none, some}
use wager.Prelude.Int.{ℤ}
use wager.Models.{Uuid, Date, BetRow}
use wager.Floats.{Floats}
use wager.Db.{Db}
use wager.World.{World, with_conn}
use wager.World.Keeps.{Keeps, Keeps-bind, keeps_rules}
use wager.Store.{create_bet}
use wager.Store.Reads.{compute_calibration}
use wager.Pipeline.Restarts.{KeepsRuns}
use wager.Pipeline.Runs.{run_due_reviews-Keeps, get_bet_graph-Keeps, calibration-Keeps}
use wager.Pipeline.Invoke.{Checkpointer}
use wager.Api.Keeps.{IsCheckpointer, insert_new_bet-Keeps, setup-Keeps, resume-Keeps}
use wager.Cli.Phase1 as Phase1
use wager.Cli.Phase1.{confirm_run, run_bet, new_run}
use wager.Cli.Reviews as Reviews
use wager.Cli.Show as Show
use wager.Cli.Show.{bet_graph, read_bet}
use wager.Cli.Commands.{
  CliCommand, run_phase1, confirm, check_due_reviews, calibration, show_bet, run_command,
}

module _ {F : Type 0} {Q : Db F → Type 0} where
  bet_graph-Keeps : (i : Uuid) (r : Option (BetRow F)) → Keeps Q (bet_graph i r)
  bet_graph-Keeps i none = search keeps_rules
  bet_graph-Keeps i (some r) = search (keeps_rules, get_bet_graph-Keeps)

  read_bet-Keeps : (i : Uuid) → Keeps Q (read_bet i)
  read_bet-Keeps i = search (keeps_rules, bet_graph-Keeps) depth 9

module _ {F : Type 0} ⦃fl : Floats F⦄ {Q : Db F → Type 0} (k : KeepsRuns Q)
    (created : (i : Uuid) (doc : String) (d : Date) (pm : String) → Keeps Q (create_bet i doc d pm))
    (saver : Checkpointer F) (langgraph : IsCheckpointer saver) where
  confirm_run-Keeps : (bet : Uuid) (option : ℤ) → Keeps Q (confirm_run saver bet option)
  confirm_run-Keeps bet option =
      Keeps-bind _ _ (setup-Keeps k created saver langgraph)
        (λ _. record { at = λ w h. (resume-Keeps k created saver langgraph bet option).at w h })

  module _ (p q : String) where
    run_bet-Keeps : (bet : Uuid) (doc : String) → Keeps Q (run_bet saver p q bet doc)
    run_bet-Keeps bet doc = Keeps-bind _ _ (insert_new_bet-Keeps k created bet doc) λ _.
        Keeps-bind _ _ (setup-Keeps k created saver langgraph) λ _.
          Keeps-bind _ _ (search keeps_rules) λ today.
            Keeps-bind _ _ (record { at = λ w h. (k.graphs.start p q _).at w h })
              λ run. search keeps_rules

    new_run-Keeps : (doc : Option String) → Keeps Q (new_run saver p q doc)
    new_run-Keeps doc = search (keeps_rules, run_bet-Keeps) depth 9

    pub run_command-Keeps :
        (c : CliCommand) (w : World F) → Q w.db → Q (run_command saver p q c w).1.db
    unfolding run_command Phase1.run_phase1 Phase1.confirm Reviews.check_due_reviews Show.show_bet
        Show.calibration
    run_command-Keeps (run_phase1 doc) w h = (new_run-Keeps doc).at w h
    run_command-Keeps (confirm bet option) w h = (confirm_run-Keeps bet option).at w h
    run_command-Keeps check_due_reviews w h = (run_due_reviews-Keeps k.graphs).at w h
    run_command-Keeps (show_bet bet) w h = (read_bet-Keeps {Q = Q} bet).at w h
    run_command-Keeps calibration w h =
        let kept : Keeps Q (with_conn compute_calibration) =
          search (keeps_rules, calibration-Keeps) in
        kept.at w h
