-- ===== src/Cli/History.antt =====
-- Sequences of API requests and commands, each by a process with its own settings, services and clock.
-- Requests that are served at the same time are not covered.
use wager.Prelude.{String, List, [], ◌∷◌}
use wager.Models.{Uuid, Date}
use wager.Floats.{Floats}
use wager.Db.{Db}
use wager.World.{World, Host}
use wager.World.Keeps.{Keeps}
use wager.Sql.Keys.{IsWellFormed}
use wager.Store.{create_bet}
use wager.Store.Integrity.{create_bet-IsWellFormed}
use wager.Store.Attest.{DecidedOnce}
use wager.Pipeline.Restarts.{KeepsRuns, runs-Keeps}
use wager.Pipeline.History.{writes-IsWellFormed}
use wager.Pipeline.Attestation.{writes-DecidedOnce, create_bet-DecidedOnce}
use wager.Pipeline.Invoke.{Checkpointer}
use wager.Api.Serve.{HttpRequest, serve}
use wager.Api.Keeps.{IsCheckpointer, serve-Keeps}
use wager.Cli.Commands.{CliCommand, run_command}
use wager.Cli.Keeps.{run_command-Keeps}

pub data Use : Type 0 where
  served : HttpRequest → Use
  entered : CliCommand → Use

module _ {F : Type 0} ⦃fl : Floats F⦄ (saver : Checkpointer F)
    (facts_prompt reasoning_prompt : String) where
  unfoldable pub run_use : Use → World F → World F
  run_use (served r) w = (serve saver facts_prompt reasoning_prompt r w).1
  run_use (entered c) w = (run_command saver facts_prompt reasoning_prompt c w).1

  unfoldable pub run_uses : List (Host F × Use) → World F → World F
  run_uses [] w = w
  run_uses ((h, u) ∷ us) w = run_uses us (run_use u (record w { host = h }))

module _ {F : Type 0} ⦃fl : Floats F⦄ (saver : Checkpointer F) (langgraph : IsCheckpointer saver)
    (facts_prompt reasoning_prompt : String) where
  -- An invariant that the writes of the store and a new bet keep.
  module _ {Q : Db F → Type 0} (k : KeepsRuns Q)
      (created : (i : Uuid) (doc : String) (d : Date) (pm : String)
        → Keeps Q (create_bet i doc d pm)) where
    run_use-Keeps :
        (u : Use) (w : World F) → Q w.db → Q (run_use saver facts_prompt reasoning_prompt u w).db
    unfolding run_use
    run_use-Keeps (served r) w h =
        serve-Keeps k created saver langgraph facts_prompt reasoning_prompt r w h
    run_use-Keeps (entered c) w h =
        run_command-Keeps k created saver langgraph facts_prompt reasoning_prompt c w h

    run_uses-Keeps :
        (us : List (Host F × Use)) (w : World F)
        → Q w.db
        → Q (run_uses saver facts_prompt reasoning_prompt us w).db
    unfolding run_uses
    run_uses-Keeps [] w h = h
    run_uses-Keeps ((host, u) ∷ us) w h =
        run_uses-Keeps us _ (run_use-Keeps u (record w { host = host }) h)

  -- Whatever sequence of API requests and commands is served, with whatever services and clocks,
  -- the primary keys of the four tables stay unique and every foreign key has its row if this
  -- holds at the start, provided that the checkpointer keeps to its own tables, and that a
  -- resumption runs consecutive nodes of phase 1, from whichever node the run had stopped at and
  -- with whatever saved state.
  pub run_uses-IsWellFormed :
      (us : List (Host F × Use)) (w : World F)
      → IsWellFormed w.db
      → IsWellFormed (run_uses saver facts_prompt reasoning_prompt us w).db
  run_uses-IsWellFormed = run_uses-Keeps (runs-Keeps writes-IsWellFormed) create_bet-IsWellFormed

  -- Whatever sequence of API requests and commands is served, with whatever services and clocks, a
  -- bet has at most one edge to an attested decision if it has at most one at the start, provided
  -- that the checkpointer keeps to its own tables, and that a resumption runs consecutive nodes of
  -- phase 1, from whichever node the run had stopped at and with whatever saved state.
  pub run_uses-DecidedOnce :
      (i : Uuid) (us : List (Host F × Use)) (w : World F)
      → DecidedOnce i w.db
      → DecidedOnce i (run_uses saver facts_prompt reasoning_prompt us w).db
  run_uses-DecidedOnce i =
      run_uses-Keeps (runs-Keeps (writes-DecidedOnce i)) (create_bet-DecidedOnce i)
