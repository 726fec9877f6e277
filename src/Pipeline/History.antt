-- ===== src/Pipeline/History.antt =====
-- Whole histories of the database: calls of both graphs, one after another, each with the settings, the
-- services and the clock of its own process. Runs that overlap in time are not covered.
use wager.Prelude.{String, List, [], ◌∷◌}
use wager.Prelude.Int.{ℤ}
use wager.Models.{Uuid, Date}
use wager.Floats.{Floats}
use wager.Db.{Db}
use wager.World.{World, Host, Action, with_conn}
use wager.World.Keeps.{Keeps, keeps_rules}
use wager.Sql.Keys.{IsWellFormed}
use wager.Store.{create_bet}
use wager.Store.Integrity.{
  insert_nodes-IsWellFormed, insert_edges-IsWellFormed, create_bet-IsWellFormed,
  update_bet_status-IsWellFormed, append_flag-IsWellFormed, update_bet_fields-IsWellFormed,
  write_decision-IsWellFormed, write_outcome-IsWellFormed,
}
use wager.Store.Attest.{DecidedOnce}
use wager.State.{BetState}
use wager.Pipeline.Writes.{KeepsWrites}
use wager.Pipeline.Graphs.{phase1, phase1_resume, phase2, run_due_reviews}
use wager.Pipeline.Runs.{KeepsGraphs, graphs-Keeps, run_due_reviews-Keeps}
use wager.Store.Typed.{IsTyped}
use wager.Store.Typed.Writes.{create_bet-IsTyped}
use wager.Pipeline.Typed.Graphs.{graphs-IsTyped}
use wager.Pipeline.Attestation.{writes-DecidedOnce, create_bet-DecidedOnce}

-- What a caller does: a bet's row, a run of phase 1, its resumption with an index, a run of phase 2,
-- and the review of all due bets. A state is whatever LangGraph has saved.
pub data Event (F : Type 0) : Type 0 where
  create : Uuid → String → Date → String → Event F
  start : String → String → BetState F → Event F
  resume : ℤ → BetState F → Event F
  review_bet : BetState F → Event F
  review_due : Event F

-- The world after an action, with the draws and requests of the world it ran in.
abbrev pub after : {F A : Type 0} → Action F A → World F → World F
after m w = (m w).1

module _ {F : Type 0} ⦃fl : Floats F⦄ where
  unfoldable pub run_event : Event F → World F → World F
  run_event (create i doc date pm) = after (with_conn (create_bet i doc date pm))
  run_event (start facts_prompt reasoning_prompt s) = after (phase1 facts_prompt reasoning_prompt s)
  run_event (resume index s) = after (phase1_resume index s)
  run_event (review_bet s) = after (phase2 s)
  run_event review_due = after run_due_reviews

  -- Each event has the host of its process; the database is what they share.
  unfoldable pub run_history : List (Host F × Event F) → World F → World F
  run_history [] w = w
  run_history ((h, e) ∷ events) w = run_history events (run_event e (record w { host = h }))

  pub writes-IsWellFormed : KeepsWrites {F = F} IsWellFormed
  writes-IsWellFormed = record {
    drafts = record {
      nodes = λ ns _. insert_nodes-IsWellFormed ns;
      edges = λ es _. insert_edges-IsWellFormed es;
      rows = record {
        status = update_bet_status-IsWellFormed;
        flag = append_flag-IsWellFormed;
        fields = update_bet_fields-IsWellFormed;
      };
    };
    decision = write_decision-IsWellFormed;
    outcome = write_outcome-IsWellFormed;
  }

  module _ {Q : Db F → Type 0} (k : KeepsGraphs Q)
      (created : (i : Uuid) (doc : String) (d : Date) (pm : String)
        → Keeps Q (create_bet i doc d pm)) where
    create_event-Keeps :
        (i : Uuid) (doc : String) (d : Date) (pm : String)
        → Keeps Q (with_conn (create_bet i doc d pm))
    create_event-Keeps i doc d pm = search (keeps_rules, created)

    run_event-Keeps : (e : Event F) (w : World F) → Q w.db → Q (run_event e w).db
    unfolding run_event
    run_event-Keeps (create i doc d pm) w h = (create_event-Keeps i doc d pm).at w h
    run_event-Keeps (start p q s) w h = (k.start p q s).at w h
    run_event-Keeps (resume i s) w h = (k.resume i s).at w h
    run_event-Keeps (review_bet s) w h = (k.review s).at w h
    run_event-Keeps review_due w h = (run_due_reviews-Keeps k).at w h

    run_history-Keeps :
        (es : List (Host F × Event F)) (w : World F) → Q w.db → Q (run_history es w).db
    unfolding run_history
    run_history-Keeps [] w h = h
    run_history-Keeps ((host, e) ∷ es) w h = run_history-Keeps es _ (run_event-Keeps e _ h)

  -- In every history of created bets, runs, resumptions and reviews, with whatever replies of the
  -- services, the primary keys of the four tables stay unique and every edge and outcome refers to
  -- rows that exist, if this holds at the start.
  pub run_history-IsWellFormed :
      (es : List (Host F × Event F)) (w : World F)
      → IsWellFormed w.db
      → IsWellFormed (run_history es w).db
  run_history-IsWellFormed =
      run_history-Keeps (graphs-Keeps writes-IsWellFormed) create_bet-IsWellFormed

  -- In every history of created bets, runs, resumptions and reviews, a bet has at most one edge to
  -- an attested decision, if it has at most one at the start.
  pub run_history-DecidedOnce :
      (i : Uuid) (es : List (Host F × Event F)) (w : World F)
      → DecidedOnce i w.db
      → DecidedOnce i (run_history es w).db
  run_history-DecidedOnce i =
      run_history-Keeps (graphs-Keeps (writes-DecidedOnce i)) (create_bet-DecidedOnce i)

  -- In every history of created bets, runs of phase 1 from its start, resumptions at
  -- confirm_decision, and reviews, from whatever states and with whatever services and clocks,
  -- every edge joins nodes of the kinds that its type connects, if this holds at the start.
  pub run_history-IsTyped :
      (es : List (Host F × Event F)) (w : World F) → IsTyped w.db → IsTyped (run_history es w).db
  run_history-IsTyped = run_history-Keeps graphs-IsTyped create_bet-IsTyped
