-- ===== src/Pipeline/Quiet.antt =====
-- The nodes of phase 2 on a state without an issue send no comment.
use wager.Prelude.{String, Bool, Option, none, some, refl, ◌≡◌}
use wager.Models.{Uuid, Source, DataFlag}
use wager.Exec.{Result}
use wager.Floats.{Floats}
use wager.Db.{Outcome}
use wager.World.{
  Reply, answered, raised, Http, timed_out, failed, response, send, posted_text, ran_query,
}
use wager.World.Quiet.{Quiet, quiet_rules, Quiet-send}
use wager.Sql.{insert_node, insert_edge, insert_outcome, update_bet, update_node}
use wager.Models.{GraphNode, GraphEdge, BetRow}
use wager.Store.{append_flag}
use wager.Store.Decisions.{record_outcome, write_outcome}
use wager.Store.Reads.{get_bet_graph, compute_calibration, due_bets}
use wager.Integrations.Slack.{post_result, post_report}
use wager.Integrations.Posthog.{read_cell, read_metric, run_hogql}
use wager.State.{BetState}
use wager.Pipeline.Review.{
  load_bet, after_query, fetch_metric, weakest_assumption, delivery_flags, comment_flags, grade,
  compare_fetched, compare_outcome, update_calibration, lift, report_outcome,
}

module _ {F : Type 0} where
  insert_node-Quiet : (n : GraphNode F) → Quiet (insert_node n)
  unfolding insert_node
  insert_node-Quiet n = search quiet_rules depth 8

  insert_edge-Quiet : (e : GraphEdge) → Quiet {F = F} (insert_edge e)
  unfolding insert_edge
  insert_edge-Quiet e = search quiet_rules depth 8

  insert_outcome-Quiet : (o : Outcome F) → Quiet (insert_outcome o)
  unfolding insert_outcome
  insert_outcome-Quiet o = search quiet_rules depth 8

  update_bet-Quiet : (i : Uuid) (f : BetRow F → BetRow F) → Quiet (update_bet i f)
  unfolding update_bet
  update_bet-Quiet i f = record { at = λ c w h. h }

  update_node-Quiet : (i : Uuid) (f : GraphNode F → GraphNode F) → Quiet (update_node i f)
  unfolding update_node
  update_node-Quiet i f = record { at = λ c w h. h }

  append_flag-Quiet : (i : Uuid) (f : DataFlag) → Quiet {F = F} (append_flag i f)
  unfolding append_flag
  append_flag-Quiet i f = search (quiet_rules, update_bet-Quiet)

  get_bet_graph-Quiet : (i : Uuid) → Quiet {F = F} (get_bet_graph i)
  unfolding get_bet_graph
  get_bet_graph-Quiet i = search quiet_rules

  post_result-Quiet : (r : Reply (Unit {0})) → Quiet {F = F} (post_result r)
  post_result-Quiet (answered u) = search quiet_rules
  post_result-Quiet (raised e) = search quiet_rules

  text-Quiet : (t : String) → Quiet {F = F} (send (posted_text t))
  text-Quiet t = Quiet-send (posted_text t) refl

  query-Quiet : Quiet {F = F} (send ran_query)
  query-Quiet = Quiet-send ran_query refl

  post_report-Quiet : (t : String) → Quiet {F = F} (post_report t)
  unfolding post_report
  post_report-Quiet t = search (quiet_rules, text-Quiet, post_result-Quiet)

  read_cell-Quiet : (r : Reply F) → Quiet (read_cell r)
  read_cell-Quiet (answered x) = search quiet_rules
  read_cell-Quiet (raised e) = search quiet_rules

  read_metric-Quiet : (r : Http F) → Quiet (read_metric r)
  read_metric-Quiet (timed_out e) = search quiet_rules
  read_metric-Quiet (failed e) = search quiet_rules
  read_metric-Quiet (response status body) = search (quiet_rules, read_cell-Quiet)

  run_hogql-Quiet : (q : Option String) → Quiet {F = F} (run_hogql q)
  unfolding run_hogql
  run_hogql-Quiet q = search (quiet_rules, query-Quiet, read_metric-Quiet)

  pub load_bet-Quiet : (s : BetState F) → Quiet (load_bet s)
  unfolding load_bet
  load_bet-Quiet s = search (quiet_rules, get_bet_graph-Quiet) depth 9

  after_query-Quiet :
      (e : Option DataFlag) (v : Option F) (s : BetState F) → Quiet (after_query e v s)
  after_query-Quiet (some e) v s = search (quiet_rules, append_flag-Quiet)
  after_query-Quiet none v s = search quiet_rules

  pub fetch_metric-Quiet : (s : BetState F) → Quiet (fetch_metric s)
  unfolding fetch_metric
  fetch_metric-Quiet s = search (quiet_rules, run_hogql-Quiet, after_query-Quiet)

  weakest_assumption-Quiet : (s : BetState F) → Quiet (weakest_assumption s)
  unfolding weakest_assumption
  weakest_assumption-Quiet s = search (quiet_rules, get_bet_graph-Quiet)

  delivery_flags-Quiet :
      (s : Source) (p : String) (e : Option DataFlag) → Quiet {F = F} (delivery_flags s p e)
  delivery_flags-Quiet s p none = search quiet_rules
  delivery_flags-Quiet s p (some e) = search quiet_rules

  -- Without an issue there is no comment.
  comment_flags-Quiet :
      (u : Option String) (t : String) → u ≡ none → Quiet {F = F} (comment_flags u t)
  comment_flags-Quiet none t missing = search quiet_rules
  comment_flags-Quiet (some u) t missing = cc

  lift-Quiet : {A : Type 0} (r : Result A) → Quiet {F = F} (lift r)
  lift-Quiet r = record { at = λ c w h. h }

  pub due_bets-Quiet : (demo : Bool) → Quiet {F = F} (due_bets demo)
  unfolding due_bets
  due_bets-Quiet demo = search quiet_rules depth 8

module _ {F : Type 0} ⦃fl : Floats F⦄ where
  calibration-Quiet : Quiet {F = F} compute_calibration
  unfolding compute_calibration
  calibration-Quiet = search quiet_rules

  pub update_calibration-Quiet : (s : BetState F) → Quiet (update_calibration s)
  unfolding update_calibration
  update_calibration-Quiet s = search (quiet_rules, calibration-Quiet)

  pub report_outcome-Quiet : (s : BetState F) → s.github_issue_url ≡ none → Quiet (report_outcome s)
  unfolding report_outcome
  report_outcome-Quiet s missing =
      search
        (
          quiet_rules,
          lift-Quiet,
          weakest_assumption-Quiet,
          calibration-Quiet,
          post_report-Quiet,
          delivery_flags-Quiet,
          comment_flags-Quiet s.github_issue_url _ missing,
        )
        depth 14

  record_outcome-Quiet :
      (i h : Uuid) (a p : F) (b : Bool) (t : String) → Quiet (record_outcome i h a p b t)
  unfolding record_outcome
  record_outcome-Quiet i h a p b t =
      search
        (
          quiet_rules, insert_node-Quiet, insert_edge-Quiet, insert_outcome-Quiet,
          update_node-Quiet, update_bet-Quiet,
        )
        depth 14

  write_outcome-Quiet :
      (i h : Uuid) (a p : F) (b : Bool) (t : String) → Quiet (write_outcome i h a p b t)
  unfolding write_outcome
  write_outcome-Quiet i h a p b t = search (quiet_rules, record_outcome-Quiet)

  grade-Quiet : (a : F) (p : Option F) (s : BetState F) → Quiet (grade a p s)
  grade-Quiet a none s = search quiet_rules
  grade-Quiet a (some p) s = search (quiet_rules, write_outcome-Quiet) depth 8

  compare_fetched-Quiet : (a : Option F) (s : BetState F) → Quiet (compare_fetched a s)
  compare_fetched-Quiet none s = search quiet_rules
  compare_fetched-Quiet (some a) s = grade-Quiet a _ s

  pub compare_outcome-Quiet : (s : BetState F) → Quiet (compare_outcome s)
  unfolding compare_outcome
  compare_outcome-Quiet s = compare_fetched-Quiet _ s
