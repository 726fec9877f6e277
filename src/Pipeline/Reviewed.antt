-- ===== src/Pipeline/Reviewed.antt =====
-- A review that grades its bet: the composition of the nodes of phase 2.
use wager.Prelude.{
  ℕ, suc, String, Bool, true, false, ◌==◌, ◌≡◌, refl, some, List, [], ◌∷◌, All, All-map-implies,
  arith,
}
use wager.Models.{Uuid, NodeType, GraphNode, BetRow, same_type}
use wager.Exec.{ok, ◌>>=◌}
use wager.Floats.{Floats}
use wager.Db.{Db, find_bet, has_node, has_edge, has_outcome}
use wager.Db.Rows.{has_bet_of_find_bet}
use wager.Db.Sorted.Order.{All-select, All-order_by}
use wager.World.{World, answered, response, ran_query}
use wager.World.Keeps.{Keeps, keeps_rules}
use wager.Store.Decisions.{has_bet_node}
use wager.Store.Outcomes.{graded_db}
use wager.Store.Reads.{node_key, bet_nodes, get_bet_graph}
use wager.Integrations.{is_error_status}
use wager.Integrations.Posthog.{run_hogql}
use wager.State.{BetState, NodeFn}
use wager.Pipeline.Review.{
  of_type, load_bet, fetch_metric, update_calibration, report_outcome, outcome_text, is_within,
}
use wager.Pipeline.Grading.{compare_outcome_lem}
use wager.Pipeline.Upkeep.{checked-Keeps}
use wager.Pipeline.Runs.{update_calibration-Keeps, report_outcome-Keeps}
use wager.Pipeline.Graphs.{checked, run_nodes, phase2}

module _ {F : Type 0} where
  -- A node of the table, where it is one of the bet.
  abbrev IsFound : Uuid → List (GraphNode F) → GraphNode F → Type 0
  IsFound i ns n = (i == n.bet_id) ≡ true → has_bet_node n.id i ns ≡ true

  nodes-IsFound : (i : Uuid) (ns : List (GraphNode F)) → All (IsFound i ns) ns
  nodes-IsFound i [] = tt
  nodes-IsFound i (n ∷ ns) = (
    λ of_bet. ground arith,
    All-map-implies {P = IsFound i ns} {Q = IsFound i (n ∷ ns)} ns
        (λ m found of_bet. let k = found of_bet in ground arith) (nodes-IsFound i ns),
  )

  -- What load_bet reads as hypotheses are nodes of the bet.
  hypotheses_found :
      (i : Uuid) (d : Db F)
      → All
          (λ n. has_bet_node n.id i d.nodes ≡ true)
          (of_type NodeType.hypothesis (bet_nodes i d.nodes))
  unfolding bet_nodes
  hypotheses_found i d =
      let found =
        All-select (IsFound i d.nodes) (λ n. has_bet_node n.id i d.nodes ≡ true)
          (λ n. i == n.bet_id) d.nodes (λ n known of_bet. known of_bet) (nodes-IsFound i d.nodes) in
      All-select (λ n. has_bet_node n.id i d.nodes ≡ true) (λ n. has_bet_node n.id i d.nodes ≡ true)
        (λ n. same_type n.kind NodeType.hypothesis) _ (λ n known _. known)
        (All-order_by node_key (λ n. has_bet_node n.id i d.nodes ≡ true) _ found)

  -- The state that load_bet makes of a row and the nodes of its bet.
  abbrev loaded : BetRow F → List (GraphNode F) → BetState F → BetState F
  loaded row nodes s = record s {
    meeting_date = row.meeting_date;
    doc_id = row.doc_id;
    metric_name = row.metric_name;
    metric_query = row.metric_query;
    predicted_lift = row.predicted_lift;
    review_date = row.review_date;
    facts = of_type NodeType.fact nodes;
    assumptions = of_type NodeType.assumption nodes;
    hypotheses = of_type NodeType.hypothesis nodes;
    options = of_type NodeType.option nodes;
  }

  load_bet_lem :
      (s : BetState F) (row : BetRow F) (h : GraphNode F) (hs : List (GraphNode F)) (w : World F)
      → find_bet s.bet_id w.db.bets ≡ some row
      → of_type NodeType.hypothesis (bet_nodes s.bet_id w.db.nodes) ≡ h ∷ hs
      → load_bet s w ≡ (ok (loaded row (bet_nodes s.bet_id w.db.nodes) s), w)
  unfolding load_bet get_bet_graph ◌>>=◌
  load_bet_lem s row h hs w found some_hypothesis = rw found (rw some_hypothesis refl)

  fetch_metric_answered :
      (s : BetState F) (a : F) (status : ℕ) (w : World F)
      → w.host.services.hogql s.metric_query ≡ response status (answered a)
      → is_error_status status ≡ false
      → fetch_metric s w
        ≡ (ok (record s { actual_lift = some a }), record w { sent = ran_query ∷ w.sent })
  unfolding fetch_metric run_hogql ◌>>=◌
  fetch_metric_answered s a status w reply fine = rw reply (rw fine refl)

module _ {F : Type 0} ⦃fl : Floats F⦄ where
  -- The two nodes after the grading write nothing.
  abbrev last_nodes : List (String × NodeFn F)
  last_nodes = ("update_calibration", update_calibration) ∷ ("report_outcome", report_outcome) ∷ []

  last_nodes-Keeps : {Q : Db F → Type 0} (s : BetState F) → Keeps Q (run_nodes last_nodes s)
  unfolding run_nodes
  last_nodes-Keeps s =
      search (keeps_rules, checked-Keeps, update_calibration-Keeps, report_outcome-Keeps) depth 9

  -- A review grades its bet: for a bet that exists, has a prediction and a hypothesis and no
  -- outcome, and fresh ids, if PostHog answers the query of the row with a number under a status
  -- below 400, then at the end of phase 2 the database is the one before with the grade of the
  -- first hypothesis recorded, and nothing else, however Slack and GitHub answer.
  pub phase2_grades :
      (s : BetState F) (row : BetRow F) (h : GraphNode F) (hs : List (GraphNode F)) (a p : F)
      (status : ℕ) (w : World F)
      → find_bet s.bet_id w.db.bets ≡ some row
      → row.predicted_lift ≡ some p
      → of_type NodeType.hypothesis (bet_nodes s.bet_id w.db.nodes) ≡ h ∷ hs
      → w.host.services.hogql row.metric_query ≡ response status (answered a)
      → is_error_status status ≡ false
      → has_outcome s.bet_id w.db.outcomes ≡ false
      → has_node (w.host.uuid4 w.draws) w.db.nodes ≡ false
      → has_edge (w.host.uuid4 (suc (suc w.draws))) w.db.edges ≡ false
      → (phase2 s w).1.db
        ≡ graded_db s.bet_id h.id a p
            (fl.leb (fl.abs (fl.sub a p)) w.host.settings.bet_tolerance_pp)
            (outcome_text a p (fl.sub a p))
            w
  unfolding phase2 run_nodes checked ◌>>=◌
  phase2_grades s row h hs a p status w found predicted hypotheses reply fine new fresh_node
        fresh_edge =
      let s1 : BetState F = loaded row (bet_nodes s.bet_id w.db.nodes) s in
      let s2 : BetState F = record s1 { actual_lift = some a } in
      let w2 : World F = record w { sent = ran_query ∷ w.sent } in
      let known : has_bet_node h.id s.bet_id w.db.nodes ≡ true =
        (rw hypotheses at (hypotheses_found s.bet_id w.db)).0 in
      let within : Bool = is_within w.host.settings.bet_tolerance_pp a p in
      let d2 : Db F = graded_db s.bet_id h.id a p within (outcome_text a p (fl.sub a p)) w in
      let w3 : World F = record w2 { db = d2; draws = suc (suc (suc (suc (suc w.draws)))) } in
      rw (load_bet_lem s row h hs w found hypotheses) (
        rw (fetch_metric_answered s1 a status w reply fine) (
          rw
            (compare_outcome_lem s2 h a p w2 refl predicted (rw hypotheses refl)
              (has_bet_of_find_bet s.bet_id row w.db.bets found) new known fresh_node fresh_edge)
            ((last_nodes-Keeps {Q = λ d. d ≡ d2} (record s2 { delta = some (fl.sub a p) })).at w3
              refl)))
