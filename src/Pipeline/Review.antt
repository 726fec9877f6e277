-- ===== src/Pipeline/Review.antt =====
-- pipeline/nodes/phase2.py: the review of one bet.
use wager.Prelude.{
  ℕ, String, Bool, true, false, ◌&&◌, ◌==◌, Option, none, some, List, [], ◌∷◌, ◌++◌, map, select,
  find?, head?, if◌then◌else◌, concat, codes,
}
use wager.Prelude.Int.{sub_ℕ, show_ℤ}
use wager.Models.{
  Uuid, NodeType, EdgeType, Source, Severity, DataFlag, GraphNode, GraphEdge, same_type,
  same_edge_type,
}
use wager.Errors.{value_error, bet_not_found, no_hypothesis_node, index_error, type_error}
use wager.Exec.{Result, pure, raise, or_raise, raise_if, ◌>>=◌, ◌>>◌}
use wager.Floats.{Floats}
use wager.Db.{find_bet}
use wager.Db.Sorted.{order_by}
use wager.World.{Action, get_settings, new_flag, with_conn}
use wager.Sql.{get_db}
use wager.Store.{append_flag}
use wager.Store.Decisions.{write_outcome}
use wager.Store.Reads.{get_bet_graph, compute_calibration}
use wager.Integrations.Posthog.{run_hogql}
use wager.Integrations.Slack.{post_report}
use wager.Integrations.Github.{comment_on_issue}
use wager.Report.{build_report_text}
use wager.State.{BetState, NodeFn, add_flags}

abbrev pub is_empty : {A : Type 0} → List A → Bool
is_empty [] = true
is_empty (x ∷ xs) = false

-- A node goes on with a text that is not empty.
abbrev is_falsy : String → Bool
is_falsy url = is_empty (codes url)

abbrev targets_of : Uuid → List GraphEdge → List Uuid
targets_of hypothesis es =
    map (λ e. e.to_node)
      (select (λ e. same_edge_type e.edge_type EdgeType.depends_on && e.from_node == hypothesis) es)

module _ {F : Type 0} where
  abbrev pub of_type : NodeType → List (GraphNode F) → List (GraphNode F)
  of_type kind = select (λ n. same_type n.kind kind)

  unfoldable pub load_bet : NodeFn F
  load_bet state = do
    (row, nodes) ← with_conn (do
      db ← get_db
      row ← or_raise (find_bet state.bet_id db.bets) (value_error (bet_not_found state.bet_id))
      graph ← get_bet_graph state.bet_id
      pure (row, graph.0))
    raise_if (is_empty (of_type NodeType.hypothesis nodes))
        (value_error (no_hypothesis_node state.bet_id))
    pure (record state {
      meeting_date = row.meeting_date;
      doc_id = row.doc_id;
      metric_name = row.metric_name;
      metric_query = row.metric_query;
      predicted_lift = row.predicted_lift;
      review_date = row.review_date;
      facts = of_type NodeType.fact nodes;
      assumptions = of_type NodeType.assumption nodes;
      hypotheses = of_type NodeType.hypothesis nodes;
      options = of_type NodeType.option nodes;
    })

  -- `result.error` and `result.value` of the query.
  abbrev pub after_query : Option DataFlag → Option F → NodeFn F
  after_query (some error) value state = do
    with_conn (append_flag state.bet_id error)
    pure (add_flags (record state { actual_lift = none }) (error ∷ []))
  after_query none value state = pure (record state { actual_lift = value })

  unfoldable pub fetch_metric : NodeFn F
  fetch_metric state = do
    result ← run_hogql state.metric_query
    after_query result.error result.value state

  -- The content of the first assumption that the hypothesis depends on, by `created_at`; of the
  -- first assumption of all where it depends on none.
  abbrev pub lowest : (GraphNode F → ℕ × ℕ) → List (GraphNode F) → Option (GraphNode F)
  lowest key ns = head? (order_by key ns)

  -- `sorted` with the key `created_at` keeps the order of equal keys.
  abbrev pub by_created_at : GraphNode F → ℕ × ℕ
  by_created_at n = (n.created_at, 0)

  -- `assumption_by_id[t] for t in targets if t in assumption_by_id`
  abbrev pick_all : List (GraphNode F) → List Uuid → List (GraphNode F)
  pick_all ns [] = []
  pick_all ns (t ∷ ts) = elim (find? (λ n. n.id == t) ns) [
    | none ↦ pick_all ns ts
    | some n ↦ n ∷ pick_all ns ts
  ]

  abbrev first_content : Option (GraphNode F) → Option (GraphNode F) → Option String
  first_content (some n) fallback = some n.content
  first_content none none = none
  first_content none (some n) = some n.content

  unfoldable pub weakest_of : Uuid → List (GraphNode F) → List GraphEdge → Option String
  weakest_of hypothesis nodes edges =
      let assumptions = of_type NodeType.assumption nodes in
      first_content (lowest by_created_at (pick_all assumptions (targets_of hypothesis edges)))
        (head? assumptions)

  unfoldable pub weakest_assumption : BetState F → Action F (Option String)
  weakest_assumption state = do
    hypothesis ← or_raise (head? state.hypotheses) index_error
    graph ← with_conn (get_bet_graph state.bet_id)
    pure (weakest_of hypothesis.id graph.0 graph.1)

  abbrev pub lift : {A : Type 0} → Result A → Action F A
  lift r w = (r, w)

  -- The flag for a failed delivery, which only the state keeps.
  abbrev pub delivery_flags : Source → String → Option DataFlag → Action F (List DataFlag)
  delivery_flags source prefix none = pure []
  delivery_flags source prefix (some error) = do
    flag ← new_flag source Severity.critical (concat (prefix ∷ error.message ∷ []))
    pure (flag ∷ [])

  abbrev pub comment_flags : Option String → String → Action F (List DataFlag)
  comment_flags none text = pure []
  comment_flags (some url) text = if is_falsy url then pure [] else do
    comment ← comment_on_issue url text
    delivery_flags Source.github "github_comment_failed: " comment.error

module _ {F : Type 0} ⦃fl : Floats F⦄ where
  abbrev pub outcome_text : F → F → F → String
  outcome_text actual predicted delta = concat (
      "Outcome: actual "
      ∷ fl.show_signed actual
      ∷ "pp vs predicted "
      ∷ fl.show_signed predicted
      ∷ "pp (delta "
      ∷ fl.show_signed delta
      ∷ "pp)"
      ∷ [])

  -- `abs(actual - predicted) <= tolerance`
  abbrev pub is_within : F → F → F → Bool
  is_within tolerance actual predicted = fl.leb (fl.abs (fl.sub actual predicted)) tolerance

  -- The grading of a metric that was fetched; `actual - None` raises.
  abbrev pub grade : F → Option F → NodeFn F
  grade actual none state = raise type_error
  grade actual (some predicted) state = do
    settings ← get_settings
    hypothesis ← or_raise (head? state.hypotheses) index_error
    let delta = fl.sub actual predicted
    with_conn (
        write_outcome state.bet_id hypothesis.id actual predicted
          (is_within settings.bet_tolerance_pp actual predicted)
          (outcome_text actual predicted delta))
    pure (record state { delta = some delta })

  abbrev pub compare_fetched : Option F → NodeFn F
  compare_fetched none state = pure state
  compare_fetched (some actual) state = grade actual state.predicted_lift state

  unfoldable pub compare_outcome : NodeFn F
  compare_outcome state = compare_fetched state.actual_lift state

  unfoldable pub update_calibration : NodeFn F
  update_calibration state = do
    calibration ← with_conn compute_calibration
    pure (record state {
      calibration_mean_abs_delta = calibration.mean_abs_delta;
      calibration_hit_rate = calibration.hit_rate;
    })

  -- `_OutcomeView.supports`; `actual - None` raises.
  abbrev pub is_supported : F → Option F → Option F → Result Bool
  is_supported tolerance none predicted = Result.ok false
  is_supported tolerance (some actual) none = Result.err type_error
  is_supported tolerance (some actual) (some predicted) =
      Result.ok (is_within tolerance actual predicted)

  unfoldable pub report_outcome : NodeFn F
  report_outcome state = do
    settings ← get_settings
    hypothesis ← or_raise (head? state.hypotheses) index_error
    review_date ← or_raise state.review_date type_error
    supports ← lift (is_supported settings.bet_tolerance_pp state.actual_lift state.predicted_lift)
    assumption ← weakest_assumption state
    calibration ← with_conn compute_calibration
    text ← lift (
        build_report_text
          (record {
            hypothesis = hypothesis.content;
            metric_name = state.metric_name;
            predicted_lift = state.predicted_lift;
            window = concat (show_ℤ (sub_ℕ review_date state.meeting_date) ∷ " days" ∷ []);
          })
          (record {
            actual_lift = state.actual_lift;
            delta = state.delta;
            supports = supports;
            tolerance = settings.bet_tolerance_pp;
            assumption_content = assumption;
          })
          calibration state.flags)
    report ← post_report text
    new_flags ← delivery_flags Source.slack "slack_report_failed: " report.error
    more_flags ← comment_flags state.github_issue_url text
    pure (add_flags state (new_flags ++ more_flags))
