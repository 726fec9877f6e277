-- ===== src/Store/Reads.antt =====
-- The reads of graph/store.py, and graph/calibration.py.
use wager.Prelude.{
  ℕ, Bool, true, false, ◌&&◌, ◌||◌, ◌==◌, leb, Option, none, some, List, [], ◌∷◌, map, length,
  select,
}
use wager.Models.{Uuid, Date, GraphNode, GraphEdge, BetStatus, BetRow, Bet, DataFlag}
use wager.Models.Values.{status_value}
use wager.Models.Flags.{flags_from_json}
use wager.Errors.{value_error, plain}
use wager.Exec.{pure, or_raise, gets, for_list, ◌>>=◌}
use wager.Floats.{Floats}
use wager.Db.{Outcome}
use wager.Db.Sorted.{order_by}
use wager.World.{Action, get_services}
use wager.Sql.{get_db}

abbrev pub edge_key : GraphEdge → ℕ × ℕ
edge_key e = (e.created_at, e.id)

unfoldable pub bet_edges : Uuid → List GraphEdge → List GraphEdge
bet_edges i es = order_by edge_key (select (λ e. i == e.bet_id) es)

-- `status IN ('CONFIRMED', 'SCHEDULED')`.
abbrev pub awaits_review : BetStatus → Bool
awaits_review BetStatus.confirmed = true
awaits_review BetStatus.scheduled = true
awaits_review _ = false

-- `review_date <= CURRENT_DATE`; a NULL is not.
abbrev pub has_come : Date → Option Date → Bool
has_come today none = false
has_come today (some d) = leb d today

module _ {F : Type 0} where
  abbrev pub node_key : GraphNode F → ℕ × ℕ
  node_key n = (n.created_at, n.id)

  unfoldable pub bet_nodes : Uuid → List (GraphNode F) → List (GraphNode F)
  bet_nodes i ns = order_by node_key (select (λ n. i == n.bet_id) ns)

  unfoldable pub get_bet_graph : Uuid → Action F (List (GraphNode F) × List GraphEdge)
  get_bet_graph i = gets (λ w. (bet_nodes i w.db.nodes, bet_edges i w.db.edges))

  abbrev pub is_due : Bool → Date → BetRow F → Bool
  is_due demo_mode today b = awaits_review b.status && (demo_mode || has_come today b.review_date)

  -- The `Bet` of a row, with its flags read.
  abbrev pub bet_view : BetRow F → List DataFlag → Bet F
  bet_view r flags = record {
    id = r.id;
    created_at = r.created_at;
    meeting_date = r.meeting_date;
    doc_id = r.doc_id;
    pm_slack_id = r.pm_slack_id;
    status = status_value r.status;
    metric_name = r.metric_name;
    metric_query = r.metric_query;
    predicted_lift = r.predicted_lift;
    review_date = r.review_date;
    github_issue_url = r.github_issue_url;
    calendar_event_id = r.calendar_event_id;
    flags = flags;
  }

  abbrev pub bet_of : BetRow F → Action F (Bet F)
  bet_of r = do
    services ← get_services
    flags ←
        or_raise (flags_from_json services.formats r.flags)
          (value_error (plain "not a valid enum member, or not a time"))
    pure (bet_view r flags)

  -- The query has no ORDER BY: the rows come in the table's order.
  unfoldable pub due_bets : Bool → Action F (List (Bet F))
  due_bets demo_mode = do
    today ← gets (λ w. w.host.current_date)
    db ← get_db
    for_list (select (is_due demo_mode today) db.bets) bet_of

-- `class Calibration`.
pub record Calibration (F : Type 0) : Type 0 where
  pub mean_abs_delta : Option F
  pub hit_rate : Option F
  pub n_resolved : ℕ

module _ {F : Type 0} ⦃fl : Floats F⦄ where
  -- The aggregates are NULL on an empty table, which the code turns into None as well.
  abbrev pub aggregate : List (Outcome F) → Calibration F
  aggregate [] = record { mean_abs_delta = none; hit_rate = none; n_resolved = 0 }
  aggregate (o ∷ os) = record {
    mean_abs_delta = some (fl.avg (map (λ x. fl.abs x.delta) (o ∷ os)));
    hit_rate =
        some (fl.fraction (length (select (λ x. x.within_tolerance) (o ∷ os))) (length (o ∷ os)));
    n_resolved = length (o ∷ os);
  }

  unfoldable pub compute_calibration : Action F (Calibration F)
  compute_calibration = do db ← get_db; pure (aggregate db.outcomes)
