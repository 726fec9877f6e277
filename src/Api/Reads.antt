-- ===== src/Api/Reads.antt =====
-- The routes of api/routes.py that only read.
use wager.Prelude.{Option, none, some, List, map, concat, show_uuid, [], ◌∷◌, ◌==◌, find?}
use wager.Models.{Uuid, GraphNode, GraphEdge, BetRow}
use wager.Models.Values.{status_value}
use wager.Errors.{api_error, bet_not_found_code}
use wager.Exec.{pure, or_raise, ◌>>=◌}
use wager.Floats.{Floats}
use wager.Db.{Outcome, find_bet}
use wager.World.{Action, get_settings, with_conn}
use wager.Sql.{get_db}
use wager.Store.Reads.{get_bet_graph, compute_calibration}
use wager.Api.{NodePage, EdgePage, OutcomePage, BetPage, Body, healthy, bet_page, calibration_page}

abbrev pub edge_page : GraphEdge → EdgePage
edge_page e = record { from_node = e.from_node; to_node = e.to_node; edge_type = e.edge_type }

module _ {F : Type 0} where
  unfoldable pub healthz : Action F (Body F)
  healthz = with_conn (pure healthy)

  abbrev pub node_page : GraphNode F → NodePage F
  node_page n = record {
    id = n.id;
    kind = n.kind;
    content = n.content;
    confidence = n.confidence;
    source = n.source;
    status = n.status;
  }

  -- `SELECT … FROM outcomes WHERE bet_id = i`; the key makes the row the only one.
  abbrev pub find_outcome : Uuid → List (Outcome F) → Option (Outcome F)
  find_outcome i = find? (λ o. i == o.bet_id)

  abbrev pub outcome_page : Option (Outcome F) → Option (OutcomePage F)
  outcome_page none = none
  outcome_page (some o) = some (record {
    actual_lift = o.actual_lift;
    delta = o.delta;
    within_tolerance = o.within_tolerance;
  })

  abbrev pub page_of :
      BetRow F → List (GraphNode F) → List GraphEdge → Option (Outcome F) → BetPage F
  page_of row nodes edges outcome = record {
    id = row.id;
    status = status_value row.status;
    metric_name = row.metric_name;
    predicted_lift = row.predicted_lift;
    review_date = row.review_date;
    nodes = map node_page nodes;
    edges = map edge_page edges;
    outcome = outcome_page outcome;
  }

  unfoldable pub get_bet : Uuid → Action F (Body F)
  get_bet i = with_conn (do
    db ← get_db
    row ←
        or_raise (find_bet i db.bets)
          (api_error bet_not_found_code (concat ("bet " ∷ show_uuid i ∷ " not found" ∷ [])) 404)
    graph ← get_bet_graph i
    pure (bet_page (page_of row graph.0 graph.1 (find_outcome i db.outcomes))))

module _ {F : Type 0} ⦃fl : Floats F⦄ where
  unfoldable pub get_calibration : Action F (Body F)
  get_calibration = do
    cal ← with_conn compute_calibration
    settings ← get_settings
    pure (
        calibration_page (record {
          mean_abs_delta = cal.mean_abs_delta;
          hit_rate = cal.hit_rate;
          n_resolved = cal.n_resolved;
          tolerance_pp = settings.bet_tolerance_pp;
        }))
