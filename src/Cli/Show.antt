-- ===== src/Cli/Show.antt =====
-- The commands `show-bet` and `calibration` of cli.py.
use wager.Prelude.{
  String, ◌&&◌, ◌==◌, Option, none, some, List, [], ◌∷◌, concat, show_ℕ, show_uuid, select, map,
  if◌then◌else◌,
}
use mathlib.Core.List.{flatten}
use wager.Prelude.Dates.{iso_date}
use wager.Models.{Uuid, NodeType, EdgeType, GraphNode, GraphEdge, BetRow, same_type, same_edge_type}
use wager.Models.Values.{status_value}
use wager.Exec.{Result, ok, err, pure, ◌>>=◌}
use wager.Floats.{Floats}
use wager.Db.{find_bet}
use wager.World.{Action, with_conn}
use wager.Sql.{get_db}
use wager.Store.Reads.{Calibration, get_bet_graph, compute_calibration}
use wager.Cli.{Output, Command, returned, refused, crash, or_none}

-- `_NODE_TYPES`.
abbrev pub node_types : List NodeType
node_types =
    NodeType.fact ∷ NodeType.assumption ∷ NodeType.hypothesis ∷ NodeType.option ∷ NodeType.decision
    ∷ []

abbrev pub type_name : NodeType → String
type_name NodeType.fact = "FACT"
type_name NodeType.assumption = "ASSUMPTION"
type_name NodeType.hypothesis = "HYPOTHESIS"
type_name NodeType.option = "OPTION"
type_name NodeType.decision = "DECISION"

module _ {F : Type 0} where
  -- `by_id.get(i)`: of equal ids the dictionary keeps the last.
  unfoldable pub by_id : Uuid → List (GraphNode F) → Option (GraphNode F)
  by_id i [] = none
  by_id i (n ∷ ns) = elim (by_id i ns) [
    | some m ↦ some m
    | none ↦ if n.id == i then some n else none
  ]

  abbrev pub content_line : GraphNode F → String
  content_line n = concat ("  - \"" ∷ n.content ∷ "\" [" ∷ n.source ∷ "]" ∷ [])

  abbrev pub target_line : Option (GraphNode F) → List String
  target_line none = []
  target_line (some t) =
      concat ("      ↳ derived_from: \"" ∷ t.content ∷ "\" [" ∷ t.source ∷ "]" ∷ []) ∷ []

  unfoldable pub derived_lines : List (GraphNode F) → List GraphEdge → GraphNode F → List String
  unfolding by_id
  derived_lines ns es n = flatten (
      map (λ e. target_line (by_id e.to_node ns))
        (select (λ e. e.from_node == n.id && same_edge_type e.edge_type EdgeType.derived_from) es))

  abbrev pub node_lines : NodeType → List (GraphNode F) → List GraphEdge → GraphNode F → List String
  node_lines kind ns es n =
      content_line n ∷ (if same_type kind NodeType.fact then [] else derived_lines ns es n)

  -- The lines of one type; none where the bet has no node of it.
  abbrev pub group_lines :
      NodeType → List (GraphNode F) → List GraphEdge → List (GraphNode F) → List String
  group_lines kind ns es [] = []
  group_lines kind ns es (n ∷ group) =
      "" ∷ concat (type_name kind ∷ ":" ∷ []) ∷ flatten (map (node_lines kind ns es) (n ∷ group))

  unfoldable pub graph_lines : List (GraphNode F) → List GraphEdge → List String
  graph_lines ns es =
      flatten
        (map (λ kind. group_lines kind ns es (select (λ n. same_type n.kind kind) ns)) node_types)

  -- A missing row, or the row with the bet's graph.
  abbrev pub bet_graph :
      Uuid
      → Option (BetRow F)
      → Action F (Option (BetRow F × (List (GraphNode F) × List GraphEdge)))
  bet_graph i none = pure none
  bet_graph i (some row) = do graph ← get_bet_graph i; pure (some (row, graph))

  abbrev pub read_bet : Uuid → Action F (Option (BetRow F × (List (GraphNode F) × List GraphEdge)))
  read_bet i = with_conn (do db ← get_db; bet_graph i (find_bet i db.bets))

module _ {F : Type 0} ⦃fl : Floats F⦄ where
  abbrev pub row_line : BetRow F → String
  row_line r = concat (
      "bet "
      ∷ show_uuid r.id
      ∷ " ["
      ∷ status_value r.status
      ∷ "] metric="
      ∷ or_none (λ t. t) r.metric_name
      ∷ " predicted="
      ∷ or_none fl.show r.predicted_lift
      ∷ " review="
      ∷ or_none iso_date r.review_date
      ∷ [])

  unfoldable pub bet_output :
      Uuid → Result (Option (BetRow F × (List (GraphNode F) × List GraphEdge))) → Output
  bet_output i (err e) = crash e
  bet_output i (ok none) = refused (concat ("bet " ∷ show_uuid i ∷ " not found" ∷ []))
  bet_output i (ok (some (row, (ns, es)))) = returned (row_line row ∷ graph_lines ns es)

  unfoldable pub show_bet : Uuid → Command F
  show_bet i w = (bet_output i (read_bet i w).0, (read_bet i w).1)

  unfoldable pub calibration_line : F → Calibration F → String
  calibration_line tolerance cal = concat (
      "mean |delta| = "
      ∷ or_none fl.show cal.mean_abs_delta
      ∷ "pp across "
      ∷ show_ℕ cal.n_resolved
      ∷ " resolved bets, hit_rate="
      ∷ or_none fl.show cal.hit_rate
      ∷ ", tolerance ±"
      ∷ fl.show tolerance
      ∷ "pp"
      ∷ [])

  abbrev pub calibration_output : F → Result (Calibration F) → Output
  calibration_output tolerance (ok cal) = returned (calibration_line tolerance cal ∷ [])
  calibration_output tolerance (err e) = crash e

  unfoldable pub calibration : Command F
  calibration w = (
    calibration_output w.host.settings.bet_tolerance_pp (with_conn compute_calibration w).0,
    (with_conn compute_calibration w).1,
  )
