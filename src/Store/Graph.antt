-- ===== src/Store/Graph.antt =====
-- `get_bet_graph` of graph/store.py: the rows of one bet, in their order.
use mathlib.Core.List.{Perm}
use wager.Prelude.{◌≡◌, refl, List, select, ◌==◌}
use wager.Models.{Uuid, GraphNode, GraphEdge}
use wager.Exec.{ok}
use wager.Db.Sorted.Order.{IsSorted, order_by-IsSorted, Perm-order_by}
use wager.World.{World}
use wager.Store.Reads.{node_key, edge_key, bet_nodes, bet_edges, get_bet_graph}

-- get_bet_graph returns and changes nothing; its nodes and edges are those of the bet, each as
-- often as in its table, and both lists are sorted by created_at and then by id.
pub get_bet_graph_lem :
    {F : Type 0} (i : Uuid) (w : World F)
    → (ns : List (GraphNode F)) × (es : List GraphEdge) × (get_bet_graph i w ≡ (ok (ns, es), w))
      × Perm ns (select (λ n. i == n.bet_id) w.db.nodes)
      × Perm es (select (λ e. i == e.bet_id) w.db.edges)
      × IsSorted node_key ns
      × IsSorted edge_key es
unfolding get_bet_graph bet_nodes bet_edges
get_bet_graph_lem i w = (
  bet_nodes i w.db.nodes,
  bet_edges i w.db.edges,
  refl,
  Perm-order_by node_key _,
  Perm-order_by edge_key _,
  order_by-IsSorted node_key _,
  order_by-IsSorted edge_key _,
)
