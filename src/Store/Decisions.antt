-- ===== src/Store/Decisions.antt =====
-- `write_decision` and `write_outcome` of graph/store.py.
use wager.Prelude.{Bool, not, String, ◌&&◌, ◌==◌, none, List, any, if◌then◌else◌}
use wager.Models.{
  Uuid, NodeType, NodeStatus, EdgeType, GraphNode, GraphEdge, BetStatus, same_type, same_edge_type,
}
use wager.Errors.{
  pipeline_error, value_error, already_has_leads_to, option_not_found_for_bet,
  hypothesis_not_found_for_bet,
}
use wager.Exec.{None, pure, raise_if, ◌>>=◌, ◌>>◌}
use wager.Floats.{Floats}
use wager.Db.{has_outcome}
use wager.World.{Action, draw_now, new_node, new_edge}
use wager.Sql.{get_db, insert_node, insert_edge, insert_outcome, update_bet, update_node}

-- `SELECT 1 FROM graph_edges WHERE bet_id = i AND edge_type = 'leads_to'`.
abbrev pub has_leads_to : Uuid → List GraphEdge → Bool
has_leads_to i = any (λ e. i == e.bet_id && same_edge_type e.edge_type EdgeType.leads_to)

module _ {F : Type 0} where
  -- `SELECT 1 FROM graph_nodes WHERE id = o AND bet_id = i AND type = 'OPTION'`.
  abbrev pub has_option : Uuid → Uuid → List (GraphNode F) → Bool
  has_option o i = any (λ n. o == n.id && (i == n.bet_id && same_type n.kind NodeType.option))

  -- `SELECT 1 FROM graph_nodes WHERE id = h AND bet_id = i`.
  abbrev pub has_bet_node : Uuid → Uuid → List (GraphNode F) → Bool
  has_bet_node h i = any (λ n. h == n.id && i == n.bet_id)

  unfoldable pub write_decision : Uuid → Uuid → String → Action F Uuid
  write_decision bet chosen_option content = do
    db ← get_db
    raise_if (has_leads_to bet db.edges)
        (pipeline_error "store.write_decision" (value_error (already_has_leads_to bet)))
    raise_if (not (has_option chosen_option bet db.nodes)) (
        pipeline_error "store.write_decision"
          (value_error (option_not_found_for_bet chosen_option bet)))
    decision ← new_node bet NodeType.decision content none "system"
    insert_node decision
    edge ← new_edge bet chosen_option decision.id EdgeType.leads_to
    insert_edge edge
    pure decision.id

module _ {F : Type 0} ⦃fl : Floats F⦄ where
  -- What follows the test for an outcome: the decision, its edge, the outcome and the two statuses.
  unfoldable pub record_outcome : Uuid → Uuid → F → F → Bool → String → Action F None
  record_outcome bet hypothesis actual predicted within decision_node = do
    db ← get_db
    raise_if (not (has_bet_node hypothesis bet db.nodes)) (
        pipeline_error "store.write_outcome"
          (value_error (hypothesis_not_found_for_bet hypothesis bet)))
    node ← new_node bet NodeType.decision decision_node none "system"
    insert_node node
    edge ←
        new_edge bet node.id hypothesis (if within then EdgeType.supports else EdgeType.contradicts)
    insert_edge edge
    t ← draw_now
    insert_outcome (record {
      bet_id = bet;
      hypothesis_node_id = hypothesis;
      decision_node_id = node.id;
      actual_lift = actual;
      predicted_lift = predicted;
      delta = fl.sub actual predicted;
      within_tolerance = within;
      resolved_at = t;
    })
    update_node hypothesis (λ n. record n { status = NodeStatus.resolved })
    _ ← update_bet bet (λ b. record b { status = BetStatus.resolved })
    pure tt

  unfoldable pub write_outcome : Uuid → Uuid → F → F → Bool → String → Action F None
  write_outcome bet hypothesis actual predicted within decision_node = do
    db ← get_db
    if has_outcome bet db.outcomes
        then pure tt
        else record_outcome bet hypothesis actual predicted within decision_node
