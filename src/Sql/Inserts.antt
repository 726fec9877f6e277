-- ===== src/Sql/Inserts.antt =====
-- The INSERT statements where no key refuses the row.
use wager.Prelude.{true, false, ◌≡◌, ◌∷◌, arith}
use wager.Models.{GraphNode, GraphEdge}
use wager.Exec.{ok}
use wager.Db.{Outcome, has_bet, has_node, has_edge, has_outcome}
use wager.World.{World}
use wager.Sql.{insert_node, insert_edge, insert_outcome}

module _ {F : Type 0} (w : World F) where
  pub insert_node_new :
      (n : GraphNode F)
      → has_node n.id w.db.nodes ≡ false
      → insert_node n w ≡ (ok tt, record w { db = record w.db { nodes = n ∷ w.db.nodes } })
  unfolding insert_node
  insert_node_new n h = ground arith

  pub insert_edge_new :
      (e : GraphEdge)
      → has_edge e.id w.db.edges ≡ false
      → has_node e.from_node w.db.nodes ≡ true
      → has_node e.to_node w.db.nodes ≡ true
      → insert_edge e w ≡ (ok tt, record w { db = record w.db { edges = e ∷ w.db.edges } })
  unfolding insert_edge
  insert_edge_new e h a b = ground arith

  pub insert_outcome_new :
      (o : Outcome F)
      → has_outcome o.bet_id w.db.outcomes ≡ false
      → has_bet o.bet_id w.db.bets ≡ true
      → has_node o.hypothesis_node_id w.db.nodes ≡ true
      → has_node o.decision_node_id w.db.nodes ≡ true
      → insert_outcome o w ≡ (ok tt, record w { db = record w.db { outcomes = o ∷ w.db.outcomes } })
  unfolding insert_outcome
  insert_outcome_new o h a b c = ground arith
