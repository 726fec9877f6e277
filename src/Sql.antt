-- ===== src/Sql.antt =====
-- The INSERT and UPDATE statements of the program on the tables of db/migrations/0001_init.sql:
-- each raises what Postgres raises where a primary key or a foreign key refuses the row.
pub mod Keys
pub mod Inserts
use wager.Prelude.{ℕ, Bool, true, false, not, ◌&&◌, List, [], ◌∷◌, if◌then◌else◌}
use wager.Models.{Uuid, GraphNode, GraphEdge, BetRow}
use wager.Errors.{database_error, unique_violation, foreign_key_violation}
use wager.Exec.{None, raise_if, modify, gets, pure, ◌>>=◌, ◌>>◌}
use wager.Db.{Db, Outcome, has_bet, has_node, has_edge, has_outcome, update_bets, update_nodes}
use wager.World.{World, Action}

module _ {F : Type 0} where
  abbrev pub get_db : Action F (Db F)
  get_db = gets (λ w. w.db)

  abbrev set_db : (Db F → Db F) → Action F None
  set_db f = modify (λ w. record w { db = f w.db })

  unfoldable pub insert_bet : BetRow F → Action F None
  unfolding ◌>>=◌
  insert_bet b = do
    db ← get_db
    raise_if (has_bet b.id db.bets) (database_error unique_violation)
    set_db (λ d. record d { bets = b ∷ d.bets })

  unfoldable pub insert_node : GraphNode F → Action F None
  unfolding ◌>>=◌
  insert_node n = do
    db ← get_db
    raise_if (has_node n.id db.nodes) (database_error unique_violation)
    set_db (λ d. record d { nodes = n ∷ d.nodes })

  unfoldable pub insert_edge : GraphEdge → Action F None
  unfolding ◌>>=◌
  insert_edge e = do
    db ← get_db
    raise_if (has_edge e.id db.edges) (database_error unique_violation)
    raise_if (not (has_node e.from_node db.nodes && has_node e.to_node db.nodes))
        (database_error foreign_key_violation)
    set_db (λ d. record d { edges = e ∷ d.edges })

  unfoldable pub insert_outcome : Outcome F → Action F None
  unfolding ◌>>=◌
  insert_outcome o = do
    db ← get_db
    raise_if (has_outcome o.bet_id db.outcomes) (database_error unique_violation)
    raise_if
        (not (
          has_bet o.bet_id db.bets
          && (has_node o.hypothesis_node_id db.nodes && has_node o.decision_node_id db.nodes)))
        (database_error foreign_key_violation)
    set_db (λ d. record d { outcomes = o ∷ d.outcomes })

  -- `UPDATE bets SET … WHERE id = i`: whether `rowcount` is not 0.
  unfoldable pub update_bet : Uuid → (BetRow F → BetRow F) → Action F Bool
  unfolding ◌>>=◌
  update_bet i f = do
    db ← get_db
    set_db (λ d. record d { bets = update_bets i f d.bets })
    pure (has_bet i db.bets)

  -- `UPDATE graph_nodes SET … WHERE id = i`.
  unfoldable pub update_node : Uuid → (GraphNode F → GraphNode F) → Action F None
  update_node i f = set_db (λ d. record d { nodes = update_nodes i f d.nodes })
