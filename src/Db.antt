-- ===== src/Db.antt =====
-- The tables of db/migrations/0001_init.sql with the constraints that a statement meets. A table
-- lists its rows newest first; columns that are NOT NULL or under a CHECK are so by their types.
pub mod Rows
pub mod Sorted
use wager.Prelude.{
  ℕ, suc, ◌+◌, Bool, true, false, Option, List, [], ◌∷◌, ◌==◌, ◌||◌, if◌then◌else◌, any, find?, map,
}
use wager.Models.{Uuid, Instant, GraphNode, GraphEdge, BetRow}

-- A row of the table `outcomes`.
pub record Outcome (F : Type 0) : Type 0 where
  pub bet_id : Uuid
  pub hypothesis_node_id : Uuid
  pub decision_node_id : Uuid
  pub actual_lift : F
  pub predicted_lift : F
  pub delta : F
  pub within_tolerance : Bool
  pub resolved_at : Instant

pub record Db (F : Type 0) : Type 0 where
  pub bets : List (BetRow F)
  pub nodes : List (GraphNode F)
  pub edges : List GraphEdge
  pub outcomes : List (Outcome F)

abbrev pub empty_db : {F : Type 0} → Db F
empty_db = record { bets = []; nodes = []; edges = []; outcomes = [] }

module _ {F : Type 0} where
  abbrev pub has_bet : Uuid → List (BetRow F) → Bool
  has_bet i = any (λ b. i == b.id)

  abbrev pub find_bet : Uuid → List (BetRow F) → Option (BetRow F)
  find_bet i = find? (λ b. i == b.id)

  abbrev pub has_node : Uuid → List (GraphNode F) → Bool
  has_node i = any (λ n. i == n.id)

  abbrev pub has_outcome : Uuid → List (Outcome F) → Bool
  has_outcome i = any (λ o. i == o.bet_id)

  -- `UPDATE … WHERE id = i`: the rows after it.
  unfoldable pub update_bets : Uuid → (BetRow F → BetRow F) → List (BetRow F) → List (BetRow F)
  update_bets i f [] = []
  update_bets i f (b ∷ bs) = (if i == b.id then f b else b) ∷ update_bets i f bs

  unfoldable pub update_nodes :
      Uuid → (GraphNode F → GraphNode F) → List (GraphNode F) → List (GraphNode F)
  update_nodes i f [] = []
  update_nodes i f (n ∷ ns) = (if i == n.id then f n else n) ∷ update_nodes i f ns

abbrev pub has_edge : Uuid → List GraphEdge → Bool
has_edge i = any (λ e. i == e.id)
