-- ===== src/Sql/Keys.antt =====
-- Primary and foreign keys: the invariant of the schema, and the statements.
use wager.Prelude.{true, ◌≡◌, ◌∙◌, List, ◌∷◌, All, arith, All-map-implies, Bool-cases, inl, inr}
use wager.Models.{Uuid, GraphNode, GraphEdge, BetRow}
use wager.Db.{Db, Outcome, has_bet, has_node, update_bets, update_nodes}
use wager.Db.Rows.{
  Unique, has_bet-update_bets, has_node-update_nodes, Unique-update_bets, Unique-update_nodes,
}
use wager.World.Keeps.{Keeps}
use wager.Sql.{insert_bet, insert_node, insert_edge, insert_outcome, update_bet, update_node}

module _ {F : Type 0} where
  abbrev pub HasEnds : List (GraphNode F) → GraphEdge → Type 0
  HasEnds ns e = (has_node e.from_node ns ≡ true) × (has_node e.to_node ns ≡ true)

  abbrev pub HasRows : List (BetRow F) → List (GraphNode F) → Outcome F → Type 0
  HasRows bs ns o =
      (has_bet o.bet_id bs ≡ true)
      × (has_node o.hypothesis_node_id ns ≡ true)
      × (has_node o.decision_node_id ns ≡ true)

  -- Primary keys are unique and foreign keys refer to rows.
  pub record IsWellFormed (d : Db F) : Type 0 where
    pub bet_keys : Unique (λ b. b.id) d.bets
    pub node_keys : Unique (λ n. n.id) d.nodes
    pub edge_keys : Unique (λ e. e.id) d.edges
    pub outcome_keys : Unique (λ o. o.bet_id) d.outcomes
    pub edge_ends : All (HasEnds d.nodes) d.edges
    pub outcome_rows : All (HasRows d.bets d.nodes) d.outcomes

  pub insert_bet-IsWellFormed : (b : BetRow F) → Keeps IsWellFormed (insert_bet b)
  unfolding insert_bet
  insert_bet-IsWellFormed b = record {
    at = λ w h. elim (Bool-cases (has_bet b.id w.db.bets)) [
      | inl old ↦ ground arith
      | inr new ↦
          let rows =
            All-map-implies {P = HasRows w.db.bets w.db.nodes}
              {Q = HasRows (b ∷ w.db.bets) w.db.nodes} w.db.outcomes (λ o k. ground arith)
              h.outcome_rows in
          ground arith
    ];
  }

  pub insert_node-IsWellFormed : (n : GraphNode F) → Keeps IsWellFormed (insert_node n)
  unfolding insert_node
  insert_node-IsWellFormed n = record {
    at = λ w h. elim (Bool-cases (has_node n.id w.db.nodes)) [
      | inl old ↦ ground arith
      | inr new ↦
          let rows =
            All-map-implies {P = HasRows w.db.bets w.db.nodes}
              {Q = HasRows w.db.bets (n ∷ w.db.nodes)} w.db.outcomes (λ o k. ground arith)
              h.outcome_rows in
          let ends =
            All-map-implies {P = HasEnds w.db.nodes} {Q = HasEnds (n ∷ w.db.nodes)} w.db.edges
              (λ e k. ground arith) h.edge_ends in
          ground arith
    ];
  }

  pub insert_edge-IsWellFormed : (e : GraphEdge) → Keeps IsWellFormed (insert_edge e)
  unfolding insert_edge
  insert_edge-IsWellFormed e = record { at = λ w h. ground arith }

  pub insert_outcome-IsWellFormed : (o : Outcome F) → Keeps IsWellFormed (insert_outcome o)
  unfolding insert_outcome
  insert_outcome-IsWellFormed o = record { at = λ w h. ground arith }

  pub update_bet-IsWellFormed :
      (i : Uuid) (f : BetRow F → BetRow F)
      → ((b : BetRow F) → i ≡ b.id → (f b).id ≡ i)
      → Keeps IsWellFormed (update_bet i f)
  unfolding update_bet
  update_bet-IsWellFormed i f same = record {
    at = λ w h. record {
      bet_keys = Unique-update_bets i f same w.db.bets h.bet_keys;
      node_keys = h.node_keys;
      edge_keys = h.edge_keys;
      outcome_keys = h.outcome_keys;
      edge_ends = h.edge_ends;
      outcome_rows =
          All-map-implies {P = HasRows w.db.bets w.db.nodes}
            {Q = HasRows (update_bets i f w.db.bets) w.db.nodes} w.db.outcomes
            (λ o k. (has_bet-update_bets i f same o.bet_id w.db.bets ∙ k.0, k.1, k.2))
            h.outcome_rows;
    };
  }

  pub update_node-IsWellFormed :
      (i : Uuid) (f : GraphNode F → GraphNode F)
      → ((n : GraphNode F) → i ≡ n.id → (f n).id ≡ i)
      → Keeps IsWellFormed (update_node i f)
  unfolding update_node
  update_node-IsWellFormed i f same = record {
    at = λ w h.
        let kept = λ (j : Uuid). has_node-update_nodes i f same j w.db.nodes in
        record {
          bet_keys = h.bet_keys;
          node_keys = Unique-update_nodes i f same w.db.nodes h.node_keys;
          edge_keys = h.edge_keys;
          outcome_keys = h.outcome_keys;
          edge_ends =
              All-map-implies {P = HasEnds w.db.nodes} {Q = HasEnds (update_nodes i f w.db.nodes)}
                w.db.edges (λ e k. (kept e.from_node ∙ k.0, kept e.to_node ∙ k.1)) h.edge_ends;
          outcome_rows =
              All-map-implies {P = HasRows w.db.bets w.db.nodes}
                {Q = HasRows w.db.bets (update_nodes i f w.db.nodes)} w.db.outcomes
                (λ o k. (k.0, kept o.hypothesis_node_id ∙ k.1, kept o.decision_node_id ∙ k.2))
                h.outcome_rows;
        };
  }
