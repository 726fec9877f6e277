-- ===== src/Pipeline/Interrupt.antt =====
-- Phase 1 up to the interrupt of `confirm_decision`, and the decisions in the database.
use wager.Prelude.{ℕ, String, ◌≡◌, refl, none, List, select, arith}
use wager.Models.{Uuid, NodeType, EdgeType, GraphNode, GraphEdge, BetRow, same_type, same_edge_type}
use wager.Exec.{Result, ok, err}
use wager.Floats.{Floats}
use wager.Db.{Db}
use wager.World.{World}
use wager.World.Keeps.{Keeps, Keeps-bind}
use wager.World.Yields.{Holds, Yields, Yields-then, Yields-bind, Keeps-bind-Yields}
use wager.Sql.{insert_node, insert_edge, update_bet}
use wager.State.{BetState}
use wager.Pipeline.Decision.{interrupt, confirm_decision}
use wager.Pipeline.Writes.{IsDraft, IsDraftEdge, KeepsDrafts}
use wager.Pipeline.Statements.{drafts-Keeps}
use wager.Pipeline.Upkeep.{checked-Keeps, confirm_decision-Keeps, extraction-Keeps}
use wager.Pipeline.Graphs.{checked, translate, run_nodes, phase1}

module _ {F : Type 0} where
  abbrev pub decisions : List (GraphNode F) → List (GraphNode F)
  decisions = select (λ n. same_type n.kind NodeType.decision)

abbrev pub decision_edges : List GraphEdge → List GraphEdge
decision_edges = select (λ e. same_edge_type e.edge_type EdgeType.leads_to)

module _ {F : Type 0} (ns : List (GraphNode F)) (es : List GraphEdge) where
  -- The decisions and the edges to decisions are these.
  abbrev pub HasDecisions : Db F → Type 0
  HasDecisions d = (decisions d.nodes ≡ ns) × (decision_edges d.edges ≡ es)

  bets-HasDecisions : (j : Uuid) (f : BetRow F → BetRow F) → Keeps HasDecisions (update_bet j f)
  unfolding update_bet
  bets-HasDecisions j f = record { at = λ w h. h }

  node-HasDecisions : (n : GraphNode F) → IsDraft n → Keeps HasDecisions (insert_node n)
  unfolding insert_node
  node-HasDecisions n draft = record { at = λ w h. ground arith }

  edge-HasDecisions : (e : GraphEdge) → IsDraftEdge e → Keeps HasDecisions (insert_edge e)
  unfolding insert_edge
  edge-HasDecisions e draft = record { at = λ w h. ground arith }

  pub drafts-HasDecisions : KeepsDrafts HasDecisions
  drafts-HasDecisions =
      drafts-Keeps HasDecisions bets-HasDecisions node-HasDecisions edge-HasDecisions

module _ {F : Type 0} where
  interrupt-raises :
      (i : Uuid) (os : List String) (p : ℕ) → Yields {F = F} (λ _. ⊥) (interrupt i os p none)
  interrupt-raises i os p = record { at = λ w. tt }

  -- A node that is not resumed does not return.
  confirm_decision-raises : (s : BetState F) → Yields (λ _. ⊥) (confirm_decision none s)
  unfolding confirm_decision
  confirm_decision-raises s =
      Yields-then (λ _. ⊥) _ _
        λ hypothesis.
          Yields-then (λ _. ⊥) _ _
            λ result.
              Yields-then (λ _. ⊥) _ _
                λ _.
                  Yields-bind (λ _. ⊥) (λ _. ⊥) _ _ (interrupt-raises _ _ _) (λ index h. absurd h)

  pub translate_raises :
      {A : Type 0} (name : String) (r : Result A) (w : World F)
      → Holds (λ _. ⊥) r
      → Holds (λ _. ⊥) (translate name (r, w)).0
  translate_raises name (ok a) w h = h
  translate_raises name (err e) w h = h

  pub checked-raises :
      (s : BetState F) → Yields (λ _. ⊥) (checked "confirm_decision" (confirm_decision none) s)
  unfolding checked
  checked-raises s = record {
    at = λ w.
        translate_raises _ (confirm_decision none s w).0 (confirm_decision none s w).1
          ((confirm_decision-raises s).at w);
  }

module _ {F : Type 0} ⦃fl : Floats F⦄ where
  phase1-HasDecisions :
      (ns : List (GraphNode F)) (es : List GraphEdge) (p q : String) (s : BetState F)
      → Keeps (HasDecisions ns es) (phase1 p q s)
  unfolding phase1 run_nodes
  phase1-HasDecisions ns es p q s =
      Keeps-bind _ _ (extraction-Keeps (drafts-HasDecisions ns es) p q s) λ extracted.
        Keeps-bind-Yields (HasDecisions ns es) (λ _. ⊥) _ _
          (checked-Keeps _ _ extracted
            (confirm_decision-Keeps (drafts-HasDecisions ns es).rows none extracted))
          (checked-raises extracted) (λ _ h. absurd h)

  -- A run of phase 1 that has not been resumed leaves the DECISION nodes and the leads_to edges of
  -- the database as they were, however it ends.
  pub phase1_writes_no_decision :
      (p q : String) (s : BetState F) (w : World F)
      → let w' = (phase1 p q s w).1 in
        (decisions w'.db.nodes ≡ decisions w.db.nodes)
        × (decision_edges w'.db.edges ≡ decision_edges w.db.edges)
  phase1_writes_no_decision p q s w = (phase1-HasDecisions _ _ p q s).at w (refl, refl)
