-- ===== src/Pipeline/Attestation.antt =====
-- The edges to attested decisions, over the statements and the writes of the store.
use wager.Prelude.{String, Bool, true, false, refl, if◌then◌else◌, arith}
use wager.Models.{Uuid, Date, EdgeType, GraphNode, GraphEdge, BetRow}
use wager.Exec.{◌>>=◌}
use wager.Floats.{Floats}
use wager.Db.{Outcome}
use wager.World.{new_edge}
use wager.World.Keeps.{Keeps, Keeps-bind, Keeps-new_edge, keeps_rules}
use wager.World.Yields.{Yields, Keeps-bind-Yields}
use wager.Sql.{insert_bet, insert_node, insert_edge, insert_outcome, update_bet, update_node}
use wager.Store.{create_bet}
use wager.Store.Decisions.{record_outcome, write_outcome}
use wager.Store.Attest.{DecidedOnce, write_decision-DecidedOnce}
use wager.Pipeline.Writes.{IsDraftEdge, KeepsDrafts, KeepsWrites}
use wager.Pipeline.Statements.{drafts-Keeps}

module _ {F : Type 0} (i : Uuid) where
  bets-DecidedOnce : (j : Uuid) (f : BetRow F → BetRow F) → Keeps (DecidedOnce i) (update_bet j f)
  unfolding update_bet
  bets-DecidedOnce j f = record { at = λ w h. h }

  node-DecidedOnce : (n : GraphNode F) → Keeps (DecidedOnce i) (insert_node n)
  unfolding insert_node
  node-DecidedOnce n = record { at = λ w h. ground arith }

  edge-DecidedOnce : (e : GraphEdge) → IsDraftEdge e → Keeps {F = F} (DecidedOnce i) (insert_edge e)
  unfolding insert_edge
  edge-DecidedOnce e draft = record { at = λ w h. ground arith }

  drafts-DecidedOnce : KeepsDrafts {F = F} (DecidedOnce i)
  drafts-DecidedOnce =
      drafts-Keeps (DecidedOnce i) bets-DecidedOnce (λ n _. node-DecidedOnce n) edge-DecidedOnce

  pub create_bet-DecidedOnce :
      (j : Uuid) (doc : String) (d : Date) (pm : String)
      → Keeps {F = F} (DecidedOnce i) (create_bet j doc d pm)
  unfolding create_bet insert_bet
  create_bet-DecidedOnce j doc d pm = record { at = λ w h. ground arith }

  outcome_row-DecidedOnce : (o : Outcome F) → Keeps (DecidedOnce i) (insert_outcome o)
  unfolding insert_outcome
  outcome_row-DecidedOnce o = record { at = λ w h. ground arith }

  update_node-DecidedOnce :
      (j : Uuid) (f : GraphNode F → GraphNode F) → Keeps (DecidedOnce i) (update_node j f)
  unfolding update_node
  update_node-DecidedOnce j f = record { at = λ w h. h }

-- The edge of a grade is no `leads_to` edge.
grade_edge-IsDraftEdge :
    {F : Type 0} (bet a b : Uuid) (within : Bool)
    → Yields {F = F} IsDraftEdge
        (new_edge bet a b (if within then EdgeType.supports else EdgeType.contradicts))
unfolding ◌>>=◌
grade_edge-IsDraftEdge bet a b true = record { at = λ w. refl }
grade_edge-IsDraftEdge bet a b false = record { at = λ w. refl }

module _ {F : Type 0} ⦃fl : Floats F⦄ (i : Uuid) where
  ruleset once_rules = (
    keeps_rules, bets-DecidedOnce, node-DecidedOnce, outcome_row-DecidedOnce,
    update_node-DecidedOnce,
  )

  record_outcome-DecidedOnce :
      (bet h : Uuid) (a p : F) (b : Bool) (c : String)
      → Keeps (DecidedOnce i) (record_outcome bet h a p b c)
  unfolding record_outcome
  record_outcome-DecidedOnce bet h a p b c = Keeps-bind _ _ (search keeps_rules) λ db.
      Keeps-bind _ _ (search keeps_rules) λ _. Keeps-bind _ _ (search keeps_rules) λ n.
        Keeps-bind _ _ (node-DecidedOnce i n) λ _.
          Keeps-bind-Yields (DecidedOnce i) IsDraftEdge _ _ (Keeps-new_edge _ _ _ _)
            (grade_edge-IsDraftEdge bet n.id h b)
            λ e draft. Keeps-bind _ _ (edge-DecidedOnce i e draft) λ _. search once_rules depth 8

  write_outcome-DecidedOnce :
      (bet h : Uuid) (a p : F) (b : Bool) (c : String)
      → Keeps (DecidedOnce i) (write_outcome bet h a p b c)
  unfolding write_outcome
  write_outcome-DecidedOnce bet h a p b c = search (keeps_rules, record_outcome-DecidedOnce)

  pub writes-DecidedOnce : KeepsWrites {F = F} (DecidedOnce i)
  writes-DecidedOnce = record {
    drafts = drafts-DecidedOnce i;
    decision = write_decision-DecidedOnce i;
    outcome = write_outcome-DecidedOnce;
  }
