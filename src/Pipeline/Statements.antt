-- ===== src/Pipeline/Statements.antt =====
-- The writes of drafts, for an invariant of nodes and edges.
use wager.Prelude.{String, Option, none, some, List, [], ◌∷◌, All}
use wager.Models.{Uuid, DataFlag, GraphNode, GraphEdge, BetRow}
use wager.Exec.{Result, ok, err}
use wager.Db.{Db}
use wager.World.Keeps.{Keeps, Keeps-bind, Keeps-for_each-All, keeps_rules}
use wager.Sql.{insert_node, insert_edge, update_bet}
use wager.Store.{
  require_bet, insert_nodes, insert_checked_edge, insert_edges, update_bet_status, append_flag,
}
use wager.Store.Fields.{
  Column, Value, write_row, update_found, update_row, refuse_unknown, update_bet_fields,
}
use wager.Pipeline.Writes.{IsDraft, IsDraftEdge, KeepsRows, KeepsDrafts}

-- An invariant that the updates of `bets` keep.
module _ {F : Type 0} (Q : Db F → Type 0)
    (bets : (i : Uuid) (f : BetRow F → BetRow F) → Keeps Q (update_bet i f)) where
  write_row-Keeps : (i : Uuid) (r : Result (BetRow F)) → Keeps Q (write_row i r)
  write_row-Keeps i (ok row) = search (keeps_rules, bets)
  write_row-Keeps i (err e) = search keeps_rules

  update_found-Keeps :
      (i : Uuid) (fs : List (Column × Value F)) (o : Option (BetRow F))
      → Keeps Q (update_found i fs o)
  update_found-Keeps i fs none = search keeps_rules
  update_found-Keeps i fs (some b) = write_row-Keeps i _

  refuse_unknown-Keeps : (ks : List String) → Keeps Q (refuse_unknown ks)
  refuse_unknown-Keeps [] = search keeps_rules
  refuse_unknown-Keeps (k ∷ ks) = search keeps_rules

  update_row-Keeps : (i : Uuid) (fs : List (Column × Value F)) → Keeps Q (update_row i fs)
  unfolding update_row
  update_row-Keeps i fs = search (keeps_rules, update_found-Keeps)

  fields-Keeps : (i : Uuid) (fs : List (String × Value F)) → Keeps Q (update_bet_fields i fs)
  unfolding update_bet_fields
  fields-Keeps i [] = search keeps_rules
  fields-Keeps i (f ∷ fs) = search (keeps_rules, refuse_unknown-Keeps, update_row-Keeps)

  status-Keeps : (i : Uuid) (s : String) → Keeps Q (update_bet_status i s)
  unfolding update_bet_status
  status-Keeps i s = search (keeps_rules, bets)

  flag-Keeps : (i : Uuid) (f : DataFlag) → Keeps Q (append_flag i f)
  unfolding append_flag
  flag-Keeps i f = search (keeps_rules, bets)

  pub rows-Keeps : KeepsRows Q
  rows-Keeps = record { status = status-Keeps; flag = flag-Keeps; fields = fields-Keeps }

-- An invariant that speaks of nodes and edges alone, and that new drafts keep.
module _ {F : Type 0} (Q : Db F → Type 0)
    (bets : (i : Uuid) (f : BetRow F → BetRow F) → Keeps Q (update_bet i f))
    (node : (n : GraphNode F) → IsDraft n → Keeps Q (insert_node n))
    (edge : (e : GraphEdge) → IsDraftEdge e → Keeps Q (insert_edge e)) where
  nodes-Keeps : (ns : List (GraphNode F)) → All IsDraft ns → Keeps Q (insert_nodes ns)
  unfolding insert_nodes require_bet
  nodes-Keeps [] h = search keeps_rules
  nodes-Keeps (n ∷ ns) h =
      Keeps-bind _ _ (search keeps_rules) (λ _. Keeps-for_each-All IsDraft (n ∷ ns) _ node h)

  checked_edge-Keeps : (e : GraphEdge) → IsDraftEdge e → Keeps Q (insert_checked_edge e)
  unfolding insert_checked_edge
  checked_edge-Keeps e h = search (keeps_rules, edge)

  edges-Keeps : (es : List GraphEdge) → All IsDraftEdge es → Keeps Q (insert_edges es)
  unfolding insert_edges
  edges-Keeps [] h = search keeps_rules
  edges-Keeps (e ∷ es) h = Keeps-for_each-All IsDraftEdge (e ∷ es) _ checked_edge-Keeps h

  pub drafts-Keeps : KeepsDrafts Q
  drafts-Keeps = record { nodes = nodes-Keeps; edges = edges-Keeps; rows = rows-Keeps Q bets }
