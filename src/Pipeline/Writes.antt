-- ===== src/Pipeline/Writes.antt =====
-- What the graphs rely on of the store: an invariant of the database that its writes keep. The
-- nodes before the human attestation write drafts only: no decision, and no edge to one.
use wager.Prelude.{String, Bool, false, ◌≡◌, List, All}
use wager.Models.{
  Uuid, NodeType, EdgeType, DataFlag, GraphNode, GraphEdge, same_type, same_edge_type,
}
use wager.Floats.{Floats}
use wager.Db.{Db}
use wager.World.Keeps.{Keeps}
use wager.Store.{insert_nodes, insert_edges, update_bet_status, append_flag}
use wager.Store.Fields.{Value, update_bet_fields}
use wager.Store.Decisions.{write_decision, write_outcome}

abbrev pub IsDraftEdge : GraphEdge → Type 0
IsDraftEdge e = same_edge_type e.edge_type EdgeType.leads_to ≡ false

module _ {F : Type 0} where
  abbrev pub IsDraft : GraphNode F → Type 0
  IsDraft n = same_type n.kind NodeType.decision ≡ false

  -- The updates of a bet's row.
  pub record KeepsRows (Q : Db F → Type 0) : Type 0 where
    pub status : (i : Uuid) (s : String) → Keeps Q (update_bet_status i s)
    pub flag : (i : Uuid) (f : DataFlag) → Keeps Q (append_flag i f)
    pub fields : (i : Uuid) (fs : List (String × Value F)) → Keeps Q (update_bet_fields i fs)

  pub record KeepsDrafts (Q : Db F → Type 0) : Type 0 where
    pub nodes : (ns : List (GraphNode F)) → All IsDraft ns → Keeps Q (insert_nodes ns)
    pub edges : (es : List GraphEdge) → All IsDraftEdge es → Keeps Q (insert_edges es)
    pub rows : KeepsRows Q

  pub record KeepsWrites ⦃fl : Floats F⦄ (Q : Db F → Type 0) : Type 0 where
    pub drafts : KeepsDrafts Q
    pub decision : (i o : Uuid) (c : String) → Keeps Q (write_decision i o c)
    pub outcome :
        (i h : Uuid) (a p : F) (b : Bool) (c : String) → Keeps Q (write_outcome i h a p b c)
