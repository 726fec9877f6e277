-- ===== src/Store/Typed/Statements.antt =====
-- The statements on the tables, under the kinds of the nodes that an edge joins.
use wager.Prelude.{◌&&◌, ◌≡◌, refl, List, [], ◌∷◌, Bool-cases, inl, inr, arith}
use wager.Models.{Uuid, GraphNode, GraphEdge, BetRow}
use wager.Db.{Db, Outcome, has_bet, has_node, has_edge, has_outcome, update_nodes}
use wager.World.Keeps.{Keeps}
use wager.World.Triple.{Triple}
use wager.Sql.{insert_bet, insert_node, insert_edge, insert_outcome, update_bet, update_node}
use wager.Store.Typed.{
  Kinds, kinds, IsTypedEdge, IsTyped, TypedWith, has_kind-right, has_kind-own, All-implies,
  IsTypedEdge-more, IsTypedEdge-Knows,
}

module _ {F : Type 0} (ks : Kinds) where
  more_nodes-TypedWith :
      (n : GraphNode F) (d : Db F)
      → TypedWith ks d
      → TypedWith ((n.id, n.kind) ∷ ks) (record d { nodes = n ∷ d.nodes })
  more_nodes-TypedWith n d (typed, known) = (
    All-implies (IsTypedEdge-more (n.id, n.kind) (kinds d.nodes)) d.edges typed,
    (
      has_kind-own n.id n.kind (kinds d.nodes),
      All-implies (λ p h. has_kind-right p.0 p.1 ((n.id, n.kind) ∷ []) (kinds d.nodes) h) ks known,
    ),
  )

  pub insert_node-TypedWith :
      (n : GraphNode F)
      → Triple (TypedWith ks) IsTyped (λ _. TypedWith ((n.id, n.kind) ∷ ks)) (insert_node n)
  unfolding insert_node
  insert_node-TypedWith n = record {
    at = λ w h. elim (Bool-cases (has_node n.id w.db.nodes)) [
      | inl old ↦ rw old h.0
      | inr new ↦ rw new (more_nodes-TypedWith n w.db h)
    ];
  }

  pub insert_edge-TypedWith :
      (e : GraphEdge) → IsTypedEdge ks e → Keeps {F = F} (TypedWith ks) (insert_edge e)
  unfolding insert_edge
  insert_edge-TypedWith e fits = record {
    at = λ w h. elim (Bool-cases (has_edge e.id w.db.edges)) [
      | inl old ↦ rw old h
      | inr new ↦
          rw new
            (elim (Bool-cases (has_node e.from_node w.db.nodes && has_node e.to_node w.db.nodes)) [
              | inl ends ↦ rw ends ((IsTypedEdge-Knows ks w.db e h.1 fits, h.0), h.1)
              | inr loose ↦ rw loose h
            ])
    ];
  }

  pub update_bet-TypedWith :
      (i : Uuid) (f : BetRow F → BetRow F) → Keeps (TypedWith ks) (update_bet i f)
  unfolding update_bet
  update_bet-TypedWith i f = record { at = λ w h. h }

  pub insert_outcome-TypedWith : (o : Outcome F) → Keeps (TypedWith ks) (insert_outcome o)
  unfolding insert_outcome
  insert_outcome-TypedWith o = record {
    at = λ w h. elim (Bool-cases (has_outcome o.bet_id w.db.outcomes)) [
      | inl old ↦ rw old h
      | inr new ↦
          rw new
            (elim (Bool-cases (
              has_bet o.bet_id w.db.bets
              && (has_node o.hypothesis_node_id w.db.nodes
                  && has_node o.decision_node_id w.db.nodes))) [
                    | inl rows ↦ rw rows h
                    | inr loose ↦ rw loose h
                  ])
    ];
  }

pub update_bet-IsTyped :
    {F : Type 0} (i : Uuid) (f : BetRow F → BetRow F) → Keeps IsTyped (update_bet i f)
unfolding update_bet
update_bet-IsTyped i f = record { at = λ w h. h }

pub insert_bet-IsTyped : {F : Type 0} (b : BetRow F) → Keeps (IsTyped {F = F}) (insert_bet b)
unfolding insert_bet
insert_bet-IsTyped b = record {
  at =
      λ w h. elim (Bool-cases (has_bet b.id w.db.bets)) [ inl old ↦ rw old h | inr new ↦ rw new h ];
}

kinds-update_nodes :
    {F : Type 0} (i : Uuid) (f : GraphNode F → GraphNode F)
    → ((n : GraphNode F) → ((f n).id ≡ n.id) × ((f n).kind ≡ n.kind))
    → (ns : List (GraphNode F)) → kinds (update_nodes i f ns) ≡ kinds ns
unfolding update_nodes
kinds-update_nodes i f same [] = refl
kinds-update_nodes i f same (n ∷ ns) =
    let (a, b) = same n in ground (arith, a, b, kinds-update_nodes i f same ns)

pub update_node-TypedWith :
    {F : Type 0} (ks : Kinds) (i : Uuid) (f : GraphNode F → GraphNode F)
    → ((n : GraphNode F) → ((f n).id ≡ n.id) × ((f n).kind ≡ n.kind))
    → Keeps (TypedWith ks) (update_node i f)
unfolding update_node
update_node-TypedWith ks i f same = record {
  at = λ w h. rw (kinds-update_nodes i f same w.db.nodes) h;
}
