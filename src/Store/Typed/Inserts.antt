-- ===== src/Store/Typed/Inserts.antt =====
-- `insert_nodes` and `insert_edges` of graph/store.py, under the kinds of the nodes that an edge joins.
use wager.Prelude.{List, [], ◌∷◌, ◌++◌, All}
use wager.Models.{Uuid, NodeType, GraphNode, GraphEdge}
use wager.Exec.{for_each}
use wager.Db.{Db}
use wager.World.Keeps.{Keeps, Keeps-bind, keeps_rules, Keeps-for_each-All}
use wager.World.Yields.{Yields-any}
use wager.World.Triple.{Triple, Triple-pure, Triple-bind, Triple-bind-Yields, Triple-consequence}
use wager.Sql.{insert_node}
use wager.Store.{require_bet, insert_nodes, insert_checked_edge, insert_edges}
use wager.Store.Typed.{Kinds, kinds, IsTypedEdge, IsTyped, TypedWith}
use wager.Store.Typed.Statements.{insert_node-TypedWith, insert_edge-TypedWith}

module _ {F : Type 0} where
  nodes_known :
      (p : Uuid × NodeType) (ls ks : Kinds) (d : Db F)
      → TypedWith (ls ++ (p ∷ ks)) d
      → TypedWith (p ∷ (ls ++ ks)) d
  nodes_known p [] ks d h = h
  nodes_known p (l ∷ ls) ks d (typed, known) =
      let rest = nodes_known p ls ks d (typed, known.1) in (typed, (rest.1.0, (known.0, rest.1.1)))

  each_node-TypedWith :
      (ks : Kinds) (ns : List (GraphNode F))
      → Triple (TypedWith ks) IsTyped (λ _. TypedWith (kinds ns ++ ks)) (for_each ns insert_node)
  unfolding for_each
  each_node-TypedWith ks [] = Triple-pure _ _ (λ d h. h)
  each_node-TypedWith ks (n ∷ ns) = Triple-bind _ _ _ _ (insert_node-TypedWith ks n) λ _.
      Triple-consequence (TypedWith ((n.id, n.kind) ∷ ks)) _
        (λ _. TypedWith (kinds ns ++ ((n.id, n.kind) ∷ ks))) _ (λ d h. h)
        (λ a d. nodes_known (n.id, n.kind) (kinds ns) ks d)
        (each_node-TypedWith ((n.id, n.kind) ∷ ks) ns)

  pub insert_nodes-TypedWith :
      (ks : Kinds) (ns : List (GraphNode F))
      → Triple (TypedWith ks) IsTyped (λ _. TypedWith (kinds ns ++ ks)) (insert_nodes ns)
  unfolding insert_nodes require_bet
  insert_nodes-TypedWith ks [] = Triple-pure _ _ (λ d h. h)
  insert_nodes-TypedWith ks (n ∷ ns) =
      Triple-bind-Yields _ _ _ _ (λ d h. h.0) (search keeps_rules) (Yields-any _)
        (λ _ _. each_node-TypedWith ks (n ∷ ns))

  checked_edge-TypedWith :
      (ks : Kinds) (e : GraphEdge)
      → IsTypedEdge ks e
      → Keeps {F = F} (TypedWith ks) (insert_checked_edge e)
  unfolding insert_checked_edge
  checked_edge-TypedWith ks e h =
      Keeps-bind _ _ (search keeps_rules)
        λ db. Keeps-bind _ _ (search keeps_rules) λ _. insert_edge-TypedWith ks e h

  pub insert_edges-TypedWith :
      (ks : Kinds) (es : List GraphEdge)
      → All (IsTypedEdge ks) es
      → Keeps {F = F} (TypedWith ks) (insert_edges es)
  unfolding insert_edges
  insert_edges-TypedWith ks [] h = search keeps_rules
  insert_edges-TypedWith ks (e ∷ es) h =
      Keeps-for_each-All (IsTypedEdge ks) (e ∷ es) _ (checked_edge-TypedWith ks) h
