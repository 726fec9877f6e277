-- ===== src/Store/Edges.antt =====
-- `insert_edges` of graph/store.py: the test on the endpoints of an edge.
use wager.Prelude.{
  ℕ, ◌+◌, Bool, true, false, not, ◌&&◌, ◌≡◌, ◌≢◌, refl, List, [], ◌∷◌, ◌==◌, if◌then◌else◌, arith,
  Bool-cases, inl, inr,
}
use wager.Models.{Uuid, GraphNode, GraphEdge}
use wager.Errors.{pipeline_error, value_error, references_missing_node}
use wager.Exec.{ok, err, ◌>>=◌}
use wager.Db.{has_node, has_edge}
use wager.Db.Rows.{Unique}
use wager.World.{World}
use wager.Sql.Inserts.{insert_edge_new}
use wager.Store.{count_any, insert_checked_edge}

abbrev one : Bool → ℕ
one true = 1
one false = 0

module _ {F : Type 0} (a b : Uuid) where
  count_any-distinct :
      (ns : List (GraphNode F))
      → a ≢ b
      → Unique (λ n. n.id) ns
      → count_any (a ∷ b ∷ []) ns ≡ one (has_node a ns) + one (has_node b ns)
  count_any-distinct [] ne u = refl
  count_any-distinct (n ∷ ns) ne u = ground (arith, count_any-distinct ns ne u.1)

  count_any-same :
      (ns : List (GraphNode F))
      → a ≡ b
      → Unique (λ n. n.id) ns
      → count_any (a ∷ b ∷ []) ns ≡ one (has_node a ns)
  count_any-same [] e u = refl
  count_any-same (n ∷ ns) e u = ground (arith, count_any-same ns e u.1)

  count_any_both :
      (ns : List (GraphNode F))
      → Unique (λ n. n.id) ns
      → (count_any (a ∷ b ∷ []) ns == 2) ≡ (not (a == b) && (has_node a ns && has_node b ns))
  count_any_both ns u = elim (Bool-cases (a == b)) [
    | inl e ↦ ground (arith, count_any-same ns)
    | inr e ↦ ground (arith, count_any-distinct ns)
  ]

-- With unique node ids and a fresh edge id, insert_edges takes an edge of its list exactly when
-- its two endpoints are nodes and differ; else it raises and changes nothing, also for an edge
-- from a node that exists to itself.
pub insert_checked_edge_lem :
    {F : Type 0} (e : GraphEdge) (w : World F)
    → Unique (λ n. n.id) w.db.nodes
    → has_edge e.id w.db.edges ≡ false
    → insert_checked_edge e w ≡ (
        if not (e.from_node == e.to_node)
          && (has_node e.from_node w.db.nodes && has_node e.to_node w.db.nodes)
        then (ok tt, record w { db = record w.db { edges = e ∷ w.db.edges } })
        else (
          err (
              pipeline_error "store.insert_edges"
                (value_error (references_missing_node e.from_node e.to_node))),
          w,
        ))
unfolding insert_checked_edge ◌>>=◌
insert_checked_edge_lem e w u new =
    rw (count_any_both e.from_node e.to_node w.db.nodes u) (ground (arith, insert_edge_new w e new))
