-- ===== src/Pipeline/Drafts.antt =====
-- The nodes of phase 1 up to the interrupt, as writers of drafts.
use wager.Prelude.{String, false, ◌≡◌, refl, Option, none, List, All}
use wager.Prelude.Int.{ℤ}
use wager.Models.{
  Uuid, NodeType, EdgeType, GraphNode, HypothesisItem, DerivedReasoning, same_type, same_edge_type,
}
use wager.Exec.{◌>>=◌}
use wager.Db.{Db}
use wager.World.{new_node, new_edge}
use wager.World.Keeps.{Keeps, keeps_rules}
use wager.World.Yields.{
  Yields, Yields-pure, Yields-bind, Yields-then, Yields-for_list, All-append, All-flatten,
}
use wager.Pipeline.Extraction.{edges_from, derived_edges, item_nodes, reasoning_edges}
use wager.Pipeline.Writes.{IsDraft, IsDraftEdge}

module _ {F : Type 0} where
  -- The edges that `derive_reasoning` makes are not `leads_to` edges.
  new_edge-IsDraftEdge :
      (bet a b : Uuid) (t : EdgeType)
      → same_edge_type t EdgeType.leads_to ≡ false
      → Yields {F = F} IsDraftEdge (new_edge bet a b t)
  unfolding ◌>>=◌
  new_edge-IsDraftEdge bet a b t draft = record { at = λ w. draft }

  pub edges_from-drafts :
      (bet : Uuid) (t : EdgeType) (targets : List (GraphNode F)) (source : Uuid) (idxs : List ℤ)
      → same_edge_type t EdgeType.leads_to ≡ false
      → Yields (All IsDraftEdge) (edges_from bet t targets source idxs)
  unfolding edges_from
  edges_from-drafts bet t targets source idxs draft = Yields-for_list IsDraftEdge idxs _ (λ idx.
      Yields-then IsDraftEdge _ _ (λ target. new_edge-IsDraftEdge bet source target.id t draft))

  pub derived_edges-drafts :
      (bet : Uuid) (facts : List (GraphNode F)) (items : List (GraphNode F × List ℤ))
      → Yields (All IsDraftEdge) (derived_edges bet facts items)
  unfolding derived_edges
  derived_edges-drafts bet facts items =
      Yields-bind (All (All IsDraftEdge)) (All IsDraftEdge) _ _
        (Yields-for_list (All IsDraftEdge) items _
          (λ item. edges_from-drafts bet EdgeType.derived_from facts item.0.id item.1 refl))
        (λ lists h. Yields-pure _ _ (All-flatten IsDraftEdge lists h))

  pub reasoning_edges-drafts :
      (bet : Uuid) (facts : List (GraphNode F)) (p : DerivedReasoning F) (h : HypothesisItem F)
      (as' : List (GraphNode F)) (n : GraphNode F) (os : List (GraphNode F))
      → Yields (All IsDraftEdge) (reasoning_edges bet facts p h as' n os)
  unfolding reasoning_edges
  reasoning_edges-drafts bet facts p h as' n os =
      Yields-bind (All IsDraftEdge) _ _ _ (derived_edges-drafts bet facts _) λ e₁ h₁.
        Yields-bind (All IsDraftEdge) _ _ _
          (edges_from-drafts bet EdgeType.derived_from facts n.id _ refl)
          λ e₂ h₂.
            Yields-bind (All IsDraftEdge) _ _ _
              (edges_from-drafts bet EdgeType.depends_on as' n.id _ refl)
              λ e₃ h₃.
                Yields-bind (All IsDraftEdge) _ _ _ (derived_edges-drafts bet facts _) λ e₄ h₄.
                  Yields-pure _ _ (
                    All-append IsDraftEdge e₁ _ h₁
                      (All-append IsDraftEdge e₂ _ h₂ (All-append IsDraftEdge e₃ e₄ h₃ h₄)))

  pub new_node-IsDraft :
      (i : Uuid) (k : NodeType) (c : String) (x : Option F) (s : String)
      → same_type k NodeType.decision ≡ false
      → Yields IsDraft (new_node i k c x s)
  unfolding ◌>>=◌
  new_node-IsDraft i k c x s draft = record { at = λ w. draft }

  pub item_nodes-drafts :
      {A : Type 0} (i : Uuid) (k : NodeType) (s : String) (content : A → String) (items : List A)
      → same_type k NodeType.decision ≡ false
      → Yields (All IsDraft) (item_nodes {F = F} i k s content items)
  item_nodes-drafts i k s content items draft =
      Yields-for_list IsDraft items _ (λ item. new_node-IsDraft i k _ none s draft)

module _ {F : Type 0} {Q : Db F → Type 0} where
  pub edges_from-Keeps :
      (bet : Uuid) (t : EdgeType) (targets : List (GraphNode F)) (source : Uuid) (idxs : List ℤ)
      → Keeps Q (edges_from bet t targets source idxs)
  unfolding edges_from
  edges_from-Keeps bet t targets source idxs = search keeps_rules

  pub derived_edges-Keeps :
      (bet : Uuid) (facts : List (GraphNode F)) (items : List (GraphNode F × List ℤ))
      → Keeps Q (derived_edges bet facts items)
  unfolding derived_edges
  derived_edges-Keeps bet facts items = search (keeps_rules, edges_from-Keeps)

  pub reasoning_edges-Keeps :
      (bet : Uuid) (facts : List (GraphNode F)) (p : DerivedReasoning F) (h : HypothesisItem F)
      (as' : List (GraphNode F)) (n : GraphNode F) (os : List (GraphNode F))
      → Keeps Q (reasoning_edges bet facts p h as' n os)
  unfolding reasoning_edges
  reasoning_edges-Keeps bet facts p h as' n os =
      search (keeps_rules, edges_from-Keeps, derived_edges-Keeps)

  pub item_nodes-Keeps :
      {A : Type 0} (i : Uuid) (k : NodeType) (s : String) (content : A → String) (items : List A)
      → Keeps Q (item_nodes {F = F} i k s content items)
  item_nodes-Keeps i k s content items = search keeps_rules
