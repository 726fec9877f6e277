-- ===== src/Cli/Answers.antt =====
-- `/bets/{bet_id}` and `show-bet`: what they answer on a bet's id.
use wager.Prelude.{
  String, ◌≡◌, ◌⊎◌, inl, inr, refl, none, some, Option-cases, List, [], ◌∷◌, concat, show_uuid, map,
}
use wager.Models.{Uuid, GraphNode, GraphEdge, BetRow}
use wager.Errors.Formats.{code_value}
use wager.Exec.{ok, ◌>>=◌}
use wager.Floats.{Floats}
use wager.Db.{find_bet}
use wager.World.{World}
use wager.Store.Reads.{bet_nodes, bet_edges, get_bet_graph}
use wager.Pipeline.Invoke.{Checkpointer}
use wager.Api.{NodePage, EdgePage, BetPage, Response, error_body, bet_page, handle}
use wager.Models.Values.{status_value}
use wager.Cli.Listing.{IsListing, graph_lines-IsListing}
use wager.Api.Reads.{node_page, edge_page, page_of, find_outcome, get_bet}
use wager.Api.Serve as Serve
use wager.Api.Serve.{serve}
use wager.Cli.{Output, returned, refused}
use wager.Cli.Show.{row_line, graph_lines, bet_output, show_bet}

-- The page's edges are these edges, in their order.
abbrev pub SameEdges : List GraphEdge → List EdgePage → Type 0
SameEdges [] [] = Unit
SameEdges [] (p ∷ ps) = ⊥
SameEdges (e ∷ es) [] = ⊥
SameEdges (e ∷ es) (p ∷ ps) =
    ((p.from_node ≡ e.from_node) × (p.to_node ≡ e.to_node) × (p.edge_type ≡ e.edge_type))
    × SameEdges es ps

SameEdges-map : (es : List GraphEdge) → SameEdges es (map edge_page es)
SameEdges-map [] = tt
SameEdges-map (e ∷ es) = ((refl, refl, refl), SameEdges-map es)

module _ {F : Type 0} where
  -- The page's nodes are these nodes, in their order.
  abbrev pub SameNodes : List (GraphNode F) → List (NodePage F) → Type 0
  SameNodes [] [] = Unit
  SameNodes [] (p ∷ ps) = ⊥
  SameNodes (n ∷ ns) [] = ⊥
  SameNodes (n ∷ ns) (p ∷ ps) =
      ((p.id ≡ n.id)
        × (p.kind ≡ n.kind)
        × (p.content ≡ n.content)
        × (p.confidence ≡ n.confidence)
        × (p.source ≡ n.source)
        × (p.status ≡ n.status))
      × SameNodes ns ps

  SameNodes-map : (ns : List (GraphNode F)) → SameNodes ns (map node_page ns)
  SameNodes-map [] = tt
  SameNodes-map (n ∷ ns) = ((refl, refl, refl, refl, refl, refl), SameNodes-map ns)

module _ {F : Type 0} ⦃fl : Floats F⦄ (saver : Checkpointer F)
    (facts_prompt reasoning_prompt : String) (i : Uuid) (w : World F) where
  abbrev not_found : String
  not_found = concat ("bet " ∷ show_uuid i ∷ " not found" ∷ [])

  -- The page of a row and its graph.
  abbrev pub IsPage : BetRow F → List (GraphNode F) → List GraphEdge → BetPage F → Type 0
  IsPage row nodes edges page =
      (page.id ≡ row.id)
      × (page.status ≡ status_value row.status)
      × (page.metric_name ≡ row.metric_name)
      × (page.predicted_lift ≡ row.predicted_lift)
      × (page.review_date ≡ row.review_date)
      × SameNodes nodes page.nodes
      × SameEdges edges page.edges

  -- A missing bet is not found; of another, both show the row, the nodes and the edges.
  abbrev pub IsShown : Response F × World F → Output × World F → Type 0
  IsShown served shown =
      ((find_bet i w.db.bets ≡ none)
        × (served ≡ (record { status = 404; body = error_body "bet_not_found" not_found }, w))
        × (shown ≡ (refused not_found, w)))
      ⊎ ((row : BetRow F) × (nodes : List (GraphNode F)) × (edges : List GraphEdge)
          × (page : BetPage F) × (lines : List String) × (find_bet i w.db.bets ≡ some row)
          × (get_bet_graph i w ≡ (ok (nodes, edges), w))
          × (served ≡ (record { status = 200; body = bet_page page }, w))
          × IsPage row nodes edges page
          × (shown ≡ (returned (row_line row ∷ lines), w))
          × IsListing nodes edges lines)

  -- For an id without a bet, the API answers with 404 and show-bet has the exit code 1. For any
  -- other, the page of the API has the id, status, metric, predicted lift and review date of the
  -- row, and exactly the nodes and the edges of get_bet_graph, in its order; and show-bet prints a
  -- line with the row, a line for each node, and for each edge derived_from, from a node that is
  -- not a fact to a node of the bet, the line of a node with the id that it leads to. Both leave
  -- the world as it was.
  pub show_bet_answers :
      IsShown (serve saver facts_prompt reasoning_prompt (Serve.show_bet i) w) (show_bet i w)
  unfolding serve get_bet get_bet_graph show_bet bet_output handle code_value ◌>>=◌
  show_bet_answers = elim (Option-cases (find_bet i w.db.bets)) [
    | inl missing ↦ inl (missing, rw missing refl, rw missing refl)
    | inr (row, found) ↦
        let nodes : List (GraphNode F) = bet_nodes i w.db.nodes in
        let edges = bet_edges i w.db.edges in
        inr (
          row,
          nodes,
          edges,
          page_of row nodes edges (find_outcome i w.db.outcomes),
          graph_lines nodes edges,
          found,
          refl,
          rw found refl,
          (refl, refl, refl, refl, refl, SameNodes-map nodes, SameEdges-map edges),
          rw found refl,
          graph_lines-IsListing nodes edges,
        )
  ]
