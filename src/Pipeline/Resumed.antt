-- ===== src/Pipeline/Resumed.antt =====
-- The resumption of phase 1 with an option: what the effects after the decision leave alone.
use wager.Prelude.{String, ◌≡◌, List, [], ◌∷◌}
use wager.Models.{GraphNode, GraphEdge}
use wager.Floats.{Floats}
use wager.Db.{Db}
use wager.World.{World}
use wager.World.Keeps.{Keeps}
use wager.World.Yields.{Yields}
use wager.Sql.{update_bet}
use wager.State.{NodeFn}
use wager.Pipeline.Writes.{KeepsRows}
use wager.Pipeline.Statements.{rows-Keeps}
use wager.Pipeline.Effects.{link_github, schedule_review}

module _ {F : Type 0} where
  -- The nodes and edges are these.
  abbrev pub HasGraph : List (GraphNode F) → List GraphEdge → Db F → Type 0
  HasGraph ns es d = (d.nodes ≡ ns) × (d.edges ≡ es)

  pub rows-HasGraph : (ns : List (GraphNode F)) (es : List GraphEdge) → KeepsRows (HasGraph ns es)
  unfolding update_bet
  rows-HasGraph ns es = rows-Keeps (HasGraph ns es) (λ i f. record { at = λ w h. h })

module _ {F : Type 0} ⦃fl : Floats F⦄ where
  -- The two nodes after the decision.
  abbrev effects : List (String × NodeFn F)
  effects = ("link_github", link_github) ∷ ("schedule_review", schedule_review) ∷ []
