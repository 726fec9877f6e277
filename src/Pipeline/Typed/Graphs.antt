-- ===== src/Pipeline/Typed/Graphs.antt =====
-- Both graphs under the kinds of the nodes that an edge joins.
use wager.Prelude.{String}
use wager.Floats.{Floats}
use wager.World.Keeps.{Keeps, keeps_rules}
use wager.Store.Typed.{IsTyped}
use wager.Store.Typed.Writes.{write_decision-IsTyped}
use wager.State.{BetState}
use wager.Pipeline.Graphs.{phase1}
use wager.Pipeline.Runs.{KeepsGraphs, decision-Keeps, phase1_resume-Keeps}
use wager.Pipeline.Typed.{rows-IsTyped, extraction-IsTyped}
use wager.Pipeline.Typed.Review.{phase2-IsTyped}

module _ {F : Type 0} ⦃fl : Floats F⦄ where
  phase1-IsTyped : (p q : String) (s : BetState F) → Keeps IsTyped (phase1 p q s)
  unfolding phase1
  phase1-IsTyped p q s =
      search (keeps_rules, extraction-IsTyped, decision-Keeps rows-IsTyped write_decision-IsTyped)

  pub graphs-IsTyped : KeepsGraphs {F = F} IsTyped
  graphs-IsTyped = record {
    start = phase1-IsTyped;
    resume = phase1_resume-Keeps rows-IsTyped write_decision-IsTyped;
    review = phase2-IsTyped;
    flag = rows-IsTyped.flag;
  }
