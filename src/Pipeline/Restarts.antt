-- ===== src/Pipeline/Restarts.antt =====
-- A run of phase 1 that goes on at any of its nodes, under an invariant of the database.
use wager.Prelude.{String, ◌≡◌, Option, List, [], ◌∷◌, ◌++◌, All}
use wager.Prelude.Int.{ℤ}
use wager.Floats.{Floats}
use wager.Db.{Db}
use wager.World.Keeps.{Keeps, Keeps-pure, Keeps-bind}
use wager.State.{BetState, NodeFn}
use wager.Pipeline.Graphs.{run_nodes, phase1_nodes}
use wager.Pipeline.Writes.{KeepsWrites}
use wager.Pipeline.Upkeep.{
  checked-Keeps, docs_intake-Keeps, extract_facts-Keeps, derive_reasoning-Keeps,
  confirm_decision-Keeps,
}
use wager.Pipeline.Runs.{
  KeepsGraphs, graphs-Keeps, write_decision-Keeps, link_github-Keeps, schedule_review-Keeps,
}

module _ {A : Type 0} (P : A → Type 0) where
  All-right : (xs ys : List A) → All P (xs ++ ys) → All P ys
  All-right [] ys h = h
  All-right (x ∷ xs) ys h = All-right xs ys h.1

  All-left : (xs ys : List A) → All P (xs ++ ys) → All P xs
  All-left [] ys h = tt
  All-left (x ∷ xs) ys h = (h.0, All-left xs ys h.1)

  All-between :
      (all before rest after : List A) → all ≡ before ++ (rest ++ after) → All P all → All P rest
  All-between all before rest after split h =
      All-left rest after (All-right before (rest ++ after) (rw split at h))

module _ {F : Type 0} (Q : Db F → Type 0) where
  -- From whatever state, the node keeps the invariant.
  abbrev KeepsNode : String × NodeFn F → Type 0
  KeepsNode node = (s : BetState F) → Keeps Q (node.1 s)

  nodes-Keeps :
      (ns : List (String × NodeFn F))
      → All KeepsNode ns
      → (s : BetState F) → Keeps Q (run_nodes ns s)
  unfolding run_nodes
  nodes-Keeps [] h s = Keeps-pure s
  nodes-Keeps ((name, fn) ∷ ns) h s =
      Keeps-bind _ _ (checked-Keeps name fn s (h.0 s)) (nodes-Keeps ns h.1)

-- An invariant that the graphs keep, and any consecutive nodes of phase 1 from whatever state.
pub record KeepsRuns {F : Type 0} ⦃fl : Floats F⦄ (Q : Db F → Type 0) : Type 0 where
  pub graphs : KeepsGraphs Q
  pub restart :
      (p q : String) (r : Option ℤ) (before rest after : List (String × NodeFn F))
      → phase1_nodes p q r ≡ before ++ (rest ++ after)
      → (s : BetState F) → Keeps Q (run_nodes rest s)

module _ {F : Type 0} ⦃fl : Floats F⦄ {Q : Db F → Type 0} (k : KeepsWrites Q) where
  phase1_nodes-Keeps : (p q : String) (r : Option ℤ) → All (KeepsNode Q) (phase1_nodes p q r)
  phase1_nodes-Keeps p q r = (
    docs_intake-Keeps k.drafts.rows,
    (
      extract_facts-Keeps k.drafts p,
      (
        derive_reasoning-Keeps k.drafts q,
        (
          confirm_decision-Keeps k.drafts.rows r,
          (
            write_decision-Keeps k.drafts.rows k.decision,
            (link_github-Keeps k.drafts.rows, (schedule_review-Keeps k.drafts.rows, tt)),
          ),
        ),
      ),
    ),
  )

  pub runs-Keeps : KeepsRuns Q
  runs-Keeps = record {
    graphs = graphs-Keeps k;
    restart = λ p q r before rest after split.
        nodes-Keeps Q rest
          (All-between (KeepsNode Q) _ before rest after split (phase1_nodes-Keeps p q r));
  }
