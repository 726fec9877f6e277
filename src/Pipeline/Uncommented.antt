-- ===== src/Pipeline/Uncommented.antt =====
-- `run_due_reviews` of pipeline/phase2.py and the comments on the bets' GitHub issues.
use wager.Prelude.{String, Option, none, some, List, [], ◌∷◌, refl, ◌≡◌}
use wager.Models.{DataFlag, Bet}
use wager.Exec.{Result, ok, err}
use wager.Floats.{Floats}
use wager.World.{World, Request}
use wager.World.Quiet.{Quiet, comments, quiet_rules, Quiet-pure, Quiet-bind, Quiet-bind-Yields}
use wager.World.Yields.{Yields, Yields-pure, Yields-then}
use wager.State.{BetState, NodeFn, create_initial_state}
use wager.Pipeline.Review.{
  load_bet, after_query, fetch_metric, grade, compare_fetched, compare_outcome, update_calibration,
  report_outcome,
}
use wager.Pipeline.Graded.{checked-Yields}
use wager.Pipeline.Quiet.{
  load_bet-Quiet, fetch_metric-Quiet, compare_outcome-Quiet, update_calibration-Quiet,
  report_outcome-Quiet, due_bets-Quiet,
}
use wager.Pipeline.Graphs.{
  translate, checked, run_nodes, phase2, Summary, tally, attempt, review, review_all,
  run_due_reviews,
}

module _ {F : Type 0} where
  -- The state has no issue to comment on.
  abbrev HasNoIssue : BetState F → Type 0
  HasNoIssue s = s.github_issue_url ≡ none

  checked-Quiet :
      (name : String) (fn : NodeFn F) (s : BetState F) → Quiet (fn s) → Quiet (checked name fn s)
  unfolding checked
  checked-Quiet name fn s q = record { at = λ c w h. quiet c (fn s w).0 (fn s w).1 (q.at c w h) }
    where
      quiet :
          (c : List Request) (r : Result (BetState F)) (w : World F)
          → comments w.sent ≡ c
          → comments (translate name (r, w)).1.sent ≡ c
      quiet c (ok a) w h = h
      quiet c (err e) w h = h

  -- A node that is quiet and gives the state no issue, before the others.
  node-Quiet :
      (name : String) (fn : NodeFn F) (rest : List (String × NodeFn F)) (s : BetState F)
      → Quiet (fn s)
      → Yields HasNoIssue (fn s)
      → ((s' : BetState F) → HasNoIssue s' → Quiet (run_nodes rest s'))
      → Quiet (run_nodes ((name, fn) ∷ rest) s)
  unfolding run_nodes
  node-Quiet name fn rest s q y k =
      Quiet-bind-Yields HasNoIssue _ _ (checked-Quiet name fn s q)
        (checked-Yields HasNoIssue name fn s y) k

  -- The row's issue is not read.
  load_bet-Yields : (s : BetState F) → HasNoIssue s → Yields HasNoIssue (load_bet s)
  unfolding load_bet
  load_bet-Yields s missing =
      Yields-then HasNoIssue _ _
        λ read. Yields-then HasNoIssue _ _ λ _. Yields-pure HasNoIssue _ missing

  after_query-Yields :
      (e : Option DataFlag) (v : Option F) (s : BetState F)
      → HasNoIssue s
      → Yields HasNoIssue (after_query e v s)
  after_query-Yields (some e) v s missing =
      Yields-then HasNoIssue _ _ λ _. Yields-pure HasNoIssue _ missing
  after_query-Yields none v s missing = Yields-pure HasNoIssue _ missing

  fetch_metric-Yields : (s : BetState F) → HasNoIssue s → Yields HasNoIssue (fetch_metric s)
  unfolding fetch_metric
  fetch_metric-Yields s missing =
      Yields-then HasNoIssue _ _ λ result. after_query-Yields _ _ s missing

module _ {F : Type 0} ⦃fl : Floats F⦄ where
  compare_fetched-Yields :
      (a : Option F) (s : BetState F) → HasNoIssue s → Yields HasNoIssue (compare_fetched a s)
  compare_fetched-Yields none s missing = Yields-pure HasNoIssue s missing
  compare_fetched-Yields (some a) s missing = grade-Yields s.predicted_lift
    where
      grade-Yields : (p : Option F) → Yields HasNoIssue (grade a p s)
      grade-Yields none = record { at = λ w. tt }
      grade-Yields (some p) = Yields-then HasNoIssue _ _ λ settings.
          Yields-then HasNoIssue _ _
            λ hypothesis. Yields-then HasNoIssue _ _ λ _. Yields-pure HasNoIssue _ missing

  compare_outcome-Yields : (s : BetState F) → HasNoIssue s → Yields HasNoIssue (compare_outcome s)
  unfolding compare_outcome
  compare_outcome-Yields s missing = compare_fetched-Yields _ s missing

  update_calibration-Yields :
      (s : BetState F) → HasNoIssue s → Yields HasNoIssue (update_calibration s)
  unfolding update_calibration
  update_calibration-Yields s missing =
      Yields-then HasNoIssue _ _ λ _. Yields-pure HasNoIssue _ missing

  last-Quiet :
      (s : BetState F)
      → HasNoIssue s
      → Quiet (run_nodes (("report_outcome", report_outcome) ∷ []) s)
  unfolding run_nodes
  last-Quiet s missing =
      Quiet-bind _ _ (checked-Quiet _ _ s (report_outcome-Quiet s missing)) (λ s'. Quiet-pure s')

  phase2-Quiet : (s : BetState F) → HasNoIssue s → Quiet (phase2 s)
  unfolding phase2
  phase2-Quiet s none_yet =
      node-Quiet _ _ _ s (load_bet-Quiet s) (load_bet-Yields s none_yet) λ s1 h1.
        node-Quiet _ _ _ s1 (fetch_metric-Quiet s1) (fetch_metric-Yields s1 h1) λ s2 h2.
          node-Quiet _ _ _ s2 (compare_outcome-Quiet s2) (compare_outcome-Yields s2 h2) λ s3 h3.
            node-Quiet _ _ _ s3 (update_calibration-Quiet s3) (update_calibration-Yields s3 h3)
              last-Quiet

  review-Quiet : (b : Bet F) → Quiet (attempt (review b))
  unfolding create_initial_state
  review-Quiet b = record { at = λ c w h. (phase2-Quiet _ refl).at c w h }

  review_all-Quiet : (bs : List (Bet F)) (s : Summary F) → Quiet (review_all bs s)
  unfolding review_all
  review_all-Quiet [] s = Quiet-pure s
  review_all-Quiet (b ∷ bs) s =
      Quiet-bind _ _ (review-Quiet b) (λ r. review_all-Quiet bs (tally b r s))

  run_due_reviews-Quiet : Quiet {F = F} run_due_reviews
  unfolding run_due_reviews
  run_due_reviews-Quiet = search (quiet_rules, due_bets-Quiet, review_all-Quiet)

  -- A run of the due reviews posts no comment on GitHub: the comments among the requests sent are
  -- the same before and after, whatever bets are due and whether or not they have an issue.
  pub comments-run_due_reviews :
      (w : World F) → comments (run_due_reviews w).1.sent ≡ comments w.sent
  comments-run_due_reviews w = run_due_reviews-Quiet.at (comments w.sent) w refl
