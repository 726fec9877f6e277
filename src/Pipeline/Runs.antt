-- ===== src/Pipeline/Runs.antt =====
-- The runs of both graphs under an invariant of the database that the writes of the store keep.
use wager.Prelude.{String, Bool, Option, none, some, List, [], ◌∷◌}
use wager.Prelude.Int.{ℤ}
use wager.Models.{Uuid, Source, DataFlag, Bet}
use wager.Exec.{Result}
use wager.Floats.{Floats}
use wager.Db.{Db}
use wager.World.Keeps.{Keeps, Keeps-pure, Keeps-bind, keeps_rules}
use wager.Store.{append_flag}
use wager.Store.Decisions as Decisions
use wager.Store.Reads.{get_bet_graph, compute_calibration, due_bets}
use wager.Integrations.Keeps.{services_rules, post_report-Keeps, comment_on_issue-Keeps}
use wager.State.{BetState}
use wager.Pipeline.Decision.{write_decision}
use wager.Pipeline.Effects.{flag_and_go_on, after_issue, after_event, link_github, schedule_review}
use wager.Pipeline.Review.{
  load_bet, after_query, fetch_metric, weakest_assumption, delivery_flags, comment_flags, grade,
  compare_fetched, compare_outcome, update_calibration, lift, report_outcome,
}
use wager.Pipeline.Writes.{KeepsRows, KeepsWrites}
use wager.Pipeline.Upkeep.{checked-Keeps, confirm_decision-Keeps, extraction-Keeps}
use wager.Pipeline.Graphs.{
  run_nodes, decision_nodes, phase1, phase1_resume, phase2, Summary, tally, review_all,
  run_due_reviews,
}

module _ {F : Type 0} {Q : Db F → Type 0} where
  pub get_bet_graph-Keeps : (i : Uuid) → Keeps Q (get_bet_graph i)
  unfolding get_bet_graph
  get_bet_graph-Keeps i = search keeps_rules

  pub load_bet-Keeps : (s : BetState F) → Keeps Q (load_bet s)
  unfolding load_bet
  load_bet-Keeps s = search (keeps_rules, get_bet_graph-Keeps) depth 9

  weakest_assumption-Keeps : (s : BetState F) → Keeps Q (weakest_assumption s)
  unfolding weakest_assumption
  weakest_assumption-Keeps s = search (keeps_rules, get_bet_graph-Keeps)

  delivery_flags-Keeps :
      (s : Source) (p : String) (e : Option DataFlag) → Keeps Q (delivery_flags s p e)
  delivery_flags-Keeps s p none = search keeps_rules
  delivery_flags-Keeps s p (some e) = search keeps_rules

  comment_flags-Keeps : (u : Option String) (t : String) → Keeps Q (comment_flags u t)
  comment_flags-Keeps none t = search keeps_rules
  comment_flags-Keeps (some u) t =
      search (keeps_rules, comment_on_issue-Keeps, delivery_flags-Keeps)

  lift-Keeps : {A : Type 0} (r : Result A) → Keeps Q (lift r)
  lift-Keeps r = record { at = λ w h. h }

  pub bets-Keeps : (demo : Bool) → Keeps Q (due_bets demo)
  unfolding due_bets
  bets-Keeps demo = search keeps_rules depth 8

module _ {F : Type 0} {Q : Db F → Type 0} (k : KeepsRows Q) where
  flag_and_go_on-Keeps :
      (c : Source) (p : String) (e : DataFlag) (s : BetState F) → Keeps Q (flag_and_go_on c p e s)
  flag_and_go_on-Keeps c p e s = search (keeps_rules, k.flag)

  after_issue-Keeps :
      (e : Option DataFlag) (v : Option String) (s : BetState F) → Keeps Q (after_issue e v s)
  after_issue-Keeps (some e) v s = flag_and_go_on-Keeps _ _ e s
  after_issue-Keeps none v s = search (keeps_rules, k.fields)

  after_event-Keeps :
      (e : Option DataFlag) (v : Option String) (s : BetState F) → Keeps Q (after_event e v s)
  after_event-Keeps (some e) v s = flag_and_go_on-Keeps _ _ e s
  after_event-Keeps none v s = search (keeps_rules, k.fields)

  pub schedule_review-Keeps : (s : BetState F) → Keeps Q (schedule_review s)
  unfolding schedule_review
  schedule_review-Keeps s = search (services_rules, after_event-Keeps)

  after_query-Keeps :
      (e : Option DataFlag) (v : Option F) (s : BetState F) → Keeps Q (after_query e v s)
  after_query-Keeps (some e) v s = search (keeps_rules, k.flag)
  after_query-Keeps none v s = search keeps_rules

  pub fetch_metric-Keeps : (s : BetState F) → Keeps Q (fetch_metric s)
  unfolding fetch_metric
  fetch_metric-Keeps s = search (services_rules, after_query-Keeps)

module _ {F : Type 0} ⦃fl : Floats F⦄ {Q : Db F → Type 0} where
  pub calibration-Keeps : Keeps Q compute_calibration
  unfolding compute_calibration
  calibration-Keeps = search keeps_rules

  pub update_calibration-Keeps : (s : BetState F) → Keeps Q (update_calibration s)
  unfolding update_calibration
  update_calibration-Keeps s = search (keeps_rules, calibration-Keeps)

  pub report_outcome-Keeps : (s : BetState F) → Keeps Q (report_outcome s)
  unfolding report_outcome
  report_outcome-Keeps s =
      search
        (
          keeps_rules, lift-Keeps, weakest_assumption-Keeps, calibration-Keeps, post_report-Keeps,
          delivery_flags-Keeps, comment_flags-Keeps,
        )
        depth 14

module _ {F : Type 0} ⦃fl : Floats F⦄ {Q : Db F → Type 0} (k : KeepsRows Q) where
  pub link_github-Keeps : (s : BetState F) → Keeps Q (link_github s)
  unfolding link_github
  link_github-Keeps s = search (services_rules, after_issue-Keeps k)

module _ {F : Type 0} ⦃fl : Floats F⦄ {Q : Db F → Type 0} (k : KeepsRows Q)
    (decision : (i o : Uuid) (c : String) → Keeps Q (Decisions.write_decision i o c)) where
  pub write_decision-Keeps : (s : BetState F) → Keeps Q (write_decision s)
  unfolding write_decision
  write_decision-Keeps s = search (keeps_rules, decision, k.status) depth 9

  pub decision-Keeps : (r : Option ℤ) (s : BetState F) → Keeps Q (run_nodes (decision_nodes r) s)
  unfolding run_nodes
  decision-Keeps r s =
      search
        (
          keeps_rules,
          checked-Keeps,
          write_decision-Keeps,
          link_github-Keeps k,
          confirm_decision-Keeps k,
          schedule_review-Keeps k,
        )
        depth 9

  pub phase1_resume-Keeps : (i : ℤ) (s : BetState F) → Keeps Q (phase1_resume i s)
  unfolding phase1_resume
  phase1_resume-Keeps i s = decision-Keeps _ s

module _ {F : Type 0} ⦃fl : Floats F⦄ {Q : Db F → Type 0} (k : KeepsWrites Q) where
  grade-Keeps : (a : F) (p : Option F) (s : BetState F) → Keeps Q (grade a p s)
  grade-Keeps a none s = search keeps_rules
  grade-Keeps a (some p) s = search (keeps_rules, k.outcome) depth 8

  compare_fetched-Keeps : (a : Option F) (s : BetState F) → Keeps Q (compare_fetched a s)
  compare_fetched-Keeps none s = search keeps_rules
  compare_fetched-Keeps (some a) s = grade-Keeps a _ s

  compare_outcome-Keeps : (s : BetState F) → Keeps Q (compare_outcome s)
  unfolding compare_outcome
  compare_outcome-Keeps s = compare_fetched-Keeps _ s

  phase2-Keeps : (s : BetState F) → Keeps Q (phase2 s)
  unfolding phase2 run_nodes
  phase2-Keeps s =
      search
        (
          keeps_rules,
          checked-Keeps,
          load_bet-Keeps,
          compare_outcome-Keeps,
          update_calibration-Keeps,
          report_outcome-Keeps,
          fetch_metric-Keeps k.drafts.rows,
        )
        depth 11

  phase1-Keeps : (p q : String) (s : BetState F) → Keeps Q (phase1 p q s)
  unfolding phase1
  phase1-Keeps p q s =
      search (keeps_rules, extraction-Keeps k.drafts, decision-Keeps k.drafts.rows k.decision)

-- An invariant that the runs of both graphs keep, from whatever state, and so does `append_flag`.
pub record KeepsGraphs {F : Type 0} ⦃fl : Floats F⦄ (Q : Db F → Type 0) : Type 0 where
  pub start : (p q : String) (s : BetState F) → Keeps Q (phase1 p q s)
  pub resume : (i : ℤ) (s : BetState F) → Keeps Q (phase1_resume i s)
  pub review : (s : BetState F) → Keeps Q (phase2 s)
  pub flag : (i : Uuid) (f : DataFlag) → Keeps Q (append_flag i f)

module _ {F : Type 0} ⦃fl : Floats F⦄ {Q : Db F → Type 0} where
  pub graphs-Keeps : KeepsWrites Q → KeepsGraphs Q
  graphs-Keeps k = record {
    start = phase1-Keeps k;
    resume = phase1_resume-Keeps k.drafts.rows k.decision;
    review = phase2-Keeps k;
    flag = k.drafts.rows.flag;
  }

module _ {F : Type 0} ⦃fl : Floats F⦄ {Q : Db F → Type 0} (k : KeepsGraphs Q) where
  review_all-Keeps : (bs : List (Bet F)) (s : Summary F) → Keeps Q (review_all bs s)
  unfolding review_all
  review_all-Keeps [] s = Keeps-pure s
  review_all-Keeps (b ∷ bs) s =
      Keeps-bind _ _ (record { at = λ w h. (k.review _).at w h })
        (λ r. review_all-Keeps bs (tally b r s))

  pub run_due_reviews-Keeps : Keeps Q run_due_reviews
  unfolding run_due_reviews
  run_due_reviews-Keeps = search (keeps_rules, bets-Keeps, review_all-Keeps)
