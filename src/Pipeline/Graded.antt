-- ===== src/Pipeline/Graded.antt =====
-- The state at the end of a review: what is set where the delta is.
use wager.Prelude.{String, ◌≡◌, refl, Option, none, some}
use wager.Models.{Bet, DataFlag}
use wager.Exec.{Result, ok, err}
use wager.Floats.{Floats}
use wager.World.{World}
use wager.World.Yields.{Holds, Yields, Yields-pure, Yields-then, Yields-bind}
use wager.State.{BetState, NodeFn, create_initial_state}
use wager.Pipeline.Review.{
  load_bet, after_query, fetch_metric, grade, compare_fetched, compare_outcome, update_calibration,
  report_outcome,
}
use wager.Pipeline.Graphs.{translate, checked, run_nodes, phase2, review}

module _ {F : Type 0} where
  -- A bet with a delta has a prediction and a metric.
  abbrev pub Graded : Option F → Option F → Option F → Type 0
  Graded p a none = Unit
  Graded none a (some d) = ⊥
  Graded (some p) none (some d) = ⊥
  Graded (some p) (some a) (some d) = Unit

  abbrev pub IsGraded : BetState F → Type 0
  IsGraded s = Graded s.predicted_lift s.actual_lift s.delta

  abbrev IsUngraded : BetState F → Type 0
  IsUngraded s = s.delta ≡ none

  ungraded_lem : (s : BetState F) → IsUngraded s → IsGraded s
  ungraded_lem s h = rw h tt

  load_bet-IsUngraded : (s : BetState F) → IsUngraded s → Yields IsUngraded (load_bet s)
  unfolding load_bet
  load_bet-IsUngraded s h =
      Yields-then _ _ _ λ found. Yields-then _ _ _ λ _. Yields-pure IsUngraded _ h

  after_query-IsUngraded :
      (e : Option DataFlag) (v : Option F) (s : BetState F)
      → IsUngraded s
      → Yields IsUngraded (after_query e v s)
  after_query-IsUngraded (some e) v s h = Yields-then _ _ _ λ _. Yields-pure IsUngraded _ h
  after_query-IsUngraded none v s h = Yields-pure IsUngraded _ h

  fetch_metric-IsUngraded : (s : BetState F) → IsUngraded s → Yields IsUngraded (fetch_metric s)
  unfolding fetch_metric
  fetch_metric-IsUngraded s h = Yields-then _ _ _ λ q. after_query-IsUngraded _ _ s h

  translate-Holds :
      {A : Type 0} (R : A → Type 0) (name : String) (r : Result A) (w : World F)
      → Holds R r
      → Holds R (translate name (r, w)).0
  translate-Holds R name (ok a) w h = h
  translate-Holds R name (err e) w h = tt

  pub checked-Yields :
      (R : BetState F → Type 0) (name : String) (fn : NodeFn F) (s : BetState F)
      → Yields R (fn s)
      → Yields R (checked name fn s)
  unfolding checked
  checked-Yields R name fn s y = record {
    at = λ w. translate-Holds R name (fn s w).0 (fn s w).1 (y.at w);
  }

module _ {F : Type 0} ⦃fl : Floats F⦄ where
  grade-IsGraded :
      (a : F) (p : Option F) (s : BetState F)
      → s.actual_lift ≡ some a
      → s.predicted_lift ≡ p
      → Yields IsGraded (grade a p s)
  grade-IsGraded a none s h k = record { at = λ w. tt }
  grade-IsGraded a (some p) s h k = Yields-then _ _ _ λ settings.
      Yields-then _ _ _ λ hypothesis. Yields-then _ _ _ λ _. Yields-pure IsGraded _ (rw h (rw k tt))

  compare_fetched-IsGraded :
      (a : Option F) (s : BetState F)
      → s.actual_lift ≡ a
      → IsUngraded s
      → Yields IsGraded (compare_fetched a s)
  compare_fetched-IsGraded none s h u = Yields-pure IsGraded s (ungraded_lem s u)
  compare_fetched-IsGraded (some a) s h u = grade-IsGraded a s.predicted_lift s h refl

  compare_outcome-IsGraded : (s : BetState F) → IsUngraded s → Yields IsGraded (compare_outcome s)
  unfolding compare_outcome
  compare_outcome-IsGraded s u = compare_fetched-IsGraded s.actual_lift s refl u

  update_calibration-IsGraded :
      (s : BetState F) → IsGraded s → Yields IsGraded (update_calibration s)
  unfolding update_calibration
  update_calibration-IsGraded s h = Yields-then _ _ _ λ cal. Yields-pure IsGraded _ h

  report_outcome-IsGraded : (s : BetState F) → IsGraded s → Yields IsGraded (report_outcome s)
  unfolding report_outcome
  report_outcome-IsGraded s h = Yields-then _ _ _ λ settings. Yields-then _ _ _ λ hypothesis.
      Yields-then _ _ _ λ date. Yields-then _ _ _ λ supports. Yields-then _ _ _ λ assumption.
        Yields-then _ _ _ λ cal. Yields-then _ _ _ λ text.
          Yields-then _ _ _
            λ report. Yields-then _ _ _ λ new. Yields-then _ _ _ λ more. Yields-pure IsGraded _ h

  phase2-IsGraded : (s : BetState F) → IsUngraded s → Yields IsGraded (phase2 s)
  unfolding phase2 run_nodes
  phase2-IsGraded s u =
      Yields-bind IsUngraded IsGraded _ _ (checked-Yields _ _ _ s (load_bet-IsUngraded s u))
        λ s1 u1.
          Yields-bind IsUngraded IsGraded _ _
            (checked-Yields _ _ _ s1 (fetch_metric-IsUngraded s1 u1))
            λ s2 u2.
              Yields-bind IsGraded IsGraded _ _
                (checked-Yields _ _ _ s2 (compare_outcome-IsGraded s2 u2))
                λ s3 g3.
                  Yields-bind IsGraded IsGraded _ _
                    (checked-Yields _ _ _ s3 (update_calibration-IsGraded s3 g3))
                    λ s4 g4.
                      Yields-bind IsGraded IsGraded _ _
                        (checked-Yields _ _ _ s4 (report_outcome-IsGraded s4 g4))
                        λ s5 g5. Yields-pure IsGraded s5 g5

  pub review-IsGraded : (b : Bet F) → Yields IsGraded (review b)
  unfolding create_initial_state
  review-IsGraded b = phase2-IsGraded (create_initial_state b.id b.doc_id b.meeting_date) refl
