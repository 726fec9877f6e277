-- ===== src/Pipeline/Grading.antt =====
-- `compare_outcome` of pipeline/nodes/phase2.py: how a fetched metric is graded.
use wager.Prelude.{suc, ◌≡◌, refl, true, false, some, head?}
use wager.Models.{GraphNode}
use wager.Exec.{ok, ◌>>=◌}
use wager.Floats.{Floats}
use wager.Db.{has_bet, has_node, has_edge, has_outcome}
use wager.World.{World}
use wager.Store.Decisions.{has_bet_node}
use wager.Store.Outcomes.{graded_db, write_outcome_lem}
use wager.State.{BetState}
use wager.Pipeline.Review.{is_within, outcome_text, compare_outcome}

module _ {F : Type 0} ⦃fl : Floats F⦄ where
  -- For a fetched metric, a bet that exists, has a prediction and a hypothesis among its nodes and
  -- no outcome, and fresh ids, compare_outcome returns with delta = actual - predicted, and grades
  -- the hypothesis as supported exactly if |delta| is at most the tolerance of the settings.
  pub compare_outcome_lem :
      (s : BetState F) (h : GraphNode F) (a p : F) (w : World F)
      → s.actual_lift ≡ some a
      → s.predicted_lift ≡ some p
      → head? s.hypotheses ≡ some h
      → has_bet s.bet_id w.db.bets ≡ true
      → has_outcome s.bet_id w.db.outcomes ≡ false
      → has_bet_node h.id s.bet_id w.db.nodes ≡ true
      → has_node (w.host.uuid4 w.draws) w.db.nodes ≡ false
      → has_edge (w.host.uuid4 (suc (suc w.draws))) w.db.edges ≡ false
      → compare_outcome s w ≡ (
        ok (record s { delta = some (fl.sub a p) }),
        record w {
          db =
              graded_db s.bet_id h.id a p
                (fl.leb (fl.abs (fl.sub a p)) w.host.settings.bet_tolerance_pp)
                (outcome_text a p (fl.sub a p))
                w;
          draws = suc (suc (suc (suc (suc w.draws))));
        },
      )
  unfolding compare_outcome ◌>>=◌
  compare_outcome_lem s h a p w fetched predicted first exists new known fresh_node fresh_edge =
      rw fetched (
        rw predicted (
          rw first (
            rw
              (write_outcome_lem s.bet_id h.id a p (is_within w.host.settings.bet_tolerance_pp a p)
                (outcome_text a p (fl.sub a p)) w exists new fresh_node fresh_edge)
              (rw known refl))))
