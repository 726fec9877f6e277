-- ===== src/Pipeline/Paused.antt =====
-- Phase 1 up to its pause: the node confirm_decision after the extraction.
use wager.Prelude.{String, true, ◌≡◌, refl, none, some, List, ◌∷◌, map, head?}
use wager.Prelude.Int.{pos}
use wager.Models.{GraphNode}
use wager.Errors.{graph_interrupt}
use wager.Exec.{ok, err, ◌>>=◌}
use wager.Floats.{Floats}
use wager.Db.{has_bet}
use wager.World.{World, posted_blocks}
use wager.Integrations.Slack.{post_confirm}
use wager.State.{BetState}
use wager.Pipeline.Decision.{proposed_from, confirm_decision}
use wager.Pipeline.Confirmed.{TakesPost, mark_bet, picked_of_lt, posted}
use wager.Pipeline.Choice.{proposed_from_bound}
use wager.Pipeline.Graphs.{checked, run_nodes, extraction_nodes, decision_nodes, phase1}

module _ {F : Type 0} where
  confirm_decision_pauses :
      (s : BetState F) (h o : GraphNode F) (os : List (GraphNode F)) (w : World F)
      → head? s.hypotheses ≡ some h
      → s.options ≡ o ∷ os
      → has_bet s.bet_id w.db.bets ≡ true
      → TakesPost w
      → confirm_decision none s w ≡ (
        err (
            graph_interrupt s.bet_id
              (map (λ n. n.content) s.options)
              (pos (proposed_from s.proposed_option_id 0 s.options))),
        posted s w,
      )
  unfolding confirm_decision post_confirm ◌>>=◌
  confirm_decision_pauses s h o os w first offered exists takes =
      let (t, picked) =
        picked_of_lt (λ n. n.content) (o ∷ os) (proposed_from s.proposed_option_id 0 (o ∷ os))
          (proposed_from_bound s.proposed_option_id o os) in
      rw first (
        rw offered (
          rw picked (
            rw (takes _ _) (
              rw
                ((mark_bet s.bet_id (record w { sent = posted_blocks s.bet_id ∷ w.sent }) exists).0)
                refl))))

module _ {F : Type 0} ⦃fl : Floats F⦄ where
  decision_pauses :
      (s : BetState F) (h o : GraphNode F) (os : List (GraphNode F)) (w : World F)
      → head? s.hypotheses ≡ some h
      → s.options ≡ o ∷ os
      → has_bet s.bet_id w.db.bets ≡ true
      → TakesPost w
      → run_nodes (decision_nodes none) s w ≡ (
        err (
            graph_interrupt s.bet_id
              (map (λ n. n.content) s.options)
              (pos (proposed_from s.proposed_option_id 0 s.options))),
        posted s w,
      )
  unfolding run_nodes checked ◌>>=◌
  decision_pauses s h o os w first offered exists takes =
      rw (confirm_decision_pauses s h o os w first offered exists takes) refl

  -- Phase 1 pauses for the PM: where the extraction has returned with a hypothesis and an option,
  -- for a bet that exists and if Slack takes the message, the run ends at the interrupt with the
  -- bet, its options' texts and the proposed index, the message is sent and the bet is
  -- PENDING_CONFIRMATION.
  pub phase1_pauses :
      (p q : String) (s s' : BetState F) (h o : GraphNode F) (os : List (GraphNode F))
      (w v : World F)
      → run_nodes (extraction_nodes p q) s w ≡ (ok s', v)
      → head? s'.hypotheses ≡ some h
      → s'.options ≡ o ∷ os
      → has_bet s'.bet_id v.db.bets ≡ true
      → TakesPost v
      → phase1 p q s w ≡ (
        err (
            graph_interrupt s'.bet_id
              (map (λ n. n.content) s'.options)
              (pos (proposed_from s'.proposed_option_id 0 s'.options))),
        posted s' v,
      )
  unfolding phase1 ◌>>=◌
  phase1_pauses p q s s' h o os w v extracted first offered exists takes =
      rw extracted (decision_pauses s' h o os v first offered exists takes)
