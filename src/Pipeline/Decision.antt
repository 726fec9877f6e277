-- ===== src/Pipeline/Decision.antt =====
-- pipeline/nodes/decision.py: the human attestation.
use wager.Prelude.{
  ℕ, suc, String, Bool, false, Option, none, some, List, [], ◌∷◌, map, get_elem?, head?, find?,
  ◌==◌, if◌then◌else◌, concat,
}
use wager.Prelude.Int.{ℤ, pos, negsuc}
use wager.Models.{Uuid, Source, Severity, DataFlag, GraphNode}
use wager.Errors.{
  integration_error, plain, index_error, graph_interrupt, invalid_chosen_option_index,
  chosen_option_not_found,
}
use wager.Exec.{None, pure, raise, or_raise, ◌>>=◌, ◌>>◌}
use wager.World.{Action, new_flag, with_conn}
use wager.Store.{update_bet_status, append_flag}
use wager.Store.Decisions as Decisions
use wager.Integrations.Slack.{post_confirm}
use wager.State.{NodeFn}

module _ {F : Type 0} where
  abbrev is_proposed : Option Uuid → GraphNode F → Bool
  is_proposed none n = false
  is_proposed (some i) n = n.id == i

  -- The first option with the proposed id, from an index on; 0 where none has it.
  unfoldable pub proposed_from : Option Uuid → ℕ → List (GraphNode F) → ℕ
  proposed_from i k [] = 0
  proposed_from i k (n ∷ ns) = if is_proposed i n then k else proposed_from i (suc k) ns

  -- The transaction after the post, and the raise where the post failed.
  abbrev pub mark_pending : Uuid → Option DataFlag → Action F None
  mark_pending bet none = with_conn (update_bet_status bet "PENDING_CONFIRMATION")
  mark_pending bet (some error) = do
    with_conn (do
      flag ←
          new_flag Source.slack Severity.critical
            (concat ("slack_confirm_failed: " ∷ error.message ∷ []))
      update_bet_status bet "PENDING_CONFIRMATION"
      append_flag bet flag)
    raise (integration_error (plain (concat ("slack confirm failed: " ∷ error.message ∷ []))))

  -- `interrupt(…)`: it raises until the graph is resumed, and then returns the payload's index.
  abbrev pub interrupt : Uuid → List String → ℕ → Option ℤ → Action F ℤ
  interrupt bet options proposed_index none =
      raise (graph_interrupt bet options (pos proposed_index))
  interrupt bet options proposed_index (some index) = pure index

  -- `state["options"][index]` where `0 <= index < len(state["options"])`.
  abbrev pub choose : List (GraphNode F) → ℤ → Option (GraphNode F)
  choose options (pos i) = get_elem? options i
  choose options (negsuc i) = none

  unfoldable pub confirm_decision : Option ℤ → NodeFn F
  confirm_decision resume state = do
    let options = map (λ n. n.content) state.options
    let proposed_index = proposed_from state.proposed_option_id 0 state.options
    hypothesis ← or_raise (head? state.hypotheses) index_error
    result ← post_confirm state.bet_id options proposed_index hypothesis.content
    mark_pending state.bet_id result.error
    index ← interrupt state.bet_id options proposed_index resume
    chosen ←
        or_raise (choose state.options index)
          (integration_error (invalid_chosen_option_index index))
    pure (record state { chosen_option_id = some chosen.id })

  -- The node that calls `store.write_decision` and confirms the bet, in one transaction.
  unfoldable pub write_decision : NodeFn F
  write_decision state = do
    chosen_id ←
        or_raise state.chosen_option_id
          (integration_error (plain "no chosen_option_id (resume payload missing)"))
    option ←
        or_raise (find? (λ n. n.id == chosen_id) state.options)
          (integration_error (chosen_option_not_found chosen_id))
    decision_id ← with_conn (do
      i ← Decisions.write_decision state.bet_id chosen_id (concat ("Chose: " ∷ option.content ∷ []))
      update_bet_status state.bet_id "CONFIRMED"
      pure i)
    pure (record state { decision_node_id = some decision_id })
