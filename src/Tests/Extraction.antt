-- ===== src/Tests/Extraction.antt =====
-- An example of phase 1 up to its pause, on the sample database.
use mathlib.Core.List.{flatten}
use wager.Prelude.{◌≡◌, refl, true, none, some, [], ◌∷◌, show_padded, show_ℕ}
use wager.Prelude.Dates.{add_days, iso_date}
use wager.Prelude.Int.{ℤ, pos, py_index}
use wager.Models.{NodeType, NodeStatus, GraphNode}
use wager.Models.Values.{status_of}
use wager.Errors.{graph_interrupt}
use wager.Exec.{Result, ok, err, for_list, for_each, ◌>>=◌}
use wager.Db.{has_bet, update_bets}
use wager.World.{World}
use wager.Sql.{insert_node, insert_edge, update_bet}
use wager.Store.{
  distinct, require_bet, insert_nodes, insert_checked_edge, insert_edges, update_bet_status,
}
use wager.Store.Fields.{
  any_malformed_date, column_of, known_fields, set_column, set_columns, unknown_fields,
  update_bet_fields, update_row,
}
use wager.Integrations.Google.{fetch_transcript, body_text, is_blank}
use wager.Llm.{call_llm, attempts}
use wager.State.{BetState, create_initial_state}
use wager.Pipeline.Extraction.{
  docs_intake, extract_facts, keep_facts, derive_reasoning, keep_reasoning, reasoning_edges,
  derived_edges, edges_from, store_reasoning,
}
use wager.Pipeline.Decision.{proposed_from}
use wager.Pipeline.Confirmed.{posted}
use wager.Pipeline.Paused.{phase1_pauses}
use wager.Pipeline.Graphs.{checked, run_nodes, extraction_nodes, phase1}
use wager.Tests.{hundredths, sample_state, sample_world}

abbrev run : Result (BetState ℤ) × World ℤ
run = run_nodes (extraction_nodes "facts" "reasoning") sample_state sample_world

abbrev extracted_option : GraphNode ℤ
extracted_option = record {
  id = 1006;
  bet_id = 1;
  kind = NodeType.option;
  content = "Cut step 3";
  confidence = none;
  source = "meeting:2024-01-15:llm";
  status = NodeStatus.active;
  created_at = 7;
}

abbrev extracted_hypothesis : GraphNode ℤ
extracted_hypothesis = record {
  id = 1004;
  bet_id = 1;
  kind = NodeType.hypothesis;
  content = "A shorter step 3 keeps users";
  confidence = some (pos 70);
  source = "meeting:2024-01-15:llm";
  status = NodeStatus.active;
  created_at = 5;
}

abbrev extracted_fact : GraphNode ℤ
extracted_fact = record {
  id = 1000;
  bet_id = 1;
  kind = NodeType.fact;
  content = "Users leave at step 3";
  confidence = none;
  source = "meeting:2024-01-15:speaker=Ana";
  status = NodeStatus.active;
  created_at = 1;
}

abbrev extracted_assumption : GraphNode ℤ
extracted_assumption = record {
  id = 1002;
  bet_id = 1;
  kind = NodeType.assumption;
  content = "Step 3 is too long";
  confidence = none;
  source = "meeting:2024-01-15:llm";
  status = NodeStatus.active;
  created_at = 3;
}

abbrev extracted : BetState ℤ
extracted = record (create_initial_state 1 "doc" 738900) {
  raw_transcript = "We lose users at step 3.";
  facts = extracted_fact ∷ [];
  assumptions = extracted_assumption ∷ [];
  hypotheses = extracted_hypothesis ∷ [];
  options = extracted_option ∷ [];
  proposed_option_id = some 1006;
  metric_name = some "activation";
  metric_query = some "SELECT 1";
  predicted_lift = some (pos 500);
  review_date = some 738914;
}

run_returned :
    (run ≡ (ok extracted, run.1))
    × (has_bet 1 run.1.db.bets ≡ true)
    × (run.1.host ≡ sample_world.host)
unfolding run_nodes checked docs_intake extract_facts keep_facts derive_reasoning
    create_initial_state fetch_transcript is_blank body_text update_bet_status status_of update_bet
    call_llm for_list insert_nodes for_each distinct require_bet update_bets insert_node
    keep_reasoning reasoning_edges derived_edges flatten attempts edges_from store_reasoning
    add_days iso_date py_index show_padded show_ℕ insert_edge any_malformed_date column_of
    known_fields set_column set_columns unknown_fields update_bet_fields update_row
    insert_checked_edge insert_edges ◌>>=◌
run_returned = (refl, refl, refl)

phase1_pauses_example :
    phase1 "facts" "reasoning" sample_state sample_world
    ≡ (err (graph_interrupt 1 ("Cut step 3" ∷ []) (pos 0)), posted extracted run.1)
unfolding create_initial_state proposed_from
phase1_pauses_example =
    let (returned, exists, same) = run_returned in
    phase1_pauses "facts" "reasoning" sample_state extracted extracted_hypothesis extracted_option
      [] sample_world run.1 returned refl refl exists (λ text buttons. rw same refl)
