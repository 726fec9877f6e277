-- ===== src/Tests/Runs.antt =====
-- Examples for the graphs, on the sample database.
use wager.Prelude.{show_ℕ, String, none, some, true, false, ◌≡◌, refl, List, [], ◌∷◌, arith}
use wager.Prelude.Int.{ℤ, pos, negsuc, sub_ℕ}
use wager.Errors.{Exception, pipeline_error, empty_extraction_error, is_empty_extraction}
use wager.Models.{Bet, NodeType}
use wager.Models.Flags.{flags_roundtrip}
use wager.Exec.{ok, err, for_list, ◌>>=◌}
use wager.World.{World, response, answered, raised}
use wager.World.Quiet.{comments}
use wager.Pipeline.Uncommented.{comments-run_due_reviews}
use wager.Sql.Keys.{IsWellFormed}
use wager.Sql.{update_bet}
use wager.Store.{append_flag}
use wager.Store.Attest.{DecidedOnce}
use wager.Db.Sorted.{insert_row, order_by}
use wager.Store.Outcomes.{graded_db}
use wager.Store.Reads.{bet_nodes, bet_view, due_bets}
use wager.Pipeline.Extraction.{keep_facts}
use wager.Pipeline.Graphs.{
  Summary, passes, checked, run_nodes, phase1, phase1_resume, phase2, run_due_reviews,
}
use wager.Pipeline.Review.{outcome_text}
use wager.Pipeline.Reviewed.{phase2_grades}
use wager.Pipeline.Resumed.{HasGraph}
use wager.Pipeline.Refused.{phase1_resume_refused}
use wager.Pipeline.Interrupt.{decisions, decision_edges, phase1_writes_no_decision}
use wager.Pipeline.Wrapping.{run_nodes_raises}
use wager.Pipeline.Logs.{Context, run_wrapped}
use wager.Pipeline.Logs.Traces.{IsLogged, run_wrapped-IsLogged}
use wager.Pipeline.Counts.{IsSummary, run_due_reviews_counts}
use wager.State.{BetState, NodeFn, create_initial_state}
use wager.Tests.{
  hundredths, host, sample_bet, sample_db, sample_flag, sample_node, sample_state, sample_world,
}

pub sample_db-IsWellFormed : IsWellFormed sample_db
sample_db-IsWellFormed = record {
  bet_keys = (refl, tt);
  node_keys = (refl, (refl, (refl, tt)));
  edge_keys = (refl, tt);
  outcome_keys = tt;
  edge_ends = ((refl, refl), tt);
  outcome_rows = tt;
}

pub no_decision : DecidedOnce 1 sample_db
no_decision = ground arith

-- A run that waits for the choice among one option.
abbrev pub waiting : BetState ℤ
waiting = record sample_state {
  hypotheses = sample_node 11 NodeType.hypothesis "A shorter step 3 keeps users" ∷ [];
  options = sample_node 12 NodeType.option "Cut step 3" ∷ [];
}

-- The world in which Slack refuses the message.
abbrev refusing : World ℤ
refusing = record sample_world {
  host = record host {
    services = record host.services { post_blocks = λ _ _. raised "channel_not_found" };
  };
}

phase1_resume_refused_example :
    let r = phase1_resume (pos 0) waiting refusing in
    ((e : Exception) × (r.0 ≡ err e)) × HasGraph sample_db.nodes sample_db.edges r.1.db
phase1_resume_refused_example =
    phase1_resume_refused (pos 0) waiting refusing (λ text buttons. ("channel_not_found", refl))

-- The world in which PostHog answers with 4.50, where 5.00 was predicted.
abbrev measured : World ℤ
measured = record sample_world {
  host = record host {
    services = record host.services { hogql = λ _. response 200 (answered (pos 450)) };
  };
}

phase2_grades_example :
    (phase2 sample_state measured).1.db
    ≡ graded_db 1 11
        (pos 450)
        (pos 500)
        true
        (outcome_text (pos 450) (pos 500) (negsuc 49))
        measured
unfolding create_initial_state bet_nodes order_by insert_row show_ℕ sub_ℕ
phase2_grades_example =
    phase2_grades sample_state sample_bet
      (sample_node 11 NodeType.hypothesis "A shorter step 3 keeps users") [] (pos 450) (pos 500) 200
      measured refl refl refl refl refl refl refl refl

phase1_writes_no_decision_example :
    let w' = (phase1 "facts" "reasoning" sample_state sample_world).1 in
    (decisions w'.db.nodes ≡ []) × (decision_edges w'.db.edges ≡ [])
phase1_writes_no_decision_example =
    phase1_writes_no_decision "facts" "reasoning" sample_state sample_world

-- The node of an extraction without facts.
abbrev no_facts : List (String × NodeFn ℤ)
no_facts = ("extract_facts", keep_facts []) ∷ []

abbrev no_facts_error : Exception
no_facts_error =
    pipeline_error "extract_facts" (empty_extraction_error "LLM extraction returned 0 facts")

no_facts_raises : (run_nodes no_facts sample_state sample_world).0 ≡ err no_facts_error
unfolding run_nodes checked keep_facts append_flag update_bet create_initial_state ◌>>=◌
no_facts_raises = refl

run_nodes_raises_example :
    (passes no_facts_error ≡ true) × (is_empty_extraction no_facts_error ≡ false)
run_nodes_raises_example = run_nodes_raises no_facts sample_state sample_world no_facts_raises

-- A run whose only node raises, as the API logs it.
abbrev api_context : Context
api_context = record { bet_id_ctx = none; run_id_ctx = some "run" }

run_wrapped-IsLogged_example :
    IsLogged api_context no_facts
      (run_nodes no_facts sample_state sample_world)
      (run_wrapped api_context no_facts sample_state sample_world)
run_wrapped-IsLogged_example = run_wrapped-IsLogged api_context no_facts sample_state sample_world

abbrev pub due : List (Bet ℤ)
due = bet_view sample_bet (sample_flag ∷ []) ∷ []

pub sample_due : due_bets false sample_world ≡ (ok due, sample_world)
unfolding due_bets for_list show_ℕ ◌>>=◌
sample_due =
    rw (flags_roundtrip sample_world.host.services.formats (sample_flag ∷ []) (refl, tt)) refl

run_due_reviews_counts_example :
    (t : Summary ℤ) × ((run_due_reviews sample_world).0 ≡ ok t) × IsSummary 1 t
run_due_reviews_counts_example = run_due_reviews_counts sample_world due sample_due

comments-run_due_reviews_example :
    comments (run_due_reviews sample_world).1.sent ≡ comments sample_world.sent
comments-run_due_reviews_example = comments-run_due_reviews sample_world
