-- ===== src/Tests/Stores.antt =====
-- Examples for the store, on the sample database.
use wager.Prelude.{true, false, ◌≡◌, refl, some, [], ◌∷◌, map, show_ℕ}
use wager.Prelude.Int.{pos}
use wager.Errors.{pipeline_error, value_error, already_has_leads_to, references_missing_node}
use wager.Models.{EdgeType, GraphEdge}
use wager.Models.Flags.{flag_to_json, flags_from_json, flags_roundtrip}
use wager.Exec.{ok, err, ◌>>=◌}
use wager.Sql.{insert_node, insert_edge, insert_outcome, update_bet, update_node}
use wager.Store.{insert_checked_edge}
use wager.Store.Decisions.{write_decision, write_outcome, record_outcome}
use wager.Store.Reads.{due_bets}
use wager.Store.Attest.{decided_db, write_decision_lem, write_decision_once}
use wager.Store.Outcomes.{graded_db, write_outcome_lem, write_outcome_idempotent}
use wager.Store.Due.{NotDue, write_outcome-NotDue}
use wager.Store.DueBets.{IsSelection, due_bets_lem}
use wager.Store.Edges.{insert_checked_edge_lem}
use wager.Tests.{hundredths, sample_flag, sample_world}

flags_roundtrip_example :
    let formats = sample_world.host.services.formats in
    flags_from_json formats (map (flag_to_json formats) (sample_flag ∷ sample_flag ∷ []))
    ≡ some (sample_flag ∷ sample_flag ∷ [])
unfolding show_ℕ
flags_roundtrip_example =
    flags_roundtrip sample_world.host.services.formats (sample_flag ∷ sample_flag ∷ [])
      (refl, (refl, tt))

write_decision_lem_example : write_decision 1 12 "Chose: Cut step 3" sample_world ≡ (
  ok 1000,
  record sample_world { db = decided_db 1 12 "Chose: Cut step 3" sample_world; draws = 4 },
)
write_decision_lem_example = write_decision_lem 1 12 "Chose: Cut step 3" sample_world refl refl

write_decision_ok : (write_decision 1 12 "Chose: Cut step 3" sample_world).0 ≡ ok 1000
unfolding write_decision insert_node insert_edge ◌>>=◌
write_decision_ok = refl

write_decision_once_example :
    let w' = (write_decision 1 12 "Chose: Cut step 3" sample_world).1 in
    write_decision 1 12 "Again" w'
    ≡ (err (pipeline_error "store.write_decision" (value_error (already_has_leads_to 1))), w')
write_decision_once_example =
    write_decision_once 1 12 12 "Chose: Cut step 3" "Again" sample_world write_decision_ok

write_outcome_lem_example : write_outcome 1 11 (pos 520) (pos 500) true "Outcome" sample_world ≡ (
  ok tt,
  record sample_world {
    db = graded_db 1 11 (pos 520) (pos 500) true "Outcome" sample_world;
    draws = 5;
  },
)
write_outcome_lem_example =
    write_outcome_lem 1 11 (pos 520) (pos 500) true "Outcome" sample_world refl refl refl refl

write_outcome_idempotent_example :
    let w' = (write_outcome 1 11 (pos 520) (pos 500) true "Outcome" sample_world).1 in
    write_outcome 1 11 (pos 100) (pos 500) false "Again" w' ≡ (ok tt, w')
unfolding write_outcome record_outcome insert_node insert_edge insert_outcome update_bet update_node
    ◌>>=◌
write_outcome_idempotent_example =
    write_outcome_idempotent 1 11 11 (pos 520) (pos 100) (pos 500) (pos 500) true false "Outcome"
      "Again" sample_world tt

write_outcome-NotDue_example :
    NotDue 1 false 739000 (write_outcome 1 11 (pos 520) (pos 500) true "Outcome" sample_world).1.db
unfolding write_outcome record_outcome insert_node insert_edge insert_outcome update_bet update_node
    ◌>>=◌
write_outcome-NotDue_example =
    write_outcome-NotDue 1 11 (pos 520) (pos 500) true "Outcome" false 739000 sample_world refl tt

due_bets_lem_example : IsSelection false sample_world (due_bets false sample_world)
unfolding show_ℕ
due_bets_lem_example = due_bets_lem false sample_world (
  (
    sample_flag ∷ [],
    flags_roundtrip sample_world.host.services.formats (sample_flag ∷ []) (refl, tt),
  ),
  tt,
)

abbrev loop_edge : GraphEdge
loop_edge = record {
  id = 21;
  bet_id = 1;
  from_node = 10;
  to_node = 10;
  edge_type = EdgeType.supports;
  created_at = 0;
}

insert_checked_edge_lem_example : insert_checked_edge loop_edge sample_world ≡ (
  err (pipeline_error "store.insert_edges" (value_error (references_missing_node 10 10))),
  sample_world,
)
insert_checked_edge_lem_example =
    insert_checked_edge_lem loop_edge sample_world (refl, (refl, (refl, tt))) refl
