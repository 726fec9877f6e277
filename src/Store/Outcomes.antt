-- ===== src/Store/Outcomes.antt =====
-- `write_outcome` of graph/store.py.
use wager.Prelude.{
  suc, String, Bool, true, false, ◌≡◌, refl, none, List, [], ◌∷◌, if◌then◌else◌, arith, Bool-cases,
  inl, inr,
}
use wager.Models.{Uuid, NodeType, NodeStatus, EdgeType, GraphNode, GraphEdge, BetStatus, BetRow}
use wager.Errors.{pipeline_error, value_error, hypothesis_not_found_for_bet}
use wager.Exec.{ok, err, ◌>>=◌}
use wager.Floats.{Floats}
use wager.Db.{Db, Outcome, has_bet, has_node, has_edge, has_outcome, update_bets, update_nodes}
use wager.World.{World}
use wager.World.Keeps.{Keeps, keeps_rules}
use wager.World.Ensures.{IsOk, Ensures, Ensures-first, Ensures-last}
use wager.Sql.{insert_outcome, update_bet, update_node}
use wager.Sql.Inserts.{insert_node_new, insert_edge_new, insert_outcome_new}
use wager.Store.Decisions.{has_bet_node, record_outcome, write_outcome}

has_node_of_has_bet_node :
    {F : Type 0} (h i : Uuid) (ns : List (GraphNode F))
    → has_bet_node h i ns ≡ true
    → has_node h ns ≡ true
has_node_of_has_bet_node h i [] e = cc
has_node_of_has_bet_node h i (n ∷ ns) e = ground (arith, has_node_of_has_bet_node h i ns)

module _ {F : Type 0} ⦃fl : Floats F⦄ (bet hypothesis : Uuid) (actual predicted : F) (within : Bool)
    (content : String) (w : World F) where
  abbrev pub outcome_id : Uuid
  outcome_id = w.host.uuid4 w.draws

  abbrev outcome_node : GraphNode F
  outcome_node = record {
    id = outcome_id;
    bet_id = bet;
    kind = NodeType.decision;
    content = content;
    confidence = none;
    source = "system";
    status = NodeStatus.active;
    created_at = w.host.now (suc w.draws);
  }

  abbrev outcome_edge : GraphEdge
  outcome_edge = record {
    id = w.host.uuid4 (suc (suc w.draws));
    bet_id = bet;
    from_node = outcome_id;
    to_node = hypothesis;
    edge_type = (if within then EdgeType.supports else EdgeType.contradicts);
    created_at = w.host.now (suc (suc (suc w.draws)));
  }

  abbrev outcome_row : Outcome F
  outcome_row = record {
    bet_id = bet;
    hypothesis_node_id = hypothesis;
    decision_node_id = outcome_id;
    actual_lift = actual;
    predicted_lift = predicted;
    delta = fl.sub actual predicted;
    within_tolerance = within;
    resolved_at = w.host.now (suc (suc (suc (suc w.draws))));
  }

  -- The database with the grade recorded.
  abbrev pub graded_db : Db F
  graded_db = record {
    bets = update_bets bet (λ b. record b { status = BetStatus.resolved }) w.db.bets;
    nodes =
        update_nodes hypothesis (λ n. record n { status = NodeStatus.resolved })
          (outcome_node ∷ w.db.nodes);
    edges = outcome_edge ∷ w.db.edges;
    outcomes = outcome_row ∷ w.db.outcomes;
  }

  -- For a bet that exists and has no outcome, and fresh ids, store.write_outcome records the grade
  -- of a hypothesis of the bet by a new decision, an edge supports or contradicts, the outcome
  -- with delta = actual - predicted, and the status RESOLVED of the hypothesis and of the bet; any
  -- other id raises and changes nothing.
  pub write_outcome_lem :
      has_bet bet w.db.bets ≡ true
      → has_outcome bet w.db.outcomes ≡ false
      → has_node outcome_id w.db.nodes ≡ false
      → has_edge (w.host.uuid4 (suc (suc w.draws))) w.db.edges ≡ false
      → write_outcome bet hypothesis actual predicted within content w ≡ (
          if has_bet_node hypothesis bet w.db.nodes
          then (ok tt, record w { db = graded_db; draws = suc (suc (suc (suc (suc w.draws)))) })
          else (
            err (
                pipeline_error "store.write_outcome"
                  (value_error (hypothesis_not_found_for_bet hypothesis bet))),
            w,
          ))
  unfolding write_outcome record_outcome update_bet update_node ◌>>=◌
  write_outcome_lem bet_exists new fresh_node fresh_edge =
      elim (Bool-cases (has_bet_node hypothesis bet w.db.nodes)) [
        | inl e ↦
            let known = has_node_of_has_bet_node hypothesis bet w.db.nodes e in
            let nodes = outcome_node ∷ w.db.nodes in
            rw new (
              rw e (
                rw
                  (insert_node_new (record w { draws = suc (suc w.draws) }) outcome_node fresh_node)
                  (rw
                    (insert_edge_new
                      (record w {
                        db = record w.db { nodes = nodes };
                        draws = suc (suc (suc (suc w.draws)));
                      })
                      outcome_edge fresh_edge (ground arith) (ground arith))
                    (rw
                      (insert_outcome_new
                        (record w {
                          db = record w.db { nodes = nodes; edges = outcome_edge ∷ w.db.edges };
                          draws = suc (suc (suc (suc (suc w.draws))));
                        })
                        outcome_row new bet_exists (ground arith) (ground arith))
                      refl))))
        | inr e ↦ rw new (rw e refl)
      ]

module _ {F : Type 0} (bet : Uuid) where
  abbrev pub IsGraded : Db F → Type 0
  IsGraded d = has_outcome bet d.outcomes ≡ true

  insert_outcome-IsGraded : (o : Outcome F) → o.bet_id ≡ bet → Ensures IsGraded (insert_outcome o)
  unfolding insert_outcome
  insert_outcome-IsGraded o e = record { at = λ w h. ground arith }

  update_node-IsGraded :
      (j : Uuid) (f : GraphNode F → GraphNode F) → Keeps IsGraded (update_node j f)
  unfolding update_node
  update_node-IsGraded j f = record { at = λ w h. h }

  update_bet-IsGraded : (j : Uuid) (f : BetRow F → BetRow F) → Keeps IsGraded (update_bet j f)
  unfolding update_bet
  update_bet-IsGraded j f = record { at = λ w h. h }

module _ {F : Type 0} ⦃fl : Floats F⦄ (bet h : Uuid) (a p : F) (b : Bool) (c : String) where
  record_outcome-IsGraded : Ensures (IsGraded bet) (record_outcome bet h a p b c)
  unfolding record_outcome
  record_outcome-IsGraded = Ensures-last _ _ λ _. Ensures-last _ _ λ _. Ensures-last _ _ λ _.
      Ensures-last _ _ λ _. Ensures-last _ _ λ _. Ensures-last _ _ λ _. Ensures-last _ _ λ _.
        Ensures-first _ _ (insert_outcome-IsGraded bet _ refl)
          (λ _. search (keeps_rules, update_node-IsGraded, update_bet-IsGraded))

  -- Where `write_outcome` returns, the bet has an outcome.
  write_outcome-IsGraded :
      (w : World F)
      → IsOk (write_outcome bet h a p b c w).0
      → IsGraded bet (write_outcome bet h a p b c w).1.db
  unfolding write_outcome ◌>>=◌
  write_outcome-IsGraded w k = elim (Bool-cases (has_outcome bet w.db.outcomes)) [
    | inl old ↦ rw old old
    | inr new ↦ rw new (record_outcome-IsGraded.at w (rw new at k))
  ]

  write_outcome_again :
      (w : World F)
      → has_outcome bet w.db.outcomes ≡ true
      → write_outcome bet h a p b c w ≡ (ok tt, w)
  unfolding write_outcome ◌>>=◌
  write_outcome_again w e = rw e refl

-- After a call of store.write_outcome that returned, a second one for the same bet, with whatever
-- hypothesis, metric and grade, returns and changes nothing.
pub write_outcome_idempotent :
    {F : Type 0} ⦃fl : Floats F⦄ (bet h h' : Uuid) (a a' p p' : F) (b b' : Bool) (c c' : String)
    (w : World F)
    → IsOk (write_outcome bet h a p b c w).0
    → let w' = (write_outcome bet h a p b c w).1 in
      write_outcome bet h' a' p' b' c' w' ≡ (ok tt, w')
write_outcome_idempotent bet h h' a a' p p' b b' c c' w k =
    write_outcome_again bet h' a' p' b' c' _ (write_outcome-IsGraded bet h a p b c w k)
