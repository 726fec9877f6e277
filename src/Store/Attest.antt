-- ===== src/Store/Attest.antt =====
-- `write_decision` of graph/store.py.
use wager.Prelude.{
  suc, ◌≤◌, String, true, false, not, ◌&&◌, ◌≡◌, refl, none, List, [], ◌∷◌, ◌==◌, if◌then◌else◌,
  select, length, arith,
}
use wager.Models.{Uuid, NodeType, NodeStatus, EdgeType, GraphNode, GraphEdge, same_edge_type}
use wager.Errors.{pipeline_error, value_error, already_has_leads_to, option_not_found_for_bet}
use wager.Exec.{ok, err, ◌>>=◌}
use wager.Db.{Db, has_node, has_edge}
use wager.World.{World}
use wager.World.Keeps.{Keeps, Keeps-new_node, Keeps-new_edge}
use wager.World.Yields.{Yields-any, Yields-new_edge}
use wager.World.Triple.{
  Triple, Triple-pure, Triple-bind, Triple-bind-Yields, Triple-consequence, Triple-raise_if,
  Triple-get_db, Keeps-Triple,
}
use wager.Sql.{insert_node, insert_edge}
use wager.Store.Decisions.{has_leads_to, has_option, write_decision}

-- The edges that record an attested decision for a bet.
abbrev pub leads_to_edges : Uuid → List GraphEdge → List GraphEdge
leads_to_edges i = select (λ e. i == e.bet_id && same_edge_type e.edge_type EdgeType.leads_to)

length-no_leads_to :
    (i : Uuid) (es : List GraphEdge) → has_leads_to i es ≡ false → length (leads_to_edges i es) ≡ 0
length-no_leads_to i [] h = refl
length-no_leads_to i (e ∷ es) h = ground (arith, length-no_leads_to i es)

-- An option is a node.
has_node_of_has_option :
    {F : Type 0} (o i : Uuid) (ns : List (GraphNode F))
    → has_option o i ns ≡ true
    → has_node o ns ≡ true
has_node_of_has_option o i [] h = cc
has_node_of_has_option o i (n ∷ ns) h = ground (arith, has_node_of_has_option o i ns)

module _ {F : Type 0} (bet option : Uuid) (content : String) (w : World F) where
  abbrev pub decision_id : Uuid
  decision_id = w.host.uuid4 w.draws

  abbrev pub decision_node : GraphNode F
  decision_node = record {
    id = decision_id;
    bet_id = bet;
    kind = NodeType.decision;
    content = content;
    confidence = none;
    source = "system";
    status = NodeStatus.active;
    created_at = w.host.now (suc w.draws);
  }

  abbrev pub decision_edge : GraphEdge
  decision_edge = record {
    id = w.host.uuid4 (suc (suc w.draws));
    bet_id = bet;
    from_node = option;
    to_node = decision_id;
    edge_type = EdgeType.leads_to;
    created_at = w.host.now (suc (suc (suc w.draws)));
  }

  abbrev pub decided_db : Db F
  decided_db = record w.db {
    nodes = decision_node ∷ w.db.nodes;
    edges = decision_edge ∷ w.db.edges;
  }

  -- With fresh ids, store.write_decision refuses a bet that has a leads_to edge and an option that
  -- is not one of the bet, changing nothing; else it adds exactly the decision and the edge from
  -- the option to it, and returns the decision's id.
  pub write_decision_lem :
      has_node decision_id w.db.nodes ≡ false
      → has_edge (w.host.uuid4 (suc (suc w.draws))) w.db.edges ≡ false
      → write_decision bet option content w ≡ (
          if has_leads_to bet w.db.edges
          then (
            err (pipeline_error "store.write_decision" (value_error (already_has_leads_to bet))),
            w,
          )
          else if not (has_option option bet w.db.nodes)
          then (
            err (
                pipeline_error "store.write_decision"
                  (value_error (option_not_found_for_bet option bet))),
            w,
          )
          else (
            ok decision_id,
            record w { db = decided_db; draws = suc (suc (suc (suc w.draws))) },
          ))
  unfolding write_decision insert_node insert_edge ◌>>=◌
  write_decision_lem fresh_node fresh_edge =
      ground (arith, has_node_of_has_option option bet w.db.nodes)

  has_leads_to-write_decision :
      {i : Uuid}
      → (write_decision bet option content w).0 ≡ ok i
      → has_leads_to bet (write_decision bet option content w).1.db.edges ≡ true
  unfolding write_decision insert_node insert_edge ◌>>=◌
  has_leads_to-write_decision h = ground arith

write_decision-refused :
    {F : Type 0} (bet option : Uuid) (content : String) (w : World F)
    → has_leads_to bet w.db.edges ≡ true
    → write_decision bet option content w
      ≡ (err (pipeline_error "store.write_decision" (value_error (already_has_leads_to bet))), w)
unfolding write_decision ◌>>=◌
write_decision-refused bet option content w h = ground arith

-- Once a decision has been written for a bet, a second call for that bet, with whatever option and
-- content, raises and changes nothing.
pub write_decision_once :
    {F : Type 0} (bet option option' : Uuid) (content content' : String) (w : World F) {i : Uuid}
    → (write_decision bet option content w).0 ≡ ok i
    → let w' = (write_decision bet option content w).1 in
      write_decision bet option' content' w'
      ≡ (err (pipeline_error "store.write_decision" (value_error (already_has_leads_to bet))), w')
write_decision_once bet option option' content content' w h =
    write_decision-refused bet option' content' _
      (has_leads_to-write_decision bet option content w h)

module _ {F : Type 0} where
  -- At most one edge records an attested decision for the bet.
  abbrev pub DecidedOnce : Uuid → Db F → Type 0
  DecidedOnce i d = length (leads_to_edges i d.edges) ≤ 1

  -- The bet has no such edge yet.
  abbrev Undecided : Uuid → Uuid → Db F → Type 0
  Undecided i bet d = (has_leads_to bet d.edges ≡ false) × DecidedOnce i d

  insert_node-Undecided : (i bet : Uuid) (n : GraphNode F) → Keeps (Undecided i bet) (insert_node n)
  unfolding insert_node
  insert_node-Undecided i bet n = record { at = λ w h. ground arith }

  insert_edge-decides :
      (i bet : Uuid) (e : GraphEdge)
      → (e.edge_type ≡ EdgeType.leads_to) × (e.bet_id ≡ bet)
      → Triple (Undecided i bet) (DecidedOnce i) (λ _. DecidedOnce i) (insert_edge e)
  unfolding insert_edge ◌>>=◌
  insert_edge-decides i bet e made = record {
    at = λ w h. ground (arith, length-no_leads_to i w.db.edges);
  }

  pub write_decision-DecidedOnce :
      (i bet option : Uuid) (content : String)
      → Keeps (DecidedOnce i) (write_decision bet option content)
  unfolding write_decision
  write_decision-DecidedOnce i bet option content =
      Keeps-Triple _ (λ d h. h)
        (Triple-get_db {P = DecidedOnce i} (λ _. DecidedOnce i) _
          λ db.
            Triple-raise_if (λ _. DecidedOnce i) _ _ _ (λ d h. h.1)
              λ none_yet.
                Triple-consequence (Undecided i bet) (λ _. DecidedOnce i) _ _
                  (λ d h. (rw h.0 at none_yet, h.1)) (λ a d h. h)
                  (Triple-raise_if (λ _. DecidedOnce i) _ _ _ (λ d h. h.1)
                    λ known.
                      Triple-bind-Yields _ _ _ _ (λ d h. h.1) (Keeps-new_node _ _ _ _ _)
                        (Yields-any _)
                        λ decision _.
                          Triple-bind-Yields _ _ _ _ (λ d h. h.1)
                            (insert_node-Undecided i bet decision) (Yields-any _)
                            λ _ _.
                              Triple-bind-Yields _ _ _ _ (λ d h. h.1) (Keeps-new_edge _ _ _ _)
                                (Yields-new_edge bet option decision.id EdgeType.leads_to)
                                λ e made.
                                  Triple-bind _ _ _ _ (insert_edge-decides i bet e made)
                                    (λ _. Triple-pure _ _ (λ d h. h))))
