-- ===== src/Pipeline/Typed/Review.antt =====
-- The review of a bet under the kinds of the nodes that an edge joins.
use wager.Prelude.{true, ◌==◌, ◌≡◌, refl, Option, none, some, List, [], ◌∷◌, All, map, head?}
use wager.Models.{Uuid, NodeType, DataFlag, GraphNode, BetRow, same_type}
use wager.Exec.{pure, or_raise, ◌>>=◌}
use wager.Errors.{Exception}
use wager.Floats.{Floats}
use wager.Db.{Db}
use wager.Db.Sorted.Order.{All-select, All-order_by}
use wager.World.{Action}
use wager.World.Keeps.{Keeps, keeps_rules}
use wager.World.Yields.{Yields, Yields-any, Yields-then, Yields-pure}
use wager.World.Triple.{
  Triple, Triple-pure, Triple-bind, Triple-bind-Yields, Triple-Keeps, Keeps-Triple,
  Triple-consequence, Triple-with_conn, Triple-raise, Triple-raise_if, Triple-same,
}
use wager.Store.Reads.{node_key, bet_nodes, get_bet_graph}
use wager.Store.Typed.{
  Kinds, kinds, has_kind, IsTyped, Knows, TypedWith, All-implies, has_kind-own, has_kind-right,
  has_kind-same_type,
}
use wager.Store.Typed.Writes.{known_hypothesis, write_outcome-IsTyped}
use wager.State.{BetState}
use wager.Pipeline.Review.{
  of_type, load_bet, after_query, fetch_metric, grade, compare_fetched, compare_outcome,
}
use wager.Pipeline.Graphs.{run_nodes, phase2}
use wager.Pipeline.Typed.{Triple-checked, rows-TypedWith}
use wager.Pipeline.Upkeep.{checked-Keeps}
use wager.Pipeline.Runs.{fetch_metric-Keeps, update_calibration-Keeps, report_outcome-Keeps}

module _ {F : Type 0} where
  -- The node is in the database with its kind.
  abbrev IsKnown : Kinds → GraphNode F → Type 0
  IsKnown ks n = has_kind n.id n.kind ks ≡ true

  nodes-IsKnown : (ns : List (GraphNode F)) → All (IsKnown (kinds ns)) ns
  nodes-IsKnown [] = tt
  nodes-IsKnown (n ∷ ns) = (
    has_kind-own n.id n.kind (kinds ns),
    All-implies (λ m h. has_kind-right m.id m.kind ((n.id, n.kind) ∷ []) (kinds ns) h) ns
        (nodes-IsKnown ns),
  )

  -- These nodes as hypotheses.
  abbrev as_hypotheses : List (GraphNode F) → Kinds
  as_hypotheses = map (λ n. (n.id, NodeType.hypothesis))

  Knows-as_hypotheses :
      (ns : List (GraphNode F)) (d : Db F)
      → All (λ n. has_kind n.id NodeType.hypothesis (kinds d.nodes) ≡ true) ns
      → Knows (as_hypotheses ns) d
  Knows-as_hypotheses [] d h = tt
  Knows-as_hypotheses (n ∷ ns) d h = (h.0, Knows-as_hypotheses ns d h.1)

  -- The hypotheses that are read of the graph of a bet.
  graph_hypotheses-Knows :
      (bet : Uuid) (d : Db F)
      → Knows (as_hypotheses (of_type NodeType.hypothesis (bet_nodes bet d.nodes))) d
  unfolding bet_nodes
  graph_hypotheses-Knows bet d =
      let known =
        All-select (IsKnown (kinds d.nodes)) (IsKnown (kinds d.nodes)) (λ n. bet == n.bet_id)
          d.nodes (λ n h _. h) (nodes-IsKnown d.nodes) in
      Knows-as_hypotheses _ d (
        All-select (IsKnown (kinds d.nodes)) _ (λ n. same_type n.kind NodeType.hypothesis) _
          (λ n h same. has_kind-same_type n.id n.kind NodeType.hypothesis (kinds d.nodes) h same)
          (All-order_by node_key (IsKnown (kinds d.nodes)) _ known))

  abbrev pub HasHypotheses : BetState F → Db F → Type 0
  HasHypotheses s = TypedWith (as_hypotheses s.hypotheses)

  read_graph-HasHypotheses :
      (bet : Uuid) (row : BetRow F)
      → Triple IsTyped IsTyped
          (λ (found : BetRow F × List (GraphNode F)) d.
            Knows (as_hypotheses (of_type NodeType.hypothesis found.1)) d × IsTyped d)
          (get_bet_graph bet >>= λ graph. pure (row, graph.0))
  unfolding get_bet_graph ◌>>=◌
  read_graph-HasHypotheses bet row = record {
    at = λ w typed. (graph_hypotheses-Knows bet w.db, typed);
  }

  load_bet-HasHypotheses : (s : BetState F) → Triple IsTyped IsTyped HasHypotheses (load_bet s)
  unfolding load_bet
  load_bet-HasHypotheses s =
      Triple-bind
        (λ found d. Knows (as_hypotheses (of_type NodeType.hypothesis found.1)) d × IsTyped d) _ _ _
        (Triple-with_conn _ _ (λ d h. h)
          (Triple-bind-Yields _ _ _ _ (λ d h. h) (search keeps_rules) (Yields-any _)
            λ db _.
              Triple-bind-Yields _ _ _ _ (λ d h. h) (search keeps_rules) (Yields-any _)
                λ row _. read_graph-HasHypotheses s.bet_id row))
        (λ found. Triple-raise_if _ _ _ _ (λ d h. h.1) (λ _. Triple-pure _ _ (λ d h. (h.1, h.0))))

  after_query-HasHypotheses :
      (e : Option DataFlag) (v : Option F) (s : BetState F)
      → Yields (λ t. t.hypotheses ≡ s.hypotheses) (after_query e v s)
  after_query-HasHypotheses (some e) v s = Yields-then _ _ _ λ _. Yields-pure _ _ refl
  after_query-HasHypotheses none v s = Yields-pure _ _ refl

  fetch_metric-HasHypotheses :
      (s : BetState F) → Triple (HasHypotheses s) IsTyped HasHypotheses (fetch_metric s)
  unfolding fetch_metric
  fetch_metric-HasHypotheses s =
      Triple-consequence (HasHypotheses s) HasHypotheses
        (λ t d. (t.hypotheses ≡ s.hypotheses) × HasHypotheses s d) _ (λ d h. h)
        (λ t d h. (h.1.0, rw h.0 h.1.1))
        (Triple-Keeps _ _ (λ d h. h.0)
          (fetch_metric-Keeps (rows-TypedWith (as_hypotheses s.hypotheses)) s)
          (Yields-then _ _ _ λ result. after_query-HasHypotheses _ _ s))

  -- `state["hypotheses"][0]`.
  first-Triple :
      {A : Type 0} (hs : List (GraphNode F)) (e : Exception) (S : A → Db F → Type 0)
      (f : GraphNode F → Action F A)
      → ((h : GraphNode F) → Triple (TypedWith (known_hypothesis h.id)) IsTyped S (f h))
      → Triple (TypedWith (as_hypotheses hs)) IsTyped S (or_raise (head? hs) e >>= f)
  unfolding ◌>>=◌
  first-Triple [] e S f k = record { at = λ w p. p.0 }
  first-Triple (h ∷ hs) e S f k = record { at = λ w p. (k h).at w (p.0, (p.1.0, tt)) }

module _ {F : Type 0} ⦃fl : Floats F⦄ where
  grade-IsTyped :
      (a : F) (p : Option F) (s : BetState F)
      → Triple (HasHypotheses s) IsTyped (λ _. IsTyped) (grade a p s)
  grade-IsTyped a none s = Triple-raise _ _ (λ d h. h.0)
  grade-IsTyped a (some p) s =
      Triple-bind-Yields _ _ _ _ (λ d h. h.0) (search keeps_rules) (Yields-any _)
        λ settings _. first-Triple s.hypotheses _ _ _ λ h.
          Triple-bind _ _ _ _
            (Triple-with_conn _ _ (λ d h. h.0) (write_outcome-IsTyped s.bet_id h.id a p _ _))
            (λ _. Triple-pure _ _ (λ d h. h))

  compare_fetched-IsTyped :
      (a : Option F) (s : BetState F)
      → Triple (HasHypotheses s) IsTyped (λ _. IsTyped) (compare_fetched a s)
  compare_fetched-IsTyped none s = Triple-pure _ _ (λ d h. h.0)
  compare_fetched-IsTyped (some a) s = grade-IsTyped a _ s

  compare_outcome-IsTyped :
      (s : BetState F) → Triple (HasHypotheses s) IsTyped (λ _. IsTyped) (compare_outcome s)
  unfolding compare_outcome
  compare_outcome-IsTyped s = compare_fetched-IsTyped _ s

  pub phase2-IsTyped : (s : BetState F) → Keeps IsTyped (phase2 s)
  unfolding phase2 run_nodes
  phase2-IsTyped s =
      Keeps-Triple _ (λ d h. h)
        (Triple-bind HasHypotheses _ _ _
          (Triple-checked _ _ HasHypotheses _ _ s (load_bet-HasHypotheses s))
          λ s1.
            Triple-bind _ _ _ _
              (Triple-checked _ _ HasHypotheses _ _ s1 (fetch_metric-HasHypotheses s1))
              λ s2.
                Triple-bind _ _ _ _
                  (Triple-checked _ _ (λ _. IsTyped) _ _ s2 (compare_outcome-IsTyped s2))
                  λ s3. Triple-same _ (
                    search
                      (keeps_rules, checked-Keeps, update_calibration-Keeps, report_outcome-Keeps)
                      depth 9))
