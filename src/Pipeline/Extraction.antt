-- ===== src/Pipeline/Extraction.antt =====
-- pipeline/nodes/intake.py and pipeline/nodes/extraction.py. The system prompts are parameters.
use wager.Prelude.{
  ℕ, suc, String, Option, none, some, List, [], ◌∷◌, ◌++◌, map, get_elem?, zip, concat, join,
  show_ℕ,
}
use mathlib.Core.List.{flatten}
use wager.Prelude.Int.{ℤ, pos, negsuc, py_index}
use wager.Prelude.Dates.{iso_date, add_days}
use wager.Models.{
  Uuid, Date, NodeType, EdgeType, Source, Severity, DataFlag, GraphNode, GraphEdge, FactItem,
  HypothesisItem, DerivedReasoning,
}
use wager.Errors.{integration_error, plain, empty_extraction_error, index_error, overflow_error}
use wager.Exec.{None, pure, raise, or_raise, for_list, ◌>>=◌, ◌>>◌}
use wager.World.{Action, get_services, new_flag, new_node, new_edge, with_conn}
use wager.Store.{insert_nodes, insert_edges, update_bet_status, append_flag}
use wager.Store.Fields.{str, day, number, update_bet_fields}
use wager.Integrations.Google.{fetch_transcript}
use wager.Llm.{call_llm}
use wager.State.{BetState, NodeFn}

abbrev text_of : Option String → String
text_of none = ""
text_of (some t) = t

module _ {F : Type 0} where
  -- What follows the fetch: `result.error`, and `result.value`, which is set where that is None.
  abbrev pub after_fetch : Option DataFlag → Option String → NodeFn F
  after_fetch (some flag) value state =
      raise (integration_error (plain (concat ("docs_intake failed: " ∷ flag.message ∷ []))))
  after_fetch none value state = do
    with_conn (update_bet_status state.bet_id "EXTRACTING")
    pure (record state { raw_transcript = text_of value })

  unfoldable pub docs_intake : NodeFn F
  docs_intake state = do
    result ← fetch_transcript state.doc_id
    after_fetch result.error result.value state

  abbrev pub fact_node : BetState F → FactItem → Action F (GraphNode F)
  fact_node state item =
      new_node state.bet_id NodeType.fact item.content none
        (concat ("meeting:" ∷ iso_date state.meeting_date ∷ ":speaker=" ∷ item.speaker ∷ []))

  -- The facts of the payload; none at all is flagged in a transaction of its own.
  unfoldable pub keep_facts : List FactItem → NodeFn F
  keep_facts [] state = do
    flag ← new_flag Source.llm Severity.critical "extract_facts_empty"
    with_conn (append_flag state.bet_id flag)
    raise (empty_extraction_error "LLM extraction returned 0 facts")
  keep_facts (f ∷ fs) state = do
    nodes ← for_list (f ∷ fs) (fact_node state)
    with_conn (insert_nodes nodes)
    pure (record state { facts = nodes })

  unfoldable pub extract_facts : String → NodeFn F
  extract_facts system state = do
    services ← get_services
    payload ← call_llm services.validate_facts system (
        concat (
          "Meeting date: "
          ∷ iso_date state.meeting_date
          ∷ "\n\nTRANSCRIPT:\n"
          ∷ state.raw_transcript
          ∷ []))
    keep_facts payload.facts state

  -- `"\n".join(f"[{i}] {n.content}" for i, n in enumerate(facts))`
  abbrev fact_lines : ℕ → List (GraphNode F) → List String
  fact_lines i [] = []
  fact_lines i (n ∷ ns) = concat ("[" ∷ show_ℕ i ∷ "] " ∷ n.content ∷ []) ∷ fact_lines (suc i) ns

  -- The edges from one node to the nodes that a list of indices picks; an index outside the list
  -- raises before its edge is made.
  unfoldable pub edges_from :
      Uuid → EdgeType → List (GraphNode F) → Uuid → List ℤ → Action F (List GraphEdge)
  edges_from bet edge_type targets source idxs = for_list idxs (λ idx. do
    target ← or_raise (py_index targets idx) index_error
    new_edge bet source target.id edge_type)

  -- The edges of a list of nodes, each with its indices into the facts.
  unfoldable pub derived_edges :
      Uuid → List (GraphNode F) → List (GraphNode F × List ℤ) → Action F (List GraphEdge)
  derived_edges bet facts items = do
    lists ← for_list items (λ item. edges_from bet EdgeType.derived_from facts item.0.id item.1)
    pure (flatten lists)

  -- `option_nodes[i].id if 0 <= i < len(option_nodes) else None`
  abbrev pub proposed_id : List (GraphNode F) → ℤ → Option Uuid
  proposed_id options (pos i) = elim (get_elem? options i) [ none ↦ none | some n ↦ some n.id ]
  proposed_id options (negsuc i) = none

  abbrev pub collapse_flags : List (HypothesisItem F) → Action F (List DataFlag)
  collapse_flags [] = pure []
  collapse_flags (h ∷ []) = pure []
  collapse_flags (h ∷ g ∷ hs) = do
    flag ← new_flag Source.llm Severity.warning "multiple_hypotheses_collapsed"
    pure (flag ∷ [])

  abbrev pub item_nodes :
      {A : Type 0}
      → Uuid
      → NodeType
      → String
      → (A → String)
      → List A
      → Action F (List (GraphNode F))
  item_nodes bet kind source content items =
      for_list items (λ item. new_node bet kind (content item) none source)

  -- All edges of the derivation, in the order in which the loops append them.
  unfoldable pub reasoning_edges :
      Uuid
      → List (GraphNode F)
      → DerivedReasoning F
      → HypothesisItem F
      → List (GraphNode F)
      → GraphNode F
      → List (GraphNode F)
      → Action F (List GraphEdge)
  reasoning_edges bet facts payload hypothesis assumptions hypothesis_node options = do
    of_assumptions ←
        derived_edges bet facts
          (zip assumptions (map (λ a. a.derived_from_fact_ids) payload.assumptions))
    of_hypothesis ←
        edges_from bet EdgeType.derived_from facts hypothesis_node.id
          hypothesis.derived_from_fact_ids
    of_dependencies ←
        edges_from bet EdgeType.depends_on assumptions hypothesis_node.id
          hypothesis.depends_on_assumption_idxs
    of_options ←
        derived_edges bet facts (zip options (map (λ o. o.derived_from_fact_ids) payload.options))
    pure (of_assumptions ++ (of_hypothesis ++ (of_dependencies ++ of_options)))

  -- The one transaction of the node.
  unfoldable pub store_reasoning :
      Uuid → List (GraphNode F) → List GraphEdge → HypothesisItem F → Date → Action F None
  store_reasoning bet nodes edges hypothesis review_date = with_conn (
      insert_nodes nodes
      >> (insert_edges edges
          >> update_bet_fields bet (
              ("metric_name", str hypothesis.metric_name)
              ∷ ("metric_query", str hypothesis.metric_query)
              ∷ ("predicted_lift", number hypothesis.predicted_lift)
              ∷ ("review_date", day review_date)
              ∷ [])))

  -- The derivation with the one hypothesis that is kept.
  unfoldable pub keep_reasoning : DerivedReasoning F → List DataFlag → HypothesisItem F → NodeFn F
  keep_reasoning payload flags hypothesis state = do
    let bet = state.bet_id
    let source = concat ("meeting:" ∷ iso_date state.meeting_date ∷ ":llm" ∷ [])
    assumptions ← item_nodes bet NodeType.assumption source (λ a. a.content) payload.assumptions
    hypothesis_node ←
        new_node bet NodeType.hypothesis hypothesis.content (some hypothesis.confidence) source
    options ← item_nodes bet NodeType.option source (λ o. o.content) payload.options
    edges ← reasoning_edges bet state.facts payload hypothesis assumptions hypothesis_node options
    review_date ← or_raise (add_days state.meeting_date hypothesis.measurement_days) overflow_error
    store_reasoning bet (assumptions ++ (hypothesis_node ∷ options)) edges hypothesis review_date
    pure (record state {
      assumptions = assumptions;
      hypotheses = hypothesis_node ∷ [];
      options = options;
      proposed_option_id = proposed_id options payload.proposed_option_index;
      metric_name = some hypothesis.metric_name;
      metric_query = some hypothesis.metric_query;
      predicted_lift = some hypothesis.predicted_lift;
      review_date = some review_date;
      flags = state.flags ++ flags;
    })

  abbrev pub first_hypothesis :
      List (HypothesisItem F) → DerivedReasoning F → List DataFlag → NodeFn F
  first_hypothesis [] payload flags state =
      raise (empty_extraction_error "LLM extraction returned 0 hypotheses")
  first_hypothesis (h ∷ hs) payload flags state = keep_reasoning payload flags h state

  unfoldable pub derive_reasoning : String → NodeFn F
  derive_reasoning system state = do
    services ← get_services
    payload ← call_llm services.validate_reasoning system (
        concat (
          "Meeting date: "
          ∷ iso_date state.meeting_date
          ∷ "\n\nFACTS:\n"
          ∷ join "\n" (fact_lines 0 state.facts)
          ∷ "\n\nTRANSCRIPT:\n"
          ∷ state.raw_transcript
          ∷ []))
    flags ← collapse_flags payload.hypotheses
    first_hypothesis payload.hypotheses payload flags state
