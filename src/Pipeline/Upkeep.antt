-- ===== src/Pipeline/Upkeep.antt =====
-- The nodes under `add_node_checked`, and phase 1 up to the interrupt, under an invariant of the
-- database that the writes of the store keep.
use wager.Prelude.{ℕ, String, refl, Option, none, some, List, [], ◌∷◌, All}
use wager.Prelude.Int.{ℤ}
use wager.Models.{
  Uuid, Date, NodeType, DataFlag, GraphNode, GraphEdge, FactItem, HypothesisItem, DerivedReasoning,
}
use wager.Exec.{Result, ok, err}
use wager.Db.{Db}
use wager.World.{World}
use wager.World.Keeps.{
  Keeps, Keeps-pure, Keeps-or_raise, Keeps-bind, Keeps-with_conn, Keeps-new_node, keeps_rules,
}
use wager.World.Yields.{Yields-for_list, Keeps-bind-Yields, All-append}
use wager.Integrations.Keeps.{services_rules, fetch_transcript-Keeps, post_confirm-Keeps}
use wager.State.{BetState, NodeFn}
use wager.Pipeline.Extraction.{
  after_fetch, docs_intake, keep_facts, extract_facts, store_reasoning, keep_reasoning,
  collapse_flags, first_hypothesis, derive_reasoning,
}
use wager.Pipeline.Decision.{mark_pending, interrupt, confirm_decision}
use wager.Pipeline.Writes.{IsDraft, IsDraftEdge, KeepsRows, KeepsDrafts}
use wager.Pipeline.Drafts.{
  reasoning_edges-drafts, new_node-IsDraft, item_nodes-drafts, reasoning_edges-Keeps,
  item_nodes-Keeps,
}
use wager.Pipeline.Graphs.{checked, translate, run_nodes, extraction_nodes}

module _ {F : Type 0} where
  translate_keeps :
      {A : Type 0} (Q : Db F → Type 0) (name : String) (r : Result A) (w : World F)
      → Q w.db
      → Q (translate name (r, w)).1.db
  translate_keeps Q name (ok a) w h = h
  translate_keeps Q name (err e) w h = h

  -- The wrapper of a node writes nothing.
  pub checked-Keeps :
      {Q : Db F → Type 0} (name : String) (fn : NodeFn F) (s : BetState F)
      → Keeps Q (fn s)
      → Keeps Q (checked name fn s)
  unfolding checked
  checked-Keeps {Q} name fn s h = record {
    at = λ w q. translate_keeps Q name (fn s w).0 (fn s w).1 (h.at w q);
  }

module _ {F : Type 0} {Q : Db F → Type 0} where
  pub collapse_flags-Keeps : (hs : List (HypothesisItem F)) → Keeps Q (collapse_flags hs)
  collapse_flags-Keeps [] = search keeps_rules
  collapse_flags-Keeps (h ∷ []) = search keeps_rules
  collapse_flags-Keeps (h ∷ g ∷ hs) = search keeps_rules

module _ {F : Type 0} {Q : Db F → Type 0} (k : KeepsRows Q) where
  after_fetch-Keeps :
      (e : Option DataFlag) (v : Option String) (s : BetState F) → Keeps Q (after_fetch e v s)
  after_fetch-Keeps (some e) v s = search keeps_rules
  after_fetch-Keeps none v s = search (keeps_rules, k.status)

  pub docs_intake-Keeps : (s : BetState F) → Keeps Q (docs_intake s)
  unfolding docs_intake
  docs_intake-Keeps s = search (keeps_rules, fetch_transcript-Keeps, after_fetch-Keeps)

  mark_pending-Keeps : (i : Uuid) (e : Option DataFlag) → Keeps Q (mark_pending i e)
  mark_pending-Keeps i none = search (keeps_rules, k.status)
  mark_pending-Keeps i (some e) = search (keeps_rules, k.status, k.flag) depth 8

  interrupt-Keeps :
      (i : Uuid) (os : List String) (p : ℕ) (r : Option ℤ) → Keeps Q (interrupt i os p r)
  interrupt-Keeps i os p none = search keeps_rules
  interrupt-Keeps i os p (some r) = search keeps_rules

  pub confirm_decision-Keeps : (r : Option ℤ) (s : BetState F) → Keeps Q (confirm_decision r s)
  unfolding confirm_decision
  confirm_decision-Keeps r s =
      search (keeps_rules, post_confirm-Keeps, mark_pending-Keeps, interrupt-Keeps) depth 9

module _ {F : Type 0} {Q : Db F → Type 0} (k : KeepsDrafts Q) where
  keep_facts-Keeps : (fs : List FactItem) (s : BetState F) → Keeps Q (keep_facts fs s)
  unfolding keep_facts
  keep_facts-Keeps [] s = search (keeps_rules, k.rows.flag)
  keep_facts-Keeps (f ∷ fs) s =
      Keeps-bind-Yields Q (All IsDraft) _ _ (search keeps_rules)
        (Yields-for_list IsDraft (f ∷ fs) _ (λ i. new_node-IsDraft _ NodeType.fact _ _ _ refl))
        (λ ns draft. Keeps-bind _ _ (Keeps-with_conn _ (k.nodes ns draft)) (λ _. Keeps-pure _))

  pub extract_facts-Keeps : (system : String) (s : BetState F) → Keeps Q (extract_facts system s)
  unfolding extract_facts
  extract_facts-Keeps system s = search (services_rules, keep_facts-Keeps)

  store_reasoning-Keeps :
      (bet : Uuid) (ns : List (GraphNode F)) (es : List GraphEdge) (h : HypothesisItem F) (d : Date)
      → All IsDraft ns
      → All IsDraftEdge es
      → Keeps Q (store_reasoning bet ns es h d)
  unfolding store_reasoning
  store_reasoning-Keeps bet ns es h d dn de = Keeps-with_conn _ (
      Keeps-bind _ _ (k.nodes ns dn) (λ _. Keeps-bind _ _ (k.edges es de) (λ _. k.rows.fields _ _)))

  keep_reasoning-Keeps :
      (p : DerivedReasoning F) (fs : List DataFlag) (h : HypothesisItem F) (s : BetState F)
      → Keeps Q (keep_reasoning p fs h s)
  unfolding keep_reasoning
  keep_reasoning-Keeps p fs h s =
      Keeps-bind-Yields Q (All IsDraft) _ _ (item_nodes-Keeps _ _ _ _ _)
        (item_nodes-drafts _ NodeType.assumption _ _ _ refl)
        λ as' da.
          Keeps-bind-Yields Q IsDraft _ _ (Keeps-new_node _ _ _ _ _)
            (new_node-IsDraft _ NodeType.hypothesis _ _ _ refl)
            λ n dn.
              Keeps-bind-Yields Q (All IsDraft) _ _ (item_nodes-Keeps _ _ _ _ _)
                (item_nodes-drafts _ NodeType.option _ _ _ refl)
                λ os do'.
                  Keeps-bind-Yields Q (All IsDraftEdge) _ _ (reasoning_edges-Keeps _ _ _ _ _ _ _)
                    (reasoning_edges-drafts _ _ _ _ _ _ _)
                    λ es de. Keeps-bind _ _ (Keeps-or_raise _ _) λ d.
                      Keeps-bind _ _
                        (store_reasoning-Keeps _ _ es h d
                          (All-append IsDraft as' (n ∷ os) da (dn, do')) de)
                        (λ _. Keeps-pure _)

  first_hypothesis-Keeps :
      (hs : List (HypothesisItem F)) (p : DerivedReasoning F) (fs : List DataFlag) (s : BetState F)
      → Keeps Q (first_hypothesis hs p fs s)
  first_hypothesis-Keeps [] p fs s = search keeps_rules
  first_hypothesis-Keeps (h ∷ hs) p fs s = keep_reasoning-Keeps p fs h s

  pub derive_reasoning-Keeps :
      (system : String) (s : BetState F) → Keeps Q (derive_reasoning system s)
  unfolding derive_reasoning
  derive_reasoning-Keeps system s =
      search (services_rules, collapse_flags-Keeps, first_hypothesis-Keeps)

  pub extraction-Keeps :
      (p q : String) (s : BetState F) → Keeps Q (run_nodes (extraction_nodes p q) s)
  unfolding run_nodes
  extraction-Keeps p q s = search (
    keeps_rules,
    checked-Keeps,
    docs_intake-Keeps k.rows,
    extract_facts-Keeps,
    derive_reasoning-Keeps,
  )
