-- ===== src/Pipeline/Typed.antt =====
-- The graphs under the kinds of the nodes that an edge joins.
pub mod Review
pub mod Graphs
use wager.Prelude.{String, ◌≡◌, refl, sym, Option, none, some, List, [], ◌∷◌, ◌++◌, All, map, arith}
use wager.Prelude.Int.{ℤ}
use wager.Models.{
  Uuid, Date, NodeType, DataFlag, GraphNode, GraphEdge, FactItem, HypothesisItem, DerivedReasoning,
}
use wager.Exec.{Result, ok, err, ◌>>=◌}
use wager.Floats.{Floats}
use wager.Db.{Db}
use wager.World.{World}
use wager.World.Keeps.{Keeps, Keeps-bind, Keeps-with_conn, keeps_rules}
use wager.World.Yields.{
  Yields, Yields-any, Yields-for_list, Keeps-bind-Yields, All-append, Yields-new_node,
}
use wager.World.Triple.{
  Ends, Triple, Triple-pure, Triple-bind, Triple-bind-Yields, Triple-Keeps, Keeps-Triple,
  Triple-consequence, Triple-given, Triple-with_conn, Triple-if, Triple-raise,
}
use wager.Integrations.Keeps.{services_rules}
use wager.Store.Typed.{
  Kinds, kinds, has_kind, IsTypedEdge, IsTyped, Knows, TypedWith, has_kind-left, has_kind-right,
  All-implies,
}
use wager.Store.Typed.Statements.{update_bet-TypedWith, update_bet-IsTyped}
use wager.Store.Typed.Writes.{Triple-Keeps-IsTyped}
use wager.Store.Typed.Inserts.{insert_nodes-TypedWith, insert_edges-TypedWith}
use wager.State.{BetState, NodeFn}
use wager.Pipeline.Extraction.{
  keep_facts, extract_facts, store_reasoning, keep_reasoning, first_hypothesis, derive_reasoning,
}
use wager.Pipeline.Writes.{KeepsRows}
use wager.Pipeline.Statements.{rows-Keeps}
use wager.Pipeline.Drafts.{reasoning_edges-Keeps, item_nodes-Keeps}
use wager.Pipeline.Upkeep.{checked-Keeps, collapse_flags-Keeps, docs_intake-Keeps}
use wager.Pipeline.Graphs.{translate, checked, run_nodes, extraction_nodes}
use wager.Pipeline.Derived.{
  IsOfKind, Listed, Listed-kinds, new_node-IsOfKind, item_nodes-IsOfKind, derivation-IsTypedEdge,
}

module _ {F : Type 0} where
  pub rows-TypedWith : (ks : Kinds) → KeepsRows {F = F} (TypedWith ks)
  rows-TypedWith ks = rows-Keeps (TypedWith ks) (update_bet-TypedWith ks)

  pub rows-IsTyped : KeepsRows {F = F} IsTyped
  rows-IsTyped = rows-Keeps IsTyped update_bet-IsTyped

  store_reasoning-IsTyped :
      (ks : Kinds) (bet : Uuid) (ns : List (GraphNode F)) (es : List GraphEdge)
      (h : HypothesisItem F) (d : Date)
      → All (IsTypedEdge (kinds ns ++ ks)) es
      → Triple (TypedWith ks) IsTyped (λ _. IsTyped) (store_reasoning bet ns es h d)
  unfolding store_reasoning
  store_reasoning-IsTyped ks bet ns es h d typed =
      Triple-with_conn _ _ (λ d h. h.0)
        (Triple-bind _ _ _ _ (insert_nodes-TypedWith ks ns) λ _.
          Triple-Keeps-IsTyped (kinds ns ++ ks) _ (
            Keeps-bind _ _ (insert_edges-TypedWith _ es typed)
              (λ _. (rows-TypedWith (kinds ns ++ ks)).fields _ _)))

  keep_reasoning-IsTyped :
      (p : DerivedReasoning F) (fs : List DataFlag) (h : HypothesisItem F) (s : BetState F)
      → All (IsOfKind NodeType.fact) s.facts
      → Triple (TypedWith (kinds s.facts)) IsTyped (λ _. IsTyped) (keep_reasoning p fs h s)
  unfolding keep_reasoning
  keep_reasoning-IsTyped p fs h s facts =
      Triple-bind-Yields _ _ _ _ (λ d h. h.0) (item_nodes-Keeps _ _ _ _ _)
        (item_nodes-IsOfKind _ NodeType.assumption _ _ _)
        λ as' ka.
          Triple-bind-Yields _ _ _ _ (λ d h. h.0) (search keeps_rules)
            (new_node-IsOfKind _ NodeType.hypothesis _ _ _)
            λ n kn.
              Triple-bind-Yields _ _ _ _ (λ d h. h.0) (item_nodes-Keeps _ _ _ _ _)
                (item_nodes-IsOfKind _ NodeType.option _ _ _)
                λ os ko.
                  Triple-bind-Yields _ _ _ _ (λ d h. h.0) (reasoning_edges-Keeps _ _ _ _ _ _ _)
                    (derivation-IsTypedEdge s.facts as' n os s.bet_id p h facts ka kn ko)
                    λ es typed.
                      Triple-bind-Yields _ _ _ _ (λ d h. h.0) (search keeps_rules) (Yields-any _)
                        λ d _.
                          Triple-bind _ _ _ _
                            (store_reasoning-IsTyped (kinds s.facts) _ _ es h d typed)
                            (λ _. Triple-pure _ _ (λ d h. h))

  first_hypothesis-IsTyped :
      (hs : List (HypothesisItem F)) (p : DerivedReasoning F) (fs : List DataFlag) (s : BetState F)
      → All (IsOfKind NodeType.fact) s.facts
      → Triple (TypedWith (kinds s.facts)) IsTyped (λ _. IsTyped) (first_hypothesis hs p fs s)
  first_hypothesis-IsTyped [] p fs s facts = Triple-raise _ _ (λ d h. h.0)
  first_hypothesis-IsTyped (h ∷ hs) p fs s facts = keep_reasoning-IsTyped p fs h s facts

  derive_reasoning-IsTyped :
      (system : String) (s : BetState F)
      → All (IsOfKind NodeType.fact) s.facts
      → Triple (TypedWith (kinds s.facts)) IsTyped (λ _. IsTyped) (derive_reasoning system s)
  unfolding derive_reasoning
  derive_reasoning-IsTyped system s facts =
      Triple-bind-Yields _ _ _ _ (λ d h. h.0) (search keeps_rules) (Yields-any _)
        λ services _.
          Triple-bind-Yields _ _ _ _ (λ d h. h.0) (search services_rules) (Yields-any _)
            λ p _.
              Triple-bind-Yields _ _ _ _ (λ d h. h.0) (collapse_flags-Keeps _) (Yields-any _)
                λ fs _. first_hypothesis-IsTyped _ p fs s facts

  -- A state whose facts are nodes of that kind in the database.
  abbrev HasFacts : BetState F → Db F → Type 0
  HasFacts s d = All (IsOfKind NodeType.fact) s.facts × TypedWith (kinds s.facts) d

  Knows-left : (ks ls : Kinds) (d : Db F) → Knows (ks ++ ls) d → Knows ks d
  Knows-left [] ls d h = tt
  Knows-left (k ∷ ks) ls d h = (h.0, Knows-left ks ls d h.1)

  keep_facts-HasFacts :
      (fs : List FactItem) (s : BetState F) → Triple IsTyped IsTyped HasFacts (keep_facts fs s)
  unfolding keep_facts
  keep_facts-HasFacts [] s =
      Triple-bind-Yields _ _ _ _ (λ d h. h) (search keeps_rules) (Yields-any _)
        λ f _.
          Triple-bind-Yields _ _ _ _ (λ d h. h) (Keeps-with_conn _ (rows-IsTyped.flag _ f))
            (Yields-any _) (λ _ _. Triple-raise _ _ (λ d h. h))
  keep_facts-HasFacts (f ∷ fs) s =
      Triple-bind-Yields _ _ _ _ (λ d h. h) (search keeps_rules)
        (Yields-for_list (IsOfKind NodeType.fact) (f ∷ fs) _
          (λ i. new_node-IsOfKind _ NodeType.fact _ _ _))
        λ ns kn.
          Triple-bind _ _ _ _
            (Triple-with_conn _ _ (λ d h. h)
              (Triple-consequence (TypedWith []) _ _ _ (λ d h. (h, tt)) (λ a d h. h)
                (insert_nodes-TypedWith [] ns)))
            (λ _. Triple-pure _ _ (λ d h. (kn, (h.0, Knows-left (kinds ns) [] d h.1))))

  extract_facts-HasFacts :
      (system : String) (s : BetState F) → Triple IsTyped IsTyped HasFacts (extract_facts system s)
  unfolding extract_facts
  extract_facts-HasFacts system s =
      Triple-bind-Yields _ _ _ _ (λ d h. h) (search keeps_rules) (Yields-any _)
        λ services _.
          Triple-bind-Yields _ _ _ _ (λ d h. h) (search services_rules) (Yields-any _)
            λ p _. keep_facts-HasFacts _ s

  pub Triple-checked :
      (P Q : Db F → Type 0) (R : BetState F → Db F → Type 0) (name : String) (fn : NodeFn F)
      (s : BetState F)
      → Triple P Q R (fn s)
      → Triple P Q R (checked name fn s)
  unfolding checked
  Triple-checked P Q R name fn s t = record { at = λ w p. ends (fn s w).0 (fn s w).1 (t.at w p) }
    where
      ends :
          (r : Result (BetState F)) (w : World F)
          → Ends Q R r w.db
          → Ends Q R (translate name (r, w)).0 (translate name (r, w)).1.db
      ends (ok a) w h = h
      ends (err e) w h = h

  pub extraction-IsTyped :
      (p q : String) (s : BetState F) → Keeps IsTyped (run_nodes (extraction_nodes p q) s)
  unfolding run_nodes
  extraction-IsTyped p q s =
      Keeps-bind _ _ (checked-Keeps _ _ s (docs_intake-Keeps rows-IsTyped s)) λ read.
        Keeps-Triple _ (λ d h. h)
          (Triple-bind _ _ _ _
            (Triple-checked IsTyped IsTyped HasFacts _ _ read (extract_facts-HasFacts p read))
            λ extracted. Triple-given (All (IsOfKind NodeType.fact) extracted.facts) _ _ λ facts.
              Triple-bind _ _ _ _
                (Triple-checked _ _ _ _ _ extracted (derive_reasoning-IsTyped q extracted facts))
                (λ s. Triple-pure _ _ (λ d h. h)))
