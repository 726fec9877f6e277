-- ===== src/Pipeline/Derived.antt =====
-- The edges of `derive_reasoning` and the kinds of the nodes that they join.
use wager.Prelude.{
  ℕ, zero, suc, String, true, ◌≡◌, refl, Option, none, some, List, [], ◌∷◌, ◌++◌, All, zip, length,
  ltb, get_elem?, ◌-◌, Bool-cases, inl, inr,
}
use wager.Prelude.Int.{ℤ, pos, negsuc, py_index}
use wager.Models.{Uuid, NodeType, EdgeType, GraphNode, HypothesisItem, DerivedReasoning}
use wager.Errors.{Exception}
use wager.Exec.{or_raise, ◌>>=◌}
use wager.World.{new_node}
use wager.World.Yields.{
  Yields, Yields-pure, Yields-bind, Yields-for_list, Yields-for_list-All, All-append, All-flatten,
}
use wager.Store.Typed.{
  connects, Kinds, kinds, has_kind, IsTypedEdge, has_kind-left, has_kind-right, has_kind-own,
  All-implies,
}
use wager.Store.Typed.Writes.{new_edge-IsTypedEdge}
use wager.Pipeline.Extraction.{edges_from, derived_edges, item_nodes, reasoning_edges}

module _ {A : Type 0} (P : A → Type 0) where
  abbrev OnSome : Option A → Type 0
  OnSome none = Unit
  OnSome (some a) = P a

  get_elem?-OnSome : (xs : List A) (i : ℕ) → All P xs → OnSome (get_elem? xs i)
  get_elem?-OnSome [] i h = tt
  get_elem?-OnSome (x ∷ xs) zero h = h.0
  get_elem?-OnSome (x ∷ xs) (suc i) h = get_elem?-OnSome xs i h.1

  -- What an index into a list picks, from the end too.
  py_index-OnSome : (xs : List A) (i : ℤ) → All P xs → OnSome (py_index xs i)
  unfolding py_index
  py_index-OnSome xs (pos i) h = get_elem?-OnSome xs i h
  py_index-OnSome xs (negsuc k) h = elim (Bool-cases (ltb k (length xs))) [
    | inl inside ↦ rw inside (get_elem?-OnSome xs (length xs - suc k) h)
    | inr outside ↦ rw outside tt
  ]

  or_raise-Yields :
      {F : Type 0} (o : Option A) (e : Exception) → OnSome o → Yields {F = F} P (or_raise o e)
  or_raise-Yields none e h = record { at = λ w. tt }
  or_raise-Yields (some a) e h = record { at = λ w. h }

  All-zip : {B : Type 0} (xs : List A) (ys : List B) → All P xs → All (λ p. P p.0) (zip xs ys)
  All-zip [] ys h = tt
  All-zip (x ∷ xs) [] h = tt
  All-zip (x ∷ xs) (y ∷ ys) h = (h.0, All-zip xs ys h.1)

module _ {F : Type 0} where
  abbrev pub IsOfKind : NodeType → GraphNode F → Type 0
  IsOfKind k n = n.kind ≡ k

  -- The node's id is listed with the kind.
  abbrev pub Listed : NodeType → Kinds → GraphNode F → Type 0
  Listed k ks n = has_kind n.id k ks ≡ true

  pub Listed-kinds :
      (k : NodeType) (ns : List (GraphNode F)) → All (IsOfKind k) ns → All (Listed k (kinds ns)) ns
  Listed-kinds k [] h = tt
  Listed-kinds k (n ∷ ns) h = (
    rw (h.0) (has_kind-own n.id k (kinds ns)),
    All-implies (λ m l. has_kind-right m.id k ((n.id, n.kind) ∷ []) (kinds ns) l) ns
        (Listed-kinds k ns h.1),
  )

  pub new_node-IsOfKind :
      (i : Uuid) (k : NodeType) (c : String) (x : Option F) (s : String)
      → Yields (IsOfKind k) (new_node i k c x s)
  unfolding ◌>>=◌
  new_node-IsOfKind i k c x s = record { at = λ w. refl }

  pub item_nodes-IsOfKind :
      {A : Type 0} (i : Uuid) (k : NodeType) (s : String) (content : A → String) (items : List A)
      → Yields (All (IsOfKind k)) (item_nodes {F = F} i k s content items)
  item_nodes-IsOfKind i k s content items =
      Yields-for_list (IsOfKind k) items _ (λ item. new_node-IsOfKind i k _ none s)

kinds-append : {F : Type 0} (xs ys : List (GraphNode F)) → kinds (xs ++ ys) ≡ kinds xs ++ kinds ys
kinds-append [] ys = refl
kinds-append (x ∷ xs) ys = rw (kinds-append xs ys) refl

module _ {F : Type 0} (ks : Kinds) where
  edges_from-IsTypedEdge :
      (bet : Uuid) (t : EdgeType) (targets : List (GraphNode F)) (source : Uuid) (idxs : List ℤ)
      (k l : NodeType)
      → connects t k l ≡ true
      → has_kind source k ks ≡ true
      → All (Listed l ks) targets
      → Yields (All (IsTypedEdge ks)) (edges_from bet t targets source idxs)
  unfolding edges_from
  edges_from-IsTypedEdge bet t targets source idxs k l fits known listed =
      Yields-for_list (IsTypedEdge ks) idxs _ (λ idx.
        Yields-bind (Listed l ks) (IsTypedEdge ks) _ _
          (or_raise-Yields (Listed l ks) _ _ (py_index-OnSome (Listed l ks) targets idx listed))
          (λ target h. new_edge-IsTypedEdge F ks bet source target.id t k l fits known h))

  derived_edges-IsTypedEdge :
      (bet : Uuid) (facts : List (GraphNode F)) (items : List (GraphNode F × List ℤ)) (k : NodeType)
      → connects EdgeType.derived_from k NodeType.fact ≡ true
      → All (λ item. Listed k ks item.0) items
      → All (Listed NodeType.fact ks) facts
      → Yields (All (IsTypedEdge ks)) (derived_edges bet facts items)
  unfolding derived_edges
  derived_edges-IsTypedEdge bet facts items k fits sources listed =
      Yields-bind (All (All (IsTypedEdge ks))) (All (IsTypedEdge ks)) _ _
        (Yields-for_list-All (λ item. Listed k ks item.0) (All (IsTypedEdge ks)) items _
          (λ item h.
            edges_from-IsTypedEdge bet EdgeType.derived_from facts item.0.id item.1 k NodeType.fact
              fits h listed)
          sources)
        (λ lists h. Yields-pure _ _ (All-flatten (IsTypedEdge ks) lists h))

  pub reasoning_edges-IsTypedEdge :
      (bet : Uuid) (facts : List (GraphNode F)) (p : DerivedReasoning F) (h : HypothesisItem F)
      (as' : List (GraphNode F)) (n : GraphNode F) (os : List (GraphNode F))
      → All (Listed NodeType.fact ks) facts
      → All (Listed NodeType.assumption ks) as'
      → Listed NodeType.hypothesis ks n
      → All (Listed NodeType.option ks) os
      → Yields (All (IsTypedEdge ks)) (reasoning_edges bet facts p h as' n os)
  unfolding reasoning_edges connects
  reasoning_edges-IsTypedEdge bet facts p h as' n os lf la ln lo =
      Yields-bind (All (IsTypedEdge ks)) _ _ _
        (derived_edges-IsTypedEdge bet facts _ NodeType.assumption refl (All-zip _ as' _ la) lf)
        λ e₁ h₁.
          Yields-bind (All (IsTypedEdge ks)) _ _ _
            (edges_from-IsTypedEdge bet _ facts n.id _ NodeType.hypothesis NodeType.fact refl ln lf)
            λ e₂ h₂.
              Yields-bind (All (IsTypedEdge ks)) _ _ _
                (edges_from-IsTypedEdge bet _ as' n.id _ NodeType.hypothesis NodeType.assumption
                  refl ln la)
                λ e₃ h₃.
                  Yields-bind (All (IsTypedEdge ks)) _ _ _
                    (derived_edges-IsTypedEdge bet facts _ NodeType.option refl (All-zip _ os _ lo)
                      lf)
                    λ e₄ h₄. Yields-pure _ _ (
                      All-append (IsTypedEdge ks) e₁ _ h₁ (
                        All-append (IsTypedEdge ks) e₂ _ h₂
                          (All-append (IsTypedEdge ks) e₃ e₄ h₃ h₄)))

-- The nodes that the derivation adds, before the ids that are known.
module _ {F : Type 0} (facts as' : List (GraphNode F)) (n : GraphNode F)
    (os : List (GraphNode F)) where
  abbrev pub derived_kinds : Kinds
  derived_kinds = kinds (as' ++ (n ∷ os)) ++ kinds facts

  derived-left :
      (i : Uuid) (k : NodeType)
      → has_kind i k (kinds as') ≡ true
      → has_kind i k derived_kinds ≡ true
  derived-left i k h = rw (kinds-append as' (n ∷ os)) (
      has_kind-left i k (kinds as' ++ kinds (n ∷ os)) (kinds facts)
        (has_kind-left i k (kinds as') (kinds (n ∷ os)) h))

  derived-middle :
      (i : Uuid) (k : NodeType)
      → has_kind i k (kinds (n ∷ os)) ≡ true
      → has_kind i k derived_kinds ≡ true
  derived-middle i k h = rw (kinds-append as' (n ∷ os)) (
      has_kind-left i k (kinds as' ++ kinds (n ∷ os)) (kinds facts)
        (has_kind-right i k (kinds as') (kinds (n ∷ os)) h))

  pub derivation-IsTypedEdge :
      (bet : Uuid) (p : DerivedReasoning F) (h : HypothesisItem F)
      → All (IsOfKind NodeType.fact) facts
      → All (IsOfKind NodeType.assumption) as'
      → IsOfKind NodeType.hypothesis n
      → All (IsOfKind NodeType.option) os
      → Yields (All (IsTypedEdge derived_kinds)) (reasoning_edges bet facts p h as' n os)
  derivation-IsTypedEdge bet p h kf ka kn ko =
      reasoning_edges-IsTypedEdge derived_kinds bet facts p h as' n os
        (All-implies
          (λ m. has_kind-right m.id NodeType.fact (kinds (as' ++ (n ∷ os))) (kinds facts)) facts
          (Listed-kinds NodeType.fact facts kf))
        (All-implies (λ m. derived-left m.id NodeType.assumption) as'
          (Listed-kinds NodeType.assumption as' ka))
        (derived-middle n.id NodeType.hypothesis
          (rw kn (has_kind-own n.id NodeType.hypothesis (kinds os))))
        (All-implies
          (λ m l.
            derived-middle m.id NodeType.option
              (has_kind-right m.id NodeType.option ((n.id, n.kind) ∷ []) (kinds os) l))
          os (Listed-kinds NodeType.option os ko))
