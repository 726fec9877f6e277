-- ===== src/Store/Typed/Writes.antt =====
-- The writes of graph/store.py, under the kinds of the nodes that an edge joins.
use wager.Prelude.{
  String, Bool, true, false, not, ◌≡◌, sym, refl, none, List, [], ◌∷◌, arith, if◌then◌else◌,
}
use wager.Models.{Uuid, Date, NodeType, EdgeType, GraphNode, GraphEdge}
use wager.Exec.{pure, ◌>>=◌}
use wager.Floats.{Floats}
use wager.Db.{Db}
use wager.World.{Action, new_node, new_edge}
use wager.World.Keeps.{Keeps, Keeps-bind, Keeps-new_node, Keeps-new_edge, keeps_rules}
use wager.World.Yields.{Yields, Keeps-bind-Yields, Yields-new_node, Yields-any}
use wager.World.Triple.{
  Triple, Triple-pure, Triple-bind, Triple-bind-Yields, Triple-Keeps, Keeps-Triple,
  Triple-consequence, Triple-raise_if, Triple-get_db, Triple-if,
}
use wager.Sql.{insert_node, insert_edge}
use wager.Store.{create_bet}
use wager.Store.Decisions.{has_option, write_decision, record_outcome, write_outcome}
use wager.Store.Typed.{
  connects, Kinds, kinds, has_kind, IsTypedEdge, IsTyped, TypedWith, has_kind-own,
}
use wager.Store.Typed.Statements.{
  insert_node-TypedWith, insert_edge-TypedWith, update_bet-TypedWith, insert_outcome-TypedWith,
  update_node-TypedWith, insert_bet-IsTyped,
}

-- An edge between ids whose kinds its type connects.
pub new_edge-IsTypedEdge :
    (F : Type 0) (ks : Kinds) (i a b : Uuid) (t : EdgeType) (k l : NodeType)
    → connects t k l ≡ true
    → has_kind a k ks ≡ true
    → has_kind b l ks ≡ true
    → Yields {F = F} (IsTypedEdge ks) (new_edge i a b t)
unfolding ◌>>=◌
new_edge-IsTypedEdge F ks i a b t k l fits from_kind to_kind = record {
  at = λ w. (k, l, fits, from_kind, to_kind);
}

has_kind_of_has_option :
    {F : Type 0} (o i : Uuid) (ns : List (GraphNode F))
    → has_option o i ns ≡ true
    → has_kind o NodeType.option (kinds ns) ≡ true
has_kind_of_has_option o i [] h = cc
has_kind_of_has_option o i (n ∷ ns) h = ground (arith, has_kind_of_has_option o i ns)

abbrev known_option : Uuid → Kinds
known_option o = (o, NodeType.option) ∷ []

abbrev pub known_hypothesis : Uuid → Kinds
known_hypothesis h = (h, NodeType.hypothesis) ∷ []

grade_edge-connects :
    (b : Bool)
    → connects
        (if b then EdgeType.supports else EdgeType.contradicts)
        NodeType.decision
        NodeType.hypothesis
      ≡ true
unfolding connects
grade_edge-connects true = refl
grade_edge-connects false = refl

module _ {F : Type 0} where
  -- A node of a known kind that is put in: its id and kind are known from then on.
  pub insert_of_kind-TypedWith :
      (ks : Kinds) (k : NodeType) (n : GraphNode F)
      → n.kind ≡ k
      → Triple (TypedWith ks) IsTyped (λ _. TypedWith ((n.id, k) ∷ ks)) (insert_node n)
  insert_of_kind-TypedWith ks k n h = rw (sym h) (insert_node-TypedWith ks n)

  -- The last steps of a call that end in a state that is known to be typed.
  pub Triple-Keeps-IsTyped :
      {A : Type 0} (ks : Kinds) (m : Action F A)
      → Keeps (TypedWith ks) m
      → Triple (TypedWith ks) IsTyped (λ _. IsTyped) m
  Triple-Keeps-IsTyped ks m k =
      Triple-consequence _ _ (λ _ d. Unit {0} × TypedWith ks d) _ (λ d h. h) (λ a d h. h.1.0)
        (Triple-Keeps (λ _. Unit {0}) m (λ d h. h.0) k (Yields-any m))

  -- The edge of a call is made and put in.
  add_edge-IsTyped :
      {A : Type 0} (ks : Kinds) (i a b : Uuid) (t : EdgeType) (k l : NodeType)
      (f : GraphEdge → Action F A)
      → connects t k l ≡ true
      → has_kind a k ks ≡ true
      → has_kind b l ks ≡ true
      → ((e : GraphEdge) → Keeps (TypedWith ks) (f e))
      → Keeps (TypedWith ks) (new_edge i a b t >>= λ e. insert_edge e >>= λ _. f e)
  add_edge-IsTyped ks i a b t k l f fits from_kind to_kind rest =
      Keeps-bind-Yields (TypedWith ks) (IsTypedEdge ks) _ _ (Keeps-new_edge _ _ _ _)
        (new_edge-IsTypedEdge F ks i a b t k l fits from_kind to_kind)
        λ e h. Keeps-bind _ _ (insert_edge-TypedWith ks e h) (λ _. rest e)

  option_known :
      (o bet : Uuid) (db d : Db F)
      → not (has_option o bet db.nodes) ≡ false
      → (db ≡ d) × IsTyped d
      → TypedWith (known_option o) d
  option_known o bet db d known (same, typed) =
      let h : has_option o bet db.nodes ≡ true = ground arith in
      (typed, (rw (sym same) (has_kind_of_has_option o bet db.nodes h), tt))

  decide-IsTyped :
      (bet o : Uuid) (c : String)
      → Triple {F = F}
          (TypedWith (known_option o))
          IsTyped
          (λ _. IsTyped)
          (new_node bet NodeType.decision c none "system" >>= λ n. insert_node n >>= λ _.
            new_edge bet o n.id EdgeType.leads_to >>= λ e. insert_edge e >>= λ _. pure n.id)
  unfolding connects
  decide-IsTyped bet o c =
      Triple-bind-Yields _ _ _ _ (λ d h. h.0) (Keeps-new_node _ _ _ _ _) (Yields-new_node _ _ _ _ _)
        λ n k.
          Triple-bind _ _ _ _ (insert_of_kind-TypedWith (known_option o) NodeType.decision n k.0)
            λ _. Triple-Keeps-IsTyped ((n.id, NodeType.decision) ∷ known_option o) _ (
              add_edge-IsTyped ((n.id, NodeType.decision) ∷ known_option o) _ _ _ _ NodeType.option
                NodeType.decision _ refl (ground arith)
                (has_kind-own n.id NodeType.decision (known_option o)) (λ e. search keeps_rules))

  pub write_decision-IsTyped :
      (bet o : Uuid) (c : String) → Keeps (IsTyped {F = F}) (write_decision bet o c)
  unfolding write_decision
  write_decision-IsTyped bet o c =
      Keeps-Triple _ (λ d h. h)
        (Triple-get_db _ _ λ db.
          Triple-raise_if _ _ _ _ (λ d h. h.1)
            λ _.
              Triple-raise_if _ _ _ _ (λ d h. h.1)
                λ known.
                  Triple-consequence (TypedWith (known_option o)) (λ _. IsTyped) (λ _. IsTyped) _
                    (λ d. option_known o bet db d known) (λ a d h. h) (decide-IsTyped bet o c))

module _ {F : Type 0} ⦃fl : Floats F⦄ where
  record_outcome-IsTyped :
      (bet h : Uuid) (a p : F) (b : Bool) (c : String)
      → Triple
          (TypedWith (known_hypothesis h))
          IsTyped
          (λ _. IsTyped)
          (record_outcome bet h a p b c)
  unfolding record_outcome
  record_outcome-IsTyped bet h a p b c =
      Triple-bind-Yields _ _ _ _ (λ d h. h.0) (search keeps_rules) (Yields-any _)
        λ db _.
          Triple-raise_if _ _ _ _ (λ d h. h.0)
            λ _.
              Triple-bind-Yields _ _ _ _ (λ d h. h.0) (Keeps-new_node _ _ _ _ _)
                (Yields-new_node _ _ _ _ _)
                λ n k.
                  Triple-bind _ _ _ _
                    (insert_of_kind-TypedWith (known_hypothesis h) NodeType.decision n k.0)
                    λ _. Triple-Keeps-IsTyped ((n.id, NodeType.decision) ∷ known_hypothesis h) _ (
                      add_edge-IsTyped ((n.id, NodeType.decision) ∷ known_hypothesis h) _ _ _ _
                        NodeType.decision NodeType.hypothesis _ (grade_edge-connects b)
                        (has_kind-own n.id NodeType.decision (known_hypothesis h)) (ground arith)
                        (λ e.
                          search
                            (
                              keeps_rules, insert_outcome-TypedWith, update_bet-TypedWith,
                              update_node-TypedWith,
                            )
                            depth 9))

  pub write_outcome-IsTyped :
      (bet h : Uuid) (a p : F) (b : Bool) (c : String)
      → Triple (TypedWith (known_hypothesis h)) IsTyped (λ _. IsTyped) (write_outcome bet h a p b c)
  unfolding write_outcome
  write_outcome-IsTyped bet h a p b c =
      Triple-bind-Yields _ _ _ _ (λ d h. h.0) (search keeps_rules) (Yields-any _)
        λ db _.
          Triple-if _ _ _ _ (Triple-pure _ _ (λ d h. h.0)) (record_outcome-IsTyped bet h a p b c)

module _ {F : Type 0} where
  pub create_bet-IsTyped :
      (i : Uuid) (doc : String) (d : Date) (pm : String)
      → Keeps {F = F} IsTyped (create_bet i doc d pm)
  unfolding create_bet
  create_bet-IsTyped i doc d pm = search (keeps_rules, insert_bet-IsTyped)
