-- ===== src/Store/Typed.antt =====
-- The kinds of the nodes that an edge joins: the comments on `EdgeType` in models.py.
pub mod Statements
pub mod Writes
pub mod Inserts
use wager.Prelude.{
  ℕ, Bool, true, false, ◌&&◌, ◌==◌, ◌≡◌, refl, List, [], ◌∷◌, ◌++◌, All, any, map, Bool-cases, ◌⊎◌,
  inl, inr, arith, sym,
}
use wager.Models.{Uuid, NodeType, EdgeType, GraphNode, GraphEdge, BetRow, same_type}
use wager.Exec.{None, ◌>>=◌}
use wager.Db.{Db, Outcome, has_bet, has_node, has_edge, has_outcome, update_nodes}
use wager.World.Keeps.{Keeps}
use wager.World.Triple.{Triple}
use wager.Sql.{insert_node, insert_edge, insert_outcome, update_bet, update_node}

-- ASSUMPTION, HYPOTHESIS or OPTION to FACT; the outcome's DECISION to HYPOTHESIS; the chosen OPTION to
-- DECISION; HYPOTHESIS to ASSUMPTION.
unfoldable pub connects : EdgeType → NodeType → NodeType → Bool
connects EdgeType.derived_from NodeType.assumption NodeType.fact = true
connects EdgeType.derived_from NodeType.hypothesis NodeType.fact = true
connects EdgeType.derived_from NodeType.option NodeType.fact = true
connects EdgeType.supports NodeType.decision NodeType.hypothesis = true
connects EdgeType.contradicts NodeType.decision NodeType.hypothesis = true
connects EdgeType.leads_to NodeType.option NodeType.decision = true
connects EdgeType.depends_on NodeType.hypothesis NodeType.assumption = true
connects _ _ _ = false

-- Ids with their kinds.
abbrev pub Kinds : Type 0
Kinds = List (Uuid × NodeType)

abbrev pub kinds : {F : Type 0} → List (GraphNode F) → Kinds
kinds = map (λ n. (n.id, n.kind))

abbrev pub has_kind : Uuid → NodeType → Kinds → Bool
has_kind i k = any (λ p. i == p.0 && same_type p.1 k)

-- The ends of the edge are of kinds that its type connects.
abbrev pub IsTypedEdge : Kinds → GraphEdge → Type 0
IsTypedEdge ks e =
    (a : NodeType) × (b : NodeType) × (connects e.edge_type a b ≡ true)
    × (has_kind e.from_node a ks ≡ true)
    × (has_kind e.to_node b ks ≡ true)

module _ {F : Type 0} where
  abbrev pub IsTyped : Db F → Type 0
  IsTyped d = All (IsTypedEdge (kinds d.nodes)) d.edges

  -- The table of nodes has these ids with these kinds.
  abbrev pub Knows : Kinds → Db F → Type 0
  Knows ks d = All (λ p. has_kind p.0 p.1 (kinds d.nodes) ≡ true) ks

  abbrev pub TypedWith : Kinds → Db F → Type 0
  TypedWith ks d = IsTyped d × Knows ks d

pub has_kind-same_type :
    (i : Uuid) (a k : NodeType) (ks : Kinds)
    → has_kind i a ks ≡ true
    → same_type a k ≡ true
    → has_kind i k ks ≡ true
has_kind-same_type i a k [] h s = cc
has_kind-same_type i a k (p ∷ ks) h s = ground (arith, has_kind-same_type i a k ks)

-- More is known of the table than of the list.
pub has_kind-Knows :
    {F : Type 0} (i : Uuid) (k : NodeType) (ks : Kinds) (d : Db F)
    → Knows ks d
    → has_kind i k ks ≡ true
    → has_kind i k (kinds d.nodes) ≡ true
has_kind-Knows i k [] d known h = cc
has_kind-Knows i k (p ∷ ks) d known h =
    ground
      (arith, has_kind-same_type p.0 p.1 k (kinds d.nodes) known.0, has_kind-Knows i k ks d known.1)

pub has_kind-left :
    (i : Uuid) (k : NodeType) (ks ls : Kinds)
    → has_kind i k ks ≡ true
    → has_kind i k (ks ++ ls) ≡ true
has_kind-left i k [] ls h = cc
has_kind-left i k (p ∷ ks) ls h = ground (arith, has_kind-left i k ks ls)

pub has_kind-right :
    (i : Uuid) (k : NodeType) (ks ls : Kinds)
    → has_kind i k ls ≡ true
    → has_kind i k (ks ++ ls) ≡ true
has_kind-right i k [] ls h = h
has_kind-right i k (p ∷ ks) ls h = ground (arith, has_kind-right i k ks ls h)

module _ {A : Type 0} {P R : A → Type 0} (f : (a : A) → P a → R a) where
  pub All-implies : (xs : List A) → All P xs → All R xs
  All-implies [] h = tt
  All-implies (x ∷ xs) h = (f x h.0, All-implies xs h.1)

-- A new id does not take a kind from another.
pub IsTypedEdge-more :
    (p : Uuid × NodeType) (ks : Kinds) (e : GraphEdge) → IsTypedEdge ks e → IsTypedEdge (p ∷ ks) e
IsTypedEdge-more p ks e (a, b, fits, from_kind, to_kind) = (
  a,
  b,
  fits,
  has_kind-right e.from_node a (p ∷ []) ks from_kind,
  has_kind-right e.to_node b (p ∷ []) ks to_kind,
)

-- What a list knows of an edge the table knows.
pub IsTypedEdge-Knows :
    {F : Type 0} (ks : Kinds) (d : Db F) (e : GraphEdge)
    → Knows ks d
    → IsTypedEdge ks e
    → IsTypedEdge (kinds d.nodes) e
IsTypedEdge-Knows ks d e known (a, b, fits, from_kind, to_kind) = (
  a,
  b,
  fits,
  has_kind-Knows e.from_node a ks d known from_kind,
  has_kind-Knows e.to_node b ks d known to_kind,
)

pub has_kind-own : (i : Uuid) (k : NodeType) (ks : Kinds) → has_kind i k ((i, k) ∷ ks) ≡ true
has_kind-own i k ks = ground arith
