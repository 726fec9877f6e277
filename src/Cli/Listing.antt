-- ===== src/Cli/Listing.antt =====
-- The lines that `show-bet` of cli.py prints of a bet's graph.
use mathlib.Core.List.{Memᴰ, flatten}
use mathlib.Core.List.Memᴰ as Members
use wager.Prelude.{
  String, Bool, true, false, ◌&&◌, ◌==◌, ◌≡◌, refl, some, List, [], ◌∷◌, concat, map, select,
  Bool-cases, Option-cases, inl, inr, arith,
}
use wager.Models.{Uuid, NodeType, EdgeType, GraphNode, GraphEdge, same_type, same_edge_type}
use wager.Cli.Show.{
  node_types, by_id, target_line, derived_lines, node_lines, group_lines, graph_lines,
}

select-Memᴰ :
    {A : Type 0} {x : A} (test : A → Bool) (xs : List A)
    → Memᴰ x xs
    → test x ≡ true
    → Memᴰ x (select test xs)
select-Memᴰ test [] m h = elim m [ ]
select-Memᴰ test (y ∷ xs) (Memᴰ.head e) h = rw (rw e at h) (Memᴰ.head e)
select-Memᴰ test (y ∷ xs) (Memᴰ.tail m) h = elim (Bool-cases (test y)) [
  | inl t ↦ rw t (Memᴰ.tail (select-Memᴰ test xs m h))
  | inr f ↦ rw f (select-Memᴰ test xs m h)
]

-- What an element gives is in the lists of all.
flatten-Memᴰ :
    {A B : Type 0} {x : A} {y : B} (f : A → List B) (xs : List A)
    → Memᴰ x xs
    → Memᴰ y (f x)
    → Memᴰ y (flatten (map f xs))
unfolding flatten
flatten-Memᴰ f [] there m = elim there [ ]
flatten-Memᴰ f (z ∷ xs) (Memᴰ.head e) m = Members.append_left _ (rw e at m)
flatten-Memᴰ f (z ∷ xs) (Memᴰ.tail there) m = Members.append_right (f z) (flatten-Memᴰ f xs there m)

-- Every type is listed.
node_types-Memᴰ : (kind : NodeType) → Memᴰ kind node_types
node_types-Memᴰ NodeType.fact = Memᴰ.head refl
node_types-Memᴰ NodeType.assumption = Memᴰ.tail (Memᴰ.head refl)
node_types-Memᴰ NodeType.hypothesis = Memᴰ.tail (Memᴰ.tail (Memᴰ.head refl))
node_types-Memᴰ NodeType.option = Memᴰ.tail (Memᴰ.tail (Memᴰ.tail (Memᴰ.head refl)))
node_types-Memᴰ NodeType.decision = Memᴰ.tail (Memᴰ.tail (Memᴰ.tail (Memᴰ.tail (Memᴰ.head refl))))

same_type_refl : (kind : NodeType) → same_type kind kind ≡ true
same_type_refl kind = ground arith

module _ {F : Type 0} where
  -- The line of a node, and that of a node from which another was derived.
  abbrev pub line_of : GraphNode F → String
  line_of n = concat ("  - \"" ∷ n.content ∷ "\" [" ∷ n.source ∷ "]" ∷ [])

  abbrev pub derived_line_of : GraphNode F → String
  derived_line_of t = concat ("      ↳ derived_from: \"" ∷ t.content ∷ "\" [" ∷ t.source ∷ "]" ∷ [])

  -- Each node has its line. An edge derived_from, from a node that is no fact to a node of the graph, has the
  -- line of a node with the id that it leads to.
  abbrev pub IsListing : List (GraphNode F) → List GraphEdge → List String → Type 0
  IsListing ns es lines =
      ((n : GraphNode F) → Memᴰ n ns → Memᴰ (line_of n) lines)
      × ((e : GraphEdge) (n t : GraphNode F)
          → Memᴰ e es
          → Memᴰ n ns
          → Memᴰ t ns
          → e.edge_type ≡ EdgeType.derived_from
          → e.from_node ≡ n.id
          → e.to_node ≡ t.id
          → same_type n.kind NodeType.fact ≡ false
          → (target : GraphNode F) × Memᴰ target ns
            × (target.id ≡ e.to_node)
            × Memᴰ (derived_line_of target) lines)

  by_id_sound :
      (i : Uuid) (ns : List (GraphNode F)) (m : GraphNode F)
      → by_id i ns ≡ some m
      → Memᴰ m ns × (m.id ≡ i)
  unfolding by_id
  by_id_sound i [] m h = absurd (cc)
  by_id_sound i (n ∷ ns) m h = elim (Option-cases (by_id i ns)) [
    | inr (k, found) ↦
        let (listed, same) = by_id_sound i ns k found in
        let last = rw found at h in let e : m ≡ k = cc in rw e (Memᴰ.tail listed, same)
    | inl missing ↦
        let last = rw missing at h in
        elim (Bool-cases (n.id == i)) [
          | inl this ↦
              let taken = rw this at last in
              let e : m ≡ n = cc in rw e (Memᴰ.head refl, ground arith)
          | inr other ↦ let none_left = rw other at last in absurd (cc)
        ]
  ]

  by_id_finds :
      (i : Uuid) (ns : List (GraphNode F)) {t : GraphNode F}
      → Memᴰ t ns
      → i ≡ t.id
      → (m : GraphNode F) × (by_id i ns ≡ some m)
  unfolding by_id
  by_id_finds i [] there e = elim there [ ]
  by_id_finds i (n ∷ ns) (Memᴰ.tail there) e =
      let (m, found) = by_id_finds i ns there e in (m, rw found refl)
  by_id_finds i (n ∷ ns) (Memᴰ.head same) e = elim (Option-cases (by_id i ns)) [
    | inr (k, found) ↦ (k, rw found refl)
    | inl missing ↦
        let this : (n.id == i) ≡ true = ground (arith, e, same) in (n, rw missing (rw this refl))
  ]

  group-Memᴰ :
      (kind : NodeType) (ns : List (GraphNode F)) (es : List GraphEdge) (group : List (GraphNode F))
      {n : GraphNode F} {line : String}
      → Memᴰ n group
      → Memᴰ line (node_lines kind ns es n)
      → Memᴰ line (group_lines kind ns es group)
  group-Memᴰ kind ns es [] there m = elim there [ ]
  group-Memᴰ kind ns es (g ∷ group) there m =
      Memᴰ.tail (Memᴰ.tail (flatten-Memᴰ (node_lines kind ns es) (g ∷ group) there m))

  graph-Memᴰ :
      (ns : List (GraphNode F)) (es : List GraphEdge) (n : GraphNode F) {line : String}
      → Memᴰ n ns
      → Memᴰ line (node_lines n.kind ns es n)
      → Memᴰ line (graph_lines ns es)
  unfolding graph_lines
  graph-Memᴰ ns es n there m =
      flatten-Memᴰ (λ kind. group_lines kind ns es (select (λ k. same_type k.kind kind) ns))
        node_types (node_types-Memᴰ n.kind)
        (group-Memᴰ n.kind ns es _
          (select-Memᴰ (λ k. same_type k.kind n.kind) ns there (same_type_refl n.kind)) m)

  derived-Memᴰ :
      (ns : List (GraphNode F)) (es : List GraphEdge) (n target : GraphNode F) (e : GraphEdge)
      → Memᴰ e es
      → e.edge_type ≡ EdgeType.derived_from
      → e.from_node ≡ n.id
      → by_id e.to_node ns ≡ some target
      → Memᴰ (derived_line_of target) (derived_lines ns es n)
  unfolding derived_lines
  derived-Memᴰ ns es n target e there kind from found =
      flatten-Memᴰ (λ k. target_line (by_id k.to_node ns))
        (select (λ k. k.from_node == n.id && same_edge_type k.edge_type EdgeType.derived_from) es)
        (select-Memᴰ (λ k. k.from_node == n.id && same_edge_type k.edge_type EdgeType.derived_from)
          es there (rw kind (ground arith)))
        (rw found (Memᴰ.head refl))

  pub graph_lines-IsListing :
      (ns : List (GraphNode F)) (es : List GraphEdge) → IsListing ns es (graph_lines ns es)
  graph_lines-IsListing ns es = (
    (λ n there. graph-Memᴰ ns es n there (Memᴰ.head refl)),
    (λ e n t edge there known kind from to no_fact.
        let (target, found) = by_id_finds e.to_node ns known to in
        let (listed, same) = by_id_sound e.to_node ns target found in
        (
          target,
          listed,
          same,
          graph-Memᴰ ns es n there
              (Memᴰ.tail (rw no_fact (derived-Memᴰ ns es n target e edge kind from found))),
        )),
  )
