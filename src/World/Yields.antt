-- ===== src/World/Yields.antt =====
-- What a call returns where it returns, one rule for each way to build a call.
use wager.Prelude.{String, ◌≡◌, refl, Option, List, [], ◌∷◌, ◌++◌, All}
use mathlib.Core.List.{flatten}
use wager.Models.{Uuid, NodeType, EdgeType, GraphNode, GraphEdge}
use wager.Exec.{Result, ok, err, pure, continue, ◌>>=◌, for_list}
use wager.Db.{Db}
use wager.World.{World, Action, new_node, new_edge}
use wager.World.Keeps.{Keeps}

module _ {A : Type 0} where
  abbrev pub Holds : (A → Type 0) → Result A → Type 0
  Holds R (ok a) = R a
  Holds R (err e) = Unit

-- Every value that `m` returns satisfies `R`.
pub record Yields {F A : Type 0} (R : A → Type 0) (m : Action F A) : Type 0 where
  pub at : (w : World F) → Holds R (m w).0

module _ {F A : Type 0} where
  pub Yields-pure : (R : A → Type 0) (a : A) → R a → Yields {F = F} R (pure a)
  Yields-pure R a r = record { at = λ w. r }

  pub Yields-any : (m : Action F A) → Yields (λ _. Unit {0}) m
  Yields-any m = record { at = λ w. holds (m w).0 }
    where
      holds : (r : Result A) → Holds (λ _. Unit {0}) r
      holds (ok a) = tt
      holds (err e) = tt

module _ {F A B : Type 0} where
  continue-Yields :
      (S : B → Type 0) (R : A → Type 0) (r : Result A) (f : A → Action F B) (w : World F)
      → Holds R r
      → ((a : A) → R a → Yields S (f a))
      → Holds S (continue r f w).0
  continue-Yields S R (ok a) f w h k = (k a h).at w
  continue-Yields S R (err e) f w h k = tt

  pub Yields-bind :
      (R : A → Type 0) (S : B → Type 0) (m : Action F A) (f : A → Action F B)
      → Yields R m
      → ((a : A) → R a → Yields S (f a))
      → Yields S (m >>= f)
  unfolding ◌>>=◌
  Yields-bind R S m f y k = record { at = λ w. continue-Yields S R (m w).0 f (m w).1 (y.at w) k }

  -- A bind whose rest does not depend on what the first call returns.
  pub Yields-then :
      (S : B → Type 0) (m : Action F A) (f : A → Action F B)
      → ((a : A) → Yields S (f a))
      → Yields S (m >>= f)
  Yields-then S m f k = Yields-bind (λ _. Unit {0}) S m f (Yields-any m) (λ a _. k a)

  continue_keeps_yields :
      (Q : Db F → Type 0) (R : A → Type 0) (r : Result A) (f : A → Action F B) (w : World F)
      → Holds R r
      → ((a : A) → R a → Keeps Q (f a))
      → Q w.db
      → Q (continue r f w).1.db
  continue_keeps_yields Q R (ok a) f w h k q = (k a h).at w q
  continue_keeps_yields Q R (err e) f w h k q = q

  -- The rest of a call may use what its first part returned.
  pub Keeps-bind-Yields :
      (Q : Db F → Type 0) (R : A → Type 0) (m : Action F A) (f : A → Action F B)
      → Keeps Q m
      → Yields R m
      → ((a : A) → R a → Keeps Q (f a))
      → Keeps Q (m >>= f)
  unfolding ◌>>=◌
  Keeps-bind-Yields Q R m f km ym kf = record {
    at = λ w h. continue_keeps_yields Q R (m w).0 f (m w).1 (ym.at w) kf (km.at w h);
  }

module _ {F A B : Type 0} where
  pub Yields-for_list :
      (S : B → Type 0) (xs : List A) (body : A → Action F B)
      → ((a : A) → Yields S (body a))
      → Yields (All S) (for_list xs body)
  unfolding for_list
  Yields-for_list S [] body k = Yields-pure (All S) [] tt
  Yields-for_list S (x ∷ xs) body k = Yields-bind S (All S) (body x) _ (k x) (λ b sb.
      Yields-bind (All S) (All S) (for_list xs body) _ (Yields-for_list S xs body k)
        (λ bs sbs. Yields-pure (All S) (b ∷ bs) (sb, sbs)))

  -- A loop whose elements all satisfy `P`.
  pub Yields-for_list-All :
      (P : A → Type 0) (S : B → Type 0) (xs : List A) (body : A → Action F B)
      → ((a : A) → P a → Yields S (body a))
      → All P xs
      → Yields (All S) (for_list xs body)
  unfolding for_list
  Yields-for_list-All P S [] body k h = Yields-pure (All S) [] tt
  Yields-for_list-All P S (x ∷ xs) body k h = Yields-bind S (All S) (body x) _ (k x h.0) (λ b sb.
      Yields-bind (All S) (All S) (for_list xs body) _ (Yields-for_list-All P S xs body k h.1)
        (λ bs sbs. Yields-pure (All S) (b ∷ bs) (sb, sbs)))

module _ {F : Type 0} where
  pub Yields-new_node :
      (i : Uuid) (k : NodeType) (c : String) (x : Option F) (s : String)
      → Yields (λ (n : GraphNode F). (n.kind ≡ k) × (n.bet_id ≡ i)) (new_node i k c x s)
  unfolding ◌>>=◌
  Yields-new_node i k c x s = record { at = λ w. (refl, refl) }

  pub Yields-new_edge :
      (i a b : Uuid) (t : EdgeType)
      → Yields {F = F} (λ (e : GraphEdge). (e.edge_type ≡ t) × (e.bet_id ≡ i)) (new_edge i a b t)
  unfolding ◌>>=◌
  Yields-new_edge i a b t = record { at = λ w. (refl, refl) }

module _ {A : Type 0} (P : A → Type 0) where
  pub All-append : (xs ys : List A) → All P xs → All P ys → All P (xs ++ ys)
  All-append [] ys h k = k
  All-append (x ∷ xs) ys h k = (h.0, All-append xs ys h.1 k)

  pub All-flatten : (xss : List (List A)) → All (All P) xss → All P (flatten xss)
  unfolding flatten
  All-flatten [] h = tt
  All-flatten (xs ∷ xss) h = All-append xs (flatten xss) h.0 (All-flatten xss h.1)
