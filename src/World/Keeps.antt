-- ===== src/World/Keeps.antt =====
-- Invariants of the database, one rule for each way to build a call.
use wager.Prelude.{String, Bool, true, false, Option, none, some, List, [], ◌∷◌, All, if◌then◌else◌}
use wager.Models.{Uuid, NodeType, EdgeType, Source, Severity}
use wager.Errors.{Exception}
use wager.Exec.{
  Result, ok, err, None, pure, raise, gets, or_raise, raise_if, continue, ◌>>=◌, for_each, for_list,
}
use wager.Db.{Db}
use wager.World.{
  World, Action, Request, send, rolled_back, with_conn, draw_uuid, draw_now, new_flag, new_node,
  new_edge,
}

-- `m` keeps `Q` of the database, whether it returns or raises.
pub record Keeps {F A : Type 0} (Q : Db F → Type 0) (m : Action F A) : Type 0 where
  pub at : (w : World F) → Q w.db → Q (m w).1.db

module _ {F A : Type 0} where
  rolled_back_keeps :
      (Q : Db F → Type 0) (db : Db F) (r : Result A) (w : World F)
      → Q db
      → Q w.db
      → Q (rolled_back db (r, w)).1.db
  rolled_back_keeps Q db (ok a) w h k = k
  rolled_back_keeps Q db (err e) w h k = h

module _ {F A : Type 0} {Q : Db F → Type 0} where
  pub Keeps-pure : (a : A) → Keeps Q (pure a)
  Keeps-pure a = record { at = λ s h. h }

  pub Keeps-raise : (e : Exception) → Keeps Q (raise {A = A} e)
  Keeps-raise e = record { at = λ s h. h }

  pub Keeps-gets : (f : World F → A) → Keeps Q (gets f)
  Keeps-gets f = record { at = λ s h. h }

  pub Keeps-or_raise : (o : Option A) (e : Exception) → Keeps Q (or_raise o e)
  Keeps-or_raise none e = record { at = λ s h. h }
  Keeps-or_raise (some a) e = record { at = λ s h. h }

  pub Keeps-if :
      (b : Bool) (m n : Action F A) → Keeps Q m → Keeps Q n → Keeps Q (if b then m else n)
  Keeps-if true m n km kn = km
  Keeps-if false m n km kn = kn

  pub Keeps-with_conn : (m : Action F A) → Keeps Q m → Keeps Q (with_conn m)
  Keeps-with_conn m km = record {
    at = λ w h. rolled_back_keeps Q w.db (m w).0 (m w).1 h (km.at w h);
  }

module _ {F : Type 0} {Q : Db F → Type 0} where
  pub Keeps-raise_if : (b : Bool) (e : Exception) → Keeps Q (raise_if b e)
  Keeps-raise_if true e = record { at = λ s h. h }
  Keeps-raise_if false e = record { at = λ s h. h }

  pub Keeps-draw_uuid : Keeps Q draw_uuid
  Keeps-draw_uuid = record { at = λ s h. h }

  pub Keeps-send : (r : Request) → Keeps Q (send r)
  Keeps-send r = record { at = λ s h. h }

  pub Keeps-draw_now : Keeps Q draw_now
  Keeps-draw_now = record { at = λ s h. h }

  pub Keeps-new_flag : (s : Source) (v : Severity) (m : String) → Keeps Q (new_flag s v m)
  unfolding ◌>>=◌
  Keeps-new_flag s v m = record { at = λ w h. h }

  pub Keeps-new_node :
      (i : Uuid) (k : NodeType) (c : String) (x : Option F) (s : String)
      → Keeps Q (new_node i k c x s)
  unfolding ◌>>=◌
  Keeps-new_node i k c x s = record { at = λ w h. h }

  pub Keeps-new_edge : (i a b : Uuid) (t : EdgeType) → Keeps Q (new_edge i a b t)
  unfolding ◌>>=◌
  Keeps-new_edge i a b t = record { at = λ w h. h }

module _ {F A B : Type 0} {Q : Db F → Type 0} where
  pub continue_keeps :
      (r : Result A) (f : A → Action F B) (w : World F)
      → ((a : A) → Keeps Q (f a))
      → Q w.db
      → Q (continue r f w).1.db
  continue_keeps (ok a) f w kf h = (kf a).at w h
  continue_keeps (err e) f w kf h = h

  pub Keeps-bind :
      (m : Action F A) (f : A → Action F B)
      → Keeps Q m
      → ((a : A) → Keeps Q (f a))
      → Keeps Q (m >>= f)
  unfolding ◌>>=◌
  Keeps-bind m f km kf = record { at = λ w h. continue_keeps (m w).0 f (m w).1 kf (km.at w h) }

module _ {F A : Type 0} {Q : Db F → Type 0} where
  pub Keeps-for_each :
      (xs : List A) (body : A → Action F None)
      → ((a : A) → Keeps Q (body a))
      → Keeps Q (for_each xs body)
  unfolding for_each
  Keeps-for_each [] body k = Keeps-pure tt
  Keeps-for_each (x ∷ xs) body k =
      Keeps-bind (body x) (λ _. for_each xs body) (k x) (λ _. Keeps-for_each xs body k)

  pub Keeps-for_list :
      {B : Type 0} (xs : List A) (body : A → Action F B)
      → ((a : A) → Keeps Q (body a))
      → Keeps Q (for_list xs body)
  unfolding for_list
  Keeps-for_list [] body k = Keeps-pure []
  Keeps-for_list (x ∷ xs) body k =
      Keeps-bind (body x) _ (k x) (λ b.
        Keeps-bind (for_list xs body) _ (Keeps-for_list xs body k) (λ bs. Keeps-pure (b ∷ bs)))

  -- A loop whose elements all satisfy `P`.
  pub Keeps-for_each-All :
      (P : A → Type 0) (xs : List A) (body : A → Action F None)
      → ((a : A) → P a → Keeps Q (body a))
      → All P xs
      → Keeps Q (for_each xs body)
  unfolding for_each
  Keeps-for_each-All P [] body k h = Keeps-pure tt
  Keeps-for_each-All P (x ∷ xs) body k h =
      Keeps-bind (body x) (λ _. for_each xs body) (k x h.0)
        (λ _. Keeps-for_each-All P xs body k h.1)

pub ruleset keeps_rules = (
  Keeps-pure, Keeps-raise, Keeps-gets, Keeps-or_raise, Keeps-if, Keeps-raise_if, Keeps-draw_uuid,
  Keeps-send, Keeps-draw_now, Keeps-new_flag, Keeps-new_node, Keeps-new_edge, Keeps-bind,
  Keeps-for_each, Keeps-for_list, Keeps-with_conn,
)
