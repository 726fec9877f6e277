-- ===== src/World/Quiet.antt =====
-- Calls that post no comment on GitHub, one rule for each way to build a call.
use wager.Prelude.{
  String, Bool, true, false, ◌≡◌, Option, none, some, List, [], ◌∷◌, if◌then◌else◌, select,
}
use wager.Models.{Uuid, NodeType, EdgeType, Source, Severity}
use wager.Errors.{Exception}
use wager.Exec.{Result, ok, err, pure, raise, gets, or_raise, raise_if, continue, ◌>>=◌, for_list}
use wager.Db.{Db}
use wager.World.Yields.{Holds, Yields, Yields-any}
use wager.World.{
  World, Action, Request, commented, send, rolled_back, with_conn, draw_now, new_flag, new_node,
  new_edge,
}

abbrev pub is_comment : Request → Bool
is_comment (commented number) = true
is_comment r = false

-- The comments among the requests.
abbrev pub comments : List Request → List Request
comments = select is_comment

-- `m` adds no comment to those sent, whether it returns or raises.
pub record Quiet {F A : Type 0} (m : Action F A) : Type 0 where
  pub at : (c : List Request) (w : World F) → comments w.sent ≡ c → comments (m w).1.sent ≡ c

module _ {F A : Type 0} where
  rolled_back-Quiet :
      (c : List Request) (db : Db F) (r : Result A) (w : World F)
      → comments w.sent ≡ c
      → comments (rolled_back db (r, w)).1.sent ≡ c
  rolled_back-Quiet c db (ok a) w h = h
  rolled_back-Quiet c db (err e) w h = h

  pub Quiet-pure : (a : A) → Quiet {F = F} (pure a)
  Quiet-pure a = record { at = λ c w h. h }

  pub Quiet-raise : (e : Exception) → Quiet {F = F} (raise {A = A} e)
  Quiet-raise e = record { at = λ c w h. h }

  pub Quiet-gets : (f : World F → A) → Quiet (gets f)
  Quiet-gets f = record { at = λ c w h. h }

  pub Quiet-or_raise : (o : Option A) (e : Exception) → Quiet {F = F} (or_raise o e)
  Quiet-or_raise none e = record { at = λ c w h. h }
  Quiet-or_raise (some a) e = record { at = λ c w h. h }

  pub Quiet-if : (b : Bool) (m n : Action F A) → Quiet m → Quiet n → Quiet (if b then m else n)
  Quiet-if true m n km kn = km
  Quiet-if false m n km kn = kn

  pub Quiet-with_conn : (m : Action F A) → Quiet m → Quiet (with_conn m)
  Quiet-with_conn m km = record {
    at = λ c w h. rolled_back-Quiet c w.db (m w).0 (m w).1 (km.at c w h);
  }

module _ {F : Type 0} where
  pub Quiet-raise_if : (b : Bool) (e : Exception) → Quiet {F = F} (raise_if b e)
  Quiet-raise_if true e = record { at = λ c w h. h }
  Quiet-raise_if false e = record { at = λ c w h. h }

  pub Quiet-send : (r : Request) → is_comment r ≡ false → Quiet {F = F} (send r)
  Quiet-send r other = record { at = λ c w h. rw other h }

  pub Quiet-draw_now : Quiet {F = F} draw_now
  Quiet-draw_now = record { at = λ c w h. h }

  pub Quiet-new_flag : (s : Source) (v : Severity) (m : String) → Quiet {F = F} (new_flag s v m)
  unfolding ◌>>=◌
  Quiet-new_flag s v m = record { at = λ c w h. h }

  pub Quiet-new_node :
      (i : Uuid) (k : NodeType) (t : String) (x : Option F) (s : String)
      → Quiet (new_node i k t x s)
  unfolding ◌>>=◌
  Quiet-new_node i k t x s = record { at = λ c w h. h }

  pub Quiet-new_edge : (i a b : Uuid) (t : EdgeType) → Quiet {F = F} (new_edge i a b t)
  unfolding ◌>>=◌
  Quiet-new_edge i a b t = record { at = λ c w h. h }

module _ {F A B : Type 0} where
  continue-Quiet :
      (R : A → Type 0) (r : Result A) (f : A → Action F B) (c : List Request) (w : World F)
      → Holds R r
      → ((a : A) → R a → Quiet (f a))
      → comments w.sent ≡ c
      → comments (continue r f w).1.sent ≡ c
  continue-Quiet R (ok a) f c w y k h = (k a y).at c w h
  continue-Quiet R (err e) f c w y k h = h

  -- The rest of a call may use what its first part returned.
  pub Quiet-bind-Yields :
      (R : A → Type 0) (m : Action F A) (f : A → Action F B)
      → Quiet m
      → Yields R m
      → ((a : A) → R a → Quiet (f a))
      → Quiet (m >>= f)
  unfolding ◌>>=◌
  Quiet-bind-Yields R m f km ym kf = record {
    at = λ c w h. continue-Quiet R (m w).0 f c (m w).1 (ym.at w) kf (km.at c w h);
  }

  pub Quiet-bind :
      (m : Action F A) (f : A → Action F B) → Quiet m → ((a : A) → Quiet (f a)) → Quiet (m >>= f)
  Quiet-bind m f km kf = Quiet-bind-Yields (λ _. Unit {0}) m f km (Yields-any m) (λ a _. kf a)

module _ {F A B : Type 0} where
  pub Quiet-for_list :
      (xs : List A) (body : A → Action F B) → ((a : A) → Quiet (body a)) → Quiet (for_list xs body)
  unfolding for_list
  Quiet-for_list [] body k = Quiet-pure []
  Quiet-for_list (x ∷ xs) body k =
      Quiet-bind (body x) _ (k x) (λ b.
        Quiet-bind (for_list xs body) _ (Quiet-for_list xs body k) (λ bs. Quiet-pure (b ∷ bs)))

pub ruleset quiet_rules = (
  Quiet-pure, Quiet-raise, Quiet-gets, Quiet-or_raise, Quiet-if, Quiet-raise_if, Quiet-draw_now,
  Quiet-new_flag, Quiet-new_node, Quiet-new_edge, Quiet-bind, Quiet-for_list, Quiet-with_conn,
)
