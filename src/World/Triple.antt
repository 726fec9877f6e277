-- ===== src/World/Triple.antt =====
-- What a call makes of the database: from a precondition, by whether it returns or raises.
use wager.Prelude.{Bool, true, false, ◌≡◌, refl, if◌then◌else◌}
use wager.Errors.{Exception}
use wager.Exec.{raise, Result, ok, err, None, pure, raise_if, gets, continue, ◌>>=◌}
use wager.Db.{Db}
use wager.World.{World, Action, rolled_back, with_conn}
use wager.World.Keeps.{Keeps}
use wager.World.Yields.{Holds, Yields}

module _ {F A : Type 0} where
  -- `R` of what was returned and of the database, or `Q` of the database after a raise.
  abbrev pub Ends : (Db F → Type 0) → (A → Db F → Type 0) → Result A → Db F → Type 0
  Ends Q R (ok a) d = R a d
  Ends Q R (err e) d = Q d

-- From `P`, a return establishes `R` and a raise leaves `Q`.
pub record Triple {F A : Type 0} (P Q : Db F → Type 0) (R : A → Db F → Type 0) (m : Action F A)
    : Type 0 where
  pub at : (w : World F) → P w.db → Ends Q R (m w).0 (m w).1.db

module _ {F A : Type 0} {P Q : Db F → Type 0} where
  pub Triple-pure :
      (R : A → Db F → Type 0) (a : A) → ((d : Db F) → P d → R a d) → Triple P Q R (pure a)
  Triple-pure R a h = record { at = λ w p. h w.db p }

  pub Triple-raise :
      (R : A → Db F → Type 0) (e : Exception) → ((d : Db F) → P d → Q d) → Triple P Q R (raise e)
  Triple-raise R e weaker = record { at = λ w p. weaker w.db p }

  pub Triple-if :
      (R : A → Db F → Type 0) (b : Bool) (m n : Action F A)
      → Triple P Q R m
      → Triple P Q R n
      → Triple P Q R (if b then m else n)
  Triple-if R true m n t u = t
  Triple-if R false m n t u = u

  pub Triple-with_conn :
      (R : A → Db F → Type 0) (m : Action F A)
      → ((d : Db F) → P d → Q d)
      → Triple P Q R m
      → Triple P Q R (with_conn m)
  Triple-with_conn R m weaker t = record {
    at = λ w p. ends w.db (m w).0 (m w).1 (weaker w.db p) (t.at w p);
  }
    where
      ends :
          (db : Db F) (r : Result A) (w : World F)
          → Q db
          → Ends Q R r w.db
          → Ends Q R (rolled_back db (r, w)).0 (rolled_back db (r, w)).1.db
      ends db (ok a) w q h = h
      ends db (err e) w q h = q

  -- What the precondition says beside the database.
  pub Triple-given :
      (G : Type 0) (R : A → Db F → Type 0) (m : Action F A)
      → (G → Triple P Q R m)
      → Triple (λ d. G × P d) Q R m
  Triple-given G R m t = record { at = λ w h. (t h.0).at w h.1 }

  -- A call that keeps the precondition, with what it returns.
  pub Triple-Keeps :
      (R : A → Type 0) (m : Action F A)
      → ((d : Db F) → P d → Q d)
      → Keeps P m
      → Yields R m
      → Triple P Q (λ a d. R a × P d) m
  Triple-Keeps R m weaker k y = record { at = λ w p. ends (m w).0 (m w).1.db (y.at w) (k.at w p) }
    where
      ends : (r : Result A) (d : Db F) → Holds R r → P d → Ends Q (λ a d'. R a × P d') r d
      ends (ok a) d h p = (h, p)
      ends (err e) d h p = weaker d p

  -- A call whose triple ends in one predicate keeps it.
  pub Keeps-Triple : (m : Action F A) → ((d : Db F) → Q d → P d) → Triple P Q (λ _. Q) m → Keeps Q m
  Keeps-Triple m stronger t = record {
    at = λ w q. ends (m w).0 (m w).1.db (t.at w (stronger w.db q));
  }
    where
      ends : (r : Result A) (d : Db F) → Ends Q (λ _. Q) r d → Q d
      ends (ok a) d h = h
      ends (err e) d h = h

  pub Triple-consequence :
      (P' : Db F → Type 0) (R R' : A → Db F → Type 0) (m : Action F A)
      → ((d : Db F) → P d → P' d)
      → ((a : A) (d : Db F) → R' a d → R a d)
      → Triple P' Q R' m
      → Triple P Q R m
  Triple-consequence P' R R' m before after t = record {
    at = λ w p. ends (m w).0 (m w).1.db (t.at w (before w.db p));
  }
    where
      ends : (r : Result A) (d : Db F) → Ends Q R' r d → Ends Q R r d
      ends (ok a) d h = after a d h
      ends (err e) d h = h

module _ {F A : Type 0} {Q : Db F → Type 0} where
  pub Triple-same : (m : Action F A) → Keeps Q m → Triple Q Q (λ _. Q) m
  Triple-same m k = record { at = λ w q. ends (m w).0 (m w).1.db (k.at w q) }
    where
      ends : (r : Result A) (d : Db F) → Q d → Ends Q (λ _. Q) r d
      ends (ok a) d h = h
      ends (err e) d h = h

module _ {F A B : Type 0} {P Q : Db F → Type 0} where
  pub Triple-bind :
      (R : A → Db F → Type 0) (S : B → Db F → Type 0) (m : Action F A) (f : A → Action F B)
      → Triple P Q R m
      → ((a : A) → Triple (R a) Q S (f a))
      → Triple P Q S (m >>= f)
  unfolding ◌>>=◌
  Triple-bind R S m f t k = record { at = λ w p. ends (m w).0 (m w).1 (t.at w p) }
    where
      ends :
          (r : Result A) (w : World F)
          → Ends Q R r w.db
          → Ends Q S (continue r f w).0 (continue r f w).1.db
      ends (ok a) w h = (k a).at w h
      ends (err e) w h = h

  -- A first part that keeps the precondition, and what it returns.
  pub Triple-bind-Yields :
      (R : A → Type 0) (S : B → Db F → Type 0) (m : Action F A) (f : A → Action F B)
      → ((d : Db F) → P d → Q d)
      → Keeps P m
      → Yields R m
      → ((a : A) → R a → Triple P Q S (f a))
      → Triple P Q S (m >>= f)
  unfolding ◌>>=◌
  Triple-bind-Yields R S m f weaker k y rest = record {
    at = λ w p. ends (m w).0 (m w).1 (y.at w) (k.at w p);
  }
    where
      ends :
          (r : Result A) (w : World F)
          → Holds R r
          → P w.db
          → Ends Q S (continue r f w).0 (continue r f w).1.db
      ends (ok a) w h p = (rest a h).at w p
      ends (err e) w h p = weaker w.db p

module _ {F B : Type 0} {P Q : Db F → Type 0} where
  -- What follows a test that has let it through.
  pub Triple-raise_if :
      (S : B → Db F → Type 0) (b : Bool) (e : Exception) (f : None → Action F B)
      → ((d : Db F) → P d → Q d)
      → (b ≡ false → Triple P Q S (f tt))
      → Triple P Q S (raise_if b e >>= f)
  unfolding ◌>>=◌
  Triple-raise_if S true e f weaker rest = record { at = λ w p. weaker w.db p }
  Triple-raise_if S false e f weaker rest = record { at = λ w p. (rest refl).at w p }

  pub Triple-get_db :
      (S : B → Db F → Type 0) (f : Db F → Action F B)
      → ((db : Db F) → Triple (λ d. (db ≡ d) × P d) Q S (f db))
      → Triple P Q S (gets (λ w. w.db) >>= f)
  unfolding ◌>>=◌
  Triple-get_db S f rest = record { at = λ w p. (rest w.db).at w (refl, p) }
