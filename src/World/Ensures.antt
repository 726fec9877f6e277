-- ===== src/World/Ensures.antt =====
-- What holds of the database after a call that returns.
use wager.Exec.{Result, ok, err, continue, ◌>>=◌}
use wager.Db.{Db}
use wager.World.{World, Action}
use wager.World.Keeps.{Keeps}

abbrev pub IsOk : {A : Type 0} → Result A → Type 0
IsOk (ok a) = Unit
IsOk (err e) = ⊥

-- The database satisfies `Q` where `m` has returned.
pub record Ensures {F A : Type 0} (Q : Db F → Type 0) (m : Action F A) : Type 0 where
  pub at : (w : World F) → IsOk (m w).0 → Q (m w).1.db

module _ {F A B : Type 0} {Q : Db F → Type 0} where
  continue_ensures :
      (r : Result A) (f : A → Action F B) (w : World F)
      → ((a : A) → Ensures Q (f a))
      → IsOk (continue r f w).0
      → Q (continue r f w).1.db
  continue_ensures (ok a) f w k h = (k a).at w h
  continue_ensures (err e) f w k h = absurd h

  -- The last part of a call ensures it.
  pub Ensures-last :
      (m : Action F A) (f : A → Action F B) → ((a : A) → Ensures Q (f a)) → Ensures Q (m >>= f)
  unfolding ◌>>=◌
  Ensures-last m f k = record { at = λ w h. continue_ensures (m w).0 f (m w).1 k h }

  continue_after :
      (r : Result A) (f : A → Action F B) (w : World F)
      → (IsOk r → Q w.db)
      → ((a : A) → Keeps Q (f a))
      → IsOk (continue r f w).0
      → Q (continue r f w).1.db
  continue_after (ok a) f w q k h = (k a).at w (q tt)
  continue_after (err e) f w q k h = absurd h

  -- The first part of a call ensures it, and the rest keeps it.
  pub Ensures-first :
      (m : Action F A) (f : A → Action F B)
      → Ensures Q m
      → ((a : A) → Keeps Q (f a))
      → Ensures Q (m >>= f)
  unfolding ◌>>=◌
  Ensures-first m f e k = record { at = λ w h. continue_after (m w).0 f (m w).1 (e.at w) k h }
