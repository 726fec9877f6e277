-- ===== src/Exec.antt =====
-- Calls that read and write a state and may raise. What was written before a raise stays written
-- until a transaction is rolled back, so the state comes back beside the exception too.
use wager.Prelude.{Bool, true, false, Option, none, some, List, [], ◌∷◌}
use wager.Errors.{Exception}

pub data Result (A : Type 0) : Type 0 where
  ok : A → Result A
  err : Exception → Result A

abbrev pub Exec : Type 0 → Type 0 → Type 0
Exec S A = S → Result A × S

abbrev pub None : Type 0
None = Unit

module _ {S A : Type 0} where
  abbrev pub pure : A → Exec S A
  pure a s = (ok a, s)

  abbrev pub raise : Exception → Exec S A
  raise e s = (err e, s)

  abbrev pub gets : (S → A) → Exec S A
  gets f s = (ok (f s), s)

  abbrev pub or_raise : Option A → Exception → Exec S A
  or_raise none e = raise e
  or_raise (some a) e = pure a

abbrev pub modify : {S : Type 0} → (S → S) → Exec S None
modify f s = (ok tt, f s)

module _ {S A B : Type 0} where
  abbrev pub continue : Result A → (A → Exec S B) → Exec S B
  continue (ok a) f s = f a s
  continue (err e) f s = (err e, s)

  infixl 5 ◌>>=◌ ◌>>◌
  unfoldable pub ◌>>=◌ : Exec S A → (A → Exec S B) → Exec S B
  ◌>>=◌ m f s = continue (m s).0 f (m s).1

  abbrev pub ◌>>◌ : Exec S A → Exec S B → Exec S B
  m >> k = m >>= λ _. k

module _ {S : Type 0} where
  -- `if test: raise e`.
  abbrev pub raise_if : Bool → Exception → Exec S None
  raise_if true e = raise e
  raise_if false e = pure tt

  -- `for a in as: body(a)`.
  unfoldable pub for_each : {A : Type 0} → List A → (A → Exec S None) → Exec S None
  for_each [] body = pure tt
  for_each (a ∷ as') body = body a >> for_each as' body

  -- `[body(a) for a in as]`.
  unfoldable pub for_list : {A B : Type 0} → List A → (A → Exec S B) → Exec S (List B)
  for_list [] body = pure []
  for_list (a ∷ as') body = do b ← body a; bs ← for_list as' body; pure (b ∷ bs)
