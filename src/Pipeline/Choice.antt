-- ===== src/Pipeline/Choice.antt =====
-- The choice of the PM in `confirm_decision` and its record in `write_decision`.
use wager.Prelude.{
  ℕ, suc, ◌+◌, ◌≤◌, ◌<◌, ◌≡◌, refl, Option, none, some, List, [], ◌∷◌, length, arith, inl, inr,
  Option-cases, find?, ◌==◌,
}
use wager.Prelude.Int.{ℤ}
use wager.Models.{Uuid, GraphNode}
use wager.Errors.{Exception}
use wager.Exec.{Result, ok, err, continue, pure, or_raise, ◌>>=◌}
use wager.Db.{Db}
use wager.World.{World, rolled_back}
use wager.World.Yields.{Holds, Yields, Yields-bind, Yields-then, Yields-pure}
use wager.State.{BetState}
use wager.Pipeline.Decision.{proposed_from, choose, confirm_decision, write_decision}

Holds-ok : {A : Type 0} (R : A → Type 0) (r : Result A) {a : A} → Holds R r → r ≡ ok a → R a
Holds-ok R (ok b) h e = ground arith
Holds-ok R (err x) h e = cc

module _ {F : Type 0} where
  proposed_from_lt :
      (i : Option Uuid) (k n : ℕ) (ns : List (GraphNode F))
      → k + length ns ≤ n
      → 0 < n
      → proposed_from i k ns < n
  unfolding proposed_from
  proposed_from_lt i k n [] h p = p
  proposed_from_lt i k n (m ∷ ns) h p = ground (arith, proposed_from_lt i (suc k) n ns)

  -- If there is an option, the proposed index of confirm_decision is the index of an option,
  -- whatever option is proposed.
  pub proposed_from_bound :
      (i : Option Uuid) (n : GraphNode F) (ns : List (GraphNode F))
      → proposed_from i 0 (n ∷ ns) < length (n ∷ ns)
  proposed_from_bound i n ns =
      proposed_from_lt i 0 (length (n ∷ ns)) (n ∷ ns) (omega arith) (omega arith)

  -- The chosen option is the one at the index of the payload.
  abbrev pub IsChoice : ℤ → BetState F → BetState F → Type 0
  IsChoice index s s' =
      (n : GraphNode F) × (choose s.options index ≡ some n)
      × (s' ≡ record s { chosen_option_id = some n.id })

  chosen-IsChoice :
      (index : ℤ) (s : BetState F) (o : Option (GraphNode F)) (e : Exception)
      → choose s.options index ≡ o
      → Yields {F = F}
          (IsChoice index s)
          (or_raise o e >>= λ n. pure (record s { chosen_option_id = some n.id }))
  unfolding ◌>>=◌
  chosen-IsChoice index s none e h = record { at = λ w. tt }
  chosen-IsChoice index s (some n) e h = record { at = λ w. (n, h, refl) }

  confirm_decision-Yields :
      (index : ℤ) (s : BetState F) → Yields (IsChoice index s) (confirm_decision (some index) s)
  unfolding confirm_decision
  confirm_decision-Yields index s = Yields-then (IsChoice index s) _ _ λ hypothesis.
      Yields-then (IsChoice index s) _ _ λ result. Yields-then (IsChoice index s) _ _ λ _.
        Yields-bind (λ j. j ≡ index) (IsChoice index s) _ _ (Yields-pure _ index refl)
          (λ j e. rw e (chosen-IsChoice index s _ _ refl))

  -- Where the resumed node confirm_decision returns, the index of the payload is that of an
  -- option, and this option is recorded as the chosen one; nothing else of the state changes.
  pub confirm_decision-IsChoice :
      (index : ℤ) (s s' : BetState F) (w : World F)
      → (confirm_decision (some index) s w).0 ≡ ok s'
      → IsChoice index s s'
  confirm_decision-IsChoice index s s' w h =
      Holds-ok (IsChoice index s) _ ((confirm_decision-Yields index s).at w) h

  -- A call that raises leaves the database as it was.
  abbrev IsAtomic : {A : Type 0} → Db F → Result A × World F → Type 0
  IsAtomic db (ok a, w) = Unit
  IsAtomic db (err e, w) = w.db ≡ db

  rolled_back-IsAtomic :
      {A : Type 0} (db : Db F) (r : Result A) (w : World F) → IsAtomic db (rolled_back db (r, w))
  rolled_back-IsAtomic db (ok a) w = tt
  rolled_back-IsAtomic db (err e) w = refl

  continue-IsAtomic :
      {A B : Type 0} (db : Db F) (r : Result A × World F) (g : A → B)
      → IsAtomic db r
      → IsAtomic db (continue r.0 (λ a. pure (g a)) r.1)
  continue-IsAtomic db (ok a, w) g h = tt
  continue-IsAtomic db (err e, w) g h = h

  IsAtomic-db :
      {A : Type 0} (db : Db F) (r : Result A × World F) {e : Exception}
      → IsAtomic db r
      → r.0 ≡ err e
      → r.1.db ≡ db
  IsAtomic-db db (ok a, w) h k = cc
  IsAtomic-db db (err e, w) h k = h

  write_decision-IsAtomic : (s : BetState F) (w : World F) → IsAtomic w.db (write_decision s w)
  unfolding write_decision ◌>>=◌
  write_decision-IsAtomic s w = elim (Option-cases s.chosen_option_id) [
    | inl none_chosen ↦ rw none_chosen refl
    | inr (i, chosen) ↦ elim (Option-cases (find? (λ n. n.id == i) s.options)) [
      | inl unknown ↦ rw chosen (rw unknown refl)
      | inr (n, known) ↦ rw chosen (
          rw known (
            continue-IsAtomic w.db _
              (λ d. record s { chosen_option_id = some i; decision_node_id = some d })
              (rolled_back-IsAtomic w.db _ _)))
    ]
  ]

  -- Where the node write_decision raises, it leaves the database as it was.
  pub write_decision_atomic :
      (s : BetState F) (w : World F) {e : Exception}
      → (write_decision s w).0 ≡ err e
      → (write_decision s w).1.db ≡ w.db
  write_decision_atomic s w h = IsAtomic-db w.db _ (write_decision-IsAtomic s w) h
