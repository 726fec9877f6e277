-- ===== src/Api/Sync.antt =====
-- What `/phase1/{bet_id}/run-sync` answers.
use wager.Prelude.{◌≡◌, sym, ◌⊎◌, inl, inr, refl, String, false, Option, none, List, Bool-cases}
use wager.Prelude.Int.{ℤ}
use wager.Models.{Uuid}
use wager.Errors.{
  Exception, database_error, unique_violation, is_empty_extraction, is_integration_error,
  graph_interrupt, value_error, api_error, is_api_error,
}
use wager.Errors.Formats.{Formats}
use wager.Exec.{Result, ok, err, continue, ◌>>=◌}
use wager.Floats.{Floats}
use wager.World.{World, Action}
use wager.World.Yields.{Holds, Yields, Yields-then, Yields-bind}
use wager.Db.{has_bet}
use wager.Sql.{insert_bet}
use wager.Store.{create_bet}
use wager.State.{BetState}
use wager.Pipeline.Graphs.{phase1, run_nodes, decision_nodes}
use wager.Pipeline.Invoke.{Run, interrupted, finished, Checkpointer, run_of_exception, run_of}
use wager.Pipeline.Interrupt.{checked-raises}
use wager.Pipeline.Wrapping.{
  RaisesTranslated, IsTranslated, nodes-RaisesTranslated, continue-RaisesTranslated,
}
use wager.Api.{Response, pending, respond, handle}
use wager.Api.Phase1.{insert_new_bet, create_and_run, sync_result, phase1_run_sync}
use wager.Api.Keeps.{IsCheckpointer}
use wager.Api.Serve.{serve, run_sync}

-- What the routes do not answer with 422 or with the status of an ApiError.
abbrev pub IsPlain : Exception → Type 0
IsPlain e = (is_empty_extraction e ≡ false) × (is_api_error e ≡ false)

module _ {F : Type 0} where
  -- A run that ended at the interrupt, or with such an exception.
  abbrev pub IsPaused : Result (Run F) → Type 0
  IsPaused (ok (interrupted bet options index)) = Unit
  IsPaused (ok (finished s)) = ⊥
  IsPaused (err e) = IsPlain e

run_of_exception-IsPaused :
    (F : Type 0) (e : Exception) → IsTranslated e → IsPaused (run_of_exception {F = F} e)
run_of_exception-IsPaused F (graph_interrupt b os i) h = tt
run_of_exception-IsPaused F (api_error c t n) h = cc
run_of_exception-IsPaused F (value_error r) h = cc
run_of_exception-IsPaused F _ h = (h.1, refl)

handle-status :
    (F : Type 0) (f : Formats) (e : Exception)
    → is_api_error e ≡ false
    → (handle {F = F} f e).status ≡ 500
unfolding handle
handle-status F f (api_error c t n) h = cc
handle-status F f (value_error r) h = refl
handle-status F f _ h = refl

-- The status of the responses to such exceptions.
pub respond_status :
    (F : Type 0) (f : Formats) (bet : Uuid) (e : Exception)
    → IsPlain e
    → let r = respond {F = F} f 200 (sync_result f bet (err e)) in
      (r.status ≡ 500) ⊎ (r.status ≡ 502)
unfolding handle
respond_status F f bet e (full, api) = elim (Bool-cases (is_integration_error e)) [
  | inl known ↦ rw full (rw known (inr refl))
  | inr other ↦ rw full (rw other (inl (handle-status _ f e api)))
]

module _ {F : Type 0} where
  run_of-IsPaused :
      (r : Result (BetState F)) → Holds (λ _. ⊥) r → RaisesTranslated r → IsPaused (run_of r)
  run_of-IsPaused (ok s) h k = absurd h
  run_of-IsPaused (err e) h k = run_of_exception-IsPaused _ e k

  continue-IsPaused :
      {A : Type 0} (r : Result A) (f : A → Action F (Run F)) (w : World F)
      → ((e : Exception) → r ≡ err e → IsPlain e)
      → ((a : A) (v : World F) → IsPaused (f a v).0)
      → IsPaused (continue r f w).0
  continue-IsPaused (ok a) f w plain paused = paused a w
  continue-IsPaused (err e) f w plain paused = plain e refl

  insert_new_bet-IsPlain :
      (bet : Uuid) (doc : String) (w : World F) (e : Exception)
      → (insert_new_bet bet doc w).0 ≡ err e
      → IsPlain e
  unfolding create_bet insert_bet ◌>>=◌
  insert_new_bet-IsPlain bet doc w e h = elim (Bool-cases (has_bet bet w.db.bets)) [
    | inl old ↦
        let k = rw old at h in
        let same : database_error unique_violation ≡ e = cc in rw (sym same) (refl, refl)
    | inr new ↦ let k = rw new at h in absurd (cc)
  ]

  -- The response of the route.
  abbrev pub IsAnswer : Uuid → Response F → Type 0
  IsAnswer bet r =
      ((options : List String) × (index : ℤ) × (r
          ≡ record { status = 200; body = pending bet "PENDING_CONFIRMATION" options index }))
      ⊎ ((r.status ≡ 500) ⊎ (r.status ≡ 502))

  respond-IsAnswer :
      (f : Formats) (bet : Uuid) (r : Result (Run F))
      → IsPaused r
      → IsAnswer bet (respond f 200 (sync_result f bet r))
  respond-IsAnswer f bet (ok (interrupted b os i)) h = inl (os, i, refl)
  respond-IsAnswer f bet (ok (finished s)) h = absurd h
  respond-IsAnswer f bet (err e) h = inr (respond_status _ f bet e h)

module _ {F : Type 0} ⦃fl : Floats F⦄ (p q : String) where
  phase1-raises : (s : BetState F) → Yields (λ _. ⊥) (phase1 p q s)
  unfolding phase1 run_nodes
  phase1-raises s =
      Yields-then (λ _. ⊥) _ _
        λ extracted. Yields-bind (λ _. ⊥) (λ _. ⊥) _ _ (checked-raises extracted) (λ _ h. absurd h)

  phase1-RaisesTranslated : (s : BetState F) (w : World F) → RaisesTranslated (phase1 p q s w).0
  unfolding phase1 ◌>>=◌
  phase1-RaisesTranslated s w =
      continue-RaisesTranslated _ _ _ (nodes-RaisesTranslated _ s w)
        (λ s' v. nodes-RaisesTranslated (decision_nodes none) s' v)

  module _ (saver : Checkpointer F) (langgraph : IsCheckpointer saver) where
    setup-IsPlain : (w : World F) (e : Exception) → (saver.setup w).0 ≡ err e → IsPlain e
    setup-IsPlain w e h = let (t, foreign) = langgraph.setup_raises w e h in rw foreign (refl, refl)

    pub create_and_run-IsPaused :
        (bet : Uuid) (doc : String) (w : World F) → IsPaused (create_and_run saver p q bet doc w).0
    unfolding ◌>>=◌
    create_and_run-IsPaused bet doc w =
        continue-IsPaused _ _ _ (insert_new_bet-IsPlain bet doc w) λ _ v.
          continue-IsPaused _ _ _ (setup-IsPlain v) λ _ u.
            run_of-IsPaused (phase1 p q _ u).0 ((phase1-raises _).at u)
              (phase1-RaisesTranslated _ u)

    -- /phase1/{bet_id}/run-sync is answered with 200 and the bet as PENDING_CONFIRMATION, or with
    -- 500 or 502, provided that the checkpointer keeps to its own tables and raises only
    -- exceptions of its own; so never with 422 nor with CONFIRMED.
    pub run_sync_answers :
        (bet : Uuid) (doc : Option String) (w : World F)
        → IsAnswer bet (serve saver p q (run_sync bet doc) w).0
    unfolding serve phase1_run_sync ◌>>=◌
    run_sync_answers bet doc w =
        respond-IsAnswer w.host.services.formats bet _ (create_and_run-IsPaused bet _ w)
