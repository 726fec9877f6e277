-- ===== src/Cli/Agreement.antt =====
-- `run-phase1` of cli.py beside `/phase1/{bet_id}/run-sync`.
use wager.Prelude.{suc, String, ◌≡◌, ◌↔◌, inl, inr, refl, Option, arith}
use wager.Models.{Uuid}
use wager.Errors.{Exception}
use wager.Errors.Formats.{Formats}
use wager.Exec.{Result, ok, err, continue, ◌>>=◌}
use wager.Floats.{Floats}
use wager.World.{World, Action}
use wager.State.{create_initial_state}
use wager.Pipeline.Graphs.{phase1}
use wager.Pipeline.Invoke.{Run, interrupted, finished, Checkpointer, invoke}
use wager.Api.{Response, respond}
use wager.Api.Phase1.{insert_new_bet, create_and_run, sync_result, phase1_run_sync, or_default}
use wager.Api.Serve.{serve, run_sync}
use wager.Api.Keeps.{IsCheckpointer}
use wager.Api.Sync.{IsPlain, IsPaused, respond_status, create_and_run-IsPaused}
use wager.Cli.{Output, crash, exit_code}
use wager.Cli.Phase1.{run_failed, run_output, phase1_output, run_bet, run_phase1}

neither : {A B : Type 0} → (A → ⊥) → (B → ⊥) → A ↔ B
neither f g = (λ a. absurd (f a), λ b. absurd (g b))

run_failed_code : (f : Formats) (e : Exception) → exit_code (run_failed f e).ending ≡ 1
run_failed_code f e = ground arith

-- The exit code 0 goes with the status 200.
abbrev SameSuccess : {F : Type 0} → Output → Response F → Type 0
SameSuccess o r = (exit_code o.ending ≡ 0) ↔ (r.status ≡ 200)

plain-SameSuccess :
    (F : Type 0) (f : Formats) (bet : Uuid) (o : Output) (e : Exception)
    → exit_code o.ending ≡ 1
    → IsPlain e
    → SameSuccess o (respond {F = F} f 200 (sync_result f bet (err e)))
plain-SameSuccess F f bet o e one plain =
    neither (λ zero_code. omega arith)
      (λ success. elim (respond_status F f bet e plain) [
        | inl h ↦ omega arith
        | inr h ↦ omega arith
      ])

module _ {F : Type 0} where
  -- The outcome of the command's calls beside that of the route's.
  abbrev Matches : Uuid → Result (Uuid × Result (Run F)) → Result (Run F) → Type 0
  Matches bet (ok (b, run)) r = (b ≡ bet) × (run ≡ r)
  Matches bet (err e) r = r ≡ err e

  abbrev Agree : Uuid → Result (Uuid × Result (Run F)) × World F → Result (Run F) × World F → Type 0
  Agree bet x y = (x.1 ≡ y.1) × Matches bet x.0 y.0

  continue-Agree :
      {A : Type 0} (bet : Uuid) (r : Result A) (f : A → Action F (Uuid × Result (Run F)))
      (g : A → Action F (Run F)) (w : World F)
      → ((a : A) (v : World F) → Agree bet (f a v) (g a v))
      → Agree bet (continue r f w) (continue r g w)
  continue-Agree bet (ok a) f g w k = k a w
  continue-Agree bet (err e) f g w k = (refl, refl)

  run-SameSuccess :
      (f : Formats) (bet : Uuid) (r : Result (Run F))
      → IsPaused r
      → SameSuccess (run_output f bet r) (respond f 200 (sync_result f bet r))
  unfolding run_output
  run-SameSuccess f bet (ok (interrupted b os i)) h = (λ _. refl, λ _. refl)
  run-SameSuccess f bet (ok (finished s)) h = absurd h
  run-SameSuccess f bet (err e) h =
      plain-SameSuccess _ f bet (run_failed f e) e (run_failed_code f e) h

  phase1_output-SameSuccess :
      (f : Formats) (bet : Uuid) (r : Result (Uuid × Result (Run F))) (q : Result (Run F))
      → Matches bet r q
      → IsPaused q
      → SameSuccess (phase1_output f r) (respond f 200 (sync_result f bet q))
  phase1_output-SameSuccess f bet (ok (b, run)) q (same, runs) h =
      rw same (rw runs (run-SameSuccess f bet q h))
  phase1_output-SameSuccess f bet (err e) q m h =
      rw m (plain-SameSuccess _ f bet (crash e) e refl (rw m at h))

module _ {F : Type 0} ⦃fl : Floats F⦄ (saver : Checkpointer F) (langgraph : IsCheckpointer saver)
    (facts_prompt reasoning_prompt : String) where
  run_bet-Agree :
      (bet : Uuid) (doc : String) (w : World F)
      → Agree bet
          (run_bet saver facts_prompt reasoning_prompt bet doc w)
          (create_and_run saver facts_prompt reasoning_prompt bet doc w)
  unfolding ◌>>=◌
  run_bet-Agree bet doc w = continue-Agree bet (insert_new_bet bet doc w).0 _ _ _ λ _ v.
      continue-Agree bet (saver.setup v).0 (λ _ u. (ok (bet, (run u).0), (run u).1)) (λ _ u. run u)
        _ λ _ u. (refl, (refl, refl))
    where
      run : Action F (Run F)
      run u =
          invoke (phase1 facts_prompt reasoning_prompt (create_initial_state bet doc u.host.today))
            u

  -- run-phase1 leaves the same world as /phase1/{bet_id}/run-sync for the id that it draws, and
  -- has the exit code 0 exactly when that request is answered with 200, provided that the
  -- checkpointer keeps to its own tables and raises only exceptions of its own.
  pub run_phase1_agrees :
      (doc : Option String) (w : World F)
      → let cli = run_phase1 saver facts_prompt reasoning_prompt doc w in
        let request = run_sync (w.host.uuid4 w.draws) doc in
        let api =
          serve saver facts_prompt reasoning_prompt request (record w { draws = suc w.draws }) in
        (cli.1 ≡ api.1) × ((exit_code cli.0.ending ≡ 0) ↔ (api.0.status ≡ 200))
  unfolding run_phase1 serve phase1_run_sync ◌>>=◌
  run_phase1_agrees doc w =
      let bet = w.host.uuid4 w.draws in
      let after = record w { draws = suc w.draws } in
      let text = or_default doc w.host.settings.google_doc_id in
      let agree = run_bet-Agree bet text after in
      (
        agree.0,
        phase1_output-SameSuccess w.host.services.formats bet _ _ agree.1
            (create_and_run-IsPaused facts_prompt reasoning_prompt saver langgraph bet text after),
      )
