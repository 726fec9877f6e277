-- ===== src/Api/Starts.antt =====
-- What `/phase1/run` answers and does.
use wager.Prelude.{
  suc, String, ◌≡◌, ◌⊎◌, inl, inr, refl, true, false, Bool-cases, Option, none, [], ◌∷◌,
}
use wager.Models.{Uuid, BetRow, BetStatus}
use wager.Errors.Formats.{code_value}
use wager.Exec.{◌>>=◌}
use wager.Floats.{Floats}
use wager.Db.{has_bet}
use wager.World.{World}
use wager.Sql.{insert_bet}
use wager.Store.{create_bet}
use wager.Pipeline.Invoke.{Checkpointer}
use wager.Api.{Response, error_body, started, handle}
use wager.Api.Phase1.{
  or_default, has_pending, pending_exists, create_new_bet, phase1_run, run_phase1_background,
}
use wager.Api.Serve.{serve, start_run}

module _ {F : Type 0} ⦃fl : Floats F⦄ (saver : Checkpointer F)
    (facts_prompt reasoning_prompt : String) (payload : Option String) (w : World F) where
  abbrev document : String
  document = or_default payload w.host.settings.google_doc_id

  abbrev new_id : Uuid
  new_id = w.host.uuid4 w.draws

  -- The row of the new bet.
  abbrev new_row : BetRow F
  new_row = record {
    id = new_id;
    created_at = w.host.now (suc w.draws);
    meeting_date = w.host.today;
    doc_id = document;
    pm_slack_id = w.host.settings.pm_slack_user_id;
    status = BetStatus.extracting;
    metric_name = none;
    metric_query = none;
    predicted_lift = none;
    review_date = none;
    github_issue_url = none;
    calendar_event_id = none;
    flags = [];
  }

  -- The world in which the background task starts.
  abbrev with_row : World F
  with_row = record w { draws = suc (suc w.draws); db = record w.db { bets = new_row ∷ w.db.bets } }

  -- A document with a pending bet is refused; any other gets a row, and the task runs on it.
  abbrev pub IsStarted : Response F × World F → Type 0
  IsStarted served =
      ((has_pending document w.db.bets ≡ true)
        × (served ≡ (
          record {
            status = 409;
            body =
                error_body "already_pending" "a bet is already pending confirmation for this doc";
          },
          w,
        )))
      ⊎ ((has_pending document w.db.bets ≡ false)
          × (served ≡ (
            record { status = 202; body = started new_id "EXTRACTING" },
            (run_phase1_background saver facts_prompt reasoning_prompt (new_id, document)
                with_row).1,
          )))

  -- If the id that is drawn is fresh, /phase1/run refuses a document that has a bet in
  -- PENDING_CONFIRMATION with 409 and changes nothing, and answers with 202 for any other
  -- document, whose bet is inserted as EXTRACTING before the background task runs on it.
  pub start_run_answers :
      has_bet new_id w.db.bets ≡ false
      → IsStarted (serve saver facts_prompt reasoning_prompt (start_run payload) w)
  unfolding serve phase1_run pending_exists create_new_bet create_bet insert_bet handle code_value
      ◌>>=◌
  start_run_answers fresh = elim (Bool-cases (has_pending document w.db.bets)) [
    | inl pending ↦ inl (pending, rw pending refl)
    | inr free ↦ inr (free, rw free (rw fresh refl))
  ]
