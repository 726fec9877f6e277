-- ===== src/Api/Phase1.antt =====
-- The routes of api/routes.py that start phase 1.
use wager.Prelude.{String, Bool, ◌&&◌, Option, none, some, List, any, if◌then◌else◌}
use text.Mathlib.Text.{◌==◌}
use wager.Models.{Uuid, Date, BetRow}
use wager.Models.Values.{status_value}
use wager.Errors.{
  Exception, api_error, already_pending, empty_extraction, gdocs_failed, is_empty_extraction,
  is_integration_error,
}
use wager.Errors.Formats.{Formats, exception_text}
use wager.Exec.{Result, ok, err, None, pure, raise_if, gets, ◌>>=◌, ◌>>◌}
use wager.Floats.{Floats}
use wager.World.{Action, get_settings, draw_uuid, with_conn}
use wager.Store.{create_bet}
use wager.State.{create_initial_state}
use wager.Pipeline.Graphs.{phase1}
use wager.Pipeline.Invoke.{Run, interrupted, finished, Checkpointer, invoke}
use wager.Api.{Body, started, pending}

-- `payload.doc_id or get_settings().google_doc_id`: an empty text is none.
abbrev pub or_default : Option String → String → String
or_default none default = default
or_default (some doc) default = if doc == "" then default else doc

-- The `except` clauses of `phase1_run_sync`, in their order.
abbrev pub translate_sync : Formats → Exception → Exception
translate_sync f e =
    if is_empty_extraction e
    then api_error empty_extraction "extraction produced no facts" 422
    else if is_integration_error e
    then api_error gdocs_failed (exception_text f e) 502
    else e

module _ {F : Type 0} where
  -- `SELECT 1 FROM bets WHERE doc_id = doc AND status = 'PENDING_CONFIRMATION'`.
  abbrev pub has_pending : String → List (BetRow F) → Bool
  has_pending doc = any (λ b. b.doc_id == doc && status_value b.status == "PENDING_CONFIRMATION")

  unfoldable pub pending_exists : String → Action F Bool
  pending_exists doc = with_conn (gets (λ w. has_pending doc w.db.bets))

  -- `date.today()`.
  abbrev pub get_today : Action F Date
  get_today = gets (λ w. w.host.today)

  -- The row of a new bet.
  abbrev pub insert_new_bet : Uuid → String → Action F None
  insert_new_bet bet doc = with_conn (do
    today ← get_today
    settings ← get_settings
    create_bet bet doc today settings.pm_slack_user_id)

  unfoldable pub create_new_bet : String → Action F Uuid
  create_new_bet doc = do bet ← draw_uuid; insert_new_bet bet doc; pure bet

  -- The route, and the task that it leaves: the bet and the document.
  unfoldable pub phase1_run : Option String → Action F (Body F × (Uuid × String))
  phase1_run payload = do
    settings ← get_settings
    let doc = or_default payload settings.google_doc_id
    is_pending ← pending_exists doc
    raise_if is_pending
        (api_error already_pending "a bet is already pending confirmation for this doc" 409)
    bet ← create_new_bet doc
    pure (started bet "EXTRACTING", (bet, doc))

  -- `except Exception` that only logs.
  abbrev pub swallow : {A : Type 0} → Action F A → Action F None
  swallow m w = (ok tt, (m w).1)

module _ {F : Type 0} where
  -- What follows its `try`.
  abbrev pub sync_result : Formats → Uuid → Result (Run F) → Result (Body F)
  sync_result f bet (ok (interrupted _ options index)) =
      ok (pending bet "PENDING_CONFIRMATION" options index)
  sync_result f bet (ok (finished s)) = ok (started bet "CONFIRMED")
  sync_result f bet (err e) = err (translate_sync f e)

-- The system prompts are arguments of the graph.
module _ {F : Type 0} ⦃fl : Floats F⦄ (saver : Checkpointer F)
    (facts_prompt reasoning_prompt : String) where
  -- A checkpointer, the graph and a run of it.
  abbrev pub run_phase1 : Uuid → String → Action F (Run F)
  run_phase1 bet doc = do
    saver.setup
    today ← get_today
    invoke (phase1 facts_prompt reasoning_prompt (create_initial_state bet doc today))

  unfoldable pub run_phase1_background : Uuid × String → Action F None
  run_phase1_background (bet, doc) = swallow (run_phase1 bet doc)

  -- The `try` of `phase1_run_sync`.
  abbrev pub create_and_run : Uuid → String → Action F (Run F)
  create_and_run bet doc = do insert_new_bet bet doc; run_phase1 bet doc

  abbrev pub sync_run : Uuid → String → Action F (Body F)
  sync_run bet doc w = (
    sync_result w.host.services.formats bet (create_and_run bet doc w).0,
    (create_and_run bet doc w).1,
  )

  unfoldable pub phase1_run_sync : Uuid → Option String → Action F (Body F)
  phase1_run_sync bet payload = do
    settings ← get_settings
    sync_run bet (or_default payload settings.google_doc_id)
