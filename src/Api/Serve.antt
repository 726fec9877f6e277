-- ===== src/Api/Serve.antt =====
-- The server: a request goes to its route, and the outcome becomes a response.
use wager.Prelude.{String, Option}
use wager.Models.{Uuid}
use wager.Errors.Formats.{Formats}
use wager.Exec.{Result, ok, err}
use wager.Floats.{Floats}
use wager.World.{World, Action}
use wager.Pipeline.Invoke.{Checkpointer}
use wager.Api.{Body, Response, respond, handle}
use wager.Api.Phase1.{phase1_run, phase1_run_sync, run_phase1_background}
use wager.Api.Webhook.{SlackRequest, slack_interactions}
use wager.Api.Reads.{healthz, get_bet, get_calibration}
use wager.Api.Reviews.{reviews_check}

pub data HttpRequest : Type 0 where
  health calibration check_reviews : HttpRequest
  -- The `doc_id` of the body.
  start_run : Option String → HttpRequest
  run_sync : Uuid → Option String → HttpRequest
  interaction : SlackRequest → HttpRequest
  show_bet : Uuid → HttpRequest

module _ {F : Type 0} where
  -- A route whose success has the status 200.
  abbrev pub answer : Action F (Body F) → World F → Response F × World F
  answer m w = (respond w.host.services.formats 200 (m w).0, (m w).1)

  -- A route with a task that runs after the response; a route that raised has left none.
  abbrev pub answer_then :
      {A : Type 0}
      → Formats
      → (A → World F → World F)
      → Result (Body F × A)
      → World F
      → Response F × World F
  answer_then f task (ok (body, a)) w = (record { status = 202; body = body }, task a w)
  answer_then f task (err e) w = (handle f e, w)

module _ {F : Type 0} ⦃fl : Floats F⦄ (saver : Checkpointer F)
    (facts_prompt reasoning_prompt : String) where
  -- The task of `phase1_run`.
  abbrev pub background : Uuid × String → World F → World F
  background task w = (run_phase1_background saver facts_prompt reasoning_prompt task w).1

  unfoldable pub serve : HttpRequest → World F → Response F × World F
  serve health w = answer healthz w
  serve calibration w = answer get_calibration w
  serve check_reviews w = answer reviews_check w
  serve (start_run doc) w =
      answer_then w.host.services.formats background (phase1_run doc w).0 (phase1_run doc w).1
  serve (run_sync bet doc) w =
      answer (phase1_run_sync saver facts_prompt reasoning_prompt bet doc) w
  serve (interaction request) w = answer (slack_interactions saver request) w
  serve (show_bet bet) w = answer (get_bet bet) w
