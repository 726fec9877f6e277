-- ===== src/Integrations/Posthog.antt =====
-- integrations/posthog.py.
use wager.Prelude.{String, Option, [], ◌∷◌, if◌then◌else◌, concat, show_ℕ}
use wager.Models.{Source, Severity}
use wager.Exec.{pure, ◌>>=◌, ◌>>◌}
use wager.World.{
  Action, Reply, answered, raised, Http, timed_out, failed, response, get_services, new_flag, send,
  ran_query, captured,
}
use wager.Integrations.{FetchResult, success, failure, done, is_error_status}

module _ {F : Type 0} where
  abbrev pub posthog_flag : String → Action F (FetchResult F)
  posthog_flag message = do
    flag ← new_flag Source.posthog Severity.warning message
    pure (failure flag)

  abbrev capture_flag : String → Action F (FetchResult (Unit {0}))
  capture_flag message = do
    flag ← new_flag Source.posthog Severity.warning message
    pure (failure flag)

  -- `float(resp.json()["results"][0][0])`
  abbrev pub read_cell : Reply F → Action F (FetchResult F)
  read_cell (answered x) = pure (success x)
  read_cell (raised e) = posthog_flag "posthog_empty_result"

  abbrev pub read_metric : Http F → Action F (FetchResult F)
  read_metric (timed_out e) = posthog_flag "posthog_timeout"
  read_metric (failed e) = posthog_flag (concat ("posthog_error: " ∷ e ∷ []))
  read_metric (response status body) =
      if is_error_status status
      then posthog_flag (concat ("posthog_error: " ∷ show_ℕ status ∷ []))
      else read_cell body

  unfoldable pub run_hogql : Option String → Action F (FetchResult F)
  run_hogql query = do services ← get_services; send ran_query; read_metric (services.hogql query)

  -- Every reply of the capture endpoint but a status below 400 is a flag.
  abbrev pub captured_result : Http (Unit {0}) → Action F (FetchResult (Unit {0}))
  captured_result (timed_out e) = capture_flag "posthog_timeout"
  captured_result (failed e) = capture_flag (concat ("posthog_error: " ∷ e ∷ []))
  captured_result (response status body) =
      if is_error_status status
      then capture_flag (concat ("posthog_error: " ∷ show_ℕ status ∷ []))
      else pure done

  unfoldable pub capture_event :
      String → String → String → String → Action F (FetchResult (Unit {0}))
  capture_event distinct_id event properties timestamp = do
    services ← get_services
    send (captured distinct_id)
    captured_result (services.capture distinct_id event properties timestamp)
