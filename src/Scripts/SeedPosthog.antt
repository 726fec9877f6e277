-- ===== src/Scripts/SeedPosthog.antt =====
-- scripts/seed_posthog.py: the events, their batches and the check of the lifts. The project's key, which is
-- read from the environment or the file .env, and PostHog's batch endpoint are parameters, and so are
-- the float literals, in tenths, and the test `x < 0.001`. The lines of a run that raises are left out.
pub mod Batches
pub mod Verify
use text.Mathlib.Text.{◌==◌}
use wager.Prelude.{
  ℕ, zero, suc, ◌+◌, ◌-◌, String, Bool, true, false, not, any, Option, none, some, List, [], ◌∷◌,
  ◌++◌, map, length, take, concat, show_ℕ, if◌then◌else◌,
}
use mathlib.Core.List.{flatten}
use wager.Models.{Date, DataFlag}
use wager.Errors.{type_error, foreign_error}
use wager.Exec.{pure, raise, for_list, ◌>>=◌}
use wager.Floats.{Floats}
use wager.World.{Action, Http, timed_out, failed, response}
use wager.Integrations.{FetchResult, is_error_status}
use wager.Integrations.Posthog.{run_hogql}
use wager.Api.Phase1.{get_today}
use wager.Scripts.PosthogEvents.{SeedEvent, events_payload}
use wager.Scripts.Seeds.{SeedSpec, seed_ship, demo_ship, all_seeds}

abbrev pub batch_size : ℕ
batch_size = 200

unfoldable pub drop : {A : Type 0} → ℕ → List A → List A
drop zero xs = xs
drop (suc n) [] = []
drop (suc n) (x ∷ xs) = drop n xs

-- `events[start : start + 200] for start in range(0, len(events), 200)`, on fuel: as many batches as
-- events are enough.
unfoldable pub batches : ℕ → List SeedEvent → List (List SeedEvent)
batches zero xs = []
batches (suc fuel) [] = []
batches (suc fuel) (x ∷ xs) = take batch_size (x ∷ xs) ∷ batches fuel (drop batch_size (x ∷ xs))

-- How `_push_events` ends: the exit code 1 for a missing key or a refused batch, an exception of the
-- client, or the number of events.
pub data PushEnd : Type 0 where
  missing_key : PushEnd
  refused : ℕ → PushEnd
  crashed : String → PushEnd
  pushed : ℕ → PushEnd

-- What is done after a reply, with the batches that are sent from it on.
unfoldable pub after_post :
    Http (Unit {0})
    → List SeedEvent
    → PushEnd × List (List SeedEvent)
    → PushEnd × List (List SeedEvent)
after_post (timed_out e) batch rest = (crashed e, batch ∷ [])
after_post (failed e) batch rest = (crashed e, batch ∷ [])
after_post (response status body) batch rest =
    if is_error_status status then (refused status, batch ∷ []) else (rest.0, batch ∷ rest.1)

module _ (post : List SeedEvent → Http (Unit {0})) where
  -- The loop, with the batches that it sends; n events are pushed if it comes to its end.
  unfoldable pub post_all : ℕ → List (List SeedEvent) → PushEnd × List (List SeedEvent)
  post_all n [] = (pushed n, [])
  post_all n (batch ∷ rest) = after_post (post batch) batch (post_all n rest)

  unfoldable pub push_events : String → List SeedEvent → PushEnd × List (List SeedEvent)
  push_events api_key events =
      if api_key == ""
      then (missing_key, [])
      else post_all (length events) (batches (length events) events)

-- `EXPECTED_LIFT`, by one of its four keys.
unfoldable pub expected_lift : {F : Type 0} → (ℕ → F) → String → F
expected_lift tenths key =
    if key == "S1"
    then tenths 120
    else if key == "S2"
    then tenths 10
    else if key == "S3"
    then tenths 99
    else tenths 60

module _ {F : Type 0} ⦃fl : Floats F⦄ (tenths : ℕ → F) (is_close : F → Bool) where
  abbrev match_line : String → F → F → Bool → String × Bool
  match_line key expected actual close = (
    concat (
        "[verify] "
        ∷ key
        ∷ ": expected "
        ∷ fl.show expected
        ∷ ", actual "
        ∷ fl.show actual
        ∷ " -> "
        ∷ (if close then "OK" else "MISMATCH")
        ∷ []),
    not close,
  )

  -- The line for a bet, and whether it is a problem; `float(None)` raises.
  unfoldable pub verify_result : String → F → Option DataFlag → Option F → Action F (String × Bool)
  verify_result key expected (some error) value =
      pure (concat ("[verify] " ∷ key ∷ ": ERROR " ∷ error.message ∷ []), true)
  verify_result key expected none none = raise type_error
  verify_result key expected none (some actual) =
      pure (match_line key expected actual (is_close (fl.abs (fl.sub actual expected))))

  unfoldable pub verify_spec : SeedSpec F → Action F (String × Bool)
  verify_spec spec = do
    result ← run_hogql (some spec.metric_query)
    verify_result spec.key (expected_lift tenths spec.key) result.error result.value

  abbrev pub verdict_line : Bool → String
  verdict_line true = "[verify] FAILED — re-run seed_posthog.py or check the PostHog data"
  verdict_line false = "[verify] all seeded lifts match"

  -- The lines and the exit code.
  abbrev pub verified : List (String × Bool) → List String × ℕ
  verified results =
      let problems = any (λ r. r.1) results in
      (map (λ r. r.0) results ++ verdict_line problems ∷ [], if problems then 1 else 0)

  -- The part of `main` under `--verify`.
  unfoldable pub verify : Action F (List String × ℕ)
  verify = do
    today ← get_today
    results ← for_list (all_seeds tenths today) verify_spec
    pure (verified results)

  abbrev pub verify_if : Bool → Action F (List String × ℕ)
  verify_if false = pure ([], 0)
  verify_if true = verify

  -- What follows the push; the line of a refused batch is without the reply's text.
  unfoldable pub after_push : PushEnd → Bool → Action F (List String × ℕ)
  after_push missing_key wanted =
      pure
        ("[posthog] error: POSTHOG_PROJECT_API_KEY missing from .env (project key phc_...)" ∷ [], 1)
  after_push (refused status) wanted =
      pure (concat ("[posthog] error: capture returned " ∷ show_ℕ status ∷ ": " ∷ []) ∷ [], 1)
  after_push (crashed e) wanted = raise (foreign_error e)
  after_push (pushed n) wanted = do
    rest ← verify_if wanted
    pure (
      concat ("[posthog] pushed " ∷ show_ℕ n ∷ " events in batches of 200" ∷ []) ∷ rest.0,
      rest.1,
    )

  -- The lines and the exit code, the options being `--skip-push` and `--verify`.
  unfoldable pub main :
      (List SeedEvent → Http (Unit {0})) → String → Bool → Bool → Action F (List String × ℕ)
  main post api_key true wanted = verify_if wanted
  main post api_key false wanted = do
    today ← get_today
    after_push (push_events post api_key (events_payload today)).0 wanted
