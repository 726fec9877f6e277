-- ===== src/Tests/Programs.antt =====
-- Examples for the commands and the scripts.
use wager.Prelude.{
  arith, ℕ, zero, show_ℕ, show_padded, Bool, find?, All, ◌*◌, String, ◌≡◌, ◌↔◌, refl, true, false,
  Option, none, some, List, [], ◌∷◌, ◌++◌, map, length,
}
use wager.Prelude.Int.{ℤ, pos, sub_ℕ}
use wager.Prelude.Dates.{iso_date}
use wager.Scripts.DevRunExtraction as DevRunExtraction
use wager.Scripts.DevRunExtraction.{Expected}
use wager.Scripts.DevRunExtraction.Failure.{main_raises}
use wager.Errors.{Exception, database_error, unique_violation}
use wager.Exec.{ok, err, err, for_list, ◌>>=◌}
use wager.Scripts.Seeds.{SeedSpec, all_seeds, lift_query}
use wager.World.{World, Host, Http, response, answered, raised}
use wager.Sql.Keys.{IsWellFormed}
use wager.Sql.{insert_bet}
use wager.Store.{create_bet}
use wager.Store.Attest.{DecidedOnce}
use wager.Store.Typed.{connects, IsTyped}
use wager.Models.{NodeType}
use wager.Pipeline.Graphs.{Summary, run_due_reviews}
use wager.Api.Serve.{check_reviews, interaction, run_sync, start_run, serve}
use wager.Cli.{exit_code, returned}
use wager.Cli.Phase1.{run_phase1}
use wager.Cli.Reviews.{result_line, totals_line, check_due_reviews}
use wager.Api.Serve as Serve
use wager.Cli.Show.{show_bet}
use wager.Cli.Answers.{IsShown, show_bet_answers}
use wager.Cli.Commands.{confirm}
use wager.Cli.Phase1 as Phase1
use wager.Cli.Clicks.{IsSameClick, click_confirms}
use wager.Integrations.Signature.{verify_slack_signature}
use wager.Integrations.Signature.Genuine.{verify_slack_signature_iff}
use wager.World.{SlackAction}
use wager.Api.Webhook.{resume_bet}
use wager.Cli.Agreement.{run_phase1_agrees}
use wager.Cli.Summaries.{check_due_reviews_prints}
use wager.Cli.History.{Use, served, entered, run_uses, run_uses-IsWellFormed, run_uses-DecidedOnce}
use wager.Scripts.Migrate.{
  SqlFile, Database, done, run, sort_files, apply_all, insert_file, leb_codes,
}
use wager.Scripts.Migrate.Replay.{Replayed, run_replays}
use wager.Scripts.Migrate.Repeat.{run_repeats}
use wager.Scripts.PosthogEvents.{SeedEvent, events_payload}
use wager.Scripts.SeedPosthog.{push_events, expected_lift, verify_result, verify_spec, verify}
use wager.Scripts.SeedPosthog.Verify.{IsVerified, verify_passes}
use wager.Integrations.Posthog.{run_hogql}
use text.Mathlib.Text.{◌==◌}
use wager.Scripts.SeedPosthog.Batches.{IsSent, push_events-IsSent}
use wager.Scripts.SeedDemo.{main, prepare, seed_bet}
use wager.Scripts.SeedDemo.Transactions.{main_failed_lem}
use wager.Tests.{hundredths, host, sample_db, sample_world}
use wager.Pipeline.History.{Event, start, resume, review_bet, run_history, run_history-IsTyped}
use wager.State.{create_initial_state}
use wager.Tests.Runs.{waiting, due, sample_due, sample_db-IsWellFormed, no_decision}
use wager.Tests.Threads.{saver, saver-IsCheckpointer}
use wager.Tests.Routes.{signed}

run_phase1_agrees_example :
    let cli = run_phase1 saver "facts" "reasoning" none sample_world in
    let api =
      serve saver "facts" "reasoning" (run_sync 1000 none) (record sample_world { draws = 1 }) in
    (cli.1 ≡ api.1) × ((exit_code cli.0.ending ≡ 0) ↔ (api.0.status ≡ 200))
run_phase1_agrees_example =
    run_phase1_agrees saver saver-IsCheckpointer "facts" "reasoning" none sample_world

check_due_reviews_prints_example :
    (s : Summary ℤ) × (lines : List String) × ((run_due_reviews sample_world).0 ≡ ok s)
    × (length lines ≡ 1)
    × (map (λ t. ok t) lines ≡ map (result_line host.services.formats (pos 100)) s.results)
    × ((check_due_reviews sample_world).0 ≡ returned (lines ++ "" ∷ totals_line s ∷ []))
check_due_reviews_prints_example = check_due_reviews_prints sample_world due sample_due

show_bet_answers_example :
    IsShown saver "facts" "reasoning" 1 sample_world
      (serve saver "facts" "reasoning" (Serve.show_bet 1) sample_world)
      (show_bet 1 sample_world)
show_bet_answers_example = show_bet_answers saver "facts" "reasoning" 1 sample_world

-- A run is started, bet 1 is confirmed from Slack and again from the command line, the failed run of bet 2 is
-- resumed, and the due bets are reviewed.
abbrev uses : List (Host ℤ × Use)
uses =
    (host, served (start_run none))
    ∷ (host, served (interaction signed))
    ∷ (host, entered (confirm 1 (pos 0)))
    ∷ (host, entered (confirm 2 (pos 0)))
    ∷ (host, served check_reviews)
    ∷ []

run_uses-IsWellFormed_example :
    IsWellFormed (run_uses saver "facts" "reasoning" uses sample_world).db
run_uses-IsWellFormed_example =
    run_uses-IsWellFormed saver saver-IsCheckpointer "facts" "reasoning" uses sample_world
      sample_db-IsWellFormed

run_uses-DecidedOnce_example :
    DecidedOnce 1 (run_uses saver "facts" "reasoning" uses sample_world).db
run_uses-DecidedOnce_example =
    run_uses-DecidedOnce saver saver-IsCheckpointer "facts" "reasoning" 1 uses sample_world
      no_decision

abbrev confirm_button : SlackAction
confirm_button = record { action_id = some "confirm_option:0"; value = some 1 }

signed_is_valid :
    (verify_slack_signature signed.raw_body signed.timestamp signed.signature sample_world).0
    ≡ ok true
signed_is_valid =
    (verify_slack_signature_iff signed.raw_body signed.timestamp signed.signature sample_world
        refl).1
      (pos 0, refl, (omega arith, omega arith), refl)

click_confirms_example :
    let w =
      (verify_slack_signature signed.raw_body signed.timestamp signed.signature sample_world).1 in
    IsSameClick
      (resume_bet saver 1 (pos 0) w)
      (serve saver "facts" "reasoning" (interaction signed) sample_world)
      (Phase1.confirm saver 1 (pos 0) w)
unfolding verify_slack_signature ◌>>=◌
click_confirms_example =
    click_confirms saver "facts" "reasoning" 1 (pos 0) signed
      (record { kind = some "block_actions"; actions = confirm_button ∷ [] }) confirm_button
      "confirm_option:0" sample_world signed_is_valid refl refl refl refl refl

sample_db-IsTyped : IsTyped sample_db
unfolding connects
sample_db-IsTyped = ((NodeType.hypothesis, NodeType.fact, refl, refl, refl), tt)

-- A run of phase 1 to its pause, a resumption and a review.
abbrev events : List (Host ℤ × Event ℤ)
events =
    (host, start "facts" "reasoning" (create_initial_state 1 "doc" 738900))
    ∷ (host, resume (pos 0) waiting)
    ∷ (host, review_bet (create_initial_state 1 "doc" 738900))
    ∷ []

run_history-IsTyped_example : IsTyped (run_history events sample_world).db
run_history-IsTyped_example = run_history-IsTyped events sample_world sample_db-IsTyped

-- Two files, out of order, that append to a list of texts.
abbrev files : List SqlFile
files =
    record { name = "0002_flags.sql"; sql = "two" }
    ∷ record { name = "0001_init.sql"; sql = "one" }
    ∷ []

abbrev append_text : String → List String → Option (List String)
append_text t ts = some (ts ++ t ∷ [])

abbrev empty_database : Database (List String)
empty_database = record { content = []; schema_migrations = none }

abbrev migrated : Database (List String)
migrated = record {
  content = "one" ∷ "two" ∷ [];
  schema_migrations = some ("0002_flags.sql" ∷ "0001_init.sql" ∷ []);
}

run_replays_example : Replayed append_text [] empty_database (run append_text files empty_database)
run_replays_example = run_replays append_text files empty_database

first_run :
    run append_text files empty_database
    ≡ (done ("0001_init.sql" ∷ "0002_flags.sql" ∷ []), migrated)
unfolding run sort_files apply_all insert_file leb_codes
first_run = refl

run_repeats_example : run append_text files migrated ≡ (done [], migrated)
run_repeats_example = run_repeats append_text files empty_database migrated _ first_run

-- Every id that is drawn is that of the sample bet.
abbrev stuck_world : World ℤ
stuck_world = record sample_world { host = record host { uuid4 = λ n. 1 } }

stuck : (main (λ n. pos (n * 10)) false stuck_world).0 ≡ err (database_error unique_violation)
unfolding main prepare seed_bet all_seeds create_bet insert_bet for_list ◌>>=◌
stuck = refl

main_failed_lem_example : (main (λ n. pos (n * 10)) false stuck_world).1.db ≡ sample_db
main_failed_lem_example =
    main_failed_lem (λ n. pos (n * 10)) false stuck_world (database_error unique_violation) stuck

-- PostHog refuses the first batch.
abbrev refuses : List SeedEvent → Http (Unit {0})
refuses batch = response 500 (answered tt)

push_events-IsSent_example :
    IsSent (events_payload 739000) (push_events refuses "phc" (events_payload 739000))
push_events-IsSent_example = push_events-IsSent refuses "phc" (events_payload 739000)

abbrev in_tenths : ℕ → ℤ
in_tenths n = pos (n * 10)

-- Within 0.001, for numbers of hundredths.
abbrev is_nothing : ℤ → Bool
is_nothing (pos zero) = true
is_nothing _ = false

-- PostHog answers each seeded query with the lift that is expected.
abbrev expected_of : Option (SeedSpec ℤ) → Http ℤ
expected_of none = response 404 (raised "no such query")
expected_of (some spec) = response 200 (answered (expected_lift in_tenths spec.key))

abbrev find_seed : Option String → Option (SeedSpec ℤ)
find_seed none = none
find_seed (some q) = find? (λ s. s.metric_query == q) (all_seeds in_tenths 739000)

abbrev seeded_world : World ℤ
seeded_world = record sample_world {
  host = record host { services = record host.services { hogql = λ q. expected_of (find_seed q) } };
}

abbrev verify_lines : List String
verify_lines =
    "[verify] S1: expected 1200e-2, actual 1200e-2 -> OK"
    ∷ "[verify] S2: expected 100e-2, actual 100e-2 -> OK"
    ∷ "[verify] S3: expected 990e-2, actual 990e-2 -> OK"
    ∷ "[verify] D1: expected 600e-2, actual 600e-2 -> OK" ∷ "[verify] all seeded lifts match" ∷ []

passes : (verify in_tenths is_nothing seeded_world).0 ≡ ok (verify_lines, 0)
unfolding verify verify_spec verify_result run_hogql all_seeds expected_lift lift_query iso_date
    show_padded show_ℕ sub_ℕ for_list ◌>>=◌
passes = refl

verify_passes_example :
    All (IsVerified in_tenths is_nothing seeded_world.host.services) (all_seeds in_tenths 739000)
verify_passes_example = verify_passes in_tenths is_nothing seeded_world _ passes

-- A fixture of one fact, one assumption, one hypothesis and one option.
abbrev fixture : Expected
fixture = record {
  speakers = "Ana" ∷ [];
  assumptions = "Step 3 is too long" ∷ [];
  hypotheses = "A shorter step 3 keeps users" ∷ [];
  options = "Cut step 3" ∷ [];
  proposed_option_index = 0;
}

main_raises_example :
    (e : Exception) × ((DevRunExtraction.main (λ t. t) "Ana: …" fixture sample_world).0 ≡ err e)
main_raises_example = main_raises (λ t. t) "Ana: …" fixture sample_world
