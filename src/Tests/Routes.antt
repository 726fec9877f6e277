-- ===== src/Tests/Routes.antt =====
-- Examples for the webhook's signature and the routes, on the sample database.
use wager.Prelude.{true, ◌≡◌, ◌⊎◌, ◌↔◌, refl, codes, none, [], ◌∷◌, arith}
use text.Mathlib.Text.{◌==◌}
use text.Mathlib.TextEquality.{eq_iff}
use wager.Prelude.Int.{ℤ}
use wager.Exec.{ok}
use wager.Integrations.Signature.{is_ascii, verify_slack_signature}
use wager.Integrations.Signature.Genuine.{IsGenuine, genuine_signature, verify_slack_signature_iff}
use wager.Pipeline.Graphs.{Summary, run_due_reviews}
use wager.Api.{ReviewsPage, reviews}
use wager.Api.Webhook.{SlackRequest}
use wager.Api.Reviews.{reviews_check}
use wager.Api.Serve.{interaction, run_sync, start_run, serve}
use wager.Api.Agreement.{Lists, reviews_check_agrees}
use wager.Api.Forgery.{forged_interaction_refused}
use wager.Api.Starts.{IsStarted, start_run_answers}
use wager.Api.Sync.{IsAnswer, run_sync_answers}
use wager.Tests.{hundredths, sample_db, sample_world}
use wager.Tests.Runs.{due, sample_due}
use wager.Tests.Threads.{saver, saver-IsCheckpointer}

-- The sample HMAC is "00ff".
abbrev pub signed : SlackRequest
signed = record { raw_body = 123 ∷ 125 ∷ []; timestamp = "0"; signature = "v0=00ff" }

abbrev forged : SlackRequest
forged = record signed { signature = "v0=0000" }

digest_is_ascii :
    is_ascii
      (codes (genuine_signature signed.raw_body signed.timestamp signed.signature sample_world))
    ≡ true
digest_is_ascii = refl

verify_slack_signature_iff_example :
    ((verify_slack_signature signed.raw_body "0" "v0=00ff" sample_world).0 ≡ ok true)
    ↔ IsGenuine signed.raw_body "0" "v0=00ff" sample_world
verify_slack_signature_iff_example =
    verify_slack_signature_iff signed.raw_body "0" "v0=00ff" sample_world digest_is_ascii

forged_is_not : IsGenuine forged.raw_body forged.timestamp forged.signature sample_world → ⊥
forged_is_not (ts, read, fresh, same) =
    let equal : ("v0=0000" == "v0=00ff") ≡ true = (eq_iff "v0=0000" "v0=00ff").1 same in absurd (cc)

forged_interaction_refused_example :
    let answered = serve saver "facts" "reasoning" (interaction forged) sample_world in
    ((answered.0.status ≡ 401) ⊎ (answered.0.status ≡ 500))
    × (answered.1.db ≡ sample_db)
    × (answered.1.sent ≡ [])
forged_interaction_refused_example =
    forged_interaction_refused saver "facts" "reasoning" forged sample_world digest_is_ascii
      forged_is_not

reviews_check_agrees_example :
    (p : ReviewsPage) × (s : Summary ℤ) × ((reviews_check sample_world).0 ≡ ok (reviews p))
    × ((run_due_reviews sample_world).0 ≡ ok s)
    × ((reviews_check sample_world).1 ≡ (run_due_reviews sample_world).1)
    × Lists p s
reviews_check_agrees_example = reviews_check_agrees sample_world due sample_due

run_sync_answers_example :
    IsAnswer 2 (serve saver "facts" "reasoning" (run_sync 2 none) sample_world).0
run_sync_answers_example =
    run_sync_answers "facts" "reasoning" saver saver-IsCheckpointer 2 none sample_world

start_run_answers_example :
    IsStarted saver "facts" "reasoning" none sample_world
      (serve saver "facts" "reasoning" (start_run none) sample_world)
start_run_answers_example =
    start_run_answers saver "facts" "reasoning" none sample_world (ground arith)
