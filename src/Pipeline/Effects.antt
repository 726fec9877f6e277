-- ===== src/Pipeline/Effects.antt =====
-- pipeline/nodes/phase1_effects.py: the GitHub issue and the calendar event.
use wager.Prelude.{String, Option, none, some, [], ◌∷◌, ◌++◌, take, head?, codes, concat, show_uuid}
use wager.Prelude.Dates.{iso_date}
use wager.Models.{Date, Source, Severity, DataFlag}
use wager.Errors.{index_error}
use wager.Exec.{pure, or_raise, ◌>>=◌, ◌>>◌}
use wager.Floats.{Floats}
use wager.World.{new_flag, with_conn}
use wager.Store.{append_flag}
use wager.Store.Fields.{Value, null, str, update_bet_fields}
use wager.Integrations.Github.{create_or_comment_issue}
use wager.Integrations.Google.{create_review_event}
use wager.Report.{or_none, show_lift}
use wager.State.{NodeFn, add_flags}

abbrev show_date : Option Date → String
show_date none = "None"
show_date (some d) = iso_date d

module _ {F : Type 0} where
  abbrev pub text_value : Option String → Value F
  text_value none = null
  text_value (some t) = str t

  -- A failed side effect is flagged, in the state and in `bets.flags`, and the run goes on.
  abbrev pub flag_and_go_on : Source → String → DataFlag → NodeFn F
  flag_and_go_on source prefix error state = do
    flag ← new_flag source Severity.critical (concat (prefix ∷ error.message ∷ []))
    with_conn (append_flag state.bet_id flag)
    pure (add_flags state (flag ∷ []))

  -- What follows a call: its `result.error` and its `result.value`.
  abbrev pub after_issue : Option DataFlag → Option String → NodeFn F
  after_issue (some error) url state =
      flag_and_go_on Source.github "github_write_failed: " error state
  after_issue none url state = do
    with_conn (update_bet_fields state.bet_id (("github_issue_url", text_value url) ∷ []))
    pure (record state { github_issue_url = url })

  abbrev pub after_event : Option DataFlag → Option String → NodeFn F
  after_event (some error) event state =
      flag_and_go_on Source.gcal "calendar_write_failed: " error state
  after_event none event state = do
    with_conn (
        update_bet_fields state.bet_id
          (("calendar_event_id", text_value event) ∷ ("status", str "SCHEDULED") ∷ []))
    pure (record state { calendar_event_id = event })

  unfoldable pub schedule_review : NodeFn F
  schedule_review state = do
    result ←
        create_review_event state.review_date
          (concat ("Review bet: " ∷ or_none state.metric_name ∷ []))
          (concat (or_none state.metric_query ∷ "\n\nbet_id: " ∷ show_uuid state.bet_id ∷ []))
    after_event result.error result.value state

module _ {F : Type 0} ⦃fl : Floats F⦄ where
  unfoldable pub link_github : NodeFn F
  link_github state = do
    hypothesis ← or_raise (head? state.hypotheses) index_error
    result ←
        create_or_comment_issue state.bet_id (codes "Bet: " ++ take 80 (codes hypothesis.content)) (
          concat (
            "Hypothesis: "
            ∷ hypothesis.content
            ∷ "\nMetric: "
            ∷ or_none state.metric_name
            ∷ "\nPredicted lift: +"
            ∷ show_lift state.predicted_lift
            ∷ "pp\nReview date: "
            ∷ show_date state.review_date
            ∷ []))
    after_issue result.error result.value state
