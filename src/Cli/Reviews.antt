-- ===== src/Cli/Reviews.antt =====
-- The command `check-due-reviews` of cli.py.
use text.Mathlib.Text.{◌==◌}
use wager.Prelude.{String, Option, none, some, List, [], ◌∷◌, concat, show_ℕ, if◌then◌else◌}
use wager.Errors.{type_error}
use wager.Errors.Formats.{Formats, exception_text}
use wager.Exec.{Result, ok, err}
use wager.Floats.{Floats}
use wager.Pipeline.Graphs.{
  FlagText, of_exception, of_message, ReviewResult, Summary, run_due_reviews,
}
use wager.Cli.{Output, Command, returned, crash, or_none, echo_then}

-- `r.get("flag") or "no metric fetched"`.
abbrev pub flag_line : Formats → Option FlagText → String
flag_line f none = "no metric fetched"
flag_line f (some (of_exception e)) = exception_text f e
flag_line f (some (of_message t)) = if t == "" then "no metric fetched" else t

module _ {F : Type 0} where
  abbrev pub flagged_line : Formats → ReviewResult F → String
  flagged_line f r =
      concat ("⚑ " ∷ or_none (λ t. t) r.metric_name ∷ ": flagged — " ∷ flag_line f r.flag ∷ [])

  abbrev pub totals_line : Summary F → String
  totals_line s = concat (
      "checked: "
      ∷ show_ℕ s.checked_bets
      ∷ ", resolved: "
      ∷ show_ℕ s.resolved
      ∷ ", flagged: "
      ∷ show_ℕ s.flagged
      ∷ [])

module _ {F : Type 0} ⦃fl : Floats F⦄ where
  abbrev verdict : F → F → String
  verdict tolerance delta =
      if fl.leb (fl.abs delta) tolerance then "✅ supports" else "❌ contradicts"

  -- The format `:+` of None raises, as `abs(None)` does.
  unfoldable pub verdict_line : F → Option String → Option F → Option F → Option F → Result String
  verdict_line tolerance name (some predicted) (some actual) (some delta) = ok (
      concat (
        verdict tolerance delta
        ∷ " "
        ∷ or_none (λ t. t) name
        ∷ ": predicted "
        ∷ fl.show_signed predicted
        ∷ "pp, actual "
        ∷ fl.show_signed actual
        ∷ "pp → delta "
        ∷ fl.show_signed delta
        ∷ "pp"
        ∷ []))
  verdict_line tolerance name none _ _ = err type_error
  verdict_line tolerance name (some predicted) none _ = err type_error
  verdict_line tolerance name (some predicted) (some actual) none = err type_error

  unfoldable pub result_line : Formats → F → ReviewResult F → Result String
  result_line f tolerance r =
      if r.resolved
      then verdict_line tolerance r.metric_name r.predicted_lift r.actual_lift r.delta
      else ok (flagged_line f r)

  -- The loop over the results, and the lines after it.
  unfoldable pub review_lines : Formats → F → List (ReviewResult F) → String → Output
  review_lines f tolerance [] totals = returned ("" ∷ totals ∷ [])
  review_lines f tolerance (r ∷ rs) totals =
      echo_then (result_line f tolerance r) (review_lines f tolerance rs totals)

  abbrev pub summary_output : Formats → F → Result (Summary F) → Output
  summary_output f tolerance (ok s) = review_lines f tolerance s.results (totals_line s)
  summary_output f tolerance (err e) = crash e

  unfoldable pub check_due_reviews : Command F
  check_due_reviews w = (
    summary_output w.host.services.formats w.host.settings.bet_tolerance_pp (run_due_reviews w).0,
    (run_due_reviews w).1,
  )
