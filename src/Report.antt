-- ===== src/Report.antt =====
-- report/render.py: the text of the report.
use wager.Prelude.{
  String, Bool, Option, none, some, List, [], ◌∷◌, ◌++◌, map, any, if◌then◌else◌, concat, join,
  show_ℕ,
}
use text.Mathlib.Text.{◌==◌}
use wager.Models.{DataFlag}
use wager.Models.Values.{source_value}
use wager.Errors.{type_error}
use wager.Exec.{Result, ok, err}
use wager.Floats.{Floats}
use wager.Store.Reads.{Calibration}

-- What the report reads of the bet and of the outcome; a None prints as "None", but for the delta.
pub record BetView (F : Type 0) : Type 0 where
  pub hypothesis : String
  pub metric_name : Option String
  pub predicted_lift : Option F
  pub window : String

pub record OutcomeView (F : Type 0) : Type 0 where
  pub actual_lift : Option F
  pub delta : Option F
  pub supports : Bool
  pub tolerance : F
  pub assumption_content : Option String

abbrev pub or_none : Option String → String
or_none none = "None"
or_none (some t) = t

unfoldable pub flag_lines : List DataFlag → List String
flag_lines = map (λ f. concat ("⚠\u{fe0f} " ∷ source_value f.source ∷ ": " ∷ f.message ∷ []))

module _ {F : Type 0} ⦃fl : Floats F⦄ where
  abbrev pub show_lift : Option F → String
  show_lift none = "None"
  show_lift (some x) = fl.show x

  -- A delta of None cannot be formatted with its sign.
  abbrev pub result_lines : BetView F → OutcomeView F → List DataFlag → Result (List String)
  result_lines bet outcome flags = elim outcome.actual_lift [
    | none ↦ ok (
        concat (
          "  Could not fetch metric from PostHog"
          ∷ (if any (λ f. f.message == "posthog_timeout") flags then " (timeout)" else "")
          ∷ ". Will retry on next review check."
          ∷ [])
        ∷ [])
    | some actual ↦ elim outcome.delta [
      | none ↦ err type_error
      | some delta ↦ ok (
          concat (
            "  Predicted: +"
            ∷ show_lift bet.predicted_lift
            ∷ "pp "
            ∷ or_none bet.metric_name
            ∷ " in "
            ∷ bet.window
            ∷ [])
          ∷ concat (
              "  Actual:    "
              ∷ fl.show_signed actual
              ∷ "pp → delta "
              ∷ fl.show_signed delta
              ∷ "pp → "
              ∷ (if outcome.supports then "✅ supports" else "❌ contradicts")
              ∷ " (tolerance ±"
              ∷ fl.show outcome.tolerance
              ∷ "pp)"
              ∷ [])
          ∷ [])
    ]
  ]

  -- The calibration of an empty table has no mean.
  abbrev pub calibration_line : Calibration F → String
  calibration_line c = elim c.mean_abs_delta [
    | none ↦ "  PM calibration: no resolved bets yet"
    | some mean ↦ elim c.hit_rate [
      | none ↦ "  PM calibration: no resolved bets yet"
      | some rate ↦ concat (
          "  PM calibration: mean |delta| = "
          ∷ fl.show_tenths mean
          ∷ "pp across "
          ∷ show_ℕ c.n_resolved
          ∷ " resolved bets, "
          ∷ show_ℕ (fl.percent rate)
          ∷ "% within tolerance"
          ∷ [])
    ]
  ]

  -- The lines around those of the result.
  abbrev pub around :
      BetView F → OutcomeView F → Calibration F → List DataFlag → List String → List String
  around bet outcome calibration flags result =
      concat ("📊 Bet resolved: \"" ∷ bet.hypothesis ∷ "\"" ∷ [])
      ∷ (result
          ++ (calibration_line calibration
              ∷ concat (
                  (if outcome.supports then "  Key assumption held: " else "  Weakest assumption: ")
                  ∷ or_none outcome.assumption_content
                  ∷ [])
              ∷ flag_lines flags))

  unfoldable pub build_report_text :
      BetView F → OutcomeView F → Calibration F → List DataFlag → Result String
  build_report_text bet outcome calibration flags = elim (result_lines bet outcome flags) [
    | ok result ↦ ok (join "\n" (around bet outcome calibration flags result))
    | err e ↦ err e
  ]
