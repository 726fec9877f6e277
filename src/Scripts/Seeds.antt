-- ===== src/Scripts/Seeds.antt =====
-- The data of scripts/seed_demo.py: the demo bets, by the day on which the script runs. A day before the 29th
-- day of year 1, from which a date cannot go that far back, is not covered.
use wager.Prelude.{ℕ, ◌+◌, ◌-◌, String, List, [], ◌∷◌, concat}
use wager.Prelude.Dates.{iso_date}
use wager.Models.{Date}

pub record SeedSpec (F : Type 0) : Type 0 where
  pub key : String
  pub hypothesis : String
  pub predicted_lift : F
  pub metric_name : String
  pub metric_query : String
  pub meeting_date : Date
  pub review_date : Date
  pub facts : List String
  pub assumptions : List String
  pub options : List String

-- `_lift_query(count_event, denom_event, key).format(ship=ship.isoformat())`
unfoldable pub lift_query : String → String → String → Date → String
lift_query count_event denom_event key ship = concat (
    "SELECT round(100 * ((countIf(event = '"
    ∷ count_event
    ∷ "' AND timestamp >= '"
    ∷ iso_date ship
    ∷ "') / countIf(event = '"
    ∷ denom_event
    ∷ "' AND timestamp >= '"
    ∷ iso_date ship
    ∷ "')) - (countIf(event = '"
    ∷ count_event
    ∷ "' AND timestamp < '"
    ∷ iso_date ship
    ∷ "') / countIf(event = '"
    ∷ denom_event
    ∷ "' AND timestamp < '"
    ∷ iso_date ship
    ∷ "'))), 2) AS lift_pp FROM events WHERE distinct_id LIKE 'seed-"
    ∷ key
    ∷ "-%'"
    ∷ [])

-- `S1_SHIP`, `S2_SHIP` and `S3_SHIP`, and `D1_SHIP`.
abbrev pub seed_ship : Date → Date
seed_ship today = today - 21

abbrev pub demo_ship : Date → Date
demo_ship today = today - 1

-- The float literals are a parameter, in tenths.
module _ {F : Type 0} (tenths : ℕ → F) (today : Date) where
  abbrev pub seed_s1 : SeedSpec F
  seed_s1 = record {
    key = "S1";
    hypothesis = "Guest checkout lifts conversion +10pp in 1 week";
    predicted_lift = tenths 100;
    metric_name = "checkout_conversion";
    metric_query = lift_query "checkout_completed" "checkout_started" "S1" (seed_ship today);
    meeting_date = seed_ship today - 7;
    review_date = seed_ship today + 7;
    facts =
        ("Guest checkout was requested by 8 of 10 enterprise prospects [seed]"
          ∷ "Checkout completion sat at 50% before the change [seed]" ∷ []);
    assumptions = ("Forced account creation is the main checkout drop-off driver [seed]" ∷ []);
    options =
        ("Ship guest checkout [seed]" ∷ "Keep forced signup and add reassurance copy [seed]" ∷ []);
  }

  abbrev pub seed_s2 : SeedSpec F
  seed_s2 = record {
    key = "S2";
    hypothesis = "Onboarding tooltip tour lifts activation +8pp in 2 weeks";
    predicted_lift = tenths 80;
    metric_name = "signup_activation";
    metric_query = lift_query "signup_activated" "signup_started" "S2" (seed_ship today);
    meeting_date = seed_ship today - 7;
    review_date = seed_ship today + 14;
    facts =
        ("Activation rate was 50% before the tooltip tour shipped [seed]"
          ∷ "Users skipped the docs page in droves [seed]" ∷ []);
    assumptions = ("Users activate when shown the key feature early [seed]" ∷ []);
    options =
        ("Ship the onboarding tooltip tour [seed]" ∷ "Rely on the empty-state page [seed]" ∷ []);
  }

  abbrev pub seed_s3 : SeedSpec F
  seed_s3 = record {
    key = "S3";
    hypothesis = "Dark mode lifts 7-day retention +5pp in 2 weeks";
    predicted_lift = tenths 50;
    metric_name = "retention_7d";
    metric_query = lift_query "retained_7d" "signup_started" "S3" (seed_ship today);
    meeting_date = seed_ship today - 7;
    review_date = seed_ship today + 14;
    facts =
        ("7-day retention was 30% before dark mode shipped [seed]"
          ∷ "Dark mode was the most upvoted community request [seed]" ∷ []);
    assumptions = ("Comfort (eye strain) drives users away, not feature gaps [seed]" ∷ []);
    options = ("Ship dark mode [seed]" ∷ "Ship a theme API instead [seed]" ∷ []);
  }

  abbrev pub seed_d1 : SeedSpec F
  seed_d1 = record {
    key = "D1";
    hypothesis = "Inline upgrade prompt lifts trial-to-paid +6pp in 2 weeks";
    predicted_lift = tenths 60;
    metric_name = "trial_to_paid";
    metric_query = lift_query "upgraded" "trial_started" "D1" (demo_ship today);
    meeting_date = today - 2;
    review_date = today + 1;
    facts =
        ("Trial-to-paid sat at 12% before the prompt [seed]"
          ∷ "Competitors prompt inline at the paywall [seed]" ∷ []);
    assumptions = ("Users convert when asked at the moment of value [seed]" ∷ []);
    options = ("Ship the inline upgrade prompt [seed]" ∷ "Ship an email drip instead [seed]" ∷ []);
  }

  -- `[*SEEDS, D1]`
  unfoldable pub all_seeds : List (SeedSpec F)
  all_seeds = seed_s1 ∷ seed_s2 ∷ seed_s3 ∷ seed_d1 ∷ []
