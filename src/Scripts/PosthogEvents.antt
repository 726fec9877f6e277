-- ===== src/Scripts/PosthogEvents.antt =====
-- The data of scripts/seed_posthog.py: its events, by the day on which the script runs.
use wager.Prelude.{ℕ, zero, suc, ◌+◌, ◌-◌, String, List, [], ◌∷◌, map, concat, show_ℕ}
use mathlib.Core.List.{flatten}
use wager.Models.{Date}
use wager.Scripts.Seeds.{seed_ship, demo_ship}

pub data Cohort : Type 0 where
  before after : Cohort

abbrev pub cohort_text : Cohort → String
cohort_text before = "before"
cohort_text after = "after"

-- The key of a bet with its ship date and its events: their name, count and cohort.
pub record SeedEvents : Type 0 where
  pub key : String
  pub ship : Date
  pub entries : List (String × (ℕ × Cohort))

-- `EVENTS`, with the dates of `SHIP_BY_KEY`.
unfoldable pub seed_events : Date → List SeedEvents
seed_events today =
    record {
      key = "S1";
      ship = seed_ship today;
      entries =
          ("checkout_started", (100, before))
          ∷ ("checkout_completed", (50, before))
          ∷ ("checkout_started", (100, after))
          ∷ ("checkout_completed", (62, after))
          ∷ [];
    }
    ∷ record {
      key = "S2";
      ship = seed_ship today;
      entries =
          ("signup_started", (100, before))
          ∷ ("signup_activated", (50, before))
          ∷ ("signup_started", (100, after))
          ∷ ("signup_activated", (51, after))
          ∷ [];
    }
    ∷ record {
      key = "S3";
      ship = seed_ship today;
      entries =
          ("signup_started", (1000, before))
          ∷ ("retained_7d", (300, before))
          ∷ ("signup_started", (1000, after))
          ∷ ("retained_7d", (399, after))
          ∷ [];
    }
    ∷ record {
      key = "D1";
      ship = demo_ship today;
      entries =
          ("trial_started", (100, before))
          ∷ ("upgraded", (12, before))
          ∷ ("trial_started", (100, after))
          ∷ ("upgraded", (18, after))
          ∷ [];
    }
    ∷ []

pub record SeedEvent : Type 0 where
  pub event : String
  pub distinct_id : String
  pub seed : String
  pub timestamp : Date

abbrev pub day_of : Cohort → Date → Date
day_of before ship = ship - 1
day_of after ship = ship + 1

-- `for i in range(count)`, from an index on.
unfoldable pub entry_events : SeedEvents → String → Cohort → ℕ → ℕ → List SeedEvent
entry_events s event cohort i zero = []
entry_events s event cohort i (suc count) =
    record {
      event = event;
      distinct_id = concat ("seed-" ∷ s.key ∷ "-" ∷ cohort_text cohort ∷ "-" ∷ show_ℕ i ∷ []);
      seed = s.key;
      timestamp = day_of cohort s.ship;
    }
    ∷ entry_events s event cohort (suc i) count

abbrev pub key_events : SeedEvents → List SeedEvent
key_events s =
    flatten (map (λ (event, (count, cohort)). entry_events s event cohort 0 count) s.entries)

-- `_events_payload()`
unfoldable pub events_payload : Date → List SeedEvent
events_payload today = flatten (map key_events (seed_events today))
