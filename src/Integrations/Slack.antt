-- ===== src/Integrations/Slack.antt =====
-- integrations/slack.py: the confirmation message and the report. The exception of a call is its
-- text; `verify_slack_signature` is not modelled.
use wager.Prelude.{
  ℕ, suc, ◌+◌, ◌-◌, String, Bool, Option, none, some, List, [], ◌∷◌, ◌++◌, ◌==◌, leb, if◌then◌else◌,
  length, take, get_elem?, codes, concat,
}
use wager.Models.{Uuid, Source, Severity}
use wager.Exec.{pure, ◌>>=◌, ◌>>◌}
use wager.World.{
  Action, Reply, answered, raised, Button, get_services, new_flag, send, posted_blocks, posted_text,
}
use wager.Integrations.{FetchResult, failure, done}

abbrev pub button_text_limit : ℕ
button_text_limit = 75

-- `chr(ord("A") + index)`
abbrev pub option_letter : ℕ → ℕ
option_letter index = 65 + index

-- `f"{check}Choose {_option_letter(index)} — "`
abbrev pub button_prefix : Bool → ℕ → List ℕ
button_prefix proposed index =
    (if proposed then codes "✅ " else [])
    ++ (codes "Choose " ++ (option_letter index ∷ codes " — "))

-- `_button_text`, on code points.
unfoldable pub button_text : Bool → ℕ → List ℕ → List ℕ
button_text proposed index option =
    let prefix = button_prefix proposed index in
    let label = prefix ++ option in
    if leb (length label) button_text_limit
    then label
    else prefix ++ (take (button_text_limit - length prefix - 1) option ++ codes "…")

-- The elements of the `actions` block, from an index on.
unfoldable pub buttons_from : Uuid → ℕ → ℕ → List String → List Button
buttons_from bet proposed_index i [] = []
buttons_from bet proposed_index i (option ∷ options) =
    record {
      index = i;
      label = button_text (i == proposed_index) i (codes option);
      value = bet;
      primary = i == proposed_index;
    }
    ∷ buttons_from bet proposed_index (suc i) options

abbrev pub confirm_text : String → ℕ → String → List ℕ
confirm_text hypothesis_summary proposed_index option =
    codes "📝 *Bet confirmation needed*\n*Hypothesis:* "
    ++ (codes hypothesis_summary
        ++ (codes "\n*I believe you chose:* "
            ++ (option_letter proposed_index ∷ (codes " — " ++ codes option))))

module _ {F : Type 0} where
  -- The `except Exception` of both functions.
  abbrev pub post_result : Reply (Unit {0}) → Action F (FetchResult (Unit {0}))
  post_result (answered _) = pure done
  post_result (raised e) = do
    flag ← new_flag Source.slack Severity.critical (concat ("slack_post_failed: " ∷ e ∷ []))
    pure (failure flag)

  -- `options[proposed_index]` raises before anything is sent.
  abbrev pub post_chosen :
      Option String → Uuid → List String → ℕ → String → Action F (FetchResult (Unit {0}))
  post_chosen none bet options proposed_index summary =
      post_result (raised "list index out of range")
  post_chosen (some option) bet options proposed_index summary = do
    services ← get_services
    send (posted_blocks bet)
    post_result (
        services.post_blocks (confirm_text summary proposed_index option)
          (buttons_from bet proposed_index 0 options))

  unfoldable pub post_confirm : Uuid → List String → ℕ → String → Action F (FetchResult (Unit {0}))
  post_confirm bet options proposed_index hypothesis_summary =
      post_chosen (get_elem? options proposed_index) bet options proposed_index hypothesis_summary

  unfoldable pub post_report : String → Action F (FetchResult (Unit {0}))
  post_report text = do
    services ← get_services
    send (posted_text text)
    post_result (services.post_text text)
