-- ===== src/Api/Webhook.antt =====
-- The route `/slack/interactions` of api/routes.py.
use text.Mathlib.Text.{◌==◌}
use wager.Prelude as Prelude
use wager.Prelude.{
  ℕ, String, Bool, true, false, not, Option, none, some, List, [], ◌∷◌, if◌then◌else◌, codes,
  concat,
}
use wager.Prelude.Int.{ℤ}
use wager.Prelude.Dates.{iso_date}
use wager.Models.{Uuid, Date, Source, Severity}
use wager.Errors.{plain, value_error, key_error, foreign_error, api_error, bad_signature}
use wager.Errors.Formats.{exception_text}
use wager.Exec.{Result, ok, err, pure, raise, or_raise, raise_if, ◌>>=◌, ◌>>◌}
use wager.World.{
  Action, Reply, answered, raised, SlackAction, Interaction, get_services, with_conn, new_flag,
}
use wager.Store.{append_flag}
use wager.Integrations.Signature.{verify_slack_signature}
use wager.State.{BetState}
use wager.Pipeline.Invoke.{Checkpointer}
use wager.Api.{Body, message}

pub record SlackRequest : Type 0 where
  -- The raw body, and the two headers, "" where one is missing.
  pub raw_body : List ℕ
  pub timestamp : String
  pub signature : String

abbrev is_colon : ℕ → Bool
is_colon c = Prelude.◌==◌ c 58

-- `text.split(":")[-1]`
after_colon : List ℕ → List ℕ → List ℕ
after_colon part [] = part
after_colon part (c ∷ cs) = after_colon (if is_colon c then [] else Prelude.◌++◌ part (c ∷ [])) cs

unfoldable pub last_part : String → List ℕ
unfolding after_colon
last_part t = after_colon [] (codes t)

abbrev is_block_actions : Option String → Bool
is_block_actions none = false
is_block_actions (some t) = t == "block_actions"

-- The first action, if the interaction is one that the route handles.
abbrev pub first_action : Interaction → Option SlackAction
first_action p = if is_block_actions p.kind then Prelude.head? p.actions else none

abbrev pub date_text : Option Date → String
date_text none = ""
date_text (some d) = iso_date d

module _ {F : Type 0} where
  abbrev pub read_interaction : Reply Interaction → Action F Interaction
  read_interaction (answered p) = pure p
  read_interaction (raised e) = raise (foreign_error e)

  abbrev pub recorded_text : BetState F → String
  recorded_text s =
      concat ("✅ Recorded. Bet tracked — I'll come back on " ∷ date_text s.review_date ∷ "." ∷ [])

  -- The `except Exception` of the resumption, and the reply.
  abbrev pub after_resume : Uuid → Result (BetState F) → Action F (Body F)
  after_resume bet (ok s) = pure (message (recorded_text s))
  after_resume bet (err e) = do
    services ← get_services
    with_conn (do
      flag ←
          new_flag Source.slack Severity.critical
            (concat ("slack_resume_failed: " ∷ exception_text services.formats e ∷ []))
      append_flag bet flag)
    pure (message "❌ Could not record the decision — it will be retried.")

module _ {F : Type 0} (saver : Checkpointer F) where
  -- The `try`: a checkpointer and the resumption of the bet's thread.
  abbrev pub resume_bet : Uuid → ℤ → Action F (BetState F)
  resume_bet bet index = saver.setup >> saver.resume bet index

  abbrev pub resume_and_reply : Uuid → ℤ → Action F (Body F)
  resume_and_reply bet index w =
      after_resume bet (resume_bet bet index w).0 (resume_bet bet index w).1

  -- The text of int()'s ValueError is without the argument that ends it.
  abbrev pub handle_action : Option SlackAction → Action F (Body F)
  handle_action none = pure (message "ignored")
  handle_action (some action) = do
    services ← get_services
    action_id ← or_raise action.action_id (key_error "action_id")
    index ←
        or_raise (services.int_of (last_part action_id))
          (value_error (plain "invalid literal for int() with base 10"))
    bet ← or_raise action.value (key_error "value")
    resume_and_reply bet index

  unfoldable pub slack_interactions : SlackRequest → Action F (Body F)
  slack_interactions request = do
    is_valid ← verify_slack_signature request.raw_body request.timestamp request.signature
    raise_if (not is_valid) (api_error bad_signature "invalid Slack signature" 401)
    services ← get_services
    payload ← read_interaction (services.loads request.raw_body)
    handle_action (first_action payload)
