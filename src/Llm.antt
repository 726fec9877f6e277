-- ===== src/Llm.antt =====
-- llm.py: the single gateway to the language model.
pub mod Attempts
use wager.Prelude.{ℕ, zero, suc, String, Option, none, some, List, [], ◌∷◌, concat}
use wager.Errors.{foreign_error, llm_validation_error}
use wager.Exec.{pure, raise, ◌>>=◌, ◌>>◌}
use wager.World.{Action, Reply, answered, raised, get_services, send, asked_llm}

abbrev pub max_attempts : ℕ
max_attempts = 2

-- The prompt of an attempt: the second one has the error of the first.
abbrev pub messages_of : String → String → Option String → List (String × String)
messages_of system user none = ("system", system) ∷ ("user", user) ∷ []
messages_of system user (some error) =
    ("system", system)
    ∷ (
      "user",
      concat (
          user ∷ "\n\nYour previous response failed schema validation:\n" ∷ error
          ∷ "\nReturn corrected JSON matching the schema." ∷ []),
    )
    ∷ []

abbrev error_text : Option String → String
error_text none = "None"
error_text (some e) = e

module _ {F T : Type 0} (validate : Option String → Reply T) where
  abbrev pub reply_of : Reply (Option String) → Action F (Reply T)
  reply_of (answered content) = pure (validate content)
  reply_of (raised e) = raise (foreign_error e)

module _ {F T : Type 0} (validate : Option String → Reply T) (system user : String) where
  -- One chat completion; what the SDK raises passes through.
  abbrev pub ask : Option String → Action F (Reply T)
  ask last_error = do
    services ← get_services
    send asked_llm
    reply_of validate (services.chat (messages_of system user last_error))

  -- The attempts that are left, with the last validation error.
  unfoldable pub attempts : ℕ → Option String → Action F T
  attempts zero last_error = raise (
      llm_validation_error (
        concat
          ("LLM output failed schema validation after 2 attempts: " ∷ error_text last_error ∷ [])))
  attempts (suc k) last_error = do
    reply ← ask last_error
    elim reply [ answered t ↦ pure t | raised e ↦ attempts k (some e) ]

  unfoldable pub call_llm : Action F T
  unfolding attempts
  call_llm = attempts max_attempts none
