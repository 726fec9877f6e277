-- ===== src/Integrations.antt =====
-- integrations/base.py: every function of `integrations/` returns a `FetchResult`.
pub mod Issues
pub mod Bounds
pub mod Slack
pub mod Signature
pub mod Github
pub mod Posthog
pub mod Google
pub mod Keeps
use wager.Prelude.{ℕ, leb, Bool, Option, none, some}
use wager.Models.{DataFlag}

pub record FetchResult (A : Type 0) : Type 0 where
  pub value : Option A
  pub error : Option DataFlag

module _ {A : Type 0} where
  abbrev pub success : A → FetchResult A
  success a = record { value = some a; error = none }

  abbrev pub failure : DataFlag → FetchResult A
  failure flag = record { value = none; error = some flag }

-- `FetchResult(None, None)`: the success of a function with no value.
abbrev pub done : FetchResult (Unit {0})
done = record { value = none; error = none }

-- `resp.status_code >= 400`
abbrev pub is_error_status : ℕ → Bool
is_error_status = leb 400
