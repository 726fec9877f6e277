-- ===== src/Integrations/Signature.antt =====
-- `verify_slack_signature` of integrations/slack.py. Bytes are numbers below 256; `time.time()` is taken to
-- the microsecond.
pub mod Genuine
use Prim.Native.Nat.{◌/◌, ◌%◌}
use wager.Prelude.{
  ℕ, ◌+◌, ◌-◌, ◌*◌, Bool, true, false, ◌&&◌, String, Option, none, some, List, [], ◌∷◌, ◌++◌, ltb,
  leb, if◌then◌else◌, codes, concat,
}
use text.Mathlib.Text.{◌==◌}
use wager.Prelude.Int.{ℤ, pos, negsuc}
use wager.Models.{Instant}
use wager.Errors.{type_error}
use wager.Exec.{pure, raise, ◌>>=◌}
use wager.World.{Action, get_settings, get_services, draw_now}

abbrev pub stale_seconds : ℕ
stale_seconds = 300

-- The UTF-8 bytes of one code point.
unfoldable pub utf8_char : ℕ → List ℕ
utf8_char c =
    if ltb c 128
    then c ∷ []
    else if ltb c 2048
    then (192 + c / 64) ∷ (128 + c % 64) ∷ []
    else if ltb c 65536
    then (224 + c / 4096) ∷ (128 + c / 64 % 64) ∷ (128 + c % 64) ∷ []
    else (240 + c / 262144) ∷ (128 + c / 4096 % 64) ∷ (128 + c / 64 % 64) ∷ (128 + c % 64) ∷ []

utf8_codes : List ℕ → List ℕ
unfolding utf8_char
utf8_codes [] = []
utf8_codes (c ∷ cs) = utf8_char c ++ utf8_codes cs

-- `text.encode("utf-8")`.
unfoldable pub utf8 : String → List ℕ
unfolding utf8_codes
utf8 t = utf8_codes (codes t)

-- The distance of two numbers.
abbrev pub distance : ℕ → ℕ → ℕ
distance a b = if leb a b then b - a else a - b

-- `abs(time.time() - ts) > _STALE_SECONDS`.
abbrev pub is_stale : Instant → ℤ → Bool
is_stale now (pos ts) = ltb (stale_seconds * 1000000) (distance now (ts * 1000000))
is_stale now (negsuc n) = ltb (stale_seconds * 1000000) (now + (n + 1) * 1000000)

abbrev pub signed_base : String → List ℕ → List ℕ
signed_base timestamp body = utf8 "v0:" ++ (utf8 timestamp ++ (utf8 ":" ++ body))

-- f"v0={digest}"
abbrev pub digest_of : (List ℕ → List ℕ → String) → String → String → List ℕ → String
digest_of hmac secret timestamp body =
    concat ("v0=" ∷ hmac (utf8 secret) (signed_base timestamp body) ∷ [])

abbrev pub is_ascii : List ℕ → Bool
is_ascii [] = true
is_ascii (c ∷ cs) = ltb c 128 && is_ascii cs

module _ {F : Type 0} where
  -- `hmac.compare_digest` on texts: it refuses a text that is not ASCII.
  abbrev pub compare_digest : String → String → Action F Bool
  compare_digest digest signature =
      if is_ascii (codes digest) && is_ascii (codes signature)
      then pure (digest == signature)
      else raise type_error

  abbrev pub check_digest : List ℕ → String → String → Action F Bool
  check_digest body timestamp signature = do
    settings ← get_settings
    services ← get_services
    compare_digest (digest_of services.hmac_sha256 settings.slack_signing_secret timestamp body)
        signature

  abbrev pub check_fresh : Option ℤ → List ℕ → String → String → Action F Bool
  check_fresh none body timestamp signature = pure false
  check_fresh (some ts) body timestamp signature = do
    now ← draw_now
    if is_stale now ts then pure false else check_digest body timestamp signature

  unfoldable pub verify_slack_signature : List ℕ → String → String → Action F Bool
  verify_slack_signature body timestamp signature = do
    services ← get_services
    check_fresh (services.int_of (codes timestamp)) body timestamp signature
