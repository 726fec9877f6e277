-- ===== src/Api/Forgery.antt =====
-- `/slack/interactions` for a request that Slack has not signed, or not lately.
use wager.Prelude.{
  ℕ, suc, ◌&&◌, ◌≡◌, ◌⊎◌, inl, inr, refl, String, Bool, true, false, Option, none, some, List,
  codes, Bool-cases,
}
use wager.Prelude.Int.{ℤ}
use wager.Errors.{type_error}
use wager.Exec.{Result, ok, err, ◌>>=◌}
use wager.Floats.{Floats}
use wager.World.{World}
use wager.Integrations.Signature.{
  is_stale, is_ascii, check_fresh, compare_digest, verify_slack_signature,
}
use wager.Integrations.Signature.Genuine.{IsGenuine, genuine_signature, verify_slack_signature_iff}
use wager.Pipeline.Invoke.{Checkpointer}
use wager.Api.{handle}
use wager.Api.Webhook.{SlackRequest, slack_interactions}
use wager.Api.Serve.{serve, interaction}

module _ {F : Type 0} where
  -- The verification leaves the database and the services alone; it answers, or refuses the text.
  abbrev Verified : World F → Result Bool × World F → Type 0
  Verified w r =
      (r.1.db ≡ w.db)
      × (r.1.sent ≡ w.sent)
      × (r.1.host ≡ w.host)
      × (((b : Bool) × (r.0 ≡ ok b)) ⊎ (r.0 ≡ err type_error))

  compare_digest-Verified :
      (digest signature : String) (n : ℕ) (w : World F)
      → Verified w (compare_digest digest signature (record w { draws = n }))
  compare_digest-Verified digest signature n w =
      elim (Bool-cases (is_ascii (codes digest) && is_ascii (codes signature))) [
        | inl e ↦ rw e (refl, refl, refl, inl (_, refl))
        | inr e ↦ rw e (refl, refl, refl, inr refl)
      ]

  check_fresh-Verified :
      (ts : Option ℤ) (body : List ℕ) (timestamp signature : String) (w : World F)
      → Verified w (check_fresh ts body timestamp signature w)
  unfolding ◌>>=◌
  check_fresh-Verified none body timestamp signature w = (refl, refl, refl, inl (false, refl))
  check_fresh-Verified (some ts) body timestamp signature w =
      elim (Bool-cases (is_stale (w.host.now w.draws) ts)) [
        | inl stale ↦ rw stale (refl, refl, refl, inl (false, refl))
        | inr fresh ↦ rw fresh (
            compare_digest-Verified (genuine_signature body timestamp signature w) signature
              (suc w.draws) w)
      ]

  verify-Verified :
      (body : List ℕ) (timestamp signature : String) (w : World F)
      → Verified w (verify_slack_signature body timestamp signature w)
  unfolding verify_slack_signature ◌>>=◌
  verify-Verified body timestamp signature w = check_fresh-Verified _ body timestamp signature w

module _ {F : Type 0} ⦃fl : Floats F⦄ (saver : Checkpointer F)
    (facts_prompt reasoning_prompt : String) where
  -- A request to /slack/interactions without a genuine and fresh signature is answered with 401 or
  -- 500, and leaves the database and the services alone, if the digest's text is ASCII.
  pub forged_interaction_refused :
      (request : SlackRequest) (w : World F)
      → is_ascii (codes (genuine_signature request.raw_body request.timestamp request.signature w))
        ≡ true
      → ¬ IsGenuine request.raw_body request.timestamp request.signature w
      → let answered = serve saver facts_prompt reasoning_prompt (interaction request) w in
        ((answered.0.status ≡ 401) ⊎ (answered.0.status ≡ 500))
        × (answered.1.db ≡ w.db)
        × (answered.1.sent ≡ w.sent)
  unfolding serve slack_interactions handle ◌>>=◌
  forged_interaction_refused request w ascii forged =
      let (same_db, same_sent, same_host, verdict) =
        verify-Verified request.raw_body request.timestamp request.signature w in
      elim verdict [
        | inl (true, v) ↦ absurd (
            forged (
              (verify_slack_signature_iff request.raw_body request.timestamp request.signature w
                  ascii).0
                v))
        | inl (false, v) ↦ rw v (inl refl, same_db, same_sent)
        | inr v ↦ rw v (inr refl, same_db, same_sent)
      ]
