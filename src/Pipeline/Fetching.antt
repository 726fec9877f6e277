-- ===== src/Pipeline/Fetching.antt =====
-- `fetch_metric` of pipeline/nodes/phase2.py, with the query of integrations/posthog.py.
use wager.Prelude.{
  suc, ◌<◌, ◌≤◌, ◌≡◌, refl, String, true, ◌⊎◌, some, none, [], ◌∷◌, ◌++◌, Bool-cases, inl, inr,
  concat, show_ℕ, arith,
}
use wager.Models.{Source, Severity, DataFlag}
use wager.Models.Flags.{flag_to_json}
use wager.Exec.{Result, ok, ◌>>=◌}
use wager.Db.{has_bet, update_bets}
use wager.World.{World, Http, answered, raised, timed_out, failed, response, ran_query}
use wager.Sql.{update_bet}
use wager.Store.{append_flag}
use wager.Integrations.{is_error_status}
use wager.Integrations.Posthog.{posthog_flag, read_metric, run_hogql}
use wager.State.{BetState}
use wager.Pipeline.Review.{after_query, fetch_metric}

module _ {F : Type 0} where
  -- The query has been sent, and the lift is set; the database is as it was.
  abbrev pub Fetched : F → BetState F → World F → Result (BetState F) × World F → Type 0
  Fetched x s w r =
      r ≡ (ok (record s { actual_lift = some x }), record w { sent = ran_query ∷ w.sent })

  -- The flag of PostHog with a message.
  abbrev flag_of : String → World F → DataFlag
  flag_of message w = record {
    source = Source.posthog;
    severity = Severity.warning;
    message = message;
    created_at = w.host.now w.draws;
  }

  -- The query has been sent, no lift is set, and the flag is in the state and in the row.
  abbrev pub Flagged : String → BetState F → World F → Result (BetState F) × World F → Type 0
  Flagged message s w r =
      let flag = flag_of message w in
      let written = flag_to_json w.host.services.formats flag in
      r ≡ (
        ok (record s { actual_lift = none; flags = s.flags ++ flag ∷ [] }),
        record w {
          sent = ran_query ∷ w.sent;
          draws = suc w.draws;
          db = record w.db {
            bets =
                update_bets s.bet_id (λ b. record b { flags = b.flags ++ written ∷ [] }) w.db.bets;
          };
        },
      )

  -- What the node makes of each reply.
  abbrev pub FetchOutcome : Http F → BetState F → World F → Result (BetState F) × World F → Type 0
  FetchOutcome (timed_out e) s w r = Flagged "posthog_timeout" s w r
  FetchOutcome (failed e) s w r = Flagged (concat ("posthog_error: " ∷ e ∷ [])) s w r
  FetchOutcome (response status (raised e)) s w r =
      ((status < 400) × Flagged "posthog_empty_result" s w r)
      ⊎ ((400 ≤ status) × Flagged (concat ("posthog_error: " ∷ show_ℕ status ∷ [])) s w r)
  FetchOutcome (response status (answered x)) s w r =
      ((status < 400) × Fetched x s w r)
      ⊎ ((400 ≤ status) × Flagged (concat ("posthog_error: " ∷ show_ℕ status ∷ [])) s w r)

  -- A query that fails.
  after_flag :
      (message : String) (s : BetState F) (w : World F)
      → has_bet s.bet_id w.db.bets ≡ true
      → Flagged message s w (
          (posthog_flag message >>= λ result. after_query result.error result.value s)
            (record w { sent = ran_query ∷ w.sent }))
  unfolding append_flag update_bet ◌>>=◌
  after_flag message s w exists = rw exists refl

  after_reply :
      (reply : Http F) (s : BetState F) (w : World F)
      → has_bet s.bet_id w.db.bets ≡ true
      → FetchOutcome reply s w (
          (read_metric reply >>= λ result. after_query result.error result.value s)
            (record w { sent = ran_query ∷ w.sent }))
  unfolding ◌>>=◌
  after_reply (timed_out e) s w h = after_flag _ s w h
  after_reply (failed e) s w h = after_flag _ s w h
  after_reply (response status (raised e)) s w h = elim (Bool-cases (is_error_status status)) [
    | inl bad ↦ inr (ground arith, rw bad (after_flag _ s w h))
    | inr fine ↦ inl (ground arith, rw fine (after_flag _ s w h))
  ]
  after_reply (response status (answered x)) s w h = elim (Bool-cases (is_error_status status)) [
    | inl bad ↦ inr (ground arith, rw bad (after_flag _ s w h))
    | inr fine ↦ inl (ground arith, rw fine refl)
  ]

  -- For a bet that exists, fetch_metric sends one query and returns, whatever PostHog replies. A
  -- number under a status below 400 becomes the actual lift, and the database stays as it was. A
  -- timeout, another failure, a status of 400 or more, and a body without a number each leave no
  -- lift and add one warning of PostHog, with its own message, to the state and to the bet's row,
  -- and nothing else is written.
  pub fetch_metric_lem :
      (s : BetState F) (w : World F)
      → has_bet s.bet_id w.db.bets ≡ true
      → FetchOutcome (w.host.services.hogql s.metric_query) s w (fetch_metric s w)
  unfolding fetch_metric run_hogql ◌>>=◌
  fetch_metric_lem s w h = after_reply (w.host.services.hogql s.metric_query) s w h
