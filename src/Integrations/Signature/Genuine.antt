-- ===== src/Integrations/Signature/Genuine.antt =====
-- What `verify_slack_signature` accepts.
use wager.Prelude.{
  ℕ, suc, ◌+◌, ◌*◌, ◌≤◌, ◌≡◌, ◌↔◌, refl, String, true, false, Option, none, some, List, codes, sym,
  arith, Bool-cases, inl, inr,
}
use text.Mathlib.Text.{◌==◌}
use text.Mathlib.TextEquality.{eq_iff}
use wager.Prelude.Int.{ℤ, pos, negsuc}
use wager.Models.{Instant}
use wager.Exec.{ok, ◌>>=◌}
use wager.World.{World}
use wager.Integrations.Signature.{
  is_stale, is_ascii, compare_digest, digest_of, check_fresh, verify_slack_signature,
}

-- The timestamp, in seconds, is at most 300 seconds before or after now, in microseconds.
abbrev pub IsFresh : Instant → ℤ → Type 0
IsFresh now (pos ts) = (now ≤ (ts + 300) * 1000000) × (ts * 1000000 ≤ now + 300 * 1000000)
IsFresh now (negsuc n) = now + (n + 1) * 1000000 ≤ 300 * 1000000

is_stale_iff : (now : Instant) (ts : ℤ) → (is_stale now ts ≡ false) ↔ IsFresh now ts
is_stale_iff now (pos ts) = ground arith
is_stale_iff now (negsuc n) = ground arith

module _ {F : Type 0} (digest signature : String) (w : World F) where
  compare_digest_iff :
      is_ascii (codes digest) ≡ true
      → ((compare_digest digest signature w).0 ≡ ok true) ↔ (signature ≡ digest)
  compare_digest_iff ascii = (forward, backward)
    where
      forward : (compare_digest digest signature w).0 ≡ ok true → signature ≡ digest
      forward h = elim (Bool-cases (is_ascii (codes signature))) [
        | inl same ↦
            let t : ok (digest == signature) ≡ ok true = rw ascii at (rw same at h) in
            sym ((eq_iff digest signature).0 (cc t))
        | inr other ↦ let t = rw ascii at (rw other at h) in cc t
      ]

      backward : signature ≡ digest → (compare_digest digest signature w).0 ≡ ok true
      backward e = rw e (rw ascii (rw ((eq_iff digest digest).1 refl) refl))

module _ {F : Type 0} (body : List ℕ) (timestamp signature : String) (w : World F) where
  -- The digest of the base text under the secret of the settings.
  abbrev pub genuine_signature : String
  genuine_signature =
      digest_of w.host.services.hmac_sha256 w.host.settings.slack_signing_secret timestamp body

  abbrev pub IsGenuine : Type 0
  IsGenuine =
      (ts : ℤ) × (w.host.services.int_of (codes timestamp) ≡ some ts)
      × IsFresh (w.host.now w.draws) ts
      × (signature ≡ genuine_signature)

  check_fresh_iff :
      (ts : Option ℤ)
      → is_ascii (codes genuine_signature) ≡ true
      → ((check_fresh ts body timestamp signature w).0 ≡ ok true) ↔ (
          (t : ℤ) × (ts ≡ some t)
          × IsFresh (w.host.now w.draws) t
          × (signature ≡ genuine_signature))
  unfolding ◌>>=◌
  check_fresh_iff none h = (λ e. cc, λ (t, e, fresh, same). cc)
  check_fresh_iff (some ts) h = elim (Bool-cases (is_stale (w.host.now w.draws) ts)) [
    | inl stale ↦
        rw stale
          (λ e. cc, λ (t, e, fresh, same). cc ((is_stale_iff (w.host.now w.draws) t).1 fresh))
    | inr fresh ↦
        let now = record w { draws = suc w.draws } in
        let digests = compare_digest_iff genuine_signature signature now h in
        rw fresh (
          λ e. (ts, refl, (is_stale_iff (w.host.now w.draws) ts).0 fresh, digests.0 e),
          λ (t, e, recent, same). digests.1 same,
        )
  ]

  -- verify_slack_signature accepts a request exactly when its timestamp is the text of an integer
  -- at most 300 seconds before or after now and its signature is that of the body and the
  -- timestamp under the signing secret, if the digest's text is ASCII.
  pub verify_slack_signature_iff :
      is_ascii (codes genuine_signature) ≡ true
      → ((verify_slack_signature body timestamp signature w).0 ≡ ok true) ↔ IsGenuine
  unfolding verify_slack_signature ◌>>=◌
  verify_slack_signature_iff h = check_fresh_iff (w.host.services.int_of (codes timestamp)) h
