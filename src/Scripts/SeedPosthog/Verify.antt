-- ===== src/Scripts/SeedPosthog/Verify.antt =====
-- What the check of scripts/seed_posthog.py has found where it exits with 0.
use wager.Prelude.{
  ℕ, String, ◌≡◌, refl, Bool, true, false, any, Bool-cases, inl, inr, some, List, [], ◌∷◌, All,
}
use wager.Exec.{Result, ok, err, for_list, continue, pure, ◌>>=◌}
use wager.Floats.{Floats}
use wager.World.{World, Action, Services, answered, raised, Http, timed_out, failed, response}
use wager.Integrations.{is_error_status}
use wager.Integrations.Posthog.{read_metric, run_hogql}
use wager.Scripts.Seeds.{SeedSpec, all_seeds}
use wager.Scripts.SeedPosthog.{expected_lift, verify_result, verify_spec, verified, verify}

module _ {F : Type 0} ⦃fl : Floats F⦄ (tenths : ℕ → F) (is_close : F → Bool) where
  -- PostHog answers the bet's query with a number that is close to the expected lift.
  abbrev pub IsVerified : Services F → SeedSpec F → Type 0
  IsVerified services spec =
      (status : ℕ) × (lift : F) × (services.hogql (some spec.metric_query)
        ≡ response status (answered lift))
      × (is_error_status status ≡ false)
      × (is_close (fl.abs (fl.sub lift (expected_lift tenths spec.key))) ≡ true)

  abbrev Verdict : Services F → SeedSpec F → Result (String × Bool) → Type 0
  Verdict services spec (ok (line, true)) = Unit
  Verdict services spec (ok (line, false)) = IsVerified services spec
  Verdict services spec (err e) = Unit

  abbrev Checked : World F → SeedSpec F → Result (String × Bool) × World F → Type 0
  Checked w spec r = (r.1.host ≡ w.host) × Verdict w.host.services spec r.0

  reply-Checked :
      (spec : SeedSpec F) (reply : Http F) (w v : World F)
      → v.host ≡ w.host
      → w.host.services.hogql (some spec.metric_query) ≡ reply
      → Checked w spec (
          (read_metric reply >>= λ result.
          verify_result tenths is_close spec.key
            (expected_lift tenths spec.key)
            result.error
            result.value)
            v)
  unfolding verify_result ◌>>=◌
  reply-Checked spec (timed_out e) w v same h = (same, tt)
  reply-Checked spec (failed e) w v same h = (same, tt)
  reply-Checked spec (response status (raised e)) w v same h =
      elim (Bool-cases (is_error_status status)) [
        | inl bad ↦ rw bad (same, tt)
        | inr good ↦ rw good (same, tt)
      ]
  reply-Checked spec (response status (answered x)) w v same h =
      elim (Bool-cases (is_error_status status)) [
        | inl bad ↦ rw bad (same, tt)
        | inr good ↦
            elim (Bool-cases (is_close (fl.abs (fl.sub x (expected_lift tenths spec.key))))) [
              | inl close ↦ rw good (rw close (same, (status, x, h, good, close)))
              | inr far ↦ rw good (rw far (same, tt))
            ]
      ]

  verify_spec-Checked :
      (spec : SeedSpec F) (w : World F) → Checked w spec (verify_spec tenths is_close spec w)
  unfolding verify_spec run_hogql ◌>>=◌
  verify_spec-Checked spec w =
      reply-Checked spec (w.host.services.hogql (some spec.metric_query)) w _ refl refl

  abbrev AllVerified : Services F → List (SeedSpec F) → Result (List (String × Bool)) → Type 0
  AllVerified services specs (err e) = Unit
  AllVerified services specs (ok rs) = any (λ r. r.1) rs ≡ false → All (IsVerified services) specs

  cons-AllVerified :
      (spec : SeedSpec F) (specs : List (SeedSpec F)) (services : Services F) (b : String × Bool)
      (q : Result (List (String × Bool))) (v : World F)
      → Verdict services spec (ok b)
      → AllVerified services specs q
      → AllVerified services (spec ∷ specs) (continue q (λ bs. pure (b ∷ bs)) v).0
  cons-AllVerified spec specs services b (err e) v verdict others = tt
  cons-AllVerified spec specs services (t, true) (ok bs) v verdict others = λ h. absurd (cc)
  cons-AllVerified spec specs services (t, false) (ok bs) v verdict others =
      λ h. (verdict, others h)

  continue-AllVerified :
      (spec : SeedSpec F) (specs : List (SeedSpec F)) (services : Services F)
      (r : Result (String × Bool)) (rest : Action F (List (String × Bool))) (w : World F)
      → Verdict services spec r
      → AllVerified services specs (rest w).0
      → AllVerified services (spec ∷ specs) (continue r (λ b. rest >>= λ bs. pure (b ∷ bs)) w).0
  unfolding ◌>>=◌
  continue-AllVerified spec specs services (err e) rest w verdict others = tt
  continue-AllVerified spec specs services (ok b) rest w verdict others =
      cons-AllVerified spec specs services b (rest w).0 (rest w).1 verdict others

  specs-AllVerified :
      (specs : List (SeedSpec F)) (w : World F)
      → AllVerified w.host.services specs (for_list specs (verify_spec tenths is_close) w).0
  unfolding for_list ◌>>=◌
  specs-AllVerified [] w = λ h. tt
  specs-AllVerified (spec ∷ specs) w =
      let (same, verdict) = verify_spec-Checked spec w in
      continue-AllVerified spec specs w.host.services (verify_spec tenths is_close spec w).0
        (for_list specs (verify_spec tenths is_close)) (verify_spec tenths is_close spec w).1
        verdict (rw same at (specs-AllVerified specs (verify_spec tenths is_close spec w).1))

  passed-AllVerified :
      (specs : List (SeedSpec F)) (services : Services F) (q : Result (List (String × Bool)))
      (lines : List String) (v : World F)
      → AllVerified services specs q
      → (continue q (λ rs. pure (verified tenths is_close rs)) v).0 ≡ ok (lines, 0)
      → All (IsVerified services) specs
  passed-AllVerified specs services (err e) lines v all_good h = absurd (cc)
  passed-AllVerified specs services (ok rs) lines v all_good h =
      elim (Bool-cases (any (λ r. r.1) rs)) [
        | inl problems ↦ let k = rw problems at h in absurd (cc)
        | inr none_found ↦ all_good none_found
      ]

  -- Where --verify ends with the exit code 0, PostHog has answered the query of each seeded bet
  -- with a status below 400 and a number that is close to the bet's expected lift.
  pub verify_passes :
      (w : World F) (lines : List String)
      → (verify tenths is_close w).0 ≡ ok (lines, 0)
      → All (IsVerified w.host.services) (all_seeds tenths w.host.today)
  unfolding verify ◌>>=◌
  verify_passes w lines h =
      passed-AllVerified (all_seeds tenths w.host.today) w.host.services
        (for_list (all_seeds tenths w.host.today) (verify_spec tenths is_close) w).0 lines _
        (specs-AllVerified (all_seeds tenths w.host.today) w) h
