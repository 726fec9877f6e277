-- ===== src/Api/Agreement.antt =====
-- `/reviews/check` beside `run_due_reviews`, which the command line calls.
use wager.Prelude.{
  ℕ, ◌+◌, ◌≡◌, refl, ap, Bool, true, false, List, [], ◌∷◌, ◌++◌, length, if◌then◌else◌, arith,
  length-append,
}
use wager.Models.{Bet}
use wager.Errors.Formats.{Formats}
use wager.Exec.{Result, ok, err, ◌>>=◌}
use wager.Floats.{Floats}
use wager.World.{World}
use wager.Store.Reads.{due_bets}
use wager.State.{BetState}
use wager.Pipeline.Graphs.{
  Summary, is_set, has_flags, empty_summary, tally, review, review_all, run_due_reviews,
}
use wager.Api.{ReviewsPage, reviews}
use wager.Api.Reviews.{empty_page, add_review, check_all, reviews_check}

length_added :
    {A : Type 0} (b : Bool) (xs : List A) (x : A) (n : ℕ)
    → length xs ≡ n
    → length (if b then xs ++ x ∷ [] else xs) ≡ (if b then n + 1 else n)
length_added true xs x n h = omega (arith, length-append xs (x ∷ []))
length_added false xs x n h = h

module _ {F : Type 0} where
  -- The page lists what the summary counts.
  abbrev pub Lists : ReviewsPage → Summary F → Type 0
  Lists p s =
      (p.checked_bets ≡ s.checked_bets)
      × (length p.resolved ≡ s.resolved)
      × (length p.flagged ≡ s.flagged)

  add_review-Lists :
      (f : Formats) (bet : Bet F) (r : Result (BetState F)) (p : ReviewsPage) (s : Summary F)
      → Lists p s
      → Lists (add_review f bet r p) (tally bet r s)
  unfolding add_review tally
  add_review-Lists f bet (err e) p s (checks, resolves, flags) =
      (checks, resolves, length_added true p.flagged _ s.flagged flags)
  add_review-Lists f bet (ok final) p s (checks, resolves, flags) = (
    ap (λ n. n + 1) checks,
    length_added (is_set final.delta) p.resolved bet.id s.resolved resolves,
    length_added (has_flags final.flags) p.flagged _ s.flagged flags,
  )

module _ {F : Type 0} ⦃fl : Floats F⦄ where
  -- Both loops over the same bets.
  abbrev Agree : Result ReviewsPage × World F → Result (Summary F) × World F → Type 0
  Agree r q =
      (p : ReviewsPage) × (s : Summary F) × (r.0 ≡ ok p) × (q.0 ≡ ok s) × (r.1 ≡ q.1) × Lists p s

  check_all-Agree :
      (bets : List (Bet F)) (p : ReviewsPage) (s : Summary F) (w : World F)
      → Lists p s
      → Agree (check_all bets p w) (review_all bets s w)
  unfolding check_all review_all ◌>>=◌
  check_all-Agree [] p s w h = (p, s, refl, refl, refl, h)
  check_all-Agree (b ∷ bs) p s w h =
      check_all-Agree bs (add_review w.host.services.formats b (review b w).0 p)
        (tally b (review b w).0 s) (review b w).1
        (add_review-Lists w.host.services.formats b (review b w).0 p s h)

  -- Where the due bets can be read, /reviews/check and run_due_reviews both return and leave the
  -- same world, and the page counts as many checked bets as the summary and lists as many resolved
  -- and flagged ones as the summary counts.
  pub reviews_check_agrees :
      (w : World F) (bets : List (Bet F))
      → due_bets w.host.settings.demo_mode w ≡ (ok bets, w)
      → (p : ReviewsPage) × (s : Summary F) × ((reviews_check w).0 ≡ ok (reviews p))
        × ((run_due_reviews w).0 ≡ ok s)
        × ((reviews_check w).1 ≡ (run_due_reviews w).1)
        × Lists p s
  unfolding reviews_check run_due_reviews ◌>>=◌
  reviews_check_agrees w bets h = rw h (
      let (p, s, checks, counts, same, lists) =
        check_all-Agree bets empty_page empty_summary w (refl, refl, refl) in
      (p, s, rw checks refl, counts, rw checks same, lists))
