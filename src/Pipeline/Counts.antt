-- ===== src/Pipeline/Counts.antt =====
-- The summary of `run_due_reviews`.
use wager.Prelude.{
  ℕ, suc, ◌+◌, ◌≤◌, ◌≡◌, refl, List, [], ◌∷◌, ◌++◌, length, select, if◌then◌else◌, arith,
  length-append,
}
use wager.Models.{Bet}
use wager.Exec.{Result, ok, err, ◌>>=◌}
use wager.Floats.{Floats}
use wager.World.{World}
use wager.Store.Reads.{due_bets}
use native.Mathlib.Nat.{add-zero, add-suc, suc-add, zero-add}
use wager.State.{BetState}
use wager.Pipeline.Graphs.{
  ReviewResult, Summary, failed_entry, final_entry, empty_summary, tally, review, review_all,
  run_due_reviews,
}

module _ {F : Type 0} where
  abbrev pub resolved_results : List (ReviewResult F) → List (ReviewResult F)
  resolved_results = select (λ r. r.resolved)

  length-select_append :
      (xs : List (ReviewResult F)) (x : ReviewResult F)
      → length (resolved_results (xs ++ x ∷ []))
        ≡ length (resolved_results xs) + (if x.resolved then 1 else 0)
  length-select_append [] x = ground arith
  length-select_append (y ∷ xs) x = ground (arith, length-select_append xs x)

  -- The summary of n bets: one entry for each, `resolved` counts the resolved entries, a resolved
  -- bet is a checked one, and a bet that is not checked is flagged.
  pub record IsSummary (n : ℕ) (s : Summary F) : Type 0 where
    pub entries : length s.results ≡ n
    pub resolved_entries : s.resolved ≡ length (resolved_results s.results)
    pub resolved_checked : s.resolved ≤ s.checked_bets
    pub checked_le : s.checked_bets ≤ n
    pub flagged_le : s.flagged ≤ n
    pub covered : n ≤ s.checked_bets + s.flagged

  tally-IsSummary :
      (n : ℕ) (bet : Bet F) (r : Result (BetState F)) (s : Summary F)
      → IsSummary n s
      → IsSummary (suc n) (tally bet r s)
  unfolding tally
  tally-IsSummary n bet (err e) s h = ground (
    arith,
    length-append s.results (failed_entry bet e ∷ []),
    length-select_append s.results (failed_entry bet e),
  )
  tally-IsSummary n bet (ok final) s h = ground (
    arith,
    length-append s.results (final_entry final ∷ []),
    length-select_append s.results (final_entry final),
  )

module _ {F : Type 0} ⦃fl : Floats F⦄ where
  review_all-IsSummary :
      (bs : List (Bet F)) (n : ℕ) (s : Summary F) (w : World F)
      → IsSummary n s
      → (t : Summary F) × ((review_all bs s w).0 ≡ ok t) × IsSummary (n + length bs) t
  unfolding review_all ◌>>=◌
  review_all-IsSummary [] n s w h = (s, refl, rw add-zero h)
  review_all-IsSummary (b ∷ bs) n s w h =
      let (t, run, k) =
        review_all-IsSummary bs (suc n) (tally b (review b w).0 s) (review b w).1
          (tally-IsSummary n b (review b w).0 s h) in
      (t, run, rw add-suc (rw suc-add at k))

  -- Where the due bets can be read, run_due_reviews returns, whatever the run of each bet does,
  -- with one entry for each due bet; resolved counts the resolved entries and is at most checked,
  -- neither checked nor flagged exceeds the number of due bets, and together they reach it.
  pub run_due_reviews_counts :
      (w : World F) (bs : List (Bet F))
      → due_bets w.host.settings.demo_mode w ≡ (ok bs, w)
      → (t : Summary F) × ((run_due_reviews w).0 ≡ ok t) × IsSummary (length bs) t
  unfolding run_due_reviews ◌>>=◌
  run_due_reviews_counts w bs h = rw h (
      let (t, run, k) = review_all-IsSummary bs 0 empty_summary w (omega arith) in
      (t, run, rw zero-add at k))
