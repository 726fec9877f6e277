-- ===== src/Cli/Summaries.antt =====
-- What `check-due-reviews` prints.
use wager.Prelude.{
  String, ◌≡◌, refl, ap, Option, none, some, List, [], ◌∷◌, ◌++◌, map, length, length-map, arith,
  All, if◌then◌else◌,
}
use wager.Models.{Bet}
use wager.Exec.{Result, ok, err, ◌>>=◌}
use wager.Errors.Formats.{Formats}
use wager.Floats.{Floats}
use wager.World.{World}
use wager.World.Ensures.{IsOk}
use wager.World.Yields.{Holds, All-append}
use wager.Store.Reads.{due_bets}
use wager.State.{BetState}
use wager.Pipeline.Graphs.{
  ReviewResult, Summary, empty_summary, is_set, tally, review, review_all, run_due_reviews,
}
use wager.Pipeline.Counts.{run_due_reviews_counts}
use wager.Cli.{Output, returned, echo_then}
use wager.Pipeline.Graded.{Graded, IsGraded, review-IsGraded}
use wager.Cli.Reviews.{verdict_line, result_line, review_lines, totals_line, check_due_reviews}

module _ {F : Type 0} ⦃fl : Floats F⦄ where
  module _ (f : Formats) (tolerance : F) where
    abbrev IsPrinted : ReviewResult F → Type 0
    IsPrinted r = IsOk (result_line f tolerance r)

    final_entry-IsPrinted :
        (name : Option String) (p a d : Option F) (t : String)
        → Graded p a d
        → IsOk (if is_set d then verdict_line tolerance name p a d else ok t)
    unfolding verdict_line
    final_entry-IsPrinted name p a none t h = tt
    final_entry-IsPrinted name none a (some d) t h = h
    final_entry-IsPrinted name (some p) none (some d) t h = h
    final_entry-IsPrinted name (some p) (some a) (some d) t h = tt

    tally-IsPrinted :
        (b : Bet F) (r : Result (BetState F)) (s : Summary F)
        → Holds IsGraded r
        → All IsPrinted s.results
        → All IsPrinted (tally b r s).results
    unfolding tally result_line
    tally-IsPrinted b (err e) s h k = All-append IsPrinted s.results _ k (tt, tt)
    tally-IsPrinted b (ok final) s h k = All-append IsPrinted s.results _ k (
      final_entry-IsPrinted final.metric_name final.predicted_lift final.actual_lift final.delta _
          h,
      tt,
    )

    review_all-IsPrinted :
        (bs : List (Bet F)) (s : Summary F) (w : World F)
        → All IsPrinted s.results
        → Holds (λ (t : Summary F). All IsPrinted t.results) (review_all bs s w).0
    unfolding review_all ◌>>=◌
    review_all-IsPrinted [] s w k = k
    review_all-IsPrinted (b ∷ bs) s w k =
        review_all-IsPrinted bs _ _
          (tally-IsPrinted b (review b w).0 s ((review-IsGraded b).at w) k)

    echo_then-returned :
        (x : Result String) (xs : List (Result String)) (o : Output) (rest : List String)
        → IsOk x
        → (lines : List String) × (o ≡ returned (lines ++ rest)) × (map (λ t. ok t) lines ≡ xs)
        → (lines : List String) × (echo_then x o ≡ returned (lines ++ rest))
          × (map (λ t. ok t) lines ≡ x ∷ xs)
    echo_then-returned (ok t) xs o rest h (lines, same, texts) =
        (t ∷ lines, rw same refl, ap (λ ts. ok t ∷ ts) texts)
    echo_then-returned (err e) xs o rest h k = absurd h

    -- The lines of results that can be printed.
    review_lines-returned :
        (rs : List (ReviewResult F)) (totals : String)
        → All IsPrinted rs
        → (lines : List String) × (review_lines f tolerance rs totals
            ≡ returned (lines ++ "" ∷ totals ∷ []))
          × (map (λ t. ok t) lines ≡ map (result_line f tolerance) rs)
    unfolding review_lines
    review_lines-returned [] totals h = ([], refl, refl)
    review_lines-returned (r ∷ rs) totals h =
        echo_then-returned (result_line f tolerance r) _ _ _ h.0
          (review_lines-returned rs totals h.1)

  results-IsPrinted :
      (f : Formats) (tolerance : F) (bs : List (Bet F)) (w : World F) (s : Summary F)
      → due_bets w.host.settings.demo_mode w ≡ (ok bs, w)
      → (run_due_reviews w).0 ≡ ok s
      → All (IsPrinted f tolerance) s.results
  unfolding run_due_reviews ◌>>=◌
  results-IsPrinted f tolerance bs w s due run =
      let k = review_all-IsPrinted f tolerance bs empty_summary w tt in
      let same = rw due at run in rw same at k

  -- Where the due bets can be read, check-due-reviews never fails on the format of a missing
  -- number: it prints one line for each due bet, which is that of its entry in the summary, then
  -- an empty line and the totals, and has the exit code 0.
  pub check_due_reviews_prints :
      (w : World F) (bs : List (Bet F))
      → due_bets w.host.settings.demo_mode w ≡ (ok bs, w)
      → (s : Summary F) × (lines : List String) × ((run_due_reviews w).0 ≡ ok s)
        × (length lines ≡ length bs)
        × (map (λ t. ok t) lines
            ≡ map (result_line w.host.services.formats w.host.settings.bet_tolerance_pp) s.results)
        × ((check_due_reviews w).0 ≡ returned (lines ++ "" ∷ totals_line s ∷ []))
  unfolding check_due_reviews
  check_due_reviews_prints w bs due =
      let (s, run, counts) = run_due_reviews_counts w bs due in
      let (lines, same, texts) =
        review_lines-returned w.host.services.formats w.host.settings.bet_tolerance_pp s.results
          (totals_line s) (results-IsPrinted _ _ bs w s due run) in
      let length_lines : length lines ≡ length bs = omega (
        arith,
        length-map (λ t. ok t) lines,
        length-map (result_line w.host.services.formats w.host.settings.bet_tolerance_pp) s.results,
        ap length texts,
        counts.entries,
      ) in
      (s, lines, run, length_lines, texts, rw run same)
