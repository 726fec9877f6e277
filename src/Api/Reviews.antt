-- ===== src/Api/Reviews.antt =====
-- The route `/reviews/check` of api/routes.py.
use wager.Prelude.{◌+◌, List, [], ◌∷◌, ◌++◌, map, if◌then◌else◌}
use wager.Models.{Bet}
use wager.Errors.Formats.{Formats, exception_text}
use wager.Exec.{Result, ok, err, pure, ◌>>=◌}
use wager.Floats.{Floats}
use wager.World.{Action, get_settings, get_services, with_conn}
use wager.Store.Reads.{due_bets}
use wager.State.{BetState}
use wager.Pipeline.Graphs.{is_set, has_flags, attempt, review}
use wager.Api.{ReviewsPage, Body, reviews}

abbrev pub empty_page : ReviewsPage
empty_page = record { checked_bets = 0; resolved = []; flagged = [] }

module _ {F : Type 0} where
  -- What one round of the loop adds for a bet, by how its run ended.
  unfoldable pub add_review : Formats → Bet F → Result (BetState F) → ReviewsPage → ReviewsPage
  add_review f bet (err e) p = record p {
    flagged = p.flagged ++ (bet.id, exception_text f e ∷ []) ∷ [];
  }
  add_review f bet (ok final) p = record {
    checked_bets = p.checked_bets + 1;
    resolved = (if is_set final.delta then p.resolved ++ bet.id ∷ [] else p.resolved);
    flagged =
        (if has_flags final.flags
          then p.flagged ++ (bet.id, map (λ g. g.message) final.flags) ∷ []
          else p.flagged);
  }

module _ {F : Type 0} ⦃fl : Floats F⦄ where
  unfoldable pub check_all : List (Bet F) → ReviewsPage → Action F ReviewsPage
  check_all [] p = pure p
  check_all (bet ∷ bets) p = do
    services ← get_services
    final ← attempt (review bet)
    check_all bets (add_review services.formats bet final p)

  unfoldable pub reviews_check : Action F (Body F)
  reviews_check = do
    settings ← get_settings
    bets ← with_conn (due_bets settings.demo_mode)
    page ← check_all bets empty_page
    pure (reviews page)
