-- ===== src/Pipeline/Reporting.antt =====
-- `report_outcome` of pipeline/nodes/phase2.py and the database.
use wager.Prelude.{◌≡◌, refl}
use wager.Floats.{Floats}
use wager.World.{World}
use wager.State.{BetState}
use wager.Pipeline.Review.{report_outcome}
use wager.Pipeline.Runs.{report_outcome-Keeps}

-- The node report_outcome leaves the database as it was, however the report and the comment are
-- answered; so the flags of their failures are not in the bet's row.
pub report_outcome_unwritten :
    {F : Type 0} ⦃fl : Floats F⦄ (s : BetState F) (w : World F) → (report_outcome s w).1.db ≡ w.db
report_outcome_unwritten s w = (report_outcome-Keeps {Q = λ d. d ≡ w.db} s).at w refl
