-- ===== src/Store/Due.antt =====
-- `write_outcome` of graph/store.py and the rows that `due_bets` selects.
use wager.Prelude.{String, Bool, false, ◌&&◌, ◌≡◌, refl, List, [], ◌∷◌, ◌==◌, any, arith}
use wager.Models.{Uuid, Date, BetStatus, BetRow}
use wager.Exec.{◌>>=◌}
use wager.Floats.{Floats}
use wager.Db.{Db, has_outcome, update_bets}
use wager.World.{World}
use wager.World.Keeps.{Keeps-pure}
use wager.World.Ensures.{IsOk, Ensures, Ensures-first, Ensures-last}
use wager.Sql.{update_bet}
use wager.Store.Decisions.{record_outcome, write_outcome}
use wager.Store.Reads.{is_due}

module _ {F : Type 0} where
  abbrev pub NotDue : Uuid → Bool → Date → Db F → Type 0
  NotDue bet demo_mode today d = any (λ b. bet == b.id && is_due demo_mode today b) d.bets ≡ false

  resolved-NotDue :
      (bet : Uuid) (demo_mode : Bool) (today : Date) (bs : List (BetRow F))
      → any
          (λ b. bet == b.id && is_due demo_mode today b)
          (update_bets bet (λ b. record b { status = BetStatus.resolved }) bs)
        ≡ false
  unfolding update_bets
  resolved-NotDue bet demo_mode today [] = refl
  resolved-NotDue bet demo_mode today (b ∷ bs) =
      ground (arith, resolved-NotDue bet demo_mode today bs)

  update_bet-NotDue :
      (bet : Uuid) (demo_mode : Bool) (today : Date)
      → Ensures
          (NotDue bet demo_mode today)
          (update_bet bet (λ b. record b { status = BetStatus.resolved }))
  unfolding update_bet
  update_bet-NotDue bet demo_mode today = record {
    at = λ w h. resolved-NotDue bet demo_mode today w.db.bets;
  }

module _ {F : Type 0} ⦃fl : Floats F⦄ (bet h : Uuid) (a p : F) (b : Bool) (c : String)
    (demo_mode : Bool) (today : Date) where
  record_outcome-NotDue : Ensures (NotDue bet demo_mode today) (record_outcome bet h a p b c)
  unfolding record_outcome
  record_outcome-NotDue = Ensures-last _ _ λ _. Ensures-last _ _ λ _. Ensures-last _ _ λ _.
      Ensures-last _ _ λ _. Ensures-last _ _ λ _. Ensures-last _ _ λ _. Ensures-last _ _ λ _.
        Ensures-last _ _ λ _.
          Ensures-last _ _
            λ _. Ensures-first _ _ (update_bet-NotDue bet demo_mode today) (λ _. Keeps-pure tt)

  -- A bet without an outcome whose grade is recorded is not due any more, on no day and in no
  -- mode.
  pub write_outcome-NotDue :
      (w : World F)
      → has_outcome bet w.db.outcomes ≡ false
      → IsOk (write_outcome bet h a p b c w).0
      → NotDue bet demo_mode today (write_outcome bet h a p b c w).1.db
  unfolding write_outcome ◌>>=◌
  write_outcome-NotDue w new k = rw new (record_outcome-NotDue.at w (rw new at k))
