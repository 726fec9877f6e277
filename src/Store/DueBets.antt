-- ===== src/Store/DueBets.antt =====
-- `due_bets` of graph/store.py: the rows that it selects and the bets it makes of them.
use mathlib.Core.List.{Memᴰ}
use wager.Prelude.{
  Bool, true, false, ◌≡◌, ◌⊎◌, ◌≤◌, inl, inr, refl, Option, none, some, List, [], ◌∷◌, select, All,
  All-map-implies, Bool-cases, arith,
}
use wager.Models.{Date, DataFlag, BetStatus, BetRow, Bet}
use wager.Models.Flags.{flags_from_json}
use wager.Errors.Formats.{Formats}
use wager.Exec.{Result, ok, for_list, ◌>>=◌}
use wager.World.{World}
use wager.Store.Reads.{awaits_review, has_come, is_due, bet_view, bet_of, due_bets}

awaited :
    (s : BetStatus) → awaits_review s ≡ true → (s ≡ BetStatus.confirmed) ⊎ (s ≡ BetStatus.scheduled)
awaited s h = ground arith

come :
    (today : Date) (o : Option Date)
    → has_come today o ≡ true
    → (d : Date) × (o ≡ some d) × (d ≤ today)
come today none h = absurd (cc)
come today (some d) h = (d, refl, ground arith)

module _ {F : Type 0} where
  -- The flags of the row can be read back.
  abbrev pub IsReadable : Formats → BetRow F → Type 0
  IsReadable formats r = (fs : List DataFlag) × (flags_from_json formats r.flags ≡ some fs)

  -- Confirmed or scheduled, and in the demo mode or with a review date that is not after today.
  abbrev pub IsDue : Bool → Date → BetRow F → Type 0
  IsDue demo_mode today r =
      ((r.status ≡ BetStatus.confirmed) ⊎ (r.status ≡ BetStatus.scheduled))
      × ((demo_mode ≡ true) ⊎ ((d : Date) × (r.review_date ≡ some d) × (d ≤ today)))

  -- The bet of the row, as far as a review reads it.
  abbrev pub IsBetOf : Formats → BetRow F → Bet F → Type 0
  IsBetOf formats r b =
      (b.id ≡ r.id)
      × (b.doc_id ≡ r.doc_id)
      × (b.meeting_date ≡ r.meeting_date)
      × (flags_from_json formats r.flags ≡ some b.flags)

  -- The bets are those of the rows that are due, and of no others.
  abbrev pub Selects : Formats → Bool → Date → List (BetRow F) → List (Bet F) → Type 0
  Selects formats demo_mode today rs bs =
      All (λ b. (r : BetRow F) × Memᴰ r rs × IsDue demo_mode today r × IsBetOf formats r b) bs
      × All (λ r. IsDue demo_mode today r → (b : Bet F) × Memᴰ b bs × IsBetOf formats r b) rs

  -- The result is the bets of the due rows of the table, and the world as it was.
  abbrev pub IsSelection : Bool → World F → Result (List (Bet F)) × World F → Type 0
  IsSelection demo_mode w r =
      (bs : List (Bet F)) × (r ≡ (ok bs, w))
      × Selects w.host.services.formats demo_mode w.host.current_date w.db.bets bs

  is_due_sound :
      (demo_mode : Bool) (today : Date) (r : BetRow F)
      → is_due demo_mode today r ≡ true
      → IsDue demo_mode today r
  is_due_sound true today r h = (awaited r.status (ground arith), inl refl)
  is_due_sound false today r h =
      (awaited r.status (ground arith), inr (come today r.review_date (ground arith)))

  is_due_complete :
      (demo_mode : Bool) (today : Date) (r : BetRow F)
      → IsDue demo_mode today r
      → is_due demo_mode today r ≡ true
  is_due_complete demo_mode today r (status, inl demo) = ground arith
  is_due_complete demo_mode today r (status, inr (d, dated, reached)) = rw dated (ground arith)

  Selects-skip :
      (formats : Formats) (demo_mode : Bool) (today : Date) (r : BetRow F) (rs : List (BetRow F))
      (bs : List (Bet F))
      → is_due demo_mode today r ≡ false
      → Selects formats demo_mode today rs bs
      → Selects formats demo_mode today (r ∷ rs) bs
  Selects-skip formats demo_mode today r rs bs not_due (from_rows, to_bets) = (
    All-map-implies bs (λ b (row, there, due, made). (row, Memᴰ.tail there, due, made)) from_rows,
    (λ due. let e = is_due_complete demo_mode today r due in absurd (cc), to_bets),
  )

  Selects-take :
      (formats : Formats) (demo_mode : Bool) (today : Date) (r : BetRow F) (rs : List (BetRow F))
      (b : Bet F) (bs : List (Bet F))
      → is_due demo_mode today r ≡ true
      → IsBetOf formats r b
      → Selects formats demo_mode today rs bs
      → Selects formats demo_mode today (r ∷ rs) (b ∷ bs)
  Selects-take formats demo_mode today r rs b bs due made (from_rows, to_bets) = (
    (
      (r, Memᴰ.head refl, is_due_sound demo_mode today r due, made),
      All-map-implies bs (λ c (row, there, d, m). (row, Memᴰ.tail there, d, m)) from_rows,
    ),
    (
      λ _. (b, Memᴰ.head refl, made),
      All-map-implies rs (λ row k d. let (c, there, m) = k d in (c, Memᴰ.tail there, m)) to_bets,
    ),
  )

  selection :
      (demo_mode : Bool) (rs : List (BetRow F)) (w : World F)
      → All (IsReadable w.host.services.formats) rs
      → (bs : List (Bet F)) × (for_list (select (is_due demo_mode w.host.current_date) rs) bet_of w
          ≡ (ok bs, w))
        × Selects w.host.services.formats demo_mode w.host.current_date rs bs
  unfolding for_list ◌>>=◌
  selection demo_mode [] w h = ([], refl, (tt, tt))
  selection demo_mode (r ∷ rs) w ((fs, read), h) =
      let formats = w.host.services.formats in
      let today = w.host.current_date in
      let (bs, run, selects) = selection demo_mode rs w h in
      elim (Bool-cases (is_due demo_mode today r)) [
        | inl due ↦ (
          bet_view r fs ∷ bs,
          rw due (rw read (rw run refl)),
          Selects-take formats demo_mode today r rs (bet_view r fs) bs due (refl, refl, refl, read)
              selects,
        )
        | inr not_due ↦
            (bs, rw not_due run, Selects-skip formats demo_mode today r rs bs not_due selects)
      ]

  -- If the flags of every bet can be read back, due_bets returns and changes nothing. Each of its
  -- bets has the id, document, meeting date and flags of a row that is CONFIRMED or SCHEDULED and,
  -- outside the demo mode, has a review date that is not after today; and each such row has its
  -- bet among them.
  pub due_bets_lem :
      (demo_mode : Bool) (w : World F)
      → All (IsReadable w.host.services.formats) w.db.bets
      → IsSelection demo_mode w (due_bets demo_mode w)
  unfolding due_bets ◌>>=◌
  due_bets_lem demo_mode w h = selection demo_mode w.db.bets w h
