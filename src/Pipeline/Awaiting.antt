-- ===== src/Pipeline/Awaiting.antt =====
-- pipeline/nodes/phase1_effects.py: a bet that awaits its review, whatever GitHub and the calendar answer.
use wager.Prelude.{String, true, ◌≡◌, refl, sym, Option, none, some, List, [], ◌∷◌, arith}
use wager.Models.{Uuid, Source, DataFlag, BetRow}
use wager.Models.Values.{status_of}
use wager.Exec.{Result, ok, err, ◌>>=◌}
use wager.Floats.{Floats}
use wager.Db.{Db, find_bet}
use wager.Db.Rows.{find_bet-update_bets, find_bet-id}
use wager.World.{World}
use wager.World.Keeps.{Keeps, Keeps-bind, keeps_rules}
use wager.Sql.{update_bet}
use wager.Store.{append_flag}
use wager.Store.Fields.{
  Column, Value, str, write_row, column_of, known_fields, unknown_fields, any_malformed_date,
  set_column, set_columns, update_row, update_bet_fields,
}
use wager.Store.Reads.{awaits_review}
use wager.Integrations.Keeps.{services_rules}
use wager.State.{BetState}
use wager.Pipeline.Effects.{
  text_value, flag_and_go_on, after_issue, after_event, link_github, schedule_review,
}

module _ {F : Type 0} (i : Uuid) where
  -- The bet's row is CONFIRMED or SCHEDULED.
  abbrev pub Awaits : Db F → Type 0
  Awaits d = (b : BetRow F) × (find_bet i d.bets ≡ some b) × (awaits_review b.status ≡ true)

  updated-Awaits :
      (b : BetRow F) (f : BetRow F → BetRow F) (w : World F)
      → find_bet i w.db.bets ≡ some b
      → ((c : BetRow F) → i ≡ c.id → (f c).id ≡ i)
      → awaits_review (f b).status ≡ true
      → Awaits (update_bet i f w).1.db
  unfolding update_bet
  updated-Awaits b f w found same h =
      (f b, rw (find_bet-update_bets i i f w.db.bets same) (rw found (ground arith)), h)

  append_flag-Awaits : (g : DataFlag) → Keeps Awaits (append_flag i g)
  unfolding append_flag
  append_flag-Awaits g = Keeps-bind _ _ (search keeps_rules) λ services.
      Keeps-bind _ _
        (record { at = λ w (b, found, h). updated-Awaits b _ w found (λ c same. sym same) h })
        (λ _. search keeps_rules)

  -- The row that an UPDATE writes for one that awaits its review.
  abbrev RowAwaits : BetRow F → Result (BetRow F) → Type 0
  RowAwaits b (ok row) = (row.id ≡ b.id) × (awaits_review row.status ≡ true)
  RowAwaits b (err e) = Unit

  write_row-Awaits :
      (b : BetRow F) (r : Result (BetRow F)) (w : World F)
      → find_bet i w.db.bets ≡ some b
      → awaits_review b.status ≡ true
      → RowAwaits b r
      → Awaits (write_row i r w).1.db
  unfolding ◌>>=◌ update_bet
  write_row-Awaits b (ok row) w found h (same, awaits) =
      updated-Awaits b (λ _. row) w found (λ c _. let k = find_bet-id i b w.db.bets found in cc)
        awaits
  write_row-Awaits b (err e) w found h k = (b, found, h)

  update_row-Awaits :
      (fs : List (Column × Value F))
      → ((b : BetRow F) → awaits_review b.status ≡ true → RowAwaits b (set_columns fs b))
      → Keeps Awaits (update_row i fs)
  unfolding update_row ◌>>=◌
  update_row-Awaits fs sets = record {
    at = λ w (b, found, h). rw found (write_row-Awaits b (set_columns fs b) w found h (sets b h));
  }

  issue_row :
      (v : Option String) (b : BetRow F)
      → awaits_review b.status ≡ true
      → RowAwaits b (set_columns ((Column.github_issue_url, text_value v) ∷ []) b)
  unfolding set_columns set_column
  issue_row none b h = (refl, h)
  issue_row (some t) b h = (refl, h)

  event_row :
      (v : Option String) (b : BetRow F)
      → awaits_review b.status ≡ true
      → RowAwaits b (
          set_columns
            ((Column.calendar_event_id, text_value v) ∷ (Column.status, str "SCHEDULED") ∷ [])
            b)
  unfolding set_columns set_column status_of
  event_row none b h = (refl, refl)
  event_row (some t) b h = (refl, refl)

  issue-Awaits :
      (v : Option String)
      → Keeps Awaits (update_bet_fields i (("github_issue_url", text_value v) ∷ []))
  unfolding update_bet_fields known_fields unknown_fields column_of any_malformed_date
  issue-Awaits v =
      Keeps-bind _ _ (search keeps_rules)
        (λ _. Keeps-bind _ _ (search keeps_rules) (λ _. update_row-Awaits _ (issue_row v)))

  event-Awaits :
      (v : Option String)
      → Keeps Awaits (
          update_bet_fields i
            (("calendar_event_id", text_value v) ∷ ("status", str "SCHEDULED") ∷ []))
  unfolding update_bet_fields known_fields unknown_fields column_of any_malformed_date
  event-Awaits v =
      Keeps-bind _ _ (search keeps_rules)
        (λ _. Keeps-bind _ _ (search keeps_rules) (λ _. update_row-Awaits _ (event_row v)))

module _ {F : Type 0} where
  go_on-Awaits :
      (c : Source) (p : String) (e : DataFlag) (s : BetState F)
      → Keeps (Awaits s.bet_id) (flag_and_go_on c p e s)
  go_on-Awaits c p e s = search (keeps_rules, append_flag-Awaits)

  after_issue-Awaits :
      (e : Option DataFlag) (v : Option String) (s : BetState F)
      → Keeps (Awaits s.bet_id) (after_issue e v s)
  after_issue-Awaits (some e) v s = go_on-Awaits _ _ e s
  after_issue-Awaits none v s = search (keeps_rules, issue-Awaits)

  after_event-Awaits :
      (e : Option DataFlag) (v : Option String) (s : BetState F)
      → Keeps (Awaits s.bet_id) (after_event e v s)
  after_event-Awaits (some e) v s = go_on-Awaits _ _ e s
  after_event-Awaits none v s = search (keeps_rules, event-Awaits)

  pub schedule_review-Awaits : (s : BetState F) → Keeps (Awaits s.bet_id) (schedule_review s)
  unfolding schedule_review
  schedule_review-Awaits s = search (services_rules, after_event-Awaits)

module _ {F : Type 0} ⦃fl : Floats F⦄ where
  pub link_github-Awaits : (s : BetState F) → Keeps (Awaits s.bet_id) (link_github s)
  unfolding link_github
  link_github-Awaits s = search (services_rules, after_issue-Awaits)
