-- ===== src/Store/Fields.antt =====
-- `update_bet_fields` of graph/store.py: keyword arguments by name, checked against
-- `_ALLOWED_BET_FIELDS`, then one UPDATE. A `day` is a date or its ISO text; a `str` is no date.
use text.Mathlib.Text.{◌==◌}
use wager.Prelude.{String, Bool, true, false, Option, none, some, List, [], ◌∷◌, if◌then◌else◌}
use wager.Models.{Uuid, Date, BetRow}
use wager.Models.Values.{status_of}
use wager.Errors.{
  pipeline_error, value_error, plain, unknown_bet_fields, bet_not_found, database_error,
  check_violation, bad_value,
}
use wager.Exec.{Result, ok, err, None, pure, raise, raise_if, ◌>>=◌, ◌>>◌}
use wager.Db.{find_bet}
use wager.World.{Action}
use wager.Sql.{get_db, update_bet}

-- The names of `_ALLOWED_BET_FIELDS`.
pub data Column : Type 0 where
  doc_id meeting_date pm_slack_id status metric_name metric_query predicted_lift : Column
  review_date github_issue_url calendar_event_id : Column

unfoldable pub column_of : String → Option Column
column_of t =
    if t == "doc_id"
    then some doc_id
    else if t == "meeting_date"
    then some meeting_date
    else if t == "pm_slack_id"
    then some pm_slack_id
    else if t == "status"
    then some status
    else if t == "metric_name"
    then some metric_name
    else if t == "metric_query"
    then some metric_query
    else if t == "predicted_lift"
    then some predicted_lift
    else if t == "review_date"
    then some review_date
    else if t == "github_issue_url"
    then some github_issue_url
    else if t == "calendar_event_id"
    then some calendar_event_id
    else none

pub data Value (F : Type 0) : Type 0 where
  null : Value F
  str : String → Value F
  day : Date → Value F
  number : F → Value F

module _ {F : Type 0} where
  -- `set(fields) - _ALLOWED_BET_FIELDS`; the exception lists them sorted.
  unfoldable pub unknown_fields : List (String × Value F) → List String
  unknown_fields [] = []
  unknown_fields ((k, v) ∷ fields) = elim (column_of k) [
    | none ↦ k ∷ unknown_fields fields
    | some c ↦ unknown_fields fields
  ]

  unfoldable pub known_fields : List (String × Value F) → List (Column × Value F)
  known_fields [] = []
  known_fields ((k, v) ∷ fields) = elim (column_of k) [
    | none ↦ known_fields fields
    | some c ↦ (c, v) ∷ known_fields fields
  ]

  -- `_as_date` raises on a text in one of `_DATE_FIELDS` that is no date.
  abbrev pub is_malformed_date : Column → Value F → Bool
  is_malformed_date meeting_date (str t) = true
  is_malformed_date review_date (str t) = true
  is_malformed_date _ _ = false

  unfoldable pub any_malformed_date : List (Column × Value F) → Bool
  any_malformed_date [] = false
  any_malformed_date ((c, v) ∷ fields) =
      if is_malformed_date c v then true else any_malformed_date fields

  -- One assignment of the UPDATE on a row; Postgres refuses a value of another type, a NULL in a
  -- NOT NULL column and a status outside the CHECK.
  unfoldable pub set_column : Column → Value F → BetRow F → Result (BetRow F)
  set_column doc_id (str t) b = ok (record b { doc_id = t })
  set_column meeting_date (day d) b = ok (record b { meeting_date = d })
  set_column pm_slack_id (str t) b = ok (record b { pm_slack_id = t })
  set_column status (str t) b = elim (status_of t) [
    | none ↦ err (database_error check_violation)
    | some s ↦ ok (record b { status = s })
  ]
  set_column metric_name null b = ok (record b { metric_name = none })
  set_column metric_name (str t) b = ok (record b { metric_name = some t })
  set_column metric_query null b = ok (record b { metric_query = none })
  set_column metric_query (str t) b = ok (record b { metric_query = some t })
  set_column predicted_lift null b = ok (record b { predicted_lift = none })
  set_column predicted_lift (number x) b = ok (record b { predicted_lift = some x })
  set_column review_date null b = ok (record b { review_date = none })
  set_column review_date (day d) b = ok (record b { review_date = some d })
  set_column github_issue_url null b = ok (record b { github_issue_url = none })
  set_column github_issue_url (str t) b = ok (record b { github_issue_url = some t })
  set_column calendar_event_id null b = ok (record b { calendar_event_id = none })
  set_column calendar_event_id (str t) b = ok (record b { calendar_event_id = some t })
  set_column _ _ b = err (database_error bad_value)

  abbrev pub then_set : Result (BetRow F) → (BetRow F → Result (BetRow F)) → Result (BetRow F)
  then_set (ok b) f = f b
  then_set (err e) f = err e

  unfoldable pub set_columns : List (Column × Value F) → BetRow F → Result (BetRow F)
  set_columns [] b = ok b
  set_columns ((c, v) ∷ fields) b = then_set (set_column c v b) (set_columns fields)

  -- `UPDATE bets SET … WHERE id = i`. A missing row is found out first, where Postgres would first
  -- refuse a value whose type does not fit its column: no caller passes such a value.
  abbrev pub write_row : Uuid → Result (BetRow F) → Action F None
  write_row i (ok row) = update_bet i (λ b. row) >> pure tt
  write_row i (err e) = raise e

  abbrev pub update_found : Uuid → List (Column × Value F) → Option (BetRow F) → Action F None
  update_found i fields none =
      raise (pipeline_error "store.update_bet_fields" (value_error (bet_not_found i)))
  update_found i fields (some b) = write_row i (set_columns fields b)

  unfoldable pub update_row : Uuid → List (Column × Value F) → Action F None
  update_row i fields = do db ← get_db; update_found i fields (find_bet i db.bets)

  -- The unknown names refuse the call before any value is read.
  abbrev pub refuse_unknown : List String → Action F None
  refuse_unknown [] = pure tt
  refuse_unknown (k ∷ ks) =
      raise (pipeline_error "store.update_bet_fields" (value_error (unknown_bet_fields (k ∷ ks))))

  unfoldable pub update_bet_fields : Uuid → List (String × Value F) → Action F None
  update_bet_fields i [] = pure tt
  update_bet_fields i (f ∷ fs) = do
    refuse_unknown (unknown_fields (f ∷ fs))
    raise_if (any_malformed_date (known_fields (f ∷ fs)))
        (value_error (plain "Invalid isoformat string"))
    update_row i (known_fields (f ∷ fs))
