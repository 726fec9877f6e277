-- ===== src/Store.antt =====
-- graph/store.py: the writes on nodes, edges and bets. `_as_uuid` and `_as_date` are the identity,
-- since a UUID or a date stands for its text too (models.py in `Models`).
pub mod Fields
pub mod Decisions
pub mod Reads
pub mod Integrity
pub mod Attest
pub mod Outcomes
pub mod Due
pub mod DueBets
pub mod Edges
pub mod Graph
pub mod Typed
use wager.Prelude.{
  ℕ, String, Bool, true, false, not, ◌||◌, Option, none, some, List, [], ◌∷◌, ◌++◌, ◌==◌,
  if◌then◌else◌, any, select, length, map,
}
use wager.Models.{Uuid, Instant, Date, DataFlag, GraphNode, GraphEdge, BetStatus, BetRow}
use wager.Models.Values.{status_of}
use wager.Models.Flags.{flag_to_json}
use wager.Errors.{
  Exception, pipeline_error, value_error, bet_does_not_exist, bet_not_found,
  references_missing_node, invalid_bet_status,
}
use wager.Exec.{None, pure, raise_if, or_raise, for_each, ◌>>=◌, ◌>>◌}
use wager.Db.{has_bet}
use wager.World.{get_services, Action, draw_now}
use wager.Sql.{get_db, insert_bet, insert_node, insert_edge, update_bet}

-- The set of a list: the first of each. The order in which Python walks the set is open; it only
-- decides which of several missing bets the exception names.
unfoldable pub distinct : List Uuid → List Uuid
distinct [] = []
distinct (x ∷ xs) = x ∷ select (λ y. not (y == x)) (distinct xs)

module _ {F : Type 0} where
  unfoldable pub require_bet : Uuid → Action F None
  require_bet i = do
    db ← get_db
    raise_if (not (has_bet i db.bets))
        (pipeline_error "store.insert_nodes" (value_error (bet_does_not_exist i)))

  unfoldable pub insert_nodes : List (GraphNode F) → Action F None
  insert_nodes [] = pure tt
  insert_nodes (n ∷ ns) =
      for_each (distinct (map (λ m. m.bet_id) (n ∷ ns))) require_bet
      >> for_each (n ∷ ns) insert_node

  -- `SELECT id FROM graph_nodes WHERE id = ANY(endpoints)`: the number of rows.
  abbrev pub count_any : List Uuid → List (GraphNode F) → ℕ
  count_any ids ns = length (select (λ n. any (λ i. n.id == i) ids) ns)

  unfoldable pub insert_checked_edge : GraphEdge → Action F None
  insert_checked_edge e = do
    db ← get_db
    raise_if (not (count_any (e.from_node ∷ e.to_node ∷ []) db.nodes == 2)) (
        pipeline_error "store.insert_edges"
          (value_error (references_missing_node e.from_node e.to_node)))
    insert_edge e

  -- The test for an empty list returns before the loop, which would do nothing.
  unfoldable pub insert_edges : List GraphEdge → Action F None
  insert_edges [] = pure tt
  insert_edges (e ∷ es) = for_each (e ∷ es) insert_checked_edge

  -- The column `created_at` defaults to now(), `status` to EXTRACTING and `flags` to '[]'.
  unfoldable pub create_bet : Uuid → String → Date → String → Action F None
  create_bet i doc_id meeting_date pm_slack_id = do
    t ← draw_now
    insert_bet (record {
      id = i;
      created_at = t;
      meeting_date = meeting_date;
      doc_id = doc_id;
      pm_slack_id = pm_slack_id;
      status = BetStatus.extracting;
      metric_name = none;
      metric_query = none;
      predicted_lift = none;
      review_date = none;
      github_issue_url = none;
      calendar_event_id = none;
      flags = [];
    })

  unfoldable pub update_bet_status : Uuid → String → Action F None
  update_bet_status i status = do
    s ←
        or_raise (status_of status)
          (pipeline_error "store.update_bet_status" (value_error (invalid_bet_status status)))
    found ← update_bet i (λ b. record b { status = s })
    raise_if (not found) (pipeline_error "store.update_bet_status" (value_error (bet_not_found i)))

  unfoldable pub append_flag : Uuid → DataFlag → Action F None
  append_flag i flag = do
    services ← get_services
    found ←
        update_bet i (λ b. record b { flags = b.flags ++ flag_to_json services.formats flag ∷ [] })
    raise_if (not found) (pipeline_error "store.append_flag" (value_error (bet_not_found i)))
