-- ===== src/Scripts/SeedDemo.antt =====
-- scripts/seed_demo.py on the database. The lines of a run that raises are left out.
pub mod Transactions
use text.Mathlib.Text.{◌==◌}
use wager.Prelude.{
  ℕ, String, Bool, true, false, not, ◌&&◌, Option, none, some, List, [], ◌∷◌, ◌++◌, map, any, head?,
  concat, show_uuid, if◌then◌else◌,
}
use wager.Prelude.Dates.{iso_date}
use wager.Models.{Uuid, Date, NodeType, EdgeType, GraphNode, GraphEdge, BetRow}
use wager.Errors.{index_error, database_error, foreign_key_violation}
use wager.Exec.{None, pure, gets, modify, raise_if, or_raise, for_list, ◌>>=◌, ◌>>◌}
use wager.Db.{Db}
use wager.World.{World, Action, get_settings, draw_uuid, new_node, new_edge, with_conn}
use wager.Sql.{get_db}
use wager.Store.{create_bet, insert_nodes, insert_edges}
use wager.Store.Fields.{Value, str, number, day, update_bet_fields}
use wager.Pipeline.Review.{is_empty}
use wager.Api.Phase1.{get_today}
use wager.Scripts.Seeds.{SeedSpec, all_seeds, seed_d1}

abbrev pub done_line : Date → String
done_line review =
    concat ("[seed] done — 3 seeded bets + 1 demo bet (D1, review " ∷ iso_date review ∷ ")" ∷ [])

abbrev pub reset_lines : Bool → List String
reset_lines reset = if reset then "[seed] reset: all tables truncated" ∷ [] else []

module _ {F : Type 0} where
  -- `DELETE FROM` a table, which Postgres refuses while another table refers to a row of it.
  unfoldable pub delete_outcomes : Action F None
  delete_outcomes = modify (λ w. record w { db = record w.db { outcomes = [] } })

  unfoldable pub delete_edges : Action F None
  delete_edges = modify (λ w. record w { db = record w.db { edges = [] } })

  unfoldable pub delete_nodes : Action F None
  delete_nodes = do
    db ← get_db
    raise_if (not (is_empty db.edges && is_empty db.outcomes))
        (database_error foreign_key_violation)
    modify (λ w. record w { db = record w.db { nodes = [] } })

  unfoldable pub delete_bets : Action F None
  delete_bets = do
    db ← get_db
    raise_if (not (is_empty db.outcomes)) (database_error foreign_key_violation)
    modify (λ w. record w { db = record w.db { bets = [] } })

  unfoldable pub delete_all : Action F None
  delete_all = delete_outcomes >> delete_edges >> delete_nodes >> delete_bets

  -- `SELECT 1 FROM bets WHERE doc_id = 'seed'`
  abbrev pub has_seed : List (BetRow F) → Bool
  has_seed = any (λ b. b.doc_id == "seed")

  -- What precedes the seeding, committed: whether to stop.
  unfoldable pub prepare : Bool → Action F Bool
  prepare true = delete_all >> pure false
  prepare false = gets (λ w. has_seed w.db.bets)

  abbrev pub seed_node : Uuid → NodeType → String → Action F (GraphNode F)
  seed_node bet kind content = new_node bet kind content none "meeting:seed"

  abbrev pub edges_to : Uuid → Uuid → EdgeType → List (GraphNode F) → Action F (List GraphEdge)
  edges_to bet from_node kind ns = for_list ns (λ n. new_edge bet from_node n.id kind)

  abbrev pub seed_fields : SeedSpec F → List (String × Value F)
  seed_fields spec =
      ("metric_name", str spec.metric_name)
      ∷ ("metric_query", str spec.metric_query)
      ∷ ("predicted_lift", number spec.predicted_lift)
      ∷ ("review_date", day spec.review_date)
      ∷ ("status", str "SCHEDULED")
      ∷ []

  unfoldable pub seed_bet : (ℕ → F) → SeedSpec F → Action F Uuid
  seed_bet tenths spec = do
    bet ← draw_uuid
    settings ← get_settings
    create_bet bet "seed" spec.meeting_date settings.pm_slack_user_id
    facts ← for_list spec.facts (seed_node bet NodeType.fact)
    assumptions ← for_list spec.assumptions (seed_node bet NodeType.assumption)
    hypothesis ← new_node bet NodeType.hypothesis spec.hypothesis (some (tenths 8)) "meeting:seed"
    options ← for_list spec.options (seed_node bet NodeType.option)
    first_text ← or_raise (head? spec.options) index_error
    decision ←
        new_node bet NodeType.decision (concat ("[seed] Chose: " ∷ first_text ∷ [])) none "system"
    derived ← edges_to bet hypothesis.id EdgeType.derived_from facts
    depends ← edges_to bet hypothesis.id EdgeType.depends_on assumptions
    first ← or_raise (head? options) index_error
    supports ← edges_to bet first.id EdgeType.derived_from facts
    leads ← new_edge bet first.id decision.id EdgeType.leads_to
    insert_nodes (facts ++ (assumptions ++ (hypothesis ∷ (options ++ decision ∷ []))))
    insert_edges (derived ++ (depends ++ (supports ++ leads ∷ [])))
    update_bet_fields bet (seed_fields spec)
    pure bet

  abbrev pub seed_line : SeedSpec F → Uuid → String
  seed_line spec bet = concat (
      "[seed] "
      ∷ spec.key
      ∷ ": bet "
      ∷ show_uuid bet
      ∷ " SCHEDULED, review "
      ∷ iso_date spec.review_date
      ∷ [])

  abbrev pub seed_one : (ℕ → F) → SeedSpec F → Action F String
  seed_one tenths spec = do bet ← seed_bet tenths spec; pure (seed_line spec bet)

  -- The lines that `main` prints, its argument being `--reset`.
  abbrev pub seed_or_stop : (ℕ → F) → Bool → Bool → Action F (List String)
  seed_or_stop tenths reset true =
      pure ("[seed] seed bets already present; use --reset to reseed" ∷ [])
  seed_or_stop tenths reset false = do
    today ← get_today
    lines ← with_conn (for_list (all_seeds tenths today) (seed_one tenths))
    pure (reset_lines reset ++ (lines ++ done_line (seed_d1 tenths today).review_date ∷ []))

  unfoldable pub main : (ℕ → F) → Bool → Action F (List String)
  main tenths reset = do stop ← with_conn (prepare reset); seed_or_stop tenths reset stop
