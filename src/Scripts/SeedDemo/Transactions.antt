-- ===== src/Scripts/SeedDemo/Transactions.antt =====
-- The two transactions of scripts/seed_demo.py.
use wager.Prelude.{ℕ, ◌≡◌, refl, Bool, true, false, [], if◌then◌else◌}
use wager.Errors.{Exception}
use wager.Exec.{Result, ok, err, continue, pure, for_list, ◌>>=◌}
use wager.Db.{Db}
use wager.World.{World, with_conn, rolled_back}
use wager.World.Keeps.{Keeps, Keeps-bind, keeps_rules}
use wager.Sql.Keys.{IsWellFormed}
use wager.Store.Integrity.{
  create_bet-IsWellFormed, insert_nodes-IsWellFormed, insert_edges-IsWellFormed,
  update_bet_fields-IsWellFormed,
}
use wager.Scripts.Seeds.{SeedSpec, all_seeds}
use wager.Scripts.SeedDemo.{
  delete_outcomes, delete_edges, delete_nodes, delete_bets, delete_all, prepare, seed_bet, seed_one,
  seed_or_stop, main, has_seed,
}

module _ {F : Type 0} where
  abbrev pub empty_db : Db F
  empty_db = record { bets = []; nodes = []; edges = []; outcomes = [] }

  -- The order of the deletes is one that the foreign keys allow.
  delete_all_lem : (w : World F) → delete_all w ≡ (ok tt, record w { db = empty_db })
  unfolding delete_all delete_outcomes delete_edges delete_nodes delete_bets ◌>>=◌
  delete_all_lem w = refl

  empty_db-IsWellFormed : IsWellFormed empty_db
  empty_db-IsWellFormed = record {
    bet_keys = tt;
    node_keys = tt;
    edge_keys = tt;
    outcome_keys = tt;
    edge_ends = tt;
    outcome_rows = tt;
  }

  delete_all-IsWellFormed : Keeps (IsWellFormed {F = F}) delete_all
  delete_all-IsWellFormed = record { at = λ w h. rw (delete_all_lem w) empty_db-IsWellFormed }

  prepare-IsWellFormed : (reset : Bool) → Keeps (IsWellFormed {F = F}) (prepare reset)
  unfolding prepare
  prepare-IsWellFormed true = search (keeps_rules, delete_all-IsWellFormed)
  prepare-IsWellFormed false = search keeps_rules

  seed_bet-IsWellFormed :
      (tenths : ℕ → F) (spec : SeedSpec F) → Keeps IsWellFormed (seed_bet tenths spec)
  unfolding seed_bet
  seed_bet-IsWellFormed tenths spec =
      search
        (
          keeps_rules, create_bet-IsWellFormed, insert_nodes-IsWellFormed,
          insert_edges-IsWellFormed, update_bet_fields-IsWellFormed,
        )
        depth 24

  seed_or_stop-IsWellFormed :
      (tenths : ℕ → F) (reset stop : Bool) → Keeps IsWellFormed (seed_or_stop tenths reset stop)
  seed_or_stop-IsWellFormed tenths reset true = search keeps_rules
  seed_or_stop-IsWellFormed tenths reset false =
      search (keeps_rules, seed_bet-IsWellFormed) depth 10

  -- The seeding, with or without --reset, keeps the primary keys unique and every foreign key's
  -- row.
  pub main-IsWellFormed :
      (tenths : ℕ → F) (reset : Bool) (w : World F)
      → IsWellFormed w.db
      → IsWellFormed (main tenths reset w).1.db
  unfolding main
  main-IsWellFormed tenths reset w h =
      (Keeps-bind (with_conn (prepare reset)) _ (search (keeps_rules, prepare-IsWellFormed))
          (seed_or_stop-IsWellFormed tenths reset)).at
        w h

  -- A block whose caller raises nothing more.
  block_failed :
      {A B : Type 0} (d : Db F) (r : Result A × World F) (f : A → B) (e : Exception)
      → (continue (rolled_back d r).0 (λ a. pure (f a)) (rolled_back d r).1).0 ≡ err e
      → (continue (rolled_back d r).0 (λ a. pure (f a)) (rolled_back d r).1).1.db ≡ d
  block_failed d (ok a, v) f e h = absurd (cc)
  block_failed d (err e', v) f e h = refl

  seed_or_stop_failed :
      (tenths : ℕ → F) (reset stop : Bool) (w : World F) (e : Exception)
      → (seed_or_stop tenths reset stop w).0 ≡ err e
      → (seed_or_stop tenths reset stop w).1.db ≡ w.db
  unfolding ◌>>=◌
  seed_or_stop_failed tenths reset true w e h = absurd (cc)
  seed_or_stop_failed tenths reset false w e h =
      block_failed w.db (for_list (all_seeds tenths w.host.today) (seed_one tenths) w) _ e h

  -- Where the seeding raises, the database is as it was, or empty after --reset, whose deletes the
  -- foreign keys never refuse.
  pub main_failed_lem :
      (tenths : ℕ → F) (reset : Bool) (w : World F) (e : Exception)
      → (main tenths reset w).0 ≡ err e
      → (main tenths reset w).1.db ≡ (if reset then empty_db else w.db)
  unfolding main prepare ◌>>=◌
  main_failed_lem tenths true w e h =
      let k = rw (delete_all_lem w) at h in
      rw (delete_all_lem w) (seed_or_stop_failed tenths true false (record w { db = empty_db }) e k)
  main_failed_lem tenths false w e h = seed_or_stop_failed tenths false (has_seed w.db.bets) w e h
