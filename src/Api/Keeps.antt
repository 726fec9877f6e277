-- ===== src/Api/Keeps.antt =====
-- The routes under an invariant of the database that the writes of the store keep.
use wager.Prelude.{ℕ, String, ◌≡◌, Option, none, some, List, [], ◌∷◌, ◌++◌}
use wager.Prelude.Int.{ℤ}
use wager.Models.{Uuid, Date, Bet}
use wager.Errors.{Exception, foreign_error}
use wager.Exec.{Result, ok, err}
use wager.Floats.{Floats}
use wager.Db.{Db}
use wager.World.{World, Reply, answered, raised, Interaction, SlackAction}
use wager.World.Keeps.{Keeps, Keeps-pure, Keeps-bind, keeps_rules}
use wager.Store.{create_bet}
use wager.Integrations.Signature.{compare_digest, check_fresh, verify_slack_signature}
use wager.State.{BetState, NodeFn}
use wager.Pipeline.Graphs.{phase1_nodes, run_nodes}
use wager.Pipeline.Invoke.{Checkpointer}
use wager.Pipeline.Restarts.{KeepsRuns}
use wager.Pipeline.Runs.{bets-Keeps, get_bet_graph-Keeps, calibration-Keeps}
use wager.Errors.Formats.{Formats}
use wager.Api.{Body, ReviewsPage}
use wager.Api.Phase1.{
  pending_exists, create_new_bet, insert_new_bet, phase1_run, run_phase1, run_phase1_background,
  create_and_run, phase1_run_sync,
}
use wager.Api.Webhook.{
  SlackRequest, after_resume, resume_and_reply, handle_action, read_interaction, slack_interactions,
}
use wager.Api.Reads.{healthz, get_bet, get_calibration}
use wager.Api.Reviews.{check_all, reviews_check}
use wager.Api.Serve.{
  HttpRequest, health, calibration, check_reviews, start_run, run_sync, interaction, show_bet,
  serve, answer_then, background,
}

-- LangGraph's documented behaviour: the checkpointer has its own tables, what it raises is its own, and a
-- resumption goes on with some saved state at the node that was interrupted or that failed, which may be
-- any node of phase 1; there the index may wait for confirm_decision, or be used up (`none`). It runs that
-- node and those after it until one raises, or the checkpointer does between two of them, so that the
-- nodes `after` do not run. Where it does not start, or the run was at its end, no node runs.
pub record IsCheckpointer {F : Type 0} ⦃fl : Floats F⦄ (saver : Checkpointer F) : Type 0 where
  pub setup_db : (w : World F) → (saver.setup w).1.db ≡ w.db
  pub setup_raises :
      (w : World F) (e : Exception)
      → (saver.setup w).0 ≡ err e
      → (t : String) × (e ≡ foreign_error t)
  pub resumes :
      (bet : Uuid) (index : ℤ) (w : World F)
      → (p : String) × (q : String) × (r : Option ℤ) × (before : List (String × NodeFn F))
        × (rest : List (String × NodeFn F)) × (after : List (String × NodeFn F)) × (s : BetState F)
        × (phase1_nodes p q r ≡ before ++ (rest ++ after))
        × ((saver.resume bet index w).1.db ≡ (run_nodes rest s w).1.db)

module _ {F : Type 0} {Q : Db F → Type 0} where
  healthz-Keeps : Keeps Q healthz
  unfolding healthz
  healthz-Keeps = search keeps_rules

  get_bet-Keeps : (i : Uuid) → Keeps Q (get_bet i)
  unfolding get_bet
  get_bet-Keeps i = search (keeps_rules, get_bet_graph-Keeps) depth 9

  compare_digest-Keeps : (d s : String) → Keeps Q (compare_digest d s)
  compare_digest-Keeps d s = search keeps_rules

  check_fresh-Keeps : (ts : Option ℤ) (b : List ℕ) (t s : String) → Keeps Q (check_fresh ts b t s)
  check_fresh-Keeps none b t s = search keeps_rules
  check_fresh-Keeps (some ts) b t s = search (keeps_rules, compare_digest-Keeps) depth 9

  verify-Keeps : (b : List ℕ) (t s : String) → Keeps Q (verify_slack_signature b t s)
  unfolding verify_slack_signature
  verify-Keeps b t s = search (keeps_rules, check_fresh-Keeps)

  pending_exists-Keeps : (doc : String) → Keeps Q (pending_exists doc)
  unfolding pending_exists
  pending_exists-Keeps doc = search keeps_rules

  read_interaction-Keeps : (r : Reply Interaction) → Keeps Q (read_interaction r)
  read_interaction-Keeps (answered p) = search keeps_rules
  read_interaction-Keeps (raised e) = search keeps_rules

module _ {F : Type 0} ⦃fl : Floats F⦄ {Q : Db F → Type 0} where
  get_calibration-Keeps : Keeps Q get_calibration
  unfolding get_calibration
  get_calibration-Keeps = search (keeps_rules, calibration-Keeps)

-- The invariant is kept by a new bet too.
module _ {F : Type 0} ⦃fl : Floats F⦄ {Q : Db F → Type 0} (k : KeepsRuns Q)
    (created : (i : Uuid) (doc : String) (d : Date) (pm : String)
      → Keeps Q (create_bet i doc d pm)) where
  pub insert_new_bet-Keeps : (i : Uuid) (doc : String) → Keeps Q (insert_new_bet i doc)
  insert_new_bet-Keeps i doc = search (keeps_rules, created) depth 9

  phase1_run-Keeps : (doc : Option String) → Keeps Q (phase1_run doc)
  unfolding phase1_run create_new_bet
  phase1_run-Keeps doc = search (keeps_rules, pending_exists-Keeps, insert_new_bet-Keeps) depth 12

  check_all-Keeps : (bs : List (Bet F)) (p : ReviewsPage) → Keeps Q (check_all bs p)
  unfolding check_all
  check_all-Keeps [] p = Keeps-pure p
  check_all-Keeps (b ∷ bs) p = Keeps-bind _ _ (search keeps_rules) (λ services.
      Keeps-bind _ _ (record { at = λ w h. (k.graphs.review _).at w h })
        (λ r. check_all-Keeps bs _))

  reviews_check-Keeps : Keeps Q reviews_check
  unfolding reviews_check
  reviews_check-Keeps = search (keeps_rules, bets-Keeps, check_all-Keeps) depth 9

  module _ (saver : Checkpointer F) (langgraph : IsCheckpointer saver) where
    pub setup-Keeps : Keeps Q saver.setup
    setup-Keeps = record { at = λ w h. rw (langgraph.setup_db w) h }

    pub resume-Keeps : (bet : Uuid) (index : ℤ) → Keeps Q (saver.resume bet index)
    resume-Keeps bet index = record {
      at = λ w h.
          let (p, q, r, before, rest, after, s, split, run) = langgraph.resumes bet index w in
          rw run ((k.restart p q r before rest after split s).at w h);
    }

    after_resume-Keeps : (bet : Uuid) (r : Result (BetState F)) → Keeps Q (after_resume bet r)
    after_resume-Keeps bet (ok s) = search keeps_rules
    after_resume-Keeps bet (err e) = search (keeps_rules, k.graphs.flag) depth 9

    resume_and_reply-Keeps : (bet : Uuid) (index : ℤ) → Keeps Q (resume_and_reply saver bet index)
    resume_and_reply-Keeps bet index = record {
      at = λ w h. (after_resume-Keeps bet _).at _ (
          (Keeps-bind saver.setup (λ _. saver.resume bet index) setup-Keeps
              (λ _. resume-Keeps bet index)).at
            w h);
    }

    handle_action-Keeps : (a : Option SlackAction) → Keeps Q (handle_action saver a)
    handle_action-Keeps none = search keeps_rules
    handle_action-Keeps (some a) = search (keeps_rules, resume_and_reply-Keeps) depth 9

    slack_interactions-Keeps : (r : SlackRequest) → Keeps Q (slack_interactions saver r)
    unfolding slack_interactions
    slack_interactions-Keeps r =
        search (keeps_rules, verify-Keeps, read_interaction-Keeps, handle_action-Keeps) depth 10

    module _ (p q : String) where
      pub run_phase1-Keeps : (bet : Uuid) (doc : String) → Keeps Q (run_phase1 saver p q bet doc)
      run_phase1-Keeps bet doc = Keeps-bind _ _ setup-Keeps (λ _.
          Keeps-bind _ _ (search keeps_rules)
            (λ today. record { at = λ w h. (k.graphs.start p q _).at w h }))

      create_and_run-Keeps :
          (bet : Uuid) (doc : String) → Keeps Q (create_and_run saver p q bet doc)
      create_and_run-Keeps bet doc =
          Keeps-bind _ _ (insert_new_bet-Keeps bet doc) (λ _. run_phase1-Keeps bet doc)

      run_sync-Keeps :
          (bet : Uuid) (doc : Option String) → Keeps Q (phase1_run_sync saver p q bet doc)
      unfolding phase1_run_sync
      run_sync-Keeps bet doc =
          Keeps-bind _ _ (search keeps_rules)
            (λ settings. record { at = λ w h. (create_and_run-Keeps bet _).at w h })

      background-Keeps : (task : Uuid × String) → Keeps Q (run_phase1_background saver p q task)
      unfolding run_phase1_background
      background-Keeps (bet, doc) = record { at = λ w h. (run_phase1-Keeps bet doc).at w h }

      answer_then-keeps :
          (r : Result (Body F × (Uuid × String))) (f : Formats) (w : World F)
          → Q w.db
          → Q (answer_then f (background saver p q) r w).1.db
      answer_then-keeps (ok (b, task)) f w h = (background-Keeps task).at w h
      answer_then-keeps (err e) f w h = h

      pub serve-Keeps : (r : HttpRequest) (w : World F) → Q w.db → Q (serve saver p q r w).1.db
      unfolding serve
      serve-Keeps health w h = (healthz-Keeps {Q = Q}).at w h
      serve-Keeps calibration w h = (get_calibration-Keeps {Q = Q}).at w h
      serve-Keeps check_reviews w h = reviews_check-Keeps.at w h
      serve-Keeps (start_run doc) w h =
          answer_then-keeps (phase1_run doc w).0 _ (phase1_run doc w).1
            ((phase1_run-Keeps doc).at w h)
      serve-Keeps (run_sync bet doc) w h = (run_sync-Keeps bet doc).at w h
      serve-Keeps (interaction r) w h = (slack_interactions-Keeps r).at w h
      serve-Keeps (show_bet bet) w h = (get_bet-Keeps {Q = Q} bet).at w h
