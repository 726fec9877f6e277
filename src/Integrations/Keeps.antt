-- ===== src/Integrations/Keeps.antt =====
-- The calls of the services and of the language model, under an invariant of the database.
use wager.Prelude.{ℕ, zero, suc, String, Option, none, some, List}
use wager.Prelude.Dates.{add_days}
use wager.Prelude.Int.{pos}
use wager.Models.{Uuid, Date}
use wager.Db.{Db}
use wager.World.{Action, Reply, answered, raised, Http, timed_out, failed, response, Issue}
use wager.World.Keeps.{Keeps, Keeps-pure, Keeps-raise, Keeps-if, Keeps-bind, keeps_rules}
use wager.Integrations.{FetchResult}
use wager.Integrations.Slack.{post_result, post_chosen, post_confirm, post_report}
use wager.Integrations.Github.{
  github_flag, read_body, on_response, comment_or_create, create_or_comment_issue, comment_on_issue,
}
use wager.Integrations.Posthog.{read_cell, read_metric, run_hogql}
use wager.Integrations.Google.{
  read_doc, fetch_transcript, event_result, insert_until, create_review_event,
}
use wager.Llm.{reply_of, ask, attempts, call_llm}

module _ {F : Type 0} {Q : Db F → Type 0} where
  post_result-Keeps : (r : Reply (Unit {0})) → Keeps Q (post_result r)
  post_result-Keeps (answered u) = search keeps_rules
  post_result-Keeps (raised e) = search keeps_rules

  post_chosen-Keeps :
      (o : Option String) (bet : Uuid) (os : List String) (i : ℕ) (s : String)
      → Keeps Q (post_chosen o bet os i s)
  post_chosen-Keeps none bet os i s = search keeps_rules
  post_chosen-Keeps (some o) bet os i s = search (keeps_rules, post_result-Keeps)

  pub post_confirm-Keeps :
      (bet : Uuid) (os : List String) (i : ℕ) (s : String) → Keeps Q (post_confirm bet os i s)
  unfolding post_confirm
  post_confirm-Keeps bet os i s = post_chosen-Keeps _ bet os i s

  pub post_report-Keeps : (t : String) → Keeps Q (post_report t)
  unfolding post_report
  post_report-Keeps t = search (keeps_rules, post_result-Keeps)

  github_flag-Keeps : {A : Type 0} (e : String) → Keeps Q (github_flag {F = F} {A = A} e)
  github_flag-Keeps e = search keeps_rules

  read_body-Keeps :
      {A B : Type 0} (r : Reply A) (k : A → Action F (FetchResult B))
      → ((a : A) → Keeps Q (k a))
      → Keeps Q (read_body r k)
  read_body-Keeps (answered a) k h = h a
  read_body-Keeps (raised e) k h = github_flag-Keeps e

  on_response-Keeps :
      {A B : Type 0} (r : Http A) (k : A → Action F (FetchResult B))
      → ((a : A) → Keeps Q (k a))
      → Keeps Q (on_response r k)
  on_response-Keeps (timed_out e) k h = github_flag-Keeps e
  on_response-Keeps (failed e) k h = github_flag-Keeps e
  on_response-Keeps (response status body) k h =
      Keeps-if _ _ _ (github_flag-Keeps _) (read_body-Keeps body k h)

  comment_or_create-Keeps :
      (i : Option Issue) (bet : Uuid) (t : List ℕ) (b : String)
      → Keeps Q (comment_or_create i bet t b)
  comment_or_create-Keeps none bet t b = search (keeps_rules, on_response-Keeps)
  comment_or_create-Keeps (some i) bet t b = search (keeps_rules, on_response-Keeps)

  pub create_or_comment_issue-Keeps :
      (bet : Uuid) (t : List ℕ) (b : String) → Keeps Q (create_or_comment_issue bet t b)
  unfolding create_or_comment_issue
  create_or_comment_issue-Keeps bet t b =
      search (keeps_rules, on_response-Keeps, comment_or_create-Keeps)

  pub comment_on_issue-Keeps : (u t : String) → Keeps Q (comment_on_issue u t)
  unfolding comment_on_issue
  comment_on_issue-Keeps u t = search (keeps_rules, on_response-Keeps)

  read_cell-Keeps : (r : Reply F) → Keeps Q (read_cell r)
  read_cell-Keeps (answered x) = search keeps_rules
  read_cell-Keeps (raised e) = search keeps_rules

  read_metric-Keeps : (r : Http F) → Keeps Q (read_metric r)
  read_metric-Keeps (timed_out e) = search keeps_rules
  read_metric-Keeps (failed e) = search keeps_rules
  read_metric-Keeps (response status body) = search (keeps_rules, read_cell-Keeps)

  pub run_hogql-Keeps : (q : Option String) → Keeps Q (run_hogql q)
  unfolding run_hogql
  run_hogql-Keeps q = search (keeps_rules, read_metric-Keeps)

  read_doc-Keeps : (r : Reply (List (List (Option String)))) → Keeps Q (read_doc r)
  read_doc-Keeps (answered d) = search keeps_rules
  read_doc-Keeps (raised e) = search keeps_rules

  pub fetch_transcript-Keeps : (d : String) → Keeps Q (fetch_transcript d)
  unfolding fetch_transcript
  fetch_transcript-Keeps d = search (keeps_rules, read_doc-Keeps)

  event_result-Keeps : (r : Reply String) → Keeps Q (event_result r)
  event_result-Keeps (answered i) = search keeps_rules
  event_result-Keeps (raised e) = search keeps_rules

  insert_until-Keeps : (e : Option Date) (d : Date) (t c : String) → Keeps Q (insert_until e d t c)
  insert_until-Keeps none d t c = search keeps_rules
  insert_until-Keeps (some e) d t c = search (keeps_rules, event_result-Keeps)

  pub create_review_event-Keeps :
      (d : Option Date) (t c : String) → Keeps Q (create_review_event d t c)
  create_review_event-Keeps none t c = search keeps_rules
  create_review_event-Keeps (some d) t c = insert_until-Keeps (add_days d (pos 1)) d t c

module _ {F T : Type 0} {Q : Db F → Type 0} (validate : Option String → Reply T)
    (system user : String) where
  reply_of-Keeps : (r : Reply (Option String)) → Keeps Q (reply_of validate r)
  reply_of-Keeps (answered c) = Keeps-pure _
  reply_of-Keeps (raised e) = Keeps-raise _

  ask-Keeps : (e : Option String) → Keeps Q (ask validate system user e)
  ask-Keeps e = search (keeps_rules, reply_of-Keeps)

  attempts-Keeps : (k : ℕ) (e : Option String) → Keeps Q (attempts validate system user k e)
  unfolding attempts
  attempts-Keeps zero e = Keeps-raise _
  attempts-Keeps (suc k) e =
      Keeps-bind _ _ (ask-Keeps e)
        (elim [ answered t ↦ Keeps-pure t | raised x ↦ attempts-Keeps k (some x) ])

  pub call_llm-Keeps : Keeps Q (call_llm validate system user)
  unfolding call_llm
  call_llm-Keeps = attempts-Keeps 2 none

pub ruleset services_rules = (
  keeps_rules, post_confirm-Keeps, post_report-Keeps, create_or_comment_issue-Keeps,
  comment_on_issue-Keeps, run_hogql-Keeps, fetch_transcript-Keeps, create_review_event-Keeps,
  call_llm-Keeps,
)
