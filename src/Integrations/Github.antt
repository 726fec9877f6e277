-- ===== src/Integrations/Github.antt =====
-- integrations/github.py. Headers, URLs and the client's timeout belong to the services.
use text.Mathlib.Text.{find?}
use wager.Prelude.{
  ℕ, String, Bool, true, false, Option, none, some, List, [], ◌∷◌, ◌==◌, ◌&&◌, if◌then◌else◌, codes,
  concat, show_ℕ, show_uuid,
}
use wager.Prelude as Prelude
use wager.Models.{Uuid, Source, Severity}
use wager.Exec.{pure, ◌>>=◌, ◌>>◌}
use wager.World.{
  Action, Reply, answered, raised, Http, timed_out, failed, response, Issue, get_services, new_flag,
  send, listed_issues, commented, created_issue,
}
use wager.Integrations.{FetchResult, success, failure, done, is_error_status}

-- `_issue_marker`
unfoldable pub issue_marker : Uuid → String
issue_marker bet = concat ("<!-- bet_id:" ∷ show_uuid bet ∷ " -->" ∷ [])

-- `marker in (i.get("body") or "")`
abbrev pub carries : String → Issue → Bool
carries marker issue = elim issue.body [
  | none ↦ false
  | some body ↦ elim (find? body marker) [ none ↦ false | some _ ↦ true ]
]

is_slash : ℕ → Bool
is_slash c = c == 47

-- `url.rstrip("/")`
abbrev strip_onto : ℕ → List ℕ → List ℕ
strip_onto c [] = if is_slash c then [] else c ∷ []
strip_onto c (d ∷ ds) = c ∷ d ∷ ds

strip_slashes : List ℕ → List ℕ
unfolding is_slash
strip_slashes [] = []
strip_slashes (c ∷ cs) = strip_onto c (strip_slashes cs)

-- `text.split("/")[-1]`
after_slash : List ℕ → List ℕ → List ℕ
unfolding is_slash
after_slash part [] = part
after_slash part (c ∷ cs) = after_slash (if is_slash c then [] else Prelude.◌++◌ part (c ∷ [])) cs

unfoldable pub issue_number : String → List ℕ
unfolding strip_slashes after_slash
issue_number url = after_slash [] (strip_slashes (codes url))

module _ {F : Type 0} where
  abbrev pub github_flag : {A : Type 0} → String → Action F (FetchResult A)
  github_flag e = do
    flag ← new_flag Source.github Severity.critical (concat ("github_error: " ∷ e ∷ []))
    pure (failure flag)

  abbrev pub read_body :
      {A B : Type 0} → Reply A → (A → Action F (FetchResult B)) → Action F (FetchResult B)
  read_body (answered a) k = k a
  read_body (raised e) k = github_flag e

  -- Every call ends alike: an exception or a status from 400 on is a flag, and so is a body that
  -- cannot be read.
  abbrev pub on_response :
      {A B : Type 0} → Http A → (A → Action F (FetchResult B)) → Action F (FetchResult B)
  on_response (timed_out e) k = github_flag e
  on_response (failed e) k = github_flag e
  on_response (response status body) k =
      if is_error_status status then github_flag (show_ℕ status) else read_body body k

  abbrev pub comment_or_create :
      Option Issue → Uuid → List ℕ → String → Action F (FetchResult String)
  comment_or_create (some existing) bet title body = do
    services ← get_services
    send (commented (codes (show_ℕ existing.number)))
    on_response (services.post_comment (codes (show_ℕ existing.number)) body)
        (λ _. pure (success existing.html_url))
  comment_or_create none bet title body = do
    services ← get_services
    send (created_issue title)
    on_response (services.post_issue title (concat (body ∷ "\n\n" ∷ issue_marker bet ∷ [])))
        (λ url. pure (success url))

  unfoldable pub create_or_comment_issue : Uuid → List ℕ → String → Action F (FetchResult String)
  create_or_comment_issue bet title body = do
    services ← get_services
    send listed_issues
    on_response services.list_issues (λ issues.
        comment_or_create (Prelude.find? (carries (issue_marker bet)) issues) bet title body)

  unfoldable pub comment_on_issue : String → String → Action F (FetchResult (Unit {0}))
  comment_on_issue issue_url text = do
    services ← get_services
    send (commented (issue_number issue_url))
    on_response (services.post_comment (issue_number issue_url) text) (λ _. pure done)
