-- ===== src/Integrations/Issues.antt =====
-- `create_or_comment_issue` of integrations/github.py: one issue for a bet.
use wager.Prelude.{
  ℕ, String, true, false, ◌≡◌, refl, some, List, [], ◌∷◌, any, find?, codes, show_ℕ, arith,
  Bool-cases, inl, inr,
}
use wager.Models.{Uuid}
use wager.Exec.{pure, ◌>>=◌}
use wager.World.{
  World, Reply, answered, raised, Http, timed_out, failed, response, Issue, listed_issues,
  commented,
}
use wager.Integrations.{success, is_error_status}
use wager.Integrations.Github.{
  carries, read_body, comment_or_create, issue_marker, on_response, create_or_comment_issue,
}

find_of_any :
    (marker : String) (is : List Issue)
    → any (carries marker) is ≡ true
    → (i : Issue) × (find? (carries marker) is ≡ some i) × (carries marker i ≡ true)
find_of_any marker [] h = cc
find_of_any marker (i ∷ is) h = elim (Bool-cases (carries marker i)) [
  | inl e ↦ (i, rw e refl, e)
  | inr e ↦ let (j, found, has) = find_of_any marker is (ground arith) in (j, rw e found, has)
]

module _ {F : Type 0} where
  sent-read_body :
      {A : Type 0} (r : Reply A) (url : String) (w : World F)
      → (read_body r (λ _. pure (success url)) w).1.sent ≡ w.sent
  unfolding ◌>>=◌
  sent-read_body (answered a) url w = refl
  sent-read_body (raised e) url w = refl

  sent-on_response :
      {A : Type 0} (r : Http A) (url : String) (w : World F)
      → (on_response r (λ _. pure (success url)) w).1.sent ≡ w.sent
  unfolding ◌>>=◌
  sent-on_response (timed_out e) url w = refl
  sent-on_response (failed e) url w = refl
  sent-on_response (response status body) url w = elim (Bool-cases (is_error_status status)) [
    | inl e ↦ rw e refl
    | inr e ↦ rw e (sent-read_body body url w)
  ]

  sent-comment :
      (i : Issue) (bet : Uuid) (title : List ℕ) (body : String) (w : World F)
      → (comment_or_create (some i) bet title body w).1.sent
        ≡ commented (codes (show_ℕ i.number)) ∷ w.sent
  unfolding ◌>>=◌
  sent-comment i bet title body w =
      sent-on_response (w.host.services.post_comment (codes (show_ℕ i.number)) body) i.html_url
        (record w { sent = commented (codes (show_ℕ i.number)) ∷ w.sent })

  sent-listed :
      (r : Http (List Issue)) (i : Issue) (bet : Uuid) (title : List ℕ) (body : String)
      (w : World F) (status : ℕ) (issues : List Issue)
      → r ≡ response status (answered issues)
      → is_error_status status ≡ false
      → find? (carries (issue_marker bet)) issues ≡ some i
      → (on_response r
          (λ is. comment_or_create (find? (carries (issue_marker bet)) is) bet title body)
          w).1.sent
        ≡ commented (codes (show_ℕ i.number)) ∷ w.sent
  sent-listed r i bet title body w status issues lists fine found =
      rw lists (rw fine (rw found (sent-comment i bet title body w)))

  -- If GitHub lists issues with a status below 400 (for the code a 3xx is no error) and one of
  -- them carries the bet's marker, create_or_comment_issue comments on such an issue and creates
  -- none, whatever the comment's reply.
  pub create_or_comment_issue_once :
      (bet : Uuid) (title : List ℕ) (body : String) (w : World F) (status : ℕ) (issues : List Issue)
      → w.host.services.list_issues ≡ response status (answered issues)
      → is_error_status status ≡ false
      → any (carries (issue_marker bet)) issues ≡ true
      → (i : Issue) × (carries (issue_marker bet) i ≡ true)
        × ((create_or_comment_issue bet title body w).1.sent
            ≡ commented (codes (show_ℕ i.number)) ∷ listed_issues ∷ w.sent)
  unfolding create_or_comment_issue ◌>>=◌
  create_or_comment_issue_once bet title body w status issues lists fine has =
      let (i, found, carried) = find_of_any (issue_marker bet) issues has in
      (
        i,
        carried,
        sent-listed w.host.services.list_issues i bet title body
            (record w { sent = listed_issues ∷ w.sent }) status issues lists fine found,
      )
