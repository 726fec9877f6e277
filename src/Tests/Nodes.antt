-- ===== src/Tests/Nodes.antt =====
-- Examples for the services and for the nodes that use them, on the sample database.
use mathlib.Core.List.{Perm}
use wager.Prelude.{
  ◌⊎◌, ◌<◌, ◌≤◌, concat, ◌≡◌, refl, true, some, List, [], ◌∷◌, select, ◌==◌, codes, show_ℕ,
  show_uuid,
}
use wager.Prelude.Int.{ℤ, pos}
use wager.Models.{NodeType, GraphNode, GraphEdge, ExtractedFacts}
use wager.Exec.{ok, ◌>>=◌}
use wager.Db.Sorted.Order.{IsSorted}
use wager.World.{World, Issue, answered, response, listed_issues, commented}
use wager.Store.Reads.{node_key, edge_key, get_bet_graph}
use wager.Store.Graph.{get_bet_graph_lem}
use wager.Integrations.Github.{carries, issue_marker, create_or_comment_issue}
use wager.Integrations.Issues.{create_or_comment_issue_once}
use wager.Llm.{attempts, call_llm}
use wager.Llm.Attempts.{IsValidAnswer, call_llm_valid}
use wager.State.{BetState, create_initial_state}
use wager.Pipeline.Review.{fetch_metric, report_outcome}
use wager.Pipeline.Reporting.{report_outcome_unwritten}
use wager.Pipeline.Fetching.{Fetched, Flagged, fetch_metric_lem}
use wager.Tests.{hundredths, sample_node, sample_state, sample_world}

abbrev sample_facts : ExtractedFacts
sample_facts = record { facts = record { content = "Users leave at step 3"; speaker = "Ana" } ∷ [] }

facts_returned :
    (call_llm sample_world.host.services.validate_facts "system" "user" sample_world).0
    ≡ ok sample_facts
unfolding call_llm attempts ◌>>=◌
facts_returned = refl

call_llm_valid_example :
    IsValidAnswer sample_world.host.services.validate_facts "system" "user" sample_world
      sample_facts
call_llm_valid_example =
    call_llm_valid sample_world.host.services.validate_facts "system" "user" sample_world
      facts_returned

abbrev sample_issue : Issue
sample_issue = record {
  number = 7;
  body = some (issue_marker 1);
  html_url = "http://localhost/issues/7";
}

-- A repository that has the bet's issue.
abbrev issue_world : World ℤ
issue_world = record sample_world {
  host = record sample_world.host {
    services = record sample_world.host.services {
      list_issues = response 200 (answered (sample_issue ∷ []));
    };
  };
}

sample_issue-carries : carries (issue_marker 1) sample_issue ≡ true
unfolding issue_marker show_uuid
sample_issue-carries = refl

create_or_comment_issue_once_example :
    (i : Issue) × (carries (issue_marker 1) i ≡ true)
    × ((create_or_comment_issue 1 (codes "title") "body" issue_world).1.sent
        ≡ commented (codes (show_ℕ i.number)) ∷ listed_issues ∷ [])
unfolding issue_marker show_uuid
create_or_comment_issue_once_example =
    create_or_comment_issue_once 1 (codes "title") "body" issue_world 200 (sample_issue ∷ []) refl
      refl refl

get_bet_graph_lem_example :
    (ns : List (GraphNode ℤ)) × (es : List GraphEdge) × (get_bet_graph 1 sample_world
      ≡ (ok (ns, es), sample_world))
    × Perm ns (select (λ n. 1 == n.bet_id) sample_world.db.nodes)
    × Perm es (select (λ e. 1 == e.bet_id) sample_world.db.edges)
    × IsSorted node_key ns
    × IsSorted edge_key es
get_bet_graph_lem_example = get_bet_graph_lem 1 sample_world

abbrev sample_hypothesis : GraphNode ℤ
sample_hypothesis = sample_node 11 NodeType.hypothesis "A shorter step 3 keeps users"

-- The state of a review that has fetched 5.20 for a prediction of 5.00.
abbrev fetched_state : BetState ℤ
fetched_state = record sample_state {
  hypotheses = sample_hypothesis ∷ [];
  predicted_lift = some (pos 500);
  actual_lift = some (pos 520);
}

-- PostHog answers with 5.20.
abbrev answering_world : World ℤ
answering_world = record sample_world {
  host = record sample_world.host {
    services = record sample_world.host.services { hogql = λ _. response 200 (answered (pos 520)) };
  };
}

fetch_metric_lem_example :
    ((200 < 400)
      × Fetched (pos 520) sample_state answering_world (fetch_metric sample_state answering_world))
    ⊎ ((400 ≤ 200)
        × Flagged
            (concat ("posthog_error: " ∷ show_ℕ 200 ∷ []))
            sample_state
            answering_world
            (fetch_metric sample_state answering_world))
unfolding create_initial_state
fetch_metric_lem_example = fetch_metric_lem sample_state answering_world refl

report_outcome_unwritten_example :
    (report_outcome fetched_state sample_world).1.db ≡ sample_world.db
report_outcome_unwritten_example = report_outcome_unwritten fetched_state sample_world
