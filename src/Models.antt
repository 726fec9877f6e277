-- ===== src/Models.antt =====
-- models.py: the domain models and the extraction payloads; the row of `bets` (graph/store.py).
-- A UUID is its 128-bit number and stands for its text too; an instant and a date are numbers
-- (of microseconds, of days), for their ISO texts too. `F` is the type of Python's floats.
pub mod Values
pub mod Flags
use wager.Prelude.{ℕ, String, Bool, Option, List, ◌==◌}
use wager.Prelude.Int.{ℤ}

abbrev pub Uuid : Type 0
Uuid = ℕ

-- Microseconds since the epoch.
abbrev pub Instant : Type 0
Instant = ℕ

-- Days, as `date.toordinal` counts them: 1 is 0001-01-01.
abbrev pub Date : Type 0
Date = ℕ

pub data NodeType : Type 0 where
  fact assumption hypothesis option decision : NodeType

pub data NodeStatus : Type 0 where
  active resolved superseded : NodeStatus

pub data EdgeType : Type 0 where
  derived_from supports contradicts leads_to depends_on : EdgeType

pub data Source : Type 0 where
  gdocs slack github gcal posthog llm db : Source

pub data Severity : Type 0 where
  info warning critical : Severity

pub record DataFlag : Type 0 where
  pub source : Source
  pub severity : Severity
  pub message : String
  pub created_at : Instant

pub record GraphNode (F : Type 0) : Type 0 where
  pub id : Uuid
  pub bet_id : Uuid
  pub kind : NodeType
  pub content : String
  pub confidence : Option F
  pub source : String
  pub status : NodeStatus
  pub created_at : Instant

pub record GraphEdge : Type 0 where
  pub id : Uuid
  pub bet_id : Uuid
  pub from_node : Uuid
  pub to_node : Uuid
  pub edge_type : EdgeType
  pub created_at : Instant

pub record FactItem : Type 0 where
  pub content : String
  pub speaker : String

pub record ExtractedFacts : Type 0 where
  pub facts : List FactItem

pub record DerivedItem : Type 0 where
  pub content : String
  pub derived_from_fact_ids : List ℤ

pub record HypothesisItem (F : Type 0) : Type 0 where
  pub content : String
  pub confidence : F
  pub derived_from_fact_ids : List ℤ
  pub depends_on_assumption_idxs : List ℤ
  pub metric_name : String
  pub metric_query : String
  pub predicted_lift : F
  pub measurement_days : ℤ

pub record OptionItem : Type 0 where
  pub content : String
  pub derived_from_fact_ids : List ℤ

pub record DerivedReasoning (F : Type 0) : Type 0 where
  pub assumptions : List DerivedItem
  pub hypotheses : List (HypothesisItem F)
  pub options : List OptionItem
  pub proposed_option_index : ℤ

-- The values that the CHECK on `bets.status` and `_BET_STATUSES` admit.
pub data BetStatus : Type 0 where
  extracting pending_confirmation confirmed scheduled resolved flagged : BetStatus

-- One element of the JSONB list `bets.flags`: a dictionary of texts.
pub record FlagJson : Type 0 where
  pub source : String
  pub severity : String
  pub message : String
  pub created_at : String

-- A row of the table `bets`.
pub record BetRow (F : Type 0) : Type 0 where
  pub id : Uuid
  pub created_at : Instant
  pub meeting_date : Date
  pub doc_id : String
  pub pm_slack_id : String
  pub status : BetStatus
  pub metric_name : Option String
  pub metric_query : Option String
  pub predicted_lift : Option F
  pub review_date : Option Date
  pub github_issue_url : Option String
  pub calendar_event_id : Option String
  pub flags : List FlagJson

-- `class Bet` of graph/store.py.
pub record Bet (F : Type 0) : Type 0 where
  pub id : Uuid
  pub created_at : Instant
  pub meeting_date : Date
  pub doc_id : String
  pub pm_slack_id : String
  pub status : String
  pub metric_name : Option String
  pub metric_query : Option String
  pub predicted_lift : Option F
  pub review_date : Option Date
  pub github_issue_url : Option String
  pub calendar_event_id : Option String
  pub flags : List DataFlag

-- Equality of enum members.
abbrev node_rank : NodeType → ℕ
node_rank NodeType.fact = 0
node_rank NodeType.assumption = 1
node_rank NodeType.hypothesis = 2
node_rank NodeType.option = 3
node_rank NodeType.decision = 4

abbrev pub same_type : NodeType → NodeType → Bool
same_type a b = node_rank a == node_rank b

abbrev edge_rank : EdgeType → ℕ
edge_rank EdgeType.derived_from = 0
edge_rank EdgeType.supports = 1
edge_rank EdgeType.contradicts = 2
edge_rank EdgeType.leads_to = 3
edge_rank EdgeType.depends_on = 4

abbrev pub same_edge_type : EdgeType → EdgeType → Bool
same_edge_type a b = edge_rank a == edge_rank b
