-- ===== src/World.antt =====
-- What a call sees beside its arguments: the database, and the process around it, which is the
-- settings, the clock, `uuid4` and the third-party services. `uuid4` and `now` are sequences,
-- and `draws` counts what has been taken from them. `sent` has the requests, the newest first.
pub mod Keeps
pub mod Yields
pub mod Ensures
pub mod Triple
pub mod Quiet
use wager.Prelude.{ℕ, suc, String, Bool, Option, none, List, [], ◌∷◌}
use wager.Prelude.Int.{ℤ}
use wager.Config.{Settings}
use wager.Models.{
  Uuid, Instant, Date, NodeType, NodeStatus, EdgeType, Source, Severity, DataFlag, GraphNode,
  GraphEdge, ExtractedFacts, DerivedReasoning,
}
use wager.Errors.{Exception}
use wager.Errors.Formats.{Formats}
use wager.Exec.{Result, ok, err, Exec, None, gets, pure, ◌>>=◌}
use wager.Db.{Db}

-- What a third-party call returns, or the text of what it raises.
pub data Reply (A : Type 0) : Type 0 where
  answered : A → Reply A
  raised : String → Reply A

-- An HTTP call through httpx: its timeout, another exception, or a status code with the body that
-- the caller reads, whose reading may raise.
pub data Http (A : Type 0) : Type 0 where
  timed_out failed : String → Http A
  response : ℕ → Reply A → Http A

-- An issue as GitHub lists it.
pub record Issue : Type 0 where
  pub number : ℕ
  pub body : Option String
  pub html_url : String

-- A button of the confirmation message: its action id's index, text, value and `primary` style.
pub record Button : Type 0 where
  pub index : ℕ
  pub label : List ℕ
  pub value : Uuid
  pub primary : Bool

-- The JSON of a Slack interaction, by the keys that the webhook reads: `type`, and of each of the
-- `actions` its `action_id` and its `value`, which is a bet's id.
pub record SlackAction : Type 0 where
  pub action_id : Option String
  pub value : Option Uuid

pub record Interaction : Type 0 where
  pub kind : Option String
  pub actions : List SlackAction

pub record Services (F : Type 0) : Type 0 where
  -- Google Docs: the `textRun` contents of each paragraph's elements.
  pub docs_get : String → Reply (List (List (Option String)))
  -- The chat completion: the message's content for a list of roles and contents.
  pub chat : List (String × String) → Reply (Option String)
  -- Pydantic's `model_validate_json`; what it raises is the text of the ValidationError.
  pub validate_facts : Option String → Reply ExtractedFacts
  pub validate_reasoning : Option String → Reply (DerivedReasoning F)
  -- Slack's `chat_postMessage` with blocks, and with plain text.
  pub post_blocks : List ℕ → List Button → Reply (Unit {0})
  pub post_text : String → Reply (Unit {0})
  -- GitHub's issues (the first page of 100), a comment on one of a number, a new one.
  pub list_issues : Http (List Issue)
  pub post_comment : List ℕ → String → Http (Unit {0})
  pub post_issue : List ℕ → String → Http String
  -- PostHog's query endpoint: the first cell of the first row as a float.
  pub hogql : Option String → Http F
  -- Google Calendar: the id of the event that is inserted, with its title, description, first day
  -- and the day after its last.
  pub insert_event : String → String → Date → Date → Reply String
  -- PostHog's capture endpoint, for a distinct id, an event, the properties' JSON and a timestamp.
  pub capture : String → String → String → String → Http (Unit {0})
  -- HMAC-SHA256 in hexadecimal, of a message under a key, both bytes.
  pub hmac_sha256 : List ℕ → List ℕ → String
  -- `json.loads(body.decode("utf-8"))`.
  pub loads : List ℕ → Reply Interaction
  -- `int(text)` on the text's code points; `none` is its ValueError.
  pub int_of : List ℕ → Option ℤ
  pub formats : Formats

-- A request that left the process.
pub data Request : Type 0 where
  fetched_doc : String → Request
  asked_llm : Request
  posted_blocks : Uuid → Request
  posted_text : String → Request
  listed_issues : Request
  commented created_issue : List ℕ → Request
  ran_query : Request
  inserted_event : Date → Request
  captured : String → Request

pub record Host (F : Type 0) : Type 0 where
  pub settings : Settings F
  pub services : Services F
  pub uuid4 : ℕ → Uuid
  pub now : ℕ → Instant
  -- Postgres's CURRENT_DATE and Python's `date.today()`.
  pub current_date : Date
  pub today : Date

pub record World (F : Type 0) : Type 0 where
  pub db : Db F
  pub draws : ℕ
  pub sent : List Request
  pub host : Host F

abbrev pub Action : Type 0 → Type 0 → Type 0
Action F A = Exec (World F) A

module _ {F : Type 0} where
  abbrev pub get_settings : Action F (Settings F)
  get_settings = gets (λ w. w.host.settings)

  abbrev pub get_services : Action F (Services F)
  get_services = gets (λ w. w.host.services)

  -- `with get_conn() as conn:` commits what its block did, or rolls it back and raises on.
  abbrev pub rolled_back : {A : Type 0} → Db F → Result A × World F → Result A × World F
  rolled_back db (ok a, w) = (ok a, w)
  rolled_back db (err e, w) = (err e, record w { db = db })

  abbrev pub with_conn : {A : Type 0} → Action F A → Action F A
  with_conn block w = rolled_back w.db (block w)

  abbrev pub draw_uuid : Action F Uuid
  draw_uuid w = (ok (w.host.uuid4 w.draws), record w { draws = suc w.draws })

  abbrev pub draw_now : Action F Instant
  draw_now w = (ok (w.host.now w.draws), record w { draws = suc w.draws })

  abbrev pub send : Request → Action F None
  send r w = (ok tt, record w { sent = r ∷ w.sent })

  -- `DataFlag(source, severity, message)`.
  abbrev pub new_flag : Source → Severity → String → Action F DataFlag
  new_flag s v m = do
    t ← draw_now
    pure (record { source = s; severity = v; message = m; created_at = t })

  -- `GraphNode(bet_id=…, type=…, content=…, confidence=…, source=…)`.
  abbrev pub new_node : Uuid → NodeType → String → Option F → String → Action F (GraphNode F)
  new_node bet kind content confidence source = do
    i ← draw_uuid
    t ← draw_now
    pure (record {
      id = i;
      bet_id = bet;
      kind = kind;
      content = content;
      confidence = confidence;
      source = source;
      status = NodeStatus.active;
      created_at = t;
    })

  -- `GraphEdge(bet_id=…, from_node=…, to_node=…, edge_type=…)`.
  abbrev pub new_edge : Uuid → Uuid → Uuid → EdgeType → Action F GraphEdge
  new_edge bet from_node to_node edge_type = do
    i ← draw_uuid
    t ← draw_now
    pure (record {
      id = i;
      bet_id = bet;
      from_node = from_node;
      to_node = to_node;
      edge_type = edge_type;
      created_at = t;
    })
