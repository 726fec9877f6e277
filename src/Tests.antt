-- ===== src/Tests.antt =====
-- A sample process and a sample database for the examples.
pub mod Stores
pub mod Runs
pub mod Extraction
pub mod Nodes
pub mod Threads
pub mod Routes
pub mod Programs
use Prim.Native.Nat.{◌/◌, ◌*◌}
use wager.Prelude.{
  ℕ, zero, suc, ◌+◌, String, Bool, true, false, leb, ltb, Option, none, some, List, [], ◌∷◌, length,
  concat, if◌then◌else◌, codes, show_ℕ, ◌-◌,
}
use wager.Prelude.Int.{ℤ, pos, negsuc, show_ℤ, sub_ℕ}
use wager.Floats.{Floats}
use wager.Config.{Settings}
use wager.Models.{
  Source, Severity, NodeType, NodeStatus, EdgeType, DataFlag, GraphNode, GraphEdge, BetStatus,
  BetRow, FactItem, DerivedItem, HypothesisItem, OptionItem,
}
use wager.Errors.Formats.{Formats}
use wager.Models.Flags.{flag_to_json}
use wager.Db.{Db, Outcome}
use wager.World.{Services, Host, World, answered, raised, response, timed_out}
use wager.State.{BetState, create_initial_state}

-- Numbers of hundredths, for the floats.
abbrev magnitude : ℤ → ℕ
magnitude (pos n) = n
magnitude (negsuc n) = suc n

abbrev minus : ℤ → ℤ → ℤ
minus (pos a) (pos b) = sub_ℕ a b
minus (pos a) (negsuc b) = pos (a + suc b)
minus (negsuc a) (pos b) = negsuc (a + b)
minus (negsuc a) (negsuc b) = sub_ℕ b a

abbrev at_most : ℤ → ℤ → Bool
at_most (pos a) (pos b) = leb a b
at_most (pos a) (negsuc b) = false
at_most (negsuc a) (pos b) = true
at_most (negsuc a) (negsuc b) = leb b a

abbrev sum_magnitudes : List ℤ → ℕ
sum_magnitudes [] = 0
sum_magnitudes (x ∷ xs) = magnitude x + sum_magnitudes xs

abbrev show_hundredths : ℤ → String
show_hundredths x = concat (show_ℤ x ∷ "e-2" ∷ [])

instance abbrev pub hundredths : Floats ℤ
hundredths = record {
  sub = minus;
  abs = λ x. pos (magnitude x);
  leb = at_most;
  show_signed = show_hundredths;
  show = show_hundredths;
  show_tenths = show_hundredths;
  avg = λ xs. pos (sum_magnitudes xs / length xs);
  fraction = λ k n. pos (k * 100 / n);
  percent = magnitude;
}

-- The number that decimal digits spell after another.
abbrev spelled : ℕ → List ℕ → ℕ
spelled n [] = n
spelled n (c ∷ cs) = spelled (n * 10 + (c - 48)) cs

-- Times are written in decimal.
abbrev formats : Formats
formats = record {
  repr = λ t. t;
  repr_sorted = λ _. "[]";
  text = λ _. "error";
  class_name = λ _. "Exception";
  isoformat = show_ℕ;
  fromisoformat = λ t. some (spelled 0 (codes t));
}

abbrev settings : Settings ℤ
settings = record {
  database_url = "postgresql://localhost/wager";
  llm_base_url = "http://localhost";
  llm_api_key = "key";
  llm_model = "model";
  google_service_account_file = "account.json";
  google_doc_id = "doc";
  google_calendar_id = "calendar";
  slack_bot_token = "token";
  slack_signing_secret = "secret";
  slack_channel_id = "channel";
  pm_slack_user_id = "pm";
  github_token = "token";
  github_repo = "owner/name";
  posthog_host = "http://localhost";
  posthog_project_id = "project";
  posthog_personal_api_key = "key";
  bet_tolerance_pp = pos 100;
  demo_mode = false;
}

-- Services that answer, but for the metric, which times out.
abbrev services : Services ℤ
services = record {
  docs_get = λ _. answered ((some "We lose users at step 3." ∷ []) ∷ []);
  chat = λ _. answered (some "{}");
  validate_facts = λ _.
      answered
        (record { facts = record { content = "Users leave at step 3"; speaker = "Ana" } ∷ [] });
  validate_reasoning = λ _. answered (record {
    assumptions =
        record { content = "Step 3 is too long"; derived_from_fact_ids = pos 0 ∷ [] } ∷ [];
    hypotheses =
        record {
          content = "A shorter step 3 keeps users";
          confidence = pos 70;
          derived_from_fact_ids = pos 0 ∷ [];
          depends_on_assumption_idxs = pos 0 ∷ [];
          metric_name = "activation";
          metric_query = "SELECT 1";
          predicted_lift = pos 500;
          measurement_days = pos 14;
        }
        ∷ [];
    options = record { content = "Cut step 3"; derived_from_fact_ids = pos 0 ∷ [] } ∷ [];
    proposed_option_index = pos 0;
  });
  post_blocks = λ _ _. answered tt;
  post_text = λ _. answered tt;
  list_issues = response 200 (answered []);
  post_comment = λ _ _. response 201 (answered tt);
  post_issue = λ _ _. response 201 (answered "http://localhost/issues/1");
  hogql = λ _. timed_out "timeout";
  insert_event = λ _ _ _ _. answered "event";
  capture = λ _ _ _ _. response 200 (answered tt);
  hmac_sha256 = λ _ _. "00ff";
  loads = λ _. answered (record {
    kind = some "block_actions";
    actions = record { action_id = some "confirm_option:0"; value = some 1 } ∷ [];
  });
  int_of = λ _. some (pos 0);
  formats = formats;
}

-- `uuid4` counts from 1000, above the ids of the sample rows.
abbrev pub host : Host ℤ
host = record {
  settings = settings;
  services = services;
  uuid4 = λ n. 1000 + n;
  now = λ n. n;
  current_date = 739000;
  today = 739000;
}

abbrev pub sample_node : ℕ → NodeType → String → GraphNode ℤ
sample_node i kind content = record {
  id = i;
  bet_id = 1;
  kind = kind;
  content = content;
  confidence = none;
  source = "system";
  status = NodeStatus.active;
  created_at = i;
}

abbrev pub sample_flag : DataFlag
sample_flag = record {
  source = Source.posthog;
  severity = Severity.warning;
  message = "posthog_timeout";
  created_at = 5;
}

-- A bet whose review date has come.
abbrev pub sample_bet : BetRow ℤ
sample_bet = record {
  id = 1;
  created_at = 1;
  meeting_date = 738900;
  doc_id = "doc";
  pm_slack_id = "pm";
  status = BetStatus.scheduled;
  metric_name = some "activation";
  metric_query = some "SELECT 1";
  predicted_lift = some (pos 500);
  review_date = some 738950;
  github_issue_url = none;
  calendar_event_id = none;
  flags = flag_to_json formats sample_flag ∷ [];
}

abbrev pub sample_db : Db ℤ
sample_db = record {
  bets = sample_bet ∷ [];
  nodes =
      sample_node 12 NodeType.option "Cut step 3"
      ∷ sample_node 11 NodeType.hypothesis "A shorter step 3 keeps users"
      ∷ sample_node 10 NodeType.fact "Users leave at step 3"
      ∷ [];
  edges =
      record {
        id = 20;
        bet_id = 1;
        from_node = 11;
        to_node = 10;
        edge_type = EdgeType.derived_from;
        created_at = 13;
      }
      ∷ [];
  outcomes = [];
}

abbrev pub sample_world : World ℤ
sample_world = record { db = sample_db; draws = 0; sent = []; host = host }

abbrev pub sample_state : BetState ℤ
sample_state = create_initial_state 1 "doc" 738900
