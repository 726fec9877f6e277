-- ===== src/Scripts/DevRunExtraction.antt =====
-- scripts/dev_run_extraction.py: the extraction on a sample transcript, compared with a fixture. What it prints
-- is left out. `str.lower` and the two fixture files are parameters.
pub mod Failure
use text.Mathlib.Text.{find?}
use wager.Prelude.{
  ℕ, suc, String, Bool, true, false, not, ◌==◌, Option, none, some, List, [], ◌∷◌, ◌++◌, map, head?,
  length, concat, show_ℕ, if◌then◌else◌,
}
use wager.Prelude.Int.{ℤ, pos}
use wager.Models.{Uuid, Date, DataFlag, GraphNode}
use wager.Errors.{index_error, attribute_error}
use wager.Exec.{pure, raise, or_raise, ◌>>=◌, ◌>>◌}
use wager.World.{Action, draw_uuid, with_conn}
use wager.Store.{create_bet}
use wager.State.{BetState, create_initial_state}
use wager.Pipeline.Extraction.{extract_facts, derive_reasoning}
use wager.Pipeline.Prompts.{extract_facts_prompt, derive_reasoning_prompt}
use wager.Pipeline.Review.{is_empty}

-- 2026-09-13.
abbrev pub meeting_day : Date
meeting_day = 739872

-- The keys of expected_extraction.json: the speakers of the facts, the contents of the assumptions, the
-- hypotheses and the options.
pub record Expected : Type 0 where
  pub speakers : List String
  pub assumptions : List String
  pub hypotheses : List String
  pub options : List String
  pub proposed_option_index : ℕ

abbrev pub is_in : String → String → Bool
is_in part text = elim (find? text part) [ none ↦ false | some _ ↦ true ]

-- A count that is not the expected one.
unfoldable pub count_problems : String → ℕ → ℕ → List String
count_problems name got expected =
    if got == expected
    then []
    else concat (name ∷ " count " ∷ show_ℕ got ∷ " != " ∷ show_ℕ expected ∷ []) ∷ []

module _ {F : Type 0} (lower : String → String) where
  -- `zip` of the facts with the speakers, from an index on.
  unfoldable pub speaker_problems : ℕ → List (GraphNode F) → List String → List String
  speaker_problems i (n ∷ ns) (speaker ∷ speakers) =
      (if is_in (lower speaker) (lower n.source)
        then []
        else concat ("fact " ∷ show_ℕ i ∷ " speaker mismatch: expected " ∷ speaker ∷ []) ∷ [])
      ++ speaker_problems (suc i) ns speakers
  speaker_problems i (n ∷ ns) [] = []
  speaker_problems i [] speakers = []

  unfoldable pub fact_problems : List (GraphNode F) → List String → List String
  fact_problems ns speakers =
      count_problems "facts" (length ns) (length speakers)
      ++ (if length ns == length speakers then speaker_problems 0 ns speakers else [])

module _ {F : Type 0} where
  -- `hyp.metric_name`: the node has no such attribute.
  abbrev pub compare_hypothesis : List (GraphNode F) → Action F (List String)
  compare_hypothesis [] = pure []
  compare_hypothesis (hyp ∷ hyps) = raise attribute_error

  -- The last option with the proposed id, from an index on.
  unfoldable pub index_of_id : Uuid → ℕ → List (GraphNode F) → Option ℕ → Option ℕ
  index_of_id id i [] got = got
  index_of_id id i (n ∷ ns) got = index_of_id id (suc i) ns (if n.id == id then some i else got)

  abbrev pub proposed_index : Option Uuid → List (GraphNode F) → Option ℕ
  proposed_index none options = none
  proposed_index (some id) options = index_of_id id 0 options none

abbrev pub is_index : ℕ → Option ℕ → Bool
is_index expected none = false
is_index expected (some i) = i == expected

unfoldable pub option_problems : {F : Type 0} → Expected → BetState F → List String
option_problems expected derived =
    count_problems "options" (length derived.options) (length expected.options)
    ++ ((if is_index expected.proposed_option_index
            (proposed_index derived.proposed_option_id derived.options)
          then []
          else "proposed option does not match expected (option A)" ∷ [])
        ++ map (λ f. concat ("unexpected flag: " ∷ f.message ∷ [])) derived.flags)

-- The exit code.
abbrev pub code_of : List String → ℕ
code_of problems = if is_empty problems then 0 else 1

module _ {F : Type 0} (lower : String → String) (transcript : String) (expected : Expected) where
  unfoldable pub main : Action F ℕ
  main = do
    bet_id ← draw_uuid
    with_conn (create_bet bet_id "dev-transcript-doc" meeting_day "U000TEST")
    let state : BetState F = record (create_initial_state bet_id "dev-transcript-doc" meeting_day) {
      raw_transcript = transcript;
    }
    extracted ← extract_facts extract_facts_prompt state
    derived ← derive_reasoning derive_reasoning_prompt extracted
    let problems =
        fact_problems lower extracted.facts expected.speakers
        ++ (count_problems "assumptions" (length derived.assumptions) (length expected.assumptions)
            ++ count_problems "hypotheses" (length derived.hypotheses) 1)
    _ ← or_raise (head? expected.hypotheses) index_error
    more ← compare_hypothesis derived.hypotheses
    pure (code_of (problems ++ (more ++ option_problems expected derived)))
