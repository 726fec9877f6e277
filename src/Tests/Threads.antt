-- ===== src/Tests/Threads.antt =====
-- A sample checkpointer.
use wager.Prelude.{refl, some, [], ◌==◌, Bool-cases, inl, inr, if◌then◌else◌}
use wager.Prelude.Int.{ℤ}
use wager.Exec.{pure}
use wager.Pipeline.Graphs.{extraction_nodes, decision_nodes, phase1_nodes, phase1_resume, run_nodes}
use wager.Pipeline.Invoke.{Checkpointer}
use wager.Api.Keeps.{IsCheckpointer}
use wager.Tests.{hundredths, sample_state}
use wager.Tests.Runs.{waiting}

-- A checkpointer with two threads: the run of bet 1 waits for the choice, and that of any other bet failed
-- at docs_intake.
abbrev pub saver : Checkpointer ℤ
saver = record {
  setup = pure tt;
  resume = λ bet index.
      if bet == 1
      then phase1_resume index waiting
      else run_nodes (phase1_nodes "facts" "reasoning" (some index)) sample_state;
}

pub saver-IsCheckpointer : IsCheckpointer saver
unfolding phase1_resume
saver-IsCheckpointer = record {
  setup_db = λ w. refl;
  setup_raises = λ w e h. absurd (cc);
  resumes = λ bet index w. elim (Bool-cases (bet == 1)) [
    | inl first ↦ (
      "facts",
      "reasoning",
      some index,
      extraction_nodes "facts" "reasoning",
      decision_nodes (some index),
      [],
      waiting,
      refl,
      rw first refl,
    )
    | inr other ↦ (
      "facts",
      "reasoning",
      some index,
      [],
      phase1_nodes "facts" "reasoning" (some index),
      [],
      sample_state,
      refl,
      rw other refl,
    )
  ];
}
