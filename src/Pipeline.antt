-- ===== src/Pipeline.antt =====
-- pipeline/: the nodes of the two graphs, and the graphs.
pub mod Extraction
pub mod Decision
pub mod Effects
pub mod Review
pub mod Writes
pub mod Drafts
pub mod Derived
pub mod Awaiting
pub mod Confirmed
pub mod Resumed
pub mod Paused
pub mod Restarts
pub mod Quiet
pub mod Uncommented
pub mod Refused
pub mod Reviewed
pub mod Typed
pub mod Upkeep
pub mod Runs
pub mod Statements
pub mod Attestation
pub mod Interrupt
pub mod Wrapping
pub mod Counts
pub mod Graphs
pub mod Logs
pub mod Prompts
pub mod Graded
pub mod History
pub mod Choice
pub mod Grading
pub mod Fetching
pub mod Reporting
pub mod Invoke
