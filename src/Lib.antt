-- ===== src/Lib.antt =====
-- Wager: a pipeline that turns product meetings into tracked bets, and grades them later.
--
-- Phase 1 reads a meeting's document, has a language model extract facts and derive a hypothesis with
-- options, asks the PM over Slack to confirm an option, writes the decision, and links a GitHub
-- issue and a calendar event. Phase 2 reviews due bets: it fetches the metric from PostHog, grades
-- the prediction, and reports. Both phases keep everything in four tables of Postgres.
--
-- Parts and files (paths from the repository's root; the package is src/pm_agent):
--   Models, Models/Values, Models/Flags   models.py, and the JSON of flags in graph/store.py
--   Config, Errors, Errors/Formats, State config.py, errors.py and the ApiError of api/errors.py with the
--                                         texts of exceptions, state.py
--   Db, Sql                               db/migrations/0001_init.sql: the tables, and the INSERT and
--                                         UPDATE statements with the keys that may refuse them
--   Db/Sorted                             ORDER BY created_at, id
--   World                                 the database, the clock, uuid4 and the services that a call
--                                         sees; with_conn is db/connection.py
--   Store, Store/Fields, Store/Decisions, Store/Reads
--                                         graph/store.py and graph/calibration.py, function by function
--   Integrations, Integrations/Slack, Integrations/Signature, Integrations/Github,
--   Integrations/Posthog, Integrations/Google
--                                         integrations/; Signature is verify_slack_signature
--   Llm                                   llm.py
--   Report                                report/render.py
--   Pipeline/Extraction                   pipeline/nodes/intake.py and extraction.py
--   Pipeline/Decision                     pipeline/nodes/decision.py
--   Pipeline/Effects                      pipeline/nodes/phase1_effects.py
--   Pipeline/Review                       pipeline/nodes/phase2.py
--   Pipeline/Prompts                      pipeline/prompts.py
--   Pipeline/Graphs                       nodeutil.py, pipeline/phase1.py and pipeline/phase2.py
--   Pipeline/Logs                         the log lines of nodeutil.py, for the same sequences of nodes
--   Pipeline/Invoke                       an invocation of phase 1 as the API and the commands see it
--   Api, Api/Phase1, Api/Webhook, Api/Reads, Api/Reviews, Api/Serve
--                                         api/routes.py and the handlers of api/errors.py; serve takes
--                                         a request to its route
--   Api/Middleware                        api/middleware.py
--   Cli, Cli/Phase1, Cli/Reviews, Cli/Show, Cli/Commands
--                                         cli.py: what a command prints and how it ends
--   Scripts/Migrate                       scripts/migrate.py
--   Scripts/Seeds, Scripts/SeedDemo       scripts/seed_demo.py: its data, and what it does
--   Scripts/PosthogEvents, Scripts/SeedPosthog
--                                         scripts/seed_posthog.py: its data, and what it does
--   Scripts/DevRunExtraction              scripts/dev_run_extraction.py
--   Store/Typed                           the comments on EdgeType in models.py: which kinds of nodes a
--                                         type of edge joins
-- The other files under these folders hold proofs; World/Keeps, World/Yields, World/Ensures,
-- World/Triple and World/Quiet hold the rules by which the proofs follow a call: what it keeps, what
-- it returns, what holds where it returns, what it makes of a precondition, and that it sends no
-- comment. Pipeline/Writes is the interface between the store and the graphs, an invariant of the
-- database that the store's writes keep; KeepsGraphs of Pipeline/Runs, and KeepsRuns of
-- Pipeline/Restarts for runs that go on at any node, are those between the graphs and their callers.
-- Pipeline/History composes the calls of both graphs into histories, and Cli/History the requests
-- and the commands. Tests has the examples.
--
-- A call is a function from a world to a result and a world (Exec). What was written before a raise
-- stays written until with_conn rolls it back. Each handler has the source's name; what follows a
-- reply is a helper by clauses (after_fetch, after_query and so on).
--
-- Bounds. Loops over lists are structural recursion. A call of the language model recurses on the
-- number of attempts that are left, 2 at first as in the source, and raises at 0. The batches of
-- Scripts/SeedPosthog have as much fuel as there are events, which is enough for all of them, and
-- the digits of a number have one more than the number.
-- Integers of Python are unbounded; a date is its ordinal up to 9999-12-31.
--
-- Parameters. Floats are an abstract type F with the operations that the program uses (Floats). The
-- replies of Google, Slack, GitHub, PostHog and of the language model, and pydantic's validation, are
-- functions of the request (World.Services), and so are HMAC-SHA256, json.loads and int(). uuid4 and
-- now are sequences. LangGraph is taken to run the nodes in the order of the edges and to run an
-- interrupted node again with its saved state; its checkpointer is the record Checkpointer, and
-- IsCheckpointer says what is relied on: it writes to tables of its own, raises exceptions of its
-- own, and a resumption goes on at the node that was interrupted or that failed, with some state that
-- was saved, or runs nothing. In a first run its writes between two nodes are taken to succeed. What
-- Postgres does on a migration's text, the texts of times (isoformat and fromisoformat), and the float
-- literals and the batch endpoint of the scripts, are parameters. A JSONB value is the dictionary that
-- was dumped. A SELECT without ORDER BY gives its rows in the order of the model's list of rows, which
-- stands for whatever order the table has.
--
-- Not modelled: api/app.py, which registers the parts of the API with the framework, and the
-- frameworks' reading of requests and arguments; an id of a bet is taken to be the text of a UUID, and
-- the value of a Slack action to be such an id. serve leaves out the middleware, and the nodes take
-- their prompts as arguments. The lines that scripts/dev_run_extraction.py prints, and its comparison
-- of a hypothesis, which no run reaches; duration_ms of the log lines; credentials, headers and
-- URLs. time.time() is read to the microsecond, and timestamps that are beyond the floats are not
-- covered. Runs that overlap in time are not covered: Postgres's isolation is no part of the model,
-- and the background task of a request ends before the next request.
pub mod Prelude
pub mod Models
pub mod Floats
pub mod Config
pub mod Errors
pub mod Exec
pub mod Db
pub mod World
pub mod Sql
pub mod Store
pub mod Integrations
pub mod Llm
pub mod State
pub mod Report
pub mod Pipeline
pub mod Tests
pub mod Api
pub mod Cli
pub mod Scripts
