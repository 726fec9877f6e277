-- ===== src/Api/Middleware.antt =====
-- api/middleware.py: `RunIdMiddleware.dispatch`. `call_next` is a parameter: what the framework and the routes
-- do with the request, under the context variables. What it raises passes through, without the header.
use wager.Prelude.{String, Option, none, some, codes, show_hex, if◌then◌else◌}
use wager.Exec.{pure, ◌>>=◌}
use wager.World.{Action, draw_uuid}
use wager.Pipeline.Logs.{Context, default_context}
use wager.Pipeline.Review.{is_empty}

module _ {F : Type 0} where
  -- `uuid.uuid4().hex`
  abbrev pub fresh_run_id : Action F String
  fresh_run_id = do u ← draw_uuid; pure (show_hex 32 u)

  -- `request.headers.get("X-Run-Id") or uuid.uuid4().hex`
  abbrev pub run_id_of : Option String → Action F String
  run_id_of none = fresh_run_id
  run_id_of (some id) = if is_empty (codes id) then fresh_run_id else pure id

  -- The response with its header X-Run-Id.
  unfoldable pub dispatch :
      {R : Type 0} → Option String → (Context → Action F R) → Action F (R × String)
  dispatch header call_next = do
    run_id ← run_id_of header
    response ← call_next (record default_context { run_id_ctx = some run_id })
    pure (response, run_id)
