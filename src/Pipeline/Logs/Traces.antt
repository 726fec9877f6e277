-- ===== src/Pipeline/Logs/Traces.antt =====
-- What the log lines of a run tell.
use wager.Prelude.{String, ◌≡◌, refl, List, [], ◌∷◌, ◌++◌, map, if◌then◌else◌}
use wager.Errors.{Exception, graph_interrupt, is_graph_bubble_up}
use wager.Exec.{Result, ok, err, ◌>>=◌}
use wager.World.{World}
use wager.State.{BetState, NodeFn}
use wager.Pipeline.Graphs.{translate, translated, checked, run_nodes}
use wager.Pipeline.Logs.{
  Context, LogLine, structured_log, error_status, log_status, Logged, wrapped, then_run,
  run_wrapped,
}

module _ {F : Type 0} where
  abbrev names : List (String × NodeFn F) → List String
  names = map (λ n. n.0)

-- The lines of nodes that returned.
abbrev ok_lines : Context → List String → List LogLine
ok_lines ctx = map (λ n. structured_log ctx n "ok")

-- The status of the node that raised, by what left it.
abbrev raised_status : Exception → String
raised_status e = if is_graph_bubble_up e then "interrupt" else "error"

translated_status :
    (name : String) (e : Exception) → error_status e ≡ raised_status (translated name e)
unfolding error_status
translated_status name (graph_interrupt b os i) = refl
translated_status name _ = refl

-- The lines of the nodes with these names: one for each of them where the run returned, and else one for each
-- up to the node that raised, whose status is the only one that is not "ok".
abbrev pub IsTrace : {A : Type 0} → Context → List String → Result A → List LogLine → Type 0
IsTrace ctx ns (ok a) lines = lines ≡ ok_lines ctx ns
IsTrace ctx ns (err e) lines =
    (before : List String) × (name : String) × (after : List String) × (ns ≡ before ++ name ∷ after)
    × (lines ≡ ok_lines ctx before ++ structured_log ctx name (raised_status e) ∷ [])

IsTrace-next :
    {A : Type 0} (ctx : Context) (n : String) (ns : List String) (r : Result A)
    (lines : List LogLine)
    → IsTrace ctx ns r lines
    → IsTrace ctx (n ∷ ns) r (structured_log ctx n "ok" ∷ lines)
IsTrace-next ctx n ns (ok a) lines h = rw h refl
IsTrace-next ctx n ns (err e) lines (before, name, after, split, tail) =
    (n ∷ before, name, after, rw split refl, rw tail refl)

module _ {F : Type 0} where
  -- The trace of a run, which without its lines is that of `run_nodes`.
  abbrev pub IsLogged :
      Context → List (String × NodeFn F) → Result (BetState F) × World F → Logged F → Type 0
  IsLogged ctx nodes run logged = (logged.0 ≡ run) × IsTrace ctx (names nodes) run.0 logged.1

  step-IsLogged :
      (ctx : Context) (name : String) (fn : NodeFn F) (nodes : List (String × NodeFn F))
      (r : Result (BetState F)) (w : World F)
      → ((s : BetState F) (v : World F)
          → IsLogged ctx nodes (run_nodes nodes s v) (run_wrapped ctx nodes s v))
      → IsLogged ctx
          ((name, fn) ∷ nodes)
          (((λ v. translate name (r, v)) >>= λ next. run_nodes nodes next) w)
          (then_run
            (translate name (r, w), structured_log ctx name (log_status r) ∷ [])
            (run_wrapped ctx nodes))
  unfolding ◌>>=◌
  step-IsLogged ctx name fn nodes (ok s) w rest =
      let (run, trace) = rest s w in (run, IsTrace-next ctx name (names nodes) _ _ trace)
  step-IsLogged ctx name fn nodes (err e) w rest =
      (refl, ([], name, names nodes, refl, rw (translated_status name e) refl))

  -- A run with its log lines returns and leaves what the run without them does; if it returns, the
  -- lines are one with the status ok for each node of the graph in order, and else one for each
  -- node up to the one that raised, whose status is interrupt for the pause of the graph and error
  -- for anything else; all have the ids of the context variables.
  pub run_wrapped-IsLogged :
      (ctx : Context) (nodes : List (String × NodeFn F)) (s : BetState F) (w : World F)
      → IsLogged ctx nodes (run_nodes nodes s w) (run_wrapped ctx nodes s w)
  unfolding run_nodes run_wrapped wrapped checked ◌>>=◌
  run_wrapped-IsLogged ctx [] s w = (refl, refl)
  run_wrapped-IsLogged ctx ((name, fn) ∷ nodes) s w =
      step-IsLogged ctx name fn nodes (fn s w).0 (fn s w).1
        (λ t v. run_wrapped-IsLogged ctx nodes t v)
