-- ===== src/Integrations/Google.antt =====
-- integrations/gdocs.py and integrations/gcal.py.
use wager.Prelude.{
  ℕ, String, Bool, true, ◌&&◌, ◌||◌, leb, ◌==◌, Option, none, some, List, [], ◌∷◌, if◌then◌else◌,
  codes, concat,
}
use wager.Prelude.Int.{pos}
use wager.Prelude.Dates.{add_days}
use wager.Models.{Date, Source, Severity}
use wager.Exec.{pure, ◌>>=◌, ◌>>◌}
use wager.World.{
  Action, Reply, answered, raised, get_services, new_flag, send, fetched_doc, inserted_event,
}
use wager.Integrations.{FetchResult, success, failure}

-- `element.get("textRun", {}).get("content", "")`, joined over all elements.
run_text : Option String → String
run_text none = ""
run_text (some t) = t

paragraph_text : List (Option String) → String
unfolding run_text
paragraph_text [] = ""
paragraph_text (e ∷ es) = concat (run_text e ∷ paragraph_text es ∷ [])

unfoldable pub body_text : List (List (Option String)) → String
unfolding paragraph_text
body_text [] = ""
body_text (p ∷ ps) = concat (paragraph_text p ∷ body_text ps ∷ [])

-- `str.isspace` of one character.
is_space : ℕ → Bool
is_space c =
    (leb 9 c && leb c 13)
    || ((leb 28 c && leb c 32)
        || (c == 133
            || (c == 160
                || (c == 5760
                    || ((leb 8192 c && leb c 8202)
                        || (c == 8232
                            || (c == 8233 || (c == 8239 || (c == 8287 || c == 12288)))))))))

-- `not text.strip()`
unfoldable pub is_blank : List ℕ → Bool
unfolding is_space
is_blank [] = true
is_blank (c ∷ cs) = is_space c && is_blank cs

module _ {F : Type 0} where
  abbrev pub gdocs_flag : String → Action F (FetchResult String)
  gdocs_flag message = do
    flag ← new_flag Source.gdocs Severity.critical message
    pure (failure flag)

  abbrev pub read_doc : Reply (List (List (Option String))) → Action F (FetchResult String)
  read_doc (raised e) = gdocs_flag (concat ("gdocs_fetch_failed: " ∷ e ∷ []))
  read_doc (answered doc) =
      if is_blank (codes (body_text doc))
      then gdocs_flag "gdocs_empty_doc"
      else pure (success (body_text doc))

  unfoldable pub fetch_transcript : String → Action F (FetchResult String)
  fetch_transcript doc_id = do
    services ← get_services
    send (fetched_doc doc_id)
    read_doc (services.docs_get doc_id)

  abbrev pub event_result : Reply String → Action F (FetchResult String)
  event_result (answered i) = pure (success i)
  event_result (raised e) = do
    flag ← new_flag Source.gcal Severity.critical (concat ("calendar_write_failed: " ∷ e ∷ []))
    pure (failure flag)

  -- The day after, which the event ends before; what `date` raises is caught like the rest.
  abbrev pub insert_until : Option Date → Date → String → String → Action F (FetchResult String)
  insert_until none start title description = event_result (raised "date value out of range")
  insert_until (some end) start title description = do
    services ← get_services
    send (inserted_event start)
    event_result (services.insert_event title description start end)

  -- `date.fromisoformat(None)` raises.
  abbrev pub create_review_event : Option Date → String → String → Action F (FetchResult String)
  create_review_event none title description =
      event_result (raised "fromisoformat: argument must be str")
  create_review_event (some review_date) title description =
      insert_until (add_days review_date (pos 1)) review_date title description
