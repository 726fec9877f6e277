-- ===== src/Models/Values.antt =====
-- The texts behind the enums of models.py and of `_BET_STATUSES` (graph/store.py), both ways: the
-- member's value, and the call of the class on a text, `none` for its ValueError.
use text.Mathlib.Text.{◌==◌}
use wager.Prelude.{String, ◌≡◌, refl, Option, none, some, if◌then◌else◌}
use wager.Models.{Source, Severity, BetStatus}

-- `source.value`.
unfoldable pub source_value : Source → String
source_value Source.gdocs = "gdocs"
source_value Source.slack = "slack"
source_value Source.github = "github"
source_value Source.gcal = "gcal"
source_value Source.posthog = "posthog"
source_value Source.llm = "llm"
source_value Source.db = "db"

-- `Source(text)`.
unfoldable pub source_of : String → Option Source
source_of t =
    if t == "gdocs"
    then some Source.gdocs
    else if t == "slack"
    then some Source.slack
    else if t == "github"
    then some Source.github
    else if t == "gcal"
    then some Source.gcal
    else if t == "posthog"
    then some Source.posthog
    else if t == "llm"
    then some Source.llm
    else if t == "db"
    then some Source.db
    else none

unfoldable pub severity_value : Severity → String
severity_value Severity.info = "INFO"
severity_value Severity.warning = "WARNING"
severity_value Severity.critical = "CRITICAL"

unfoldable pub severity_of : String → Option Severity
severity_of t =
    if t == "INFO"
    then some Severity.info
    else if t == "WARNING"
    then some Severity.warning
    else if t == "CRITICAL"
    then some Severity.critical
    else none

unfoldable pub status_value : BetStatus → String
status_value BetStatus.extracting = "EXTRACTING"
status_value BetStatus.pending_confirmation = "PENDING_CONFIRMATION"
status_value BetStatus.confirmed = "CONFIRMED"
status_value BetStatus.scheduled = "SCHEDULED"
status_value BetStatus.resolved = "RESOLVED"
status_value BetStatus.flagged = "FLAGGED"

-- The member of `_BET_STATUSES` that a text is.
unfoldable pub status_of : String → Option BetStatus
status_of t =
    if t == "EXTRACTING"
    then some BetStatus.extracting
    else if t == "PENDING_CONFIRMATION"
    then some BetStatus.pending_confirmation
    else if t == "CONFIRMED"
    then some BetStatus.confirmed
    else if t == "SCHEDULED"
    then some BetStatus.scheduled
    else if t == "RESOLVED"
    then some BetStatus.resolved
    else if t == "FLAGGED"
    then some BetStatus.flagged
    else none

pub source_of-source_value : (s : Source) → source_of (source_value s) ≡ some s
unfolding source_of source_value
source_of-source_value Source.gdocs = refl
source_of-source_value _ = refl

pub severity_of-severity_value : (s : Severity) → severity_of (severity_value s) ≡ some s
unfolding severity_of severity_value
severity_of-severity_value Severity.info = refl
severity_of-severity_value _ = refl

unfoldable pub status_of-status_value : (s : BetStatus) → status_of (status_value s) ≡ some s
unfolding status_of status_value
status_of-status_value BetStatus.extracting = refl
status_of-status_value _ = refl
