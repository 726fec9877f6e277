-- ===== src/Cli.antt =====
-- cli.py: a command is what it prints, what it prints on standard error, and how it ends. Typer, which is
-- not code of the repository, ends a process whose command raised with the exit code 1.
pub mod Phase1
pub mod Reviews
pub mod Show
pub mod Commands
pub mod Agreement
pub mod Clicks
pub mod Summaries
pub mod Keeps
pub mod History
pub mod Answers
pub mod Listing
use wager.Prelude.{ℕ, String, Option, none, some, List, [], ◌∷◌}
use wager.Errors.{Exception}
use wager.Exec.{Result, ok, err}
use wager.World.{World}

pub data Ending : Type 0 where
  -- A command that returns has the exit code 0; `typer.Exit(1)` has 1.
  exited : ℕ → Ending
  crashed : Exception → Ending

-- The lines that `typer.echo` prints.
pub record Output : Type 0 where
  pub printed : List String
  pub errors : List String
  pub ending : Ending

abbrev pub Command : Type 0 → Type 0
Command F = World F → Output × World F

abbrev pub exit_code : Ending → ℕ
exit_code (exited n) = n
exit_code (crashed e) = 1

abbrev pub returned : List String → Output
returned lines = record { printed = lines; errors = []; ending = exited 0 }

-- `typer.echo(line, err=True)` and `raise typer.Exit(1)`.
abbrev pub refused : String → Output
refused line = record { printed = []; errors = line ∷ []; ending = exited 1 }

abbrev pub crash : Exception → Output
crash e = record { printed = []; errors = []; ending = crashed e }

-- An f-string's text of a value that may be None.
abbrev pub or_none : {A : Type 0} → (A → String) → Option A → String
or_none show none = "None"
or_none show (some a) = show a

-- A line that may raise, before what is printed after it.
abbrev pub echo_then : Result String → Output → Output
echo_then (ok line) o = record o { printed = line ∷ o.printed }
echo_then (err e) o = crash e
