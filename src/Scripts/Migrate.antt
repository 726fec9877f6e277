-- ===== src/Scripts/Migrate.antt =====
-- scripts/migrate.py: the migrations are applied in the order of their names, each in a transaction of its
-- own, and recorded in the table `schema_migrations`. What Postgres does on the text of a file is a
-- parameter, over an abstract content of the database.
pub mod Replay
pub mod Repeat
use text.Mathlib.Text.{◌==◌}
use wager.Prelude as Prelude
use wager.Prelude.{
  ℕ, String, Bool, true, false, ◌||◌, ◌&&◌, Option, none, some, List, [], ◌∷◌, any, codes, ltb,
  if◌then◌else◌,
}

-- A file of the folder: its name and its text.
pub record SqlFile : Type 0 where
  pub name : String
  pub sql : String

pub data MigrationError : Type 0 where
  -- The RuntimeError of an empty folder.
  no_migrations : MigrationError
  -- A statement that Postgres refuses, by the file.
  refused : String → MigrationError

pub data Outcome (A : Type 0) : Type 0 where
  done : A → Outcome A
  failed : MigrationError → Outcome A

-- `schema_migrations` is `none` before it is created.
pub record Database (S : Type 0) : Type 0 where
  pub content : S
  pub schema_migrations : Option (List String)

-- `sorted`: the order of texts, by code points.
unfoldable pub leb_codes : List ℕ → List ℕ → Bool
leb_codes [] bs = true
leb_codes (a ∷ as') [] = false
leb_codes (a ∷ as') (b ∷ bs) = let rest = leb_codes as' bs in ltb a b || (Prelude.◌==◌ a b && rest)

unfoldable pub insert_file : SqlFile → List SqlFile → List SqlFile
insert_file f [] = f ∷ []
insert_file f (g ∷ gs) =
    let rest = insert_file f gs in
    if leb_codes (codes f.name) (codes g.name) then f ∷ g ∷ gs else g ∷ rest

unfoldable pub sort_files : List SqlFile → List SqlFile
sort_files [] = []
sort_files (f ∷ fs) = insert_file f (sort_files fs)

abbrev pub is_applied : String → List String → Bool
is_applied name = any (λ n. n == name)

-- `applied_migrations(conn)`, after the table is there.
abbrev pub applied_migrations : Option (List String) → List String
applied_migrations none = []
applied_migrations (some names) = names

module _ {S : Type 0} where
  -- `CREATE TABLE IF NOT EXISTS schema_migrations`, committed.
  abbrev pub create_table : Database S → Database S
  create_table d = record d { schema_migrations = some (applied_migrations d.schema_migrations) }

  -- What a file's transaction leaves: `none` is rolled back. The primary key refuses a name twice.
  abbrev pub record_file : SqlFile → Option S → Database S → Option (Database S)
  record_file f none d = none
  record_file f (some content) d =
      if is_applied f.name (applied_migrations d.schema_migrations)
      then none
      else some (record {
        content = content;
        schema_migrations = some (f.name ∷ applied_migrations d.schema_migrations);
      })

  abbrev pub prepend :
      String → Outcome (List String) × Database S → Outcome (List String) × Database S
  prepend name (done names, d) = (done (name ∷ names), d)
  prepend name (failed e, d) = (failed e, d)

  -- The rest of the loop after a file; a refused one ends it.
  abbrev pub after_file :
      SqlFile
      → (Database S → Outcome (List String) × Database S)
      → Database S
      → Option (Database S)
      → Outcome (List String) × Database S
  after_file f rest d none = (failed (refused f.name), d)
  after_file f rest d (some d') = prepend f.name (rest d')

module _ {S : Type 0} (execute : String → S → Option S) where
  abbrev pub apply_file : SqlFile → Database S → Option (Database S)
  apply_file f d = record_file f (execute f.sql d.content) d

  -- The loop over the files; `already` is read once.
  unfoldable pub apply_all :
      List String → List SqlFile → Database S → Outcome (List String) × Database S
  apply_all already [] d = (done [], d)
  apply_all already (f ∷ fs) d =
      if is_applied f.name already
      then apply_all already fs d
      else after_file f (apply_all already fs) d (apply_file f d)

  abbrev pub apply_sorted : List SqlFile → Database S → Outcome (List String) × Database S
  apply_sorted [] d = (failed no_migrations, d)
  apply_sorted (f ∷ fs) d = apply_all (applied_migrations d.schema_migrations) (f ∷ fs) d

  unfoldable pub run : List SqlFile → Database S → Outcome (List String) × Database S
  run files d = apply_sorted (sort_files files) (create_table d)
