-- ===== src/Scripts/Migrate/Replay.antt =====
-- What a run of scripts/migrate.py has executed and recorded.
use wager.Prelude.{
  String, ◌≡◌, inl, inr, refl, ap, false, Bool-cases, Option, none, some, Option-cases, List, [],
  ◌∷◌, map, All,
}
use wager.Scripts.Migrate.{
  SqlFile, Outcome, done, failed, Database, sort_files, is_applied, applied_migrations,
  create_table, prepend, apply_all, apply_sorted, run,
}

abbrev if_ran : {S : Type 0} → Option S → (S → Option S) → Option S
if_ran none rest = none
if_ran (some c) rest = rest c

module _ {S : Type 0} (execute : String → S → Option S) where
  -- The files' statements, one file after the other.
  unfoldable pub replay : List SqlFile → S → Option S
  replay [] c = some c
  replay (f ∷ fs) c = if_ran (execute f.sql c) (replay fs)

-- The recorded names after these files.
unfoldable pub added : List SqlFile → List String → List String
added [] names = names
added (f ∷ fs) names = added fs (f.name ∷ names)

abbrev Names : Outcome (List String) → List SqlFile → Type 0
Names (done names) fs = names ≡ map (λ f. f.name) fs
Names (failed e) fs = Unit

abbrev pub IsNew : List String → SqlFile → Type 0
IsNew already f = is_applied f.name already ≡ false

module _ {S : Type 0} (execute : String → S → Option S) (already : List String) where
  -- The files that were executed and recorded; none of them had been before.
  abbrev pub Replayed : Database S → Outcome (List String) × Database S → Type 0
  Replayed d x =
      (fs : List SqlFile) × (replay execute fs d.content ≡ some x.1.content)
      × (applied_migrations x.1.schema_migrations
          ≡ added fs (applied_migrations d.schema_migrations))
      × All (IsNew already) fs
      × Names x.0 fs

  prepend-Replayed :
      (f : SqlFile) (c : S) (d : Database S) (x : Outcome (List String) × Database S)
      → execute f.sql d.content ≡ some c
      → is_applied f.name already ≡ false
      → Replayed
          (record {
            content = c;
            schema_migrations = some (f.name ∷ applied_migrations d.schema_migrations);
          })
          x
      → Replayed d (prepend f.name x)
  unfolding replay added
  prepend-Replayed f c d (done names, d') e new (fs, same, recorded, news, texts) =
      (f ∷ fs, rw e same, recorded, (new, news), ap (λ ns. f.name ∷ ns) texts)
  prepend-Replayed f c d (failed e', d') e new (fs, same, recorded, news, texts) =
      (f ∷ fs, rw e same, recorded, (new, news), tt)

  apply_all-Replayed :
      (fs : List SqlFile) (d : Database S) → Replayed d (apply_all execute already fs d)
  unfolding apply_all replay added
  apply_all-Replayed [] d = ([], refl, refl, tt, refl)
  apply_all-Replayed (f ∷ fs) d = elim (Bool-cases (is_applied f.name already)) [
    | inl old ↦ rw old (apply_all-Replayed fs d)
    | inr new ↦ rw new (elim (Option-cases (execute f.sql d.content)) [
      | inl refuses ↦ rw refuses ([], refl, refl, tt, tt)
      | inr (c, runs) ↦
          elim (Bool-cases (is_applied f.name (applied_migrations d.schema_migrations))) [
            | inl twice ↦ rw runs (rw twice ([], refl, refl, tt, tt))
            | inr once ↦
                rw runs (rw once (prepend-Replayed f c d _ runs new (apply_all-Replayed fs _)))
          ]
    ])
  ]

module _ {S : Type 0} (execute : String → S → Option S) where
  apply_sorted-Replayed :
      (fs : List SqlFile) (d : Database S)
      → Replayed execute
          (applied_migrations d.schema_migrations)
          d
          (apply_sorted execute fs (create_table d))
  unfolding replay added
  apply_sorted-Replayed [] d = ([], refl, refl, tt, tt)
  apply_sorted-Replayed (f ∷ fs) d =
      apply_all-Replayed execute (applied_migrations d.schema_migrations) (f ∷ fs) (create_table d)

  -- However a run of the migrations ends, the content of the database is what it was with some
  -- files executed one after the other, none of which was recorded before, and exactly their names
  -- have been recorded; if it ends well, these are the names that it returns.
  pub run_replays :
      (files : List SqlFile) (d : Database S)
      → Replayed execute (applied_migrations d.schema_migrations) d (run execute files d)
  unfolding run
  run_replays files d = apply_sorted-Replayed (sort_files files) d
