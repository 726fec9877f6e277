-- ===== src/Scripts/Migrate/Repeat.antt =====
-- A second run of scripts/migrate.py.
use text.Mathlib.TextEquality.{eq_iff}
use wager.Prelude.{
  String, ◌≡◌, sym, inl, inr, refl, true, Bool-cases, Option, some, Option-cases, List, [], ◌∷◌,
  All, arith,
}
use wager.Scripts.Migrate.{
  SqlFile, Outcome, done, failed, Database, sort_files, is_applied, applied_migrations,
  create_table, prepend, apply_all, apply_sorted, run,
}

abbrev names_of : {S : Type 0} → Database S → List String
names_of d = applied_migrations d.schema_migrations

abbrev Covered : List String → List SqlFile → Type 0
Covered names = All (λ f. is_applied f.name names ≡ true)

abbrev Within : List String → List String → Type 0
Within ns ms = (n : String) → is_applied n ns ≡ true → is_applied n ms ≡ true

is_applied_head : (n : String) (ns : List String) → is_applied n (n ∷ ns) ≡ true
is_applied_head n ns = let same = (eq_iff n n).1 refl in ground arith

is_applied_tail : (m : String) (ns : List String) → Within ns (m ∷ ns)
is_applied_tail m ns n h = ground arith

module _ {S : Type 0} where
  abbrev IsTracked : Database S → Type 0
  IsTracked d = d.schema_migrations ≡ some (names_of d)

  -- A run that ended well has recorded every file.
  abbrev Complete : List SqlFile → Outcome (List String) × Database S → Type 0
  Complete fs (done names, d) = Covered (names_of d) fs
  Complete fs (failed e, d) = Unit

  abbrev Settled : List SqlFile → Database S → Outcome (List String) × Database S → Type 0
  Settled fs d x = IsTracked x.1 × Within (names_of d) (names_of x.1) × Complete fs x

  prepend-Settled :
      (f : SqlFile) (fs : List SqlFile) (d d' : Database S) (x : Outcome (List String) × Database S)
      → names_of d' ≡ f.name ∷ names_of d
      → Settled fs d' x
      → Settled (f ∷ fs) d (prepend f.name x)
  prepend-Settled f fs d d' (done names, u) same (tracked, within, covered) = (
    tracked,
    λ n h. within n (rw same (is_applied_tail f.name (names_of d) n h)),
    (within f.name (rw same (is_applied_head f.name (names_of d))), covered),
  )
  prepend-Settled f fs d d' (failed e, u) same (tracked, within, covered) =
      (tracked, λ n h. within n (rw same (is_applied_tail f.name (names_of d) n h)), tt)

  old-Settled :
      (f : SqlFile) (fs : List SqlFile) (d : Database S) (x : Outcome (List String) × Database S)
      → is_applied f.name (names_of d) ≡ true
      → Settled fs d x
      → Settled (f ∷ fs) d x
  old-Settled f fs d (done names, u) old (tracked, within, covered) =
      (tracked, within, (within f.name old, covered))
  old-Settled f fs d (failed e, u) old settled = settled

  create_table_tracked : (d : Database S) → IsTracked d → create_table d ≡ d
  create_table_tracked d tracked = rw (sym tracked) refl

module _ {S : Type 0} (execute : String → S → Option S) (already : List String) where
  apply_all-Settled :
      (fs : List SqlFile) (d : Database S)
      → IsTracked d
      → Within already (names_of d)
      → Settled fs d (apply_all execute already fs d)
  unfolding apply_all
  apply_all-Settled [] d tracked within = (tracked, λ n h. h, tt)
  apply_all-Settled (f ∷ fs) d tracked within = elim (Bool-cases (is_applied f.name already)) [
    | inl old ↦
        rw old (old-Settled f fs d _ (within f.name old) (apply_all-Settled fs d tracked within))
    | inr new ↦ rw new (elim (Option-cases (execute f.sql d.content)) [
      | inl refuses ↦ rw refuses (tracked, λ n h. h, tt)
      | inr (c, runs) ↦ elim (Bool-cases (is_applied f.name (names_of d))) [
        | inl twice ↦ rw runs (rw twice (tracked, λ n h. h, tt))
        | inr once ↦ rw runs (
            rw once (
              let d' : Database S = record {
                content = c;
                schema_migrations = some (f.name ∷ names_of d);
              } in
              prepend-Settled f fs d d' _ refl (
                apply_all-Settled fs d' refl
                  (λ n h. is_applied_tail f.name (names_of d) n (within n h)))))
      ]
    ])
  ]

  -- A run over files that are recorded does nothing.
  apply_all_again :
      (fs : List SqlFile) (d : Database S)
      → Covered already fs
      → apply_all execute already fs d ≡ (done [], d)
  unfolding apply_all
  apply_all_again [] d h = refl
  apply_all_again (f ∷ fs) d (old, rest) = rw old (apply_all_again fs d rest)

module _ {S : Type 0} (execute : String → S → Option S) where
  apply_sorted_repeats :
      (fs : List SqlFile) (d d' : Database S) (names : List String)
      → apply_sorted execute fs (create_table d) ≡ (done names, d')
      → apply_sorted execute fs (create_table d') ≡ (done [], d')
  apply_sorted_repeats [] d d' names h = absurd (cc)
  apply_sorted_repeats (f ∷ fs) d d' names h =
      let settled =
        apply_all-Settled execute (names_of d) (f ∷ fs) (create_table d) refl (λ n k. k) in
      let (tracked, within, covered) = rw h at settled in
      rw (create_table_tracked d' tracked)
        (apply_all_again execute (names_of d') (f ∷ fs) d' covered)

  -- After a run of the migrations that succeeded, a second run over the same files applies none
  -- and changes nothing.
  pub run_repeats :
      (files : List SqlFile) (d d' : Database S) (names : List String)
      → run execute files d ≡ (done names, d')
      → run execute files d' ≡ (done [], d')
  unfolding run
  run_repeats files d d' names h = apply_sorted_repeats (sort_files files) d d' names h
