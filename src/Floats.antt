-- ===== src/Floats.antt =====
-- Python's float arithmetic, and the aggregates of Postgres over double precision: an interface,
-- since neither is code of the repository.
use wager.Prelude.{ℕ, String, Bool, List}

pub record Floats (F : Type 0) : Type 0 where
  -- a - b
  pub sub : F → F → F
  pub abs : F → F
  -- a <= b
  pub leb : F → F → Bool
  -- f"{x:+}", f"{x}" and f"{x:.1f}"
  pub show_signed : F → String
  pub show : F → String
  pub show_tenths : F → String
  -- SQL's avg over a column that has rows.
  pub avg : List F → F
  -- float(avg(b::int)) where k of n rows are true.
  pub fraction : ℕ → ℕ → F
  -- round(x * 100)
  pub percent : F → ℕ
