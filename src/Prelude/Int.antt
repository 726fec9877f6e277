-- ===== src/Prelude/Int.antt =====
-- Python's `int` over the native numbers, and its use as an index.
use Prim.Native.Nat.{ℕ, suc, ◌-◌}
use mathlib.Core.Option.{Option, none}
use mathlib.Core.List.{List, [], ◌∷◌}
use Prim.Native.String.{String}
use wager.Prelude.Text.{concat, show_ℕ}
use wager.Prelude.Tests.{ltb, leb, if◌then◌else◌}
use wager.Prelude.Lists.{length, get_elem?}

-- `negsuc n` is -(n + 1).
pub data ℤ : Type 0 where
  pos : ℕ → ℤ
  negsuc : ℕ → ℤ

-- `xs[i]`, with `none` for IndexError: a negative index counts from the end.
unfoldable pub py_index {ℓ} : {A : Type ℓ} → List A → ℤ → Option A
py_index xs (pos i) = get_elem? xs i
py_index xs (negsuc k) = if ltb k (length xs) then get_elem? xs (length xs - suc k) else none

abbrev pub show_ℤ : ℤ → String
show_ℤ (pos n) = show_ℕ n
show_ℤ (negsuc n) = concat ("-" ∷ show_ℕ (suc n) ∷ [])

-- a - b
unfoldable pub sub_ℕ : ℕ → ℕ → ℤ
sub_ℕ a b = if leb b a then pos (a - b) else negsuc (b - a - 1)
