-- ===== src/Db/Sorted.antt =====
-- `ORDER BY created_at, id`: a stable insertion sort by a key of two numbers.
pub mod Order
use wager.Prelude.{ℕ, Bool, true, false, ◌&&◌, ◌||◌, ltb, leb, ◌==◌, List, [], ◌∷◌, if◌then◌else◌}

-- `(a, i) <= (b, j)` for the rows' keys.
abbrev pub le_key : ℕ × ℕ → ℕ × ℕ → Bool
le_key (a, i) (b, j) = ltb a b || (a == b && leb i j)

module _ {A : Type 0} (key : A → ℕ × ℕ) where
  unfoldable pub insert_row : A → List A → List A
  insert_row x [] = x ∷ []
  insert_row x (y ∷ ys) = if le_key (key x) (key y) then x ∷ y ∷ ys else y ∷ insert_row x ys

  unfoldable pub order_by : List A → List A
  unfolding insert_row
  order_by [] = []
  order_by (x ∷ xs) = insert_row x (order_by xs)
