-- ===== src/Prelude/Dates.antt =====
-- Dates of the proleptic Gregorian calendar by their ordinals, as Python's `datetime` has them.
use Prim.Native.Nat.{ℕ, suc, ◌+◌, ◌-◌, ◌*◌, ◌/◌, ◌%◌}
use Prim.Native.String.{String}
use mathlib.Core.Bool.{Bool, ◌&&◌, ◌||◌, not}
use mathlib.Core.Option.{Option, none, some}
use mathlib.Core.List.{List, [], ◌∷◌}
use wager.Prelude.Tests.{ltb, leb, ◌==◌, if◌then◌else◌}
use wager.Prelude.Text.{concat, show_padded}
use wager.Prelude.Int.{ℤ, pos, negsuc}

-- `date.max.toordinal()`: 9999-12-31.
abbrev pub max_date : ℕ
max_date = 3652059

-- `d + timedelta(days=n)`, with `none` for its OverflowError.
unfoldable pub add_days : ℕ → ℤ → Option ℕ
add_days d (pos n) = if leb (d + n) max_date then some (d + n) else none
add_days d (negsuc n) = if ltb (suc n) d then some (d - suc n) else none

is_leap : ℕ → Bool
is_leap y = y % 4 == 0 && (not (y % 100 == 0) || y % 400 == 0)

month_lengths : Bool → List ℕ
month_lengths leap =
    31 ∷ (if leap then 29 else 28) ∷ 31 ∷ 30 ∷ 31 ∷ 30 ∷ 31 ∷ 31 ∷ 30 ∷ 31 ∷ 30 ∷ 31 ∷ []

-- The month and the day of a year's day, both from 0.
split_month : List ℕ → ℕ → ℕ × ℕ
split_month [] n = (0, n)
split_month (l ∷ ls) n =
    let (m, d) = split_month ls (n - l) in if ltb n l then (0, n) else (suc m, d)

-- The year and the day of the year, from 0, by cycles of 400, 100, 4 and 1 years.
split_year : ℕ → ℕ × ℕ
split_year d =
    let n = d - 1 in
    let n400 = n / 146097 in
    let a = n % 146097 in
    let n100 = a / 36524 in
    let b = a % 36524 in
    let n4 = b / 1461 in
    let c = b % 1461 in
    let n1 = c / 365 in
    let y = n400 * 400 + n100 * 100 + n4 * 4 + n1 + 1 in
    if n1 == 4 || n100 == 4 then (y - 1, 365) else (y, c % 365)

-- `date.isoformat()`.
unfoldable pub iso_date : ℕ → String
unfolding is_leap month_lengths split_month split_year
iso_date d =
    let (y, n) = split_year d in
    let (m, k) = split_month (month_lengths (is_leap y)) n in
    concat (show_padded 4 y ∷ "-" ∷ show_padded 2 (suc m) ∷ "-" ∷ show_padded 2 (suc k) ∷ [])
