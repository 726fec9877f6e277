-- ===== src/Prelude/Text.antt =====
-- f-strings: the pieces of a text, joined; the texts of numbers; code points.
use Prim.Native.Nat.{ℕ, zero, suc, ◌/◌, ◌%◌, ◌^◌}
use Prim.Native.Char.{code}
use Prim.Native.String.{String, ◌++◌}
use mathlib.Core.List.{List, [], ◌∷◌}
use wager.Prelude.Tests.{ltb, if◌then◌else◌}
use wager.Prelude.Lists.{get_or}

abbrev pub concat : List String → String
concat [] = ""
concat (s ∷ []) = s
concat (s ∷ rest) = s ++ concat rest

-- `sep.join(pieces)`.
abbrev pub join : String → List String → String
join sep [] = ""
join sep (s ∷ []) = s
join sep (s ∷ rest) = s ++ (sep ++ join sep rest)

-- The code points of a text.
abbrev pub codes : String → List ℕ
codes String.[] = []
codes (String.◌∷◌ c s) = code c ∷ codes s

abbrev digit_texts : List String
digit_texts =
    "0" ∷ "1" ∷ "2" ∷ "3" ∷ "4" ∷ "5" ∷ "6" ∷ "7" ∷ "8" ∷ "9" ∷ "a" ∷ "b" ∷ "c" ∷ "d" ∷ "e" ∷ "f"
    ∷ []

-- One hexadecimal digit.
unfoldable pub digit_text : ℕ → String
digit_text d = get_or digit_texts d ""

-- The decimal digits, on fuel: a number has at most as many as itself and one.
unfoldable pub show_digits : ℕ → ℕ → String
unfolding digit_text
show_digits zero n = ""
show_digits (suc fuel) n =
    let rest = show_digits fuel (n / 10) in
    if ltb n 10 then digit_text n else rest ++ digit_text (n % 10)

-- `str(n)`.
unfoldable pub show_ℕ : ℕ → String
unfolding show_digits
show_ℕ n = show_digits (suc n) n

-- k zero-padded decimal digits.
unfoldable pub show_padded : ℕ → ℕ → String
unfolding digit_text
show_padded zero n = ""
show_padded (suc k) n = show_padded k (n / 10) ++ digit_text (n % 10)

-- k zero-padded hexadecimal digits.
unfoldable pub show_hex : ℕ → ℕ → String
unfolding digit_text
show_hex zero n = ""
show_hex (suc k) n = show_hex k (n / 16) ++ digit_text (n % 16)

-- `str(uuid)`.
unfoldable pub show_uuid : ℕ → String
unfolding show_hex
show_uuid u = concat (
    show_hex 8 (u / 16 ^ 24)
    ∷ "-"
    ∷ show_hex 4 (u / 16 ^ 20)
    ∷ "-"
    ∷ show_hex 4 (u / 16 ^ 16)
    ∷ "-"
    ∷ show_hex 4 (u / 16 ^ 12)
    ∷ "-"
    ∷ show_hex 12 u
    ∷ [])
