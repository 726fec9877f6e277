-- ===== src/Integrations/Bounds.antt =====
-- Slack's limit on a button's text.
use wager.Prelude.{
  ℕ, zero, suc, ◌-◌, ◌≤◌, Bool, true, false, List, [], ◌∷◌, ◌++◌, leb, length, take, codes, arith,
  length-append, Bool-cases, inl, inr,
}
use wager.Integrations.Slack.{button_text_limit, button_prefix, button_text}

length-take_le : (n : ℕ) (xs : List ℕ) → length (take n xs) ≤ n
length-take_le zero xs = omega arith
length-take_le (suc n) [] = omega arith
length-take_le (suc n) (x ∷ xs) = omega (arith, length-take_le n xs)

length-button_prefix : (proposed : Bool) (index : ℕ) → length (button_prefix proposed index) ≤ 74
length-button_prefix true index = omega arith
length-button_prefix false index = omega arith

-- The text of a button has at most 75 code points, whatever the option, its index and whether it
-- is the proposed one.
pub length-button_text :
    (proposed : Bool) (index : ℕ) (option : List ℕ)
    → length (button_text proposed index option) ≤ button_text_limit
unfolding button_text
length-button_text proposed index option =
    let prefix = button_prefix proposed index in
    let short = take (75 - length prefix - 1) option in
    elim (Bool-cases (leb (length (prefix ++ option)) 75)) [
      | inl e ↦ rw e (ground arith)
      | inr e ↦ rw e (
          omega (
            arith,
            length-append prefix (short ++ codes "…"),
            length-append short (codes "…"),
            length-take_le (75 - length prefix - 1) option,
            length-button_prefix proposed index,
          ))
    ]
