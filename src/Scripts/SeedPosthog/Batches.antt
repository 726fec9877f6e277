-- ===== src/Scripts/SeedPosthog/Batches.antt =====
-- The batches of scripts/seed_posthog.py.
use wager.Prelude.{
  ℕ, zero, suc, ◌≤◌, ◌≡◌, refl, ap, String, Bool-cases, inl, inr, List, [], ◌∷◌, ◌++◌, length, take,
  All, arith,
}
use text.Mathlib.Text.{◌==◌}
use mathlib.Core.List.{flatten, append_assoc}
use wager.World.{Http, timed_out, failed, response}
use wager.Integrations.{is_error_status}
use wager.Scripts.PosthogEvents.{SeedEvent}
use wager.Scripts.SeedPosthog.{
  batch_size, drop, batches, PushEnd, missing_key, refused, crashed, pushed, after_post, post_all,
  push_events,
}

length-take_le : {A : Type 0} (n : ℕ) (xs : List A) → length (take n xs) ≤ n
length-take_le zero xs = omega arith
length-take_le (suc n) [] = omega arith
length-take_le (suc n) (x ∷ xs) = omega (arith, length-take_le n xs)

length-drop_le : {A : Type 0} (n : ℕ) (xs : List A) → length (drop n xs) ≤ length xs
unfolding drop
length-drop_le zero xs = omega arith
length-drop_le (suc n) [] = omega arith
length-drop_le (suc n) (x ∷ xs) = omega (arith, length-drop_le n xs)

append-take-drop : {A : Type 0} (n : ℕ) (xs : List A) → take n xs ++ drop n xs ≡ xs
unfolding drop
append-take-drop zero xs = refl
append-take-drop (suc n) [] = refl
append-take-drop (suc n) (x ∷ xs) = ap (λ ys. x ∷ ys) (append-take-drop n xs)

-- Enough fuel gives every event, in its place.
flatten-batches :
    (fuel : ℕ) (xs : List SeedEvent) → length xs ≤ fuel → flatten (batches fuel xs) ≡ xs
unfolding batches flatten drop
flatten-batches zero [] h = refl
flatten-batches zero (x ∷ xs) h = absurd (omega arith)
flatten-batches (suc fuel) [] h = refl
flatten-batches (suc fuel) (x ∷ xs) h =
    rw (flatten-batches fuel (drop 199 xs) (omega (arith, length-drop_le 199 xs)))
      (ap (λ ys. x ∷ ys) (append-take-drop 199 xs))

abbrev IsBatch : List SeedEvent → Type 0
IsBatch b = length b ≤ batch_size

batches-IsBatch : (fuel : ℕ) (xs : List SeedEvent) → All IsBatch (batches fuel xs)
unfolding batches
batches-IsBatch zero xs = tt
batches-IsBatch (suc fuel) [] = tt
batches-IsBatch (suc fuel) (x ∷ xs) = (length-take_le batch_size (x ∷ xs), batches-IsBatch fuel _)

-- What was not sent; nothing, if the events were pushed.
abbrev IsRest : PushEnd → List SeedEvent → Type 0
IsRest (pushed n) rest = rest ≡ []
IsRest missing_key rest = Unit
IsRest (refused status) rest = Unit
IsRest (crashed e) rest = Unit

-- The batches are the events up to a rest, in their order.
abbrev pub IsSent : List SeedEvent → PushEnd × List (List SeedEvent) → Type 0
IsSent events x =
    (rest : List SeedEvent) × (flatten x.1 ++ rest ≡ events) × IsRest x.0 rest × All IsBatch x.1

-- A batch before what is sent after it.
first_sent :
    (b sent rest events : List SeedEvent)
    → sent ++ rest ≡ events
    → (b ++ sent) ++ rest ≡ b ++ events
first_sent b sent rest events h = rw (append_assoc b sent rest) (ap (λ ys. b ++ ys) h)

after_post-IsSent :
    (reply : Http (Unit {0})) (b events : List SeedEvent) (x : PushEnd × List (List SeedEvent))
    → IsBatch b
    → IsSent events x
    → IsSent (b ++ events) (after_post reply b x)
unfolding after_post flatten
after_post-IsSent (timed_out e) b events x small (rest, same, end, sizes) =
    (events, first_sent b [] events events refl, tt, (small, tt))
after_post-IsSent (failed e) b events x small (rest, same, end, sizes) =
    (events, first_sent b [] events events refl, tt, (small, tt))
after_post-IsSent (response status body) b events x small (rest, same, end, sizes) =
    elim (Bool-cases (is_error_status status)) [
      | inl refuses ↦ rw refuses (events, first_sent b [] events events refl, tt, (small, tt))
      | inr takes ↦
          rw takes (rest, first_sent b (flatten x.1) rest events same, end, (small, sizes))
    ]

module _ (post : List SeedEvent → Http (Unit {0})) where
  post_all-IsSent :
      (n : ℕ) (bs : List (List SeedEvent))
      → All IsBatch bs
      → IsSent (flatten bs) (post_all post n bs)
  unfolding post_all flatten
  post_all-IsSent n [] h = ([], refl, refl, tt)
  post_all-IsSent n (b ∷ bs) (small, smalls) =
      after_post-IsSent (post b) b (flatten bs) (post_all post n bs) small
        (post_all-IsSent n bs smalls)

  -- _push_events sends batches of at most 200 events, which are, one after the other, the events
  -- up to a rest that was not sent; the rest is empty if the push comes to its end.
  pub push_events-IsSent :
      (api_key : String) (events : List SeedEvent) → IsSent events (push_events post api_key events)
  unfolding push_events flatten
  push_events-IsSent api_key events = elim (Bool-cases (api_key == "")) [
    | inl missing ↦ rw missing (events, refl, tt, tt)
    | inr present ↦ rw present (
        rw (flatten-batches (length events) events (omega arith)) at (
          post_all-IsSent (length events) (batches (length events) events)
            (batches-IsBatch (length events) events)))
  ]
