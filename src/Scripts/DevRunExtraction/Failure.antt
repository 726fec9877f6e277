-- ===== src/Scripts/DevRunExtraction/Failure.antt =====
-- What becomes of scripts/dev_run_extraction.py.
use wager.Prelude.{String, ◌≡◌, refl, List, [], ◌∷◌}
use wager.Models.{GraphNode, DataFlag, HypothesisItem, DerivedReasoning}
use wager.Errors.{Exception}
use wager.Exec.{Result, ok, err}
use wager.World.{World}
use wager.World.Yields.{Holds, Yields, Yields-pure, Yields-then, Yields-bind}
use wager.State.{BetState}
use wager.Pipeline.Extraction.{keep_reasoning, first_hypothesis, derive_reasoning}
use wager.Scripts.DevRunExtraction.{Expected, compare_hypothesis, main}

-- There is one element at least.
abbrev IsInhabited : {A : Type 0} → List A → Type 0
IsInhabited [] = ⊥
IsInhabited (x ∷ xs) = Unit

raised_of : {A : Type 0} (r : Result A) → Holds (λ _. ⊥) r → (e : Exception) × (r ≡ err e)
raised_of (ok a) h = absurd h
raised_of (err e) h = (e, refl)

module _ {F : Type 0} where
  abbrev HasHypothesis : BetState F → Type 0
  HasHypothesis s = IsInhabited s.hypotheses

  keep_reasoning-HasHypothesis :
      (p : DerivedReasoning F) (fs : List DataFlag) (h : HypothesisItem F) (s : BetState F)
      → Yields HasHypothesis (keep_reasoning p fs h s)
  unfolding keep_reasoning
  keep_reasoning-HasHypothesis p fs h s = Yields-then _ _ _ λ _. Yields-then _ _ _ λ _.
      Yields-then _ _ _ λ _.
        Yields-then _ _ _
          λ _. Yields-then _ _ _ λ _. Yields-then _ _ _ λ _. Yields-pure HasHypothesis _ tt

  first_hypothesis-HasHypothesis :
      (hs : List (HypothesisItem F)) (p : DerivedReasoning F) (fs : List DataFlag) (s : BetState F)
      → Yields HasHypothesis (first_hypothesis hs p fs s)
  first_hypothesis-HasHypothesis [] p fs s = record { at = λ w. tt }
  first_hypothesis-HasHypothesis (h ∷ hs) p fs s = keep_reasoning-HasHypothesis p fs h s

  -- derive_reasoning returns with a hypothesis or not at all.
  derive_reasoning-HasHypothesis :
      (system : String) (s : BetState F) → Yields HasHypothesis (derive_reasoning system s)
  unfolding derive_reasoning
  derive_reasoning-HasHypothesis system s =
      Yields-then _ _ _
        λ _. Yields-then _ _ _ λ p. Yields-then _ _ _ λ fs. first_hypothesis-HasHypothesis _ p fs s

  compare_hypothesis-raises :
      (hs : List (GraphNode F)) → IsInhabited hs → Yields (λ _. ⊥) (compare_hypothesis hs)
  compare_hypothesis-raises [] h = absurd h
  compare_hypothesis-raises (n ∷ ns) h = record { at = λ w. tt }

  module _ (lower : String → String) (transcript : String) (expected : Expected) where
    main-Yields : Yields {F = F} (λ _. ⊥) (main lower transcript expected)
    unfolding main
    main-Yields =
        Yields-then (λ _. ⊥) _ _
          λ bet.
            Yields-then (λ _. ⊥) _ _
              λ _.
                Yields-then (λ _. ⊥) _ _
                  λ extracted.
                    Yields-bind HasHypothesis (λ _. ⊥) _ _
                      (derive_reasoning-HasHypothesis _ extracted)
                      λ derived known.
                        Yields-then (λ _. ⊥) _ _
                          λ _.
                            Yields-bind (λ _. ⊥) (λ _. ⊥) _ _
                              (compare_hypothesis-raises derived.hypotheses known) (λ _ h. absurd h)

    -- main of dev_run_extraction.py never returns an exit code: it raises, whatever the services
    -- answer and whatever the fixture expects.
    pub main_raises :
        (w : World F) → (e : Exception) × ((main lower transcript expected w).0 ≡ err e)
    main_raises w = raised_of _ (main-Yields.at w)
