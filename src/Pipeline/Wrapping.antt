-- ===== src/Pipeline/Wrapping.antt =====
-- nodeutil.py: what can leave a node that `add_node_checked` registered.
use wager.Prelude.{String, true, false, ◌≡◌, refl, List, [], ◌∷◌, arith}
use wager.Errors.{Exception, value_error, is_empty_extraction}
use wager.Exec.{Result, ok, err, continue, ◌>>=◌}
use wager.World.{World, Action}
use wager.State.{BetState, NodeFn}
use wager.Pipeline.Graphs.{passes, translated, translate, checked, run_nodes}

abbrev pub IsTranslated : Exception → Type 0
IsTranslated e = (passes e ≡ true) × (is_empty_extraction e ≡ false)

translated-IsTranslated : (name : String) (e : Exception) → IsTranslated (translated name e)
translated-IsTranslated name (value_error r) = (refl, refl)
translated-IsTranslated name _ = (refl, refl)

module _ {A : Type 0} where
  abbrev pub RaisesTranslated : Result A → Type 0
  RaisesTranslated (ok a) = Unit
  RaisesTranslated (err e) = IsTranslated e

  raised-IsTranslated :
      (r : Result A) {e : Exception} → RaisesTranslated r → r ≡ err e → IsTranslated e
  raised-IsTranslated (ok a) h k = cc
  raised-IsTranslated (err x) h k = ground arith

module _ {F : Type 0} where
  translate-RaisesTranslated :
      {A : Type 0} (name : String) (r : Result A) (w : World F)
      → RaisesTranslated (translate name (r, w)).0
  translate-RaisesTranslated name (ok a) w = tt
  translate-RaisesTranslated name (err e) w = translated-IsTranslated name e

  pub continue-RaisesTranslated :
      {A B : Type 0} (r : Result A) (f : A → Action F B) (w : World F)
      → RaisesTranslated r
      → ((a : A) (v : World F) → RaisesTranslated (f a v).0)
      → RaisesTranslated (continue r f w).0
  continue-RaisesTranslated (ok a) f w h k = k a w
  continue-RaisesTranslated (err e) f w h k = h

  pub nodes-RaisesTranslated :
      (nodes : List (String × NodeFn F)) (s : BetState F) (w : World F)
      → RaisesTranslated (run_nodes nodes s w).0
  unfolding run_nodes checked ◌>>=◌
  nodes-RaisesTranslated [] s w = tt
  nodes-RaisesTranslated ((name, fn) ∷ rest) s w =
      continue-RaisesTranslated _ (run_nodes rest) _
        (translate-RaisesTranslated name (fn s w).0 (fn s w).1)
        (λ s' v. nodes-RaisesTranslated rest s' v)

  -- Whatever its nodes do, what a graph raises is a PipelineError, an IntegrationError or
  -- LangGraph's interrupt, and never the EmptyExtractionError of a node.
  pub run_nodes_raises :
      (nodes : List (String × NodeFn F)) (s : BetState F) (w : World F) {e : Exception}
      → (run_nodes nodes s w).0 ≡ err e
      → (passes e ≡ true) × (is_empty_extraction e ≡ false)
  run_nodes_raises nodes s w h = raised-IsTranslated _ (nodes-RaisesTranslated nodes s w) h
