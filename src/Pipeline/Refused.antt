-- ===== src/Pipeline/Refused.antt =====
-- The resumption of phase 1 where Slack refuses the message that it posts again.
use wager.Prelude.{
  ℕ, String, ◌≡◌, refl, Option, none, some, List, map, head?, get_elem?, Option-cases, inl, inr,
}
use wager.Prelude.Int.{ℤ}
use wager.Models.{Uuid, DataFlag, GraphNode, GraphEdge}
use wager.Errors.{Exception}
use wager.Exec.{Result, ok, err, or_raise, continue, ◌>>=◌}
use wager.Floats.{Floats}
use wager.World.{World, Action, Button, raised}
use wager.World.Yields.{Holds, Yields, Yields-then, Yields-bind}
use wager.Integrations.{failure}
use wager.Integrations.Slack.{confirm_text, buttons_from, post_confirm}
use wager.State.{BetState}
use wager.Pipeline.Decision.{proposed_from, mark_pending, confirm_decision}
use wager.Pipeline.Upkeep.{checked-Keeps, confirm_decision-Keeps}
use wager.Pipeline.Interrupt.{translate_raises}
use wager.Pipeline.Resumed.{HasGraph, rows-HasGraph}
use wager.Pipeline.Graphs.{checked, run_nodes, phase1_resume}

module _ {F : Type 0} where
  -- Slack refuses every message with buttons.
  abbrev pub RefusesPost : World F → Type 0
  RefusesPost w =
      (text : List ℕ) (buttons : List Button)
      → (e : String) × (w.host.services.post_blocks text buttons ≡ raised e)

  mark_pending-raises :
      (i : Uuid) (e : DataFlag) → Yields {F = F} (λ _. ⊥) (mark_pending i (some e))
  mark_pending-raises i e = Yields-then (λ _. ⊥) _ _ (λ _. record { at = λ w. tt })

  post_refused :
      (bet : Uuid) (options : List String) (i : ℕ) (summary : String) (w : World F)
      → RefusesPost w
      → (e : DataFlag) × (v : World F) × (post_confirm bet options i summary w
          ≡ (ok (failure e), v))
  unfolding post_confirm ◌>>=◌
  post_refused bet options i summary w refuses = elim (Option-cases (get_elem? options i)) [
    | inl unpicked ↦ rw unpicked (_, _, refl)
    | inr (option, picked) ↦
        let (e, refused) = refuses (confirm_text summary i option) (buttons_from bet i 0 options) in
        rw picked (rw refused (_, _, refl))
  ]

  -- A first part whose result is known, and one that picks of an option.
  after-raises :
      {A B : Type 0} (m : Action F A) (f : A → Action F B) (w v : World F) {a : A}
      → m w ≡ (ok a, v)
      → Yields (λ _. ⊥) (f a)
      → Holds (λ _. ⊥) ((m >>= f) w).0
  unfolding ◌>>=◌
  after-raises m f w v h y = rw h (y.at v)

  first-raises :
      {A B : Type 0} (o : Option A) (e : Exception) (f : A → Action F B) (w : World F)
      → ((a : A) → Holds (λ _. ⊥) (f a w).0)
      → Holds (λ _. ⊥) ((or_raise o e >>= f) w).0
  unfolding ◌>>=◌
  first-raises none e f w h = tt
  first-raises (some a) e f w h = h a

  confirm_decision_refused :
      (index : Option ℤ) (s : BetState F) (w : World F)
      → RefusesPost w
      → Holds (λ _. ⊥) (confirm_decision index s w).0
  unfolding confirm_decision
  confirm_decision_refused index s w refuses = first-raises (head? s.hypotheses) _ _ w λ h.
      let (e, v, posted) =
        post_refused s.bet_id (map (λ n. n.content) s.options)
          (proposed_from s.proposed_option_id 0 s.options) h.content w refuses in
      after-raises _ _ w v posted (
        Yields-bind (λ _. ⊥) (λ _. ⊥) _ _ (mark_pending-raises s.bet_id e)
          (λ _ returned. absurd returned))

  checked_refused :
      (index : ℤ) (s : BetState F) (w : World F)
      → RefusesPost w
      → Holds (λ _. ⊥) (checked "confirm_decision" (confirm_decision (some index)) s w).0
  unfolding checked
  checked_refused index s w refuses =
      translate_raises _ _ (confirm_decision (some index) s w).1
        (confirm_decision_refused (some index) s w refuses)

module _ {F : Type 0} ⦃fl : Floats F⦄ where
  -- What follows a node that raised.
  stopped :
      (ns : List (GraphNode F)) (es : List GraphEdge) (r : Result (BetState F)) (v : World F)
      (f : BetState F → Action F (BetState F))
      → Holds (λ _. ⊥) r
      → HasGraph ns es v.db
      → ((e : Exception) × ((continue r f v).0 ≡ err e)) × HasGraph ns es (continue r f v).1.db
  stopped ns es (ok s) v f h kept = absurd h
  stopped ns es (err e) v f h kept = ((e, refl), kept)

  -- Where Slack refuses messages with buttons, the resumption of phase 1 with whatever index
  -- raises, and leaves the nodes and edges of the database as they were.
  pub phase1_resume_refused :
      (index : ℤ) (s : BetState F) (w : World F)
      → RefusesPost w
      → let r = phase1_resume index s w in
        ((e : Exception) × (r.0 ≡ err e)) × HasGraph w.db.nodes w.db.edges r.1.db
  unfolding phase1_resume run_nodes ◌>>=◌
  phase1_resume_refused index s w refuses =
      stopped w.db.nodes w.db.edges _ _ _ (checked_refused index s w refuses) (
        (checked-Keeps "confirm_decision" (confirm_decision (some index)) s
            (confirm_decision-Keeps (rows-HasGraph w.db.nodes w.db.edges) (some index) s)).at
          w (refl, refl))
