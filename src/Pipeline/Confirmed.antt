-- ===== src/Pipeline/Confirmed.antt =====
-- The nodes confirm_decision and write_decision, resumed with an option that can be taken.
use wager.Prelude.{
  ℕ, zero, suc, ◌<◌, length, String, true, false, ◌==◌, ◌≡◌, refl, sym, Option, some, List, [], ◌∷◌,
  map, head?, find?, get_elem?, concat, Bool-cases, inl, inr, arith,
}
use wager.Prelude.Int.{ℤ, pos, negsuc}
use wager.Models.{Uuid, GraphNode, BetStatus, BetRow}
use wager.Models.Values.{status_of}
use wager.Exec.{ok, ◌>>=◌}
use wager.Db.{has_bet, find_bet, has_node, has_edge, update_bets}
use wager.Db.Rows.{has_bet-update_bets, find_bet-update_bets}
use wager.World.{World, Button, answered, posted_blocks}
use wager.Sql.{update_bet}
use wager.Store.{update_bet_status}
use wager.Store.Decisions.{has_leads_to, has_option}
use wager.Store.Attest.{decision_id, decided_db, write_decision_lem}
use wager.Integrations.Slack.{post_confirm}
use wager.State.{BetState}
use wager.Pipeline.Decision.{proposed_from, choose, confirm_decision, write_decision}
use wager.Pipeline.Choice.{proposed_from_bound}
use wager.Pipeline.Awaiting.{Awaits}

pub picked_of_lt :
    {A B : Type 0} (f : A → B) (xs : List A) (i : ℕ)
    → i < length xs
    → (b : B) × (get_elem? (map f xs) i ≡ some b)
picked_of_lt f [] i h = absurd (omega arith)
picked_of_lt f (x ∷ xs) zero h = (f x, refl)
picked_of_lt f (x ∷ xs) (suc i) h = picked_of_lt f xs i (omega arith)

find_of_has_bet :
    {F : Type 0} (i : Uuid) (bs : List (BetRow F))
    → has_bet i bs ≡ true
    → (b : BetRow F) × (find_bet i bs ≡ some b)
find_of_has_bet i [] h = cc
find_of_has_bet i (b ∷ bs) h = elim (Bool-cases (i == b.id)) [
  | inl e ↦ (b, rw e refl)
  | inr e ↦ let (c, found) = find_of_has_bet i bs (ground arith) in (c, rw e found)
]

module _ {F : Type 0} where
  abbrev set_status : BetStatus → BetRow F → BetRow F
  set_status t b = record b { status = t }

  -- `UPDATE bets SET status = …`.
  abbrev with_status : BetStatus → Uuid → World F → World F
  with_status t i w = record w {
    db = record w.db { bets = update_bets i (set_status t) w.db.bets };
  }

  pub mark_bet :
      (i : Uuid) (w : World F)
      → has_bet i w.db.bets ≡ true
      → (update_bet_status i "PENDING_CONFIRMATION" w
          ≡ (ok tt, with_status BetStatus.pending_confirmation i w))
        × (update_bet_status i "CONFIRMED" w ≡ (ok tt, with_status BetStatus.confirmed i w))
  unfolding update_bet_status update_bet status_of ◌>>=◌
  mark_bet i w h = (rw h refl, rw h refl)

  picked_of_choose :
      (ns : List (GraphNode F)) (index : ℤ) (i : Option Uuid) (o : GraphNode F)
      → choose ns index ≡ some o
      → (t : String) × (get_elem? (map (λ n. n.content) ns) (proposed_from i 0 ns) ≡ some t)
  picked_of_choose [] (pos i) p o h = cc
  picked_of_choose [] (negsuc i) p o h = cc
  picked_of_choose (n ∷ ns) index p o h =
      picked_of_lt (λ n'. n'.content) (n ∷ ns) (proposed_from p 0 (n ∷ ns))
        (proposed_from_bound p n ns)

  -- Slack takes the confirmation message.
  abbrev pub TakesPost : World F → Type 0
  TakesPost w =
      (text : List ℕ) (buttons : List Button)
      → w.host.services.post_blocks text buttons ≡ answered tt

  abbrev pub posted : BetState F → World F → World F
  posted s w =
      with_status BetStatus.pending_confirmation s.bet_id
        (record w { sent = posted_blocks s.bet_id ∷ w.sent })

  pub confirm_decision_chosen :
      (index : ℤ) (s : BetState F) (h o : GraphNode F) (w : World F)
      → head? s.hypotheses ≡ some h
      → choose s.options index ≡ some o
      → has_bet s.bet_id w.db.bets ≡ true
      → TakesPost w
      → confirm_decision (some index) s w
        ≡ (ok (record s { chosen_option_id = some o.id }), posted s w)
  unfolding confirm_decision post_confirm ◌>>=◌
  confirm_decision_chosen index s h o w first chosen exists takes =
      let (t, picked) = picked_of_choose s.options index s.proposed_option_id o chosen in
      rw first (
        rw picked (
          rw (takes _ _) (
            rw ((mark_bet s.bet_id (record w { sent = posted_blocks s.bet_id ∷ w.sent }) exists).0)
              (rw chosen refl))))

  abbrev pub choice : GraphNode F → String
  choice o = concat ("Chose: " ∷ o.content ∷ [])

  -- The world in which the decision is written, and the one after it.
  abbrev pub confirmed : BetState F → GraphNode F → World F → World F
  confirmed s o w = with_status BetStatus.confirmed s.bet_id (record (posted s w) {
    db = decided_db s.bet_id o.id (choice o) (posted s w);
    draws = suc (suc (suc (suc w.draws)));
  })

  pub write_decision_chosen :
      (s : BetState F) (o : GraphNode F) (w : World F)
      → s.chosen_option_id ≡ some o.id
      → find? (λ n. n.id == o.id) s.options ≡ some o
      → has_bet s.bet_id w.db.bets ≡ true
      → has_leads_to s.bet_id w.db.edges ≡ false
      → has_option o.id s.bet_id w.db.nodes ≡ true
      → has_node (w.host.uuid4 w.draws) w.db.nodes ≡ false
      → has_edge (w.host.uuid4 (suc (suc w.draws))) w.db.edges ≡ false
      → write_decision s (posted s w) ≡ (
        ok (record s {
          decision_node_id = some (decision_id s.bet_id o.id (choice o) (posted s w));
        }),
        confirmed s o w,
      )
  unfolding write_decision ◌>>=◌
  write_decision_chosen s o w chosen found exists undecided offered fresh_node fresh_edge =
      rw chosen (
        rw found (
          rw (write_decision_lem s.bet_id o.id (choice o) (posted s w) fresh_node fresh_edge) (
            rw undecided (
              rw offered (
                rw
                  ((mark_bet s.bet_id
                    (record (posted s w) {
                      db = decided_db s.bet_id o.id (choice o) (posted s w);
                      draws = suc (suc (suc (suc w.draws)));
                    })
                    (rw
                      (has_bet-update_bets s.bet_id (set_status BetStatus.pending_confirmation)
                        (λ b same. sym same) s.bet_id w.db.bets)
                      exists)).1)
                  refl)))))

  pub confirmed-Awaits :
      (s : BetState F) (o : GraphNode F) (w : World F)
      → has_bet s.bet_id w.db.bets ≡ true
      → Awaits s.bet_id (confirmed s o w).db
  confirmed-Awaits s o w exists =
      let (b, found) = find_of_has_bet s.bet_id w.db.bets exists in
      (
        record b { status = BetStatus.confirmed },
        rw
            (find_bet-update_bets s.bet_id s.bet_id (set_status BetStatus.confirmed)
              (update_bets s.bet_id (set_status BetStatus.pending_confirmation) w.db.bets)
              (λ c same. sym same))
            (rw
              (find_bet-update_bets s.bet_id s.bet_id (set_status BetStatus.pending_confirmation)
                w.db.bets (λ c same. sym same))
              (rw found (ground arith))),
        refl,
      )
