-- ===== src/Cli/Clicks.antt =====
-- The webhook for clicks (api/routes.py) and the command `confirm` (cli.py), which both resume the thread of a bet.
use wager.Prelude.{String, true, ◌≡◌, refl, some, List}
use wager.Prelude.Int.{ℤ}
use wager.Models.{Uuid, GraphNode, GraphEdge}
use wager.Errors.Formats.{Formats}
use wager.Exec.{Result, ok, err, None, continue, ◌>>=◌}
use wager.Floats.{Floats}
use wager.World.{World, Interaction, SlackAction, answered}
use wager.World.Keeps.{Keeps, keeps_rules}
use wager.Integrations.Signature.{verify_slack_signature}
use wager.State.{BetState}
use wager.Pipeline.Resumed.{HasGraph, rows-HasGraph}
use wager.Pipeline.Graphs.{attempt}
use wager.Pipeline.Invoke.{Checkpointer}
use wager.Api.{Response, message, respond}
use wager.Api.Webhook.{
  SlackRequest, first_action, last_part, recorded_text, after_resume, resume_bet, resume_and_reply,
  slack_interactions,
}
use wager.Api.Serve.{interaction, serve}
use wager.Cli.{Output, exit_code}
use wager.Cli.Phase1.{confirm_output, confirm}

module _ {F : Type 0} where
  -- What both make of a resumption: the same world where it returned, and else the same nodes and edges.
  abbrev pub IsSameClick :
      Result (BetState F) × World F → Response F × World F → Output × World F → Type 0
  IsSameClick (ok s, v) api cli =
      (api ≡ (record { status = 200; body = message (recorded_text s) }, v))
      × (cli.1 ≡ v)
      × (exit_code cli.0.ending ≡ 0)
  IsSameClick (err e, v) api cli =
      HasGraph v.db.nodes v.db.edges api.1.db × (cli.1 ≡ v) × (exit_code cli.0.ending ≡ 1)

  failed-Keeps :
      (ns : List (GraphNode F)) (es : List GraphEdge) (bet : Uuid) (r : Result (BetState F))
      → Keeps (HasGraph ns es) (after_resume bet r)
  failed-Keeps ns es bet (ok s) = search keeps_rules
  failed-Keeps ns es bet (err e) =
      let flag = (rows-HasGraph ns es).flag in search (keeps_rules, flag) depth 9

  -- The resumption, and the same one under `try`.
  resumed-IsSameClick :
      (f g : Formats) (bet : Uuid) (r : Result (BetState F)) (v : World F)
      → IsSameClick
          (r, v)
          (respond f 200 (after_resume bet r v).0, (after_resume bet r v).1)
          (confirm_output g (ok r), v)
  unfolding confirm_output
  resumed-IsSameClick f g bet (ok s) v = (refl, refl, refl)
  resumed-IsSameClick f g bet (err e) v =
      ((failed-Keeps v.db.nodes v.db.edges bet (err e)).at v (refl, refl), refl, refl)

module _ {F : Type 0} (saver : Checkpointer F) (bet : Uuid) (index : ℤ) where
  attempted-IsSameClick :
      (f g : Formats) (r : Result (BetState F) × World F)
      → IsSameClick r
          (respond f 200 (after_resume bet r.0 r.1).0, (after_resume bet r.0 r.1).1)
          (confirm_output g (ok r.0), r.1)
  attempted-IsSameClick f g (r, v) = resumed-IsSameClick f g bet r v

  -- The checkpointer's setup before it.
  set_up-IsSameClick :
      (f g : Formats) (r : Result None) (v : World F)
      → let run = continue r (λ _. saver.resume bet index) v in
        let tried = continue r (λ _. attempt (saver.resume bet index)) v in
        IsSameClick run
          (respond f 200 (after_resume bet run.0 run.1).0, (after_resume bet run.0 run.1).1)
          (confirm_output g tried.0, tried.1)
  unfolding confirm_output
  set_up-IsSameClick f g (ok u) v = attempted-IsSameClick f g (saver.resume bet index v)
  set_up-IsSameClick f g (err e) v =
      ((failed-Keeps v.db.nodes v.db.edges bet (err e)).at v (refl, refl), refl, refl)

  -- A valid click on the option reaches the resumption.
  click_resumes :
      (request : SlackRequest) (p : Interaction) (a : SlackAction) (t : String) (w : World F)
      → let checked =
          verify_slack_signature request.raw_body request.timestamp request.signature w in
        checked.0 ≡ ok true
        → checked.1.host.services.loads request.raw_body ≡ answered p
        → first_action p ≡ some a
        → a.action_id ≡ some t
        → checked.1.host.services.int_of (last_part t) ≡ some index
        → a.value ≡ some bet
        → slack_interactions saver request w ≡ resume_and_reply saver bet index checked.1
  unfolding slack_interactions ◌>>=◌
  click_resumes request p a t w valid read acts id number value =
      rw valid (rw read (rw acts (rw id (rw number (rw value refl)))))

module _ {F : Type 0} ⦃fl : Floats F⦄ (saver : Checkpointer F)
    (facts_prompt reasoning_prompt : String) (bet : Uuid) (index : ℤ) where
  -- A request to the webhook with a valid signature whose body is itself JSON (not the form that
  -- Slack sends), for the button of an index, and the command confirm with that index, in the
  -- world after the signature was checked, resume the same run: where it returns, both leave the
  -- same world, and the reply is that the choice is recorded and the exit code 0; where it raises,
  -- both leave the same nodes and edges, and the exit code is 1.
  pub click_confirms :
      (request : SlackRequest) (p : Interaction) (a : SlackAction) (t : String) (w : World F)
      → let checked =
          verify_slack_signature request.raw_body request.timestamp request.signature w in
        checked.0 ≡ ok true
        → checked.1.host.services.loads request.raw_body ≡ answered p
        → first_action p ≡ some a
        → a.action_id ≡ some t
        → checked.1.host.services.int_of (last_part t) ≡ some index
        → a.value ≡ some bet
        → IsSameClick
            (resume_bet saver bet index checked.1)
            (serve saver facts_prompt reasoning_prompt (interaction request) w)
            (confirm saver bet index checked.1)
  unfolding serve confirm ◌>>=◌
  click_confirms request p a t w valid read acts id number value =
      let checked = verify_slack_signature request.raw_body request.timestamp request.signature w in
      rw (click_resumes saver bet index request p a t w valid read acts id number value) (
        set_up-IsSameClick saver bet index w.host.services.formats checked.1.host.services.formats
          (saver.setup checked.1).0 (saver.setup checked.1).1)
