-- ===== src/Store/Integrity.antt =====
-- The writes of graph/store.py and the keys of the schema.
use wager.Prelude.{String, Bool, ◌≡◌, refl, sym, ◌∙◌, Option, none, some, List, [], ◌∷◌, arith}
use wager.Models.{Uuid, Date, DataFlag, GraphNode, GraphEdge, BetRow}
use wager.Exec.{Result, ok, err, ◌>>=◌}
use wager.Floats.{Floats}
use wager.Db.{find_bet}
use wager.Db.Rows.{find_bet-id}
use wager.World.Keeps.{Keeps, Keeps-bind, Keeps-pure, Keeps-raise, keeps_rules}
use wager.Sql.Keys.{
  IsWellFormed, insert_bet-IsWellFormed, insert_node-IsWellFormed, insert_edge-IsWellFormed,
  insert_outcome-IsWellFormed, update_bet-IsWellFormed, update_node-IsWellFormed,
}
use wager.Store.{
  require_bet, insert_nodes, insert_checked_edge, insert_edges, create_bet, update_bet_status,
  append_flag,
}
use wager.Store.Fields.{
  Column, Value, set_column, set_columns, then_set, write_row, update_found, update_row,
  refuse_unknown, update_bet_fields,
}
use wager.Store.Decisions.{write_decision, record_outcome, write_outcome}

ruleset integrity_rules = (
  keeps_rules, insert_bet-IsWellFormed, insert_node-IsWellFormed, insert_edge-IsWellFormed,
  insert_outcome-IsWellFormed, update_bet-IsWellFormed, update_node-IsWellFormed,
)

module _ {F : Type 0} where
  require_bet-IsWellFormed : (i : Uuid) → Keeps (IsWellFormed {F = F}) (require_bet i)
  unfolding require_bet
  require_bet-IsWellFormed i = search keeps_rules

  pub insert_nodes-IsWellFormed : (ns : List (GraphNode F)) → Keeps IsWellFormed (insert_nodes ns)
  unfolding insert_nodes
  insert_nodes-IsWellFormed [] = search keeps_rules
  insert_nodes-IsWellFormed (n ∷ ns) = search (integrity_rules, require_bet-IsWellFormed)

  insert_checked_edge-IsWellFormed :
      (e : GraphEdge) → Keeps (IsWellFormed {F = F}) (insert_checked_edge e)
  unfolding insert_checked_edge
  insert_checked_edge-IsWellFormed e = search integrity_rules

  pub insert_edges-IsWellFormed :
      (es : List GraphEdge) → Keeps (IsWellFormed {F = F}) (insert_edges es)
  unfolding insert_edges
  insert_edges-IsWellFormed [] = search keeps_rules
  insert_edges-IsWellFormed (e ∷ es) = search (keeps_rules, insert_checked_edge-IsWellFormed)

  pub create_bet-IsWellFormed :
      (i : Uuid) (doc : String) (d : Date) (pm : String)
      → Keeps (IsWellFormed {F = F}) (create_bet i doc d pm)
  unfolding create_bet
  create_bet-IsWellFormed i doc d pm = search integrity_rules

  pub update_bet_status-IsWellFormed :
      (i : Uuid) (s : String) → Keeps (IsWellFormed {F = F}) (update_bet_status i s)
  unfolding update_bet_status
  update_bet_status-IsWellFormed i s = search (integrity_rules, sym)

  pub append_flag-IsWellFormed :
      (i : Uuid) (f : DataFlag) → Keeps (IsWellFormed {F = F}) (append_flag i f)
  unfolding append_flag
  append_flag-IsWellFormed i f = search (integrity_rules, sym)

  -- The key of a row is no column that can be set.
  id-set_column :
      (c : Column) (v : Value F) (b row : BetRow F) → set_column c v b ≡ ok row → row.id ≡ b.id
  unfolding set_column
  id-set_column c v b row h = ground arith

  id-then_set :
      {j : Uuid} (r : Result (BetRow F)) (f : BetRow F → Result (BetRow F)) (row : BetRow F)
      → ((x : BetRow F) → r ≡ ok x → x.id ≡ j)
      → ((x : BetRow F) → f x ≡ ok row → row.id ≡ x.id)
      → then_set r f ≡ ok row
      → row.id ≡ j
  id-then_set (ok x) f row first rest h = rest x h ∙ first x refl
  id-then_set (err e) f row first rest h = cc

  id-set_columns :
      (fs : List (Column × Value F)) (b row : BetRow F) → set_columns fs b ≡ ok row → row.id ≡ b.id
  unfolding set_columns
  id-set_columns [] b row h = ground arith
  id-set_columns ((c, v) ∷ fs) b row h =
      id-then_set (set_column c v b) (set_columns fs) row (id-set_column c v b)
        (λ x. id-set_columns fs x row) h

  write_row-IsWellFormed :
      (i : Uuid) (r : Result (BetRow F))
      → ((row : BetRow F) → r ≡ ok row → row.id ≡ i)
      → Keeps IsWellFormed (write_row i r)
  write_row-IsWellFormed i (ok row) same =
      Keeps-bind _ _ (update_bet-IsWellFormed i (λ _. row) (λ _ _. same row refl))
        (λ _. Keeps-pure tt)
  write_row-IsWellFormed i (err e) same = Keeps-raise e

  update_found-IsWellFormed :
      (i : Uuid) (fs : List (Column × Value F)) (o : Option (BetRow F))
      → ((b : BetRow F) → o ≡ some b → i ≡ b.id)
      → Keeps IsWellFormed (update_found i fs o)
  update_found-IsWellFormed i fs none same = Keeps-raise _
  update_found-IsWellFormed i fs (some b) same =
      write_row-IsWellFormed i (set_columns fs b)
        (λ row k. id-set_columns fs b row k ∙ sym (same b refl))

  update_row-IsWellFormed :
      (i : Uuid) (fs : List (Column × Value F)) → Keeps IsWellFormed (update_row i fs)
  unfolding update_row ◌>>=◌
  update_row-IsWellFormed i fs = record {
    at = λ w h.
        (update_found-IsWellFormed i fs (find_bet i w.db.bets)
            (λ b e. find_bet-id i b w.db.bets e)).at
          w h;
  }

  refuse_unknown-IsWellFormed :
      (ks : List String) → Keeps (IsWellFormed {F = F}) (refuse_unknown ks)
  refuse_unknown-IsWellFormed [] = Keeps-pure tt
  refuse_unknown-IsWellFormed (k ∷ ks) = Keeps-raise _

  pub update_bet_fields-IsWellFormed :
      (i : Uuid) (fs : List (String × Value F)) → Keeps IsWellFormed (update_bet_fields i fs)
  unfolding update_bet_fields
  update_bet_fields-IsWellFormed i [] = Keeps-pure tt
  update_bet_fields-IsWellFormed i (f ∷ fs) =
      search (keeps_rules, refuse_unknown-IsWellFormed, update_row-IsWellFormed)

  pub write_decision-IsWellFormed :
      (i o : Uuid) (c : String) → Keeps (IsWellFormed {F = F}) (write_decision i o c)
  unfolding write_decision
  write_decision-IsWellFormed i o c = search integrity_rules depth 9

module _ {F : Type 0} ⦃fl : Floats F⦄ where
  record_outcome-IsWellFormed :
      (i h : Uuid) (a p : F) (b : Bool) (c : String)
      → Keeps IsWellFormed (record_outcome i h a p b c)
  unfolding record_outcome
  record_outcome-IsWellFormed i h a p b c = search (integrity_rules, sym) depth 14

  pub write_outcome-IsWellFormed :
      (i h : Uuid) (a p : F) (b : Bool) (c : String)
      → Keeps IsWellFormed (write_outcome i h a p b c)
  unfolding write_outcome
  write_outcome-IsWellFormed i h a p b c = search (keeps_rules, record_outcome-IsWellFormed)
