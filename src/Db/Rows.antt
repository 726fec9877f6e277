-- ===== src/Db/Rows.antt =====
-- What an UPDATE does to the keys of a table: rows may change, their ids may not.
use mathlib.Core.Option
use wager.Prelude.{ℕ, true, false, ◌≡◌, refl, List, [], ◌∷◌, ◌==◌, if◌then◌else◌, any, arith, some}
use wager.Models.{Uuid, GraphNode, BetRow}
use wager.Db.{has_bet, find_bet, has_node, update_bets, update_nodes}

-- No two rows have the same key.
abbrev pub Unique : {A : Type 0} → (A → ℕ) → List A → Type 0
Unique key [] = Unit
Unique key (x ∷ xs) = (any (λ y. key x == key y) xs ≡ false) × Unique key xs

module _ {F : Type 0} (i : Uuid) (f : BetRow F → BetRow F)
    (same : (b : BetRow F) → i ≡ b.id → (f b).id ≡ i) where
  pub has_bet-update_bets :
      (j : Uuid) (bs : List (BetRow F)) → has_bet j (update_bets i f bs) ≡ has_bet j bs
  unfolding update_bets
  has_bet-update_bets j [] = refl
  has_bet-update_bets j (b ∷ bs) = ground (arith, same b, has_bet-update_bets j bs)

  pub Unique-update_bets :
      (bs : List (BetRow F)) → Unique (λ b. b.id) bs → Unique (λ b. b.id) (update_bets i f bs)
  unfolding update_bets
  Unique-update_bets [] u = tt
  Unique-update_bets (b ∷ bs) u = ground (
    arith,
    same b,
    has_bet-update_bets b.id bs,
    has_bet-update_bets (f b).id bs,
    Unique-update_bets bs u.1,
  )

module _ {F : Type 0} (i : Uuid) (f : GraphNode F → GraphNode F)
    (same : (n : GraphNode F) → i ≡ n.id → (f n).id ≡ i) where
  pub has_node-update_nodes :
      (j : Uuid) (ns : List (GraphNode F)) → has_node j (update_nodes i f ns) ≡ has_node j ns
  unfolding update_nodes
  has_node-update_nodes j [] = refl
  has_node-update_nodes j (n ∷ ns) = ground (arith, same n, has_node-update_nodes j ns)

  pub Unique-update_nodes :
      (ns : List (GraphNode F)) → Unique (λ n. n.id) ns → Unique (λ n. n.id) (update_nodes i f ns)
  unfolding update_nodes
  Unique-update_nodes [] u = tt
  Unique-update_nodes (n ∷ ns) u = ground (
    arith,
    same n,
    has_node-update_nodes n.id ns,
    has_node-update_nodes (f n).id ns,
    Unique-update_nodes ns u.1,
  )

module _ {F : Type 0} where
  -- A lookup after an UPDATE: the row that it hits is the changed one.
  pub find_bet-update_bets :
      (i j : Uuid) (f : BetRow F → BetRow F) (bs : List (BetRow F))
      → ((b : BetRow F) → i ≡ b.id → (f b).id ≡ i)
      → find_bet j (update_bets i f bs)
        ≡ (if i == j then Option.map f (find_bet j bs) else find_bet j bs)
  unfolding update_bets
  find_bet-update_bets i j f [] same = ground arith
  find_bet-update_bets i j f (b ∷ bs) same =
      ground (arith, same b, find_bet-update_bets i j f bs same)

  -- A row that is looked up has the id, and is there.
  pub find_bet-id :
      (i : Uuid) (b : BetRow F) (bs : List (BetRow F)) → find_bet i bs ≡ some b → i ≡ b.id
  find_bet-id i b [] h = cc
  find_bet-id i b (x ∷ bs) h = ground (arith, find_bet-id i b bs)

  pub has_bet_of_find_bet :
      (i : Uuid) (b : BetRow F) (bs : List (BetRow F))
      → find_bet i bs ≡ some b
      → has_bet i bs ≡ true
  has_bet_of_find_bet i b [] h = cc
  has_bet_of_find_bet i b (x ∷ bs) h = ground (arith, has_bet_of_find_bet i b bs)
