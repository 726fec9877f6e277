-- ===== src/Db/Sorted/Order.antt =====
-- `ORDER BY created_at, id`: the order of its result, and its rows.
use mathlib.Core.List.{Perm}
use mathlib.Core.List.Perm
use wager.Prelude.{
  ℕ, ◌≡◌, Bool, true, false, select, List, [], ◌∷◌, All, All-map-implies, Bool-cases, inl, inr,
  arith,
}
use wager.Db.Sorted.{le_key, insert_row, order_by}

le_key_total : (a b : ℕ × ℕ) → le_key a b ≡ false → le_key b a ≡ true
le_key_total (a, i) (b, j) h = ground arith

le_key_trans : (a b c : ℕ × ℕ) → le_key a b ≡ true → le_key b c ≡ true → le_key a c ≡ true
le_key_trans (a, i) (b, j) (c, k) h g = ground arith

module _ {A : Type 0} (key : A → ℕ × ℕ) where
  abbrev pub AtLeast : A → A → Type 0
  AtLeast x y = le_key (key x) (key y) ≡ true

  -- Each row's key is at most the keys of the rows after it.
  abbrev pub IsSorted : List A → Type 0
  IsSorted [] = Unit
  IsSorted (x ∷ xs) = All (AtLeast x) xs × IsSorted xs

  All-insert_row :
      (P : A → Type 0) (x : A) (ys : List A) → P x → All P ys → All P (insert_row key x ys)
  unfolding insert_row
  All-insert_row P x [] p h = (p, tt)
  All-insert_row P x (y ∷ ys) p h = elim (Bool-cases (le_key (key x) (key y))) [
    | inl e ↦ rw e (p, h)
    | inr e ↦ rw e (h.0, All-insert_row P x ys p h.1)
  ]

  insert_row-IsSorted : (x : A) (ys : List A) → IsSorted ys → IsSorted (insert_row key x ys)
  unfolding insert_row
  insert_row-IsSorted x [] h = (tt, tt)
  insert_row-IsSorted x (y ∷ ys) h = elim (Bool-cases (le_key (key x) (key y))) [
    | inl e ↦ rw e (
      (
        e,
        All-map-implies {P = AtLeast y} {Q = AtLeast x} ys
            (λ z k. le_key_trans (key x) (key y) (key z) e k) h.0,
      ),
      h,
    )
    | inr e ↦ rw e (
      All-insert_row (AtLeast y) x ys (le_key_total (key x) (key y) e) h.0,
      insert_row-IsSorted x ys h.1,
    )
  ]

  pub order_by-IsSorted : (xs : List A) → IsSorted (order_by key xs)
  unfolding order_by
  order_by-IsSorted [] = tt
  order_by-IsSorted (x ∷ xs) = insert_row-IsSorted x (order_by key xs) (order_by-IsSorted xs)

  Perm-insert_row : (x : A) (ys : List A) → Perm (insert_row key x ys) (x ∷ ys)
  unfolding insert_row
  Perm-insert_row x [] = Perm.refl (x ∷ [])
  Perm-insert_row x (y ∷ ys) = elim (Bool-cases (le_key (key x) (key y))) [
    | inl e ↦ rw e (Perm.refl (x ∷ y ∷ ys))
    | inr e ↦ rw e (Perm.trans (Perm.cons y (Perm-insert_row x ys)) (Perm.swap x y ys))
  ]

  pub Perm-order_by : (xs : List A) → Perm (order_by key xs) xs
  unfolding order_by
  Perm-order_by [] = Perm.nil
  Perm-order_by (x ∷ xs) =
      Perm.trans (Perm-insert_row x (order_by key xs)) (Perm.cons x (Perm-order_by xs))

  pub All-order_by : (P : A → Type 0) (xs : List A) → All P xs → All P (order_by key xs)
  unfolding order_by
  All-order_by P [] h = tt
  All-order_by P (x ∷ xs) h = All-insert_row P x (order_by key xs) h.0 (All-order_by P xs h.1)

module _ {A : Type 0} (P R : A → Type 0) (test : A → Bool) where
  -- What the rows of a selection satisfy.
  pub All-select :
      (xs : List A) → ((x : A) → P x → test x ≡ true → R x) → All P xs → All R (select test xs)
  All-select [] f h = tt
  All-select (x ∷ xs) f h = elim (Bool-cases (test x)) [
    | inl kept ↦ rw kept (f x h.0 kept, All-select xs f h.1)
    | inr dropped ↦ rw dropped (All-select xs f h.1)
  ]
