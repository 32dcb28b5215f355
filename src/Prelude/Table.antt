-- ===== src/Prelude/Table.antt =====
-- A table is the list of its rows, oldest first. A query is a filter, `db.scalar` its first row.
use Prim.Native.Nat.{ℕ, suc, max}
use mathlib.Core.Bool.{Bool, false, ◌||◌, ◌&&◌}
use mathlib.Core.Option.{Option, none, some}
use mathlib.Core.List.{List, [], ◌∷◌}
use saps_case_dockets.Prelude.Tests.{if◌then◌else◌, leb}

module _ {ℓ} {A : Type ℓ} where
  -- `select(...).where(p)`
  unfoldable pub rows_where : (A → Bool) → List A → List A
  rows_where p [] = []
  rows_where p (x ∷ xs) = let rest = rows_where p xs in if p x then x ∷ rest else rest

  -- `db.scalar(select(...).where(p))`
  unfoldable pub first_where : (A → Bool) → List A → Option A
  first_where p [] = none
  first_where p (x ∷ xs) = let rest = first_where p xs in if p x then some x else rest

  -- `db.scalar(select(...).where(p)) is not None`
  unfoldable pub exists_where : (A → Bool) → List A → Bool
  exists_where p [] = false
  exists_where p (x ∷ xs) = p x || exists_where p xs

  -- `update(...).where(p)`
  unfoldable pub update_where : (A → Bool) → (A → A) → List A → List A
  update_where p f [] = []
  update_where p f (x ∷ xs) = (if p x then f x else x) ∷ update_where p f xs

  -- `select(func.max(column)).where(p)`, and 0 where no row fits
  unfoldable pub max_where : (A → Bool) → (A → ℕ) → List A → ℕ
  max_where p column [] = 0
  max_where p column (x ∷ xs) =
      let rest = max_where p column xs in if p x then max (column x) rest else rest

  abbrev pub length : List A → ℕ
  length [] = 0
  length (x ∷ xs) = suc (length xs)

  -- `select(...).where(p).order_by(column.desc()).limit(1)`
  unfoldable pub top_where : (A → Bool) → (A → ℕ) → List A → Option A
  top_where p column [] = none
  top_where p column (x ∷ xs) = elim (top_where p column xs) [
    | none ↦ if p x then some x else none
    | some y ↦ if p x && leb (column y) (column x) then some x else some y
  ]
