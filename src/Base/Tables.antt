-- ===== src/Base/Tables.antt =====
-- A database table whose rows are read and written by a number, its key.
use Prim.Native.Nat.{ℕ}
use mathlib.Core.Path.{◌≡◌, refl}
use mathlib.Core.List.{List, [], ◌∷◌}
use mathlib.Core.Option.{Option, none, some}
use native.Mathlib.Omega.{arith}
use vekro_backend.Base.Tests.{◌==◌, if◌then◌else◌, eqb_refl}

abbrev pub Table {ℓ} : Type ℓ → Type ℓ
Table V = List (ℕ × V)

module _ {ℓ} {V : Type ℓ} where
  -- `db.get(Model, key)`
  unfoldable pub lookup : ℕ → Table V → Option V
  lookup key [] = none
  lookup key ((stored, row) ∷ rows) = if stored == key then some row else lookup key rows

  -- Insert a row, or write over the row of that key.
  unfoldable pub insert : ℕ → V → Table V → Table V
  insert key new [] = (key, new) ∷ []
  insert key new ((stored, row) ∷ rows) =
      if stored == key then (key, new) ∷ rows else (stored, row) ∷ insert key new rows

  pub lookup-insert :
      (written asked : ℕ) (new : V) (table : Table V)
      → lookup asked (insert written new table)
        ≡ (if written == asked then some new else lookup asked table)
  unfolding lookup insert
  lookup-insert written asked new [] = refl
  lookup-insert written asked new ((stored, row) ∷ rows) =
      ground (arith, lookup-insert written asked new rows)

  pub lookup-insert_self :
      (written : ℕ) (new : V) (table : Table V)
      → lookup written (insert written new table) ≡ some new
  lookup-insert_self written new table = simp (lookup-insert, eqb_refl)
