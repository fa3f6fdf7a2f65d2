-- ===== src/Prelude/Table.antt =====
-- A table of the database as the list of its rows, and the SQL statements that the repositories
-- send: `UPDATE … SET f WHERE p`, `DELETE … WHERE p`, `SELECT … WHERE p`, `count(*) FILTER`,
-- `EXISTS`, and `ORDER BY … LIMIT`. A condition is a Boolean function of the row.
use Prim.Native.Nat.{ℕ, ◌+◌}
use mathlib.Core.Path.{◌≡◌}
use mathlib.Core.Logic.{inl, inr}
use mathlib.Core.Bool.{Bool, true, false, ◌||◌}
use mathlib.Core.Option.{Option, none, some}
use mathlib.Core.List.{List, [], ◌∷◌}
use histae_api.Prelude.Tests.{if◌then◌else◌, ◌==◌, Bool-cases}
use histae_api.Prelude.Lists.{All}

module _ {ℓ} {A : Type ℓ} where
  unfoldable pub update_where : (A → Bool) → (A → A) → List A → List A
  update_where p f [] = []
  update_where p f (r ∷ rs) = (if p r then f r else r) ∷ update_where p f rs

  unfoldable pub delete_where : (A → Bool) → List A → List A
  delete_where p [] = []
  delete_where p (r ∷ rs) = if p r then delete_where p rs else r ∷ delete_where p rs

  unfoldable pub select_where : (A → Bool) → List A → List A
  select_where p [] = []
  select_where p (r ∷ rs) = if p r then r ∷ select_where p rs else select_where p rs

  -- `rows[0]` of a selection.
  unfoldable pub find_where : (A → Bool) → List A → Option A
  find_where p [] = none
  find_where p (r ∷ rs) = if p r then some r else find_where p rs

  unfoldable pub exists_where : (A → Bool) → List A → Bool
  exists_where p [] = false
  exists_where p (r ∷ rs) = p r || exists_where p rs

  -- The row count that a statement over these rows reports.
  unfoldable pub count_where : (A → Bool) → List A → ℕ
  count_where p [] = 0
  count_where p (r ∷ rs) = (if p r then 1 else 0) + count_where p rs

  unfoldable pub insert_by : (A → A → Bool) → A → List A → List A
  insert_by le r [] = r ∷ []
  insert_by le r (x ∷ xs) = if le r x then r ∷ x ∷ xs else x ∷ insert_by le r xs

  -- `ORDER BY`: the rows sorted by `le`.
  unfoldable pub order_by : (A → A → Bool) → List A → List A
  unfolding insert_by
  order_by le [] = []
  order_by le (r ∷ rs) = insert_by le r (order_by le rs)

-- `x IN (SELECT …)`
unfoldable pub one_of : List ℕ → ℕ → Bool
one_of [] x = false
one_of (y ∷ ys) x = x == y || one_of ys x

module _ {ℓ κ} {A : Type ℓ} (P : A → Type κ) where
  -- An update keeps a property of all rows when it keeps it of each row that it touches.
  pub All-update_where :
      (p : A → Bool) (f : A → A) (rs : List A)
      → ((r : A) → p r ≡ true → P r → P (f r))
      → All P rs
      → All P (update_where p f rs)
  unfolding update_where
  All-update_where p f [] keep h = tt
  All-update_where p f (r ∷ rs) keep h = elim (Bool-cases (p r)) [
    | inl e ↦ rw e (keep r e h.0, All-update_where p f rs keep h.1)
    | inr e ↦ rw e (h.0, All-update_where p f rs keep h.1)
  ]

  pub All-delete_where : (p : A → Bool) (rs : List A) → All P rs → All P (delete_where p rs)
  unfolding delete_where
  All-delete_where p [] h = tt
  All-delete_where p (r ∷ rs) h = elim (Bool-cases (p r)) [
    | inl e ↦ rw e (All-delete_where p rs h.1)
    | inr e ↦ rw e (h.0, All-delete_where p rs h.1)
  ]
