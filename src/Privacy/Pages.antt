-- ===== src/Privacy/Pages.antt =====
-- src/privacy/data-export.repository.ts: the pages of rows that `writePages` writes into an export.
-- The transaction is REPEATABLE READ, so that all pages are read from one state of the table. A row
-- carries its cursor, the order of which is a parameter, and the public part of the row, as one value
-- of JSON. A loop on fuel that runs out gives none.
pub mod Complete
mod Tests
use histae_api.Prelude.{
  String, ℕ, zero, suc, Bool, not, ◌&&◌, Option, none, some, List, [], ◌∷◌, length, take, ltb, ◌+◌,
  order_by, select_where, ◌==◌, true, if◌then◌else◌,
}
use histae_api.Privacy.Writer.{
  ◌>>=◌, Token, Writer, Written, failed, done, WriteError, no_last_row, item, start_array,
  end_array,
}

pub record Row (K : Type 0) : Type 0 where
  pub user_id : ℕ
  pub cursor : K
  pub public_row : String

-- `rows.at(-1)`
abbrev pub last : {A : Type 0} → List A → Option A
last [] = none
last (x ∷ []) = some x
last (x ∷ y ∷ xs) = last (y ∷ xs)

module _ {K : Type 0} (le : K → K → Bool) where
  -- `$2 IS NULL OR cursor > $2`
  abbrev pub is_after : Option K → Row K → Bool
  is_after none r = true
  is_after (some c) r = not (le r.cursor c)

  abbrev pub in_order : Row K → Row K → Bool
  in_order a b = le a.cursor b.cursor

  -- `WHERE user_id = $1 AND … ORDER BY … LIMIT $4`
  unfoldable pub load : ℕ → ℕ → List (Row K) → Option K → List (Row K)
  load user_id page_size t c =
      take page_size
        (order_by in_order (select_where (λ r. r.user_id == user_id && is_after c r) t))

module _ {K : Type 0} {S : Type 0} (page_size : ℕ) (load_page : Option K → List (Row K))
    (write_page : List (Row K) → S → Written S) where
  -- What follows the rows of a page.
  pub next_page : List (Row K) → (K → S → Option (Written S)) → Written S → Option (Written S)
  next_page rows more (failed e) = some (failed e)
  next_page rows more (done s) =
      if ltb (length rows) page_size
      then some (done s)
      else elim (last rows) [ none ↦ some (failed no_last_row) | some r ↦ more r.cursor s ]

  -- The loop of `writePages` and of `writeDiscoveryActions`
  pub pages_from : ℕ → Option K → S → Option (Written S)
  unfolding next_page
  pages_from zero c s = none
  pages_from (suc k) c s =
      next_page (load_page c) (λ c' s'. pages_from k (some c') s') (write_page (load_page c) s)

-- The fuel that suffices for the pages of a table.
abbrev pub pages_fuel : {K : Type 0} → List (Row K) → ℕ
pages_fuel t = suc (length t)

infixl 5 ◌>>=?◌
abbrev pub ◌>>=?◌ :
    {S T : Type 0} → Option (Written S) → (S → Option (Written T)) → Option (Written T)
none >>=? f = none
some (failed e) >>=? f = some (failed e)
some (done s) >>=? f = f s

-- A writer with the number of the rows written
pub record Counted : Type 0 where
  pub writer : Writer
  pub count : ℕ

module _ (size : Token → ℕ) (max_bytes : ℕ) {K : Type 0} where
  unfoldable pub write_rows : List (Row K) → Writer → Written Writer
  write_rows [] w = done w
  write_rows (r ∷ rs) w = item size max_bytes (some r.public_row) w >>= (λ w'. write_rows rs w')

  unfoldable pub write_counted : List (Row K) → Counted → Written Counted
  write_counted [] c = done c
  write_counted (r ∷ rs) c =
      item size max_bytes (some r.public_row) c.writer
      >>= (λ w. write_counted rs (record { writer = w; count = c.count + 1 }))

  -- `writePages`
  pub write_pages :
      (page_size fuel : ℕ) → String → (Option K → List (Row K)) → Writer → Option (Written Writer)
  unfolding write_rows pages_from
  write_pages page_size fuel n load_page w =
      some (start_array size max_bytes n w)
      >>=? (λ w1. pages_from page_size load_page write_rows fuel none w1)
      >>=? (λ w2. some (end_array size max_bytes w2))
