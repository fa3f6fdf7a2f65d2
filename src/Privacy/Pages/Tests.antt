-- ===== src/Privacy/Pages/Tests.antt =====
-- Three rows in pages of two.
use histae_api.Prelude.{
  ℕ, String, some, [], ◌∷◌, ◌≡◌, refl, arith, leb, exists_where, select_where, true, List,
}
use histae_api.Privacy.Writer.{◌>>=◌, Token, Writer, start_array, end_array, object, open_brace}
use histae_api.Privacy.Pages.{Row, load, write_pages, write_rows}
use histae_api.Privacy.Pages.Complete.{owned, write_pages-owned}

abbrev row : ℕ → ℕ → String → Row ℕ
row user_id cursor text = record { user_id = user_id; cursor = cursor; public_row = text }

abbrev table : List (Row ℕ)
table = row 1 9 "c" ∷ row 1 4 "a" ∷ row 2 5 "x" ∷ row 1 6 "b" ∷ []

abbrev two_bytes : Token → ℕ
two_bytes t = 2

abbrev begun : Writer
begun = record {
  contexts = record { kind = object; first = true } ∷ [];
  output = record { bytes = 1; tokens = open_brace ∷ [] };
}

write_pages-owned_example :
    write_pages two_bytes 1000 2 5 "rows" (load leb 1 2 table) begun
    ≡ some (
        start_array two_bytes 1000 "rows" begun
        >>= (λ w1. write_rows two_bytes 1000 (owned leb 1 table) w1)
        >>= end_array two_bytes 1000)
unfolding exists_where select_where
write_pages-owned_example =
    write_pages-owned leb (λ a b h. ground arith) (λ a b c h k. ground arith) 2 1 5 table
      (load leb 1 2 table) (λ c. refl) (ground arith) (ground arith) (refl, (refl, (refl, tt)))
      two_bytes 1000 "rows" begun
