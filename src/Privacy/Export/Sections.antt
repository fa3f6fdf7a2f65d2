-- ===== src/Privacy/Export/Sections.antt =====
-- Each section of an export is the array of the account's rows.
use histae_api.Prelude.{
  length-append, length-map, length-select_where_le, suc, ℕ, String, Bool, true, false, Option,
  none, some, List, [], ◌∷◌, map, length, ltb, select_where, ◌==◌, ◌≡◌, refl, arith, ◌≤◌, ◌+◌,
}
use histae_api.Privacy.Writer.{
  ◌>>=◌, Token, Writer, Written, failed, done, start_object, end_object, start_array, end_array,
}
use histae_api.Privacy.Writer.Documents.{write_items}
use histae_api.Privacy.Writer.Documents.Printing.{bind_assoc}
use histae_api.Privacy.Pages.{Row, load, pages_fuel, ◌>>=?◌, write_rows, write_counted}
use histae_api.Privacy.Pages.Complete.{
  owned, write_pages-owned, pages_from-owned, write_counted-append,
}
use histae_api.Privacy.Export.{
  le_key, Match, Swipe, Database, participation, load_matches, swiped, load_swipes, write_table,
  write_matches, write_discovery_actions,
}
use histae_api.Privacy.Export.Document.{
  items_of, participations, live_swipes, HasCursors, le_key_total, le_key_trans, load_matches-load,
  load_swipes-load,
}

pub then_some :
    {A B : Type 0} (m : Written A) (f : A → Written B)
    → (some m >>=? λ a. some (f a)) ≡ some (m >>= f)
then_some (failed e) f = refl
then_some (done a) f = refl

pub then_assoc :
    {A B C : Type 0} (m : Option (Written A)) (f : A → Option (Written B))
    (g : B → Option (Written C))
    → ((m >>=? f) >>=? g) ≡ (m >>=? λ a. f a >>=? g)
then_assoc none f g = refl
then_assoc (some (failed e)) f g = refl
then_assoc (some (done a)) f g = refl

length-participations :
    (u : ℕ) (t : List Match) → length (participations u t) + 1 ≤ 1 + (length t + length t)
length-participations u t =
    let first = select_where (λ m. m.user1_id == u) t in
    let second = select_where (λ m. m.user2_id == u) t in
    omega (
      arith,
      length-append (map (participation u) first) (map (participation u) second),
      length-map (participation u) first,
      length-map (participation u) second,
      length-select_where_le (λ m. m.user1_id == u) t,
      length-select_where_le (λ m. m.user2_id == u) t,
    )

length-live_swipes : (d : Database) → length (live_swipes d) + 1 ≤ 1 + length d.swipes
length-live_swipes d =
    let live : Swipe → Bool = λ s. ltb d.transaction_timestamp s.expires_at in
    omega
      (arith, length-map swiped (select_where live d.swipes), length-select_where_le live d.swipes)

module _ (size : Token → ℕ) (max_bytes : ℕ) where
  pub write_rows-items :
      {K : Type 0} (rs : List (Row K)) (w : Writer)
      → write_rows size max_bytes rs w ≡ write_items size max_bytes (items_of rs) w
  unfolding write_rows write_items
  write_rows-items [] w = refl
  write_rows-items (r ∷ rs) w = simp (write_rows-items rs)

  write_counted-items :
      {K : Type 0} (rs : List (Row K)) (w : Writer) (n : ℕ)
      → write_counted size max_bytes rs (record { writer = w; count = n }) ≡ (
          write_items size max_bytes (items_of rs) w >>= λ w'.
          done (record { writer = w'; count = n + length rs }))
  unfolding write_counted write_items
  write_counted-items [] w n = let e : n + 0 ≡ n = omega arith in rw (e)
  write_counted-items (r ∷ rs) w n =
      let e : n + 1 + length rs ≡ n + (suc (length rs)) = omega arith in
      simp (bind_assoc, write_counted-items rs, e)

  -- A section: the array of the rows.
  unfoldable pub section : String → {K : Type 0} → List (Row K) → Writer → Written Writer
  section n rs w =
      start_array size max_bytes n w
      >>= (λ w1. write_items size max_bytes (items_of rs) w1 >>= end_array size max_bytes)

  module _ (page_size : ℕ) (positive : 1 ≤ page_size) (u : ℕ) where
    pub write_table-section :
        {K : Type 0} (le : K → K → Bool) (total : (a b : K) → le a b ≡ false → le b a ≡ true)
        (trans : (a b c : K) → le a b ≡ true → le b c ≡ true → le a c ≡ true) (n : String)
        (t : List (Row K)) (w : Writer)
        → HasCursors le u t
        → write_table size max_bytes page_size u le n t w ≡ some (section n (owned le u t) w)
    unfolding write_table section
    write_table-section le total trans n t w distinct = simp (
      write_pages-owned le total trans page_size u (pages_fuel t) t (load le u page_size t)
          (λ c. refl) positive (omega arith) distinct size max_bytes n w,
      bind_assoc,
      write_rows-items,
    )

    pub write_matches-section :
        (t : List Match) (w : Writer)
        → HasCursors le_key u (participations u t)
        → write_matches size max_bytes page_size u t w
          ≡ some (section "matches" (owned le_key u (participations u t)) w)
    unfolding write_matches section
    write_matches-section t w distinct = simp (
      write_pages-owned le_key le_key_total le_key_trans page_size u (1 + (length t + length t))
          (participations u t) (load_matches u page_size t) (load_matches-load u page_size t)
          positive (length-participations u t) distinct size max_bytes "matches" w,
      bind_assoc,
      write_rows-items,
    )

    pub write_discovery-section :
        (d : Database) (w : Writer)
        → HasCursors le_key u (live_swipes d)
        → write_discovery_actions size max_bytes page_size u d w
          ≡ some (
              start_object size max_bytes (some "discovery_actions") w >>= (λ w1.
                section "outgoing" (owned le_key u (live_swipes d)) w1 >>= λ w2.
                end_object size max_bytes w2 >>= λ w3.
                done (record { writer = w3; count = length (owned le_key u (live_swipes d)) })))
    unfolding write_discovery_actions section
    write_discovery-section d w distinct =
        let pages = λ (w1 : Writer).
          pages_from-owned le_key le_key_total le_key_trans page_size u (1 + length d.swipes)
            (live_swipes d) (load_swipes u page_size d) (load_swipes-load u page_size d) positive
            (length-live_swipes d) distinct (write_counted size max_bytes)
            (record { writer = w1; count = 0 }) (write_counted-append size max_bytes) in
        let counted : 0 + length (owned le_key u (live_swipes d))
            ≡ length (owned le_key u (live_swipes d)) =
          omega arith in
        simp (pages, then_some, then_assoc, bind_assoc, write_counted-items, counted)
