-- ===== src/Matches/Creation/Pairs.antt =====
-- One match for each pair of accounts.
use histae_api.Prelude.{
  ℕ, find_where-some, exists_where_of_In, ◌==◌, ◌||◌, ◌≡◌, some, true, false, arith, List, ltb,
  exists_where, find_where, ==_iff, ◌≢◌, inl, inr, Bool-cases,
}
use histae_api.Matches.Models.{Match, Db}
use histae_api.Matches.Creation.{
  matched, of_pair, new_match, lower, upper, answer_to, create, create_from_mutual_like,
  insertable_rows, find_by_pair,
}

pair_exists :
    (id a b : ℕ) (m : Match) (t : List Match)
    → find_where (of_pair a b) t ≡ some m
    → exists_where (λ (r : Match). r.id == id || of_pair a b r) t ≡ true
pair_exists id a b m t e =
    let (here, hit) = find_where-some (of_pair a b) t m e in
    exists_where_of_In m (λ (r : Match). r.id == id || of_pair a b r) t here (ground arith)

-- What a match with an answer says of the tables.
module _ (d d' : Db) (now fresh a b : ℕ) (m : Match) (order : ltb a b ≡ true) where
  created_pair :
      answer_to (create d (new_match fresh now a b)) (new_match fresh now a b) ≡ (d', matched m)
      → (find_where (of_pair a b) d'.matches ≡ some m)
        × (insertable_rows d' (new_match fresh now a b) ≡ 1)
  unfolding create answer_to insertable_rows find_where find_by_pair
  created_pair h = ground (arith, order)

  -- The same pair again.
  repeated :
      (later fresh' : ℕ)
      → find_where (of_pair a b) d'.matches ≡ some m
      → insertable_rows d' (new_match fresh now a b) ≡ 1
      → answer_to (create d' (new_match fresh' later a b)) (new_match fresh' later a b)
        ≡ (d', matched m)
  unfolding create answer_to insertable_rows find_by_pair
  repeated later fresh' found rows =
      let taken = pair_exists fresh' a b m d'.matches found in ground (arith, order, taken)

pair_of_lower :
    (first second : ℕ)
    → first ≢ second
    → (lower second first ≡ lower first second)
      × (upper second first ≡ upper first second)
      × (ltb (lower first second) (upper first second) ≡ true)
pair_of_lower first second ne = ground arith

-- Two accounts have one match. Once a mutual like has been answered with a match, the like of the
-- other account, and any later one of either, is answered with the same match and writes nothing,
-- as long as the tables stay as they are.
pub create_from_mutual_like_once :
    (d d' : Db) (now fresh first second : ℕ) (m : Match)
    → create_from_mutual_like d now fresh first second ≡ (d', matched m)
    → (later fresh' : ℕ)
    → (create_from_mutual_like d' later fresh' first second ≡ (d', matched m))
      × (create_from_mutual_like d' later fresh' second first ≡ (d', matched m))
unfolding create_from_mutual_like
create_from_mutual_like_once d d' now fresh first second m h later fresh' =
    elim (Bool-cases (first == second)) [
      | inl same ↦ absurd (ground (arith, same))
      | inr other ↦
          let a = lower first second in
          let b = upper first second in
          let ne : first ≢ second = λ e. cc ((==_iff first second).1 e) in
          let (low, up, order) = pair_of_lower first second ne in
          let other' : (second == first) ≡ false = ground arith in
          let made : answer_to (create d (new_match fresh now a b)) (new_match fresh now a b)
              ≡ (d', matched m) =
            rw other at h in
          let (found, rows) = created_pair d d' now fresh a b m order made in
          let again = repeated d d' now fresh a b m order later fresh' found rows in
          (rw other again, rw other' (rw (low, up) again))
    ]
