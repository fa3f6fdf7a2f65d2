-- ===== src/Prelude/Unique.antt =====
-- UNIQUE constraints: no two rows of a table agree on the columns of the key. `same a b` is the
-- comparison of those columns.
use Prim.Native.Nat.{ℕ, ◌+◌, ◌≤◌}
use mathlib.Core.Path.{◌≡◌, refl, subst}
use mathlib.Core.Logic.{inl, inr}
use mathlib.Core.Bool.{Bool, true, false, ◌||◌}
use mathlib.Core.List.{List, [], ◌∷◌}
use native.Mathlib.Omega.{arith}
use histae_api.Prelude.Tests.{◌==◌, ==_iff, Bool-cases}
use histae_api.Prelude.Lists.{length}
use histae_api.Prelude.Table.{
  update_where, delete_where, select_where, exists_where, count_where, one_of,
}

module _ {A : Type 0} where
  abbrev pub Distinct : (A → A → Bool) → List A → Type 0
  Distinct same [] = Unit
  Distinct same (r ∷ rs) = (exists_where (same r) rs ≡ false) × Distinct same rs

  -- An update that leaves a test alone leaves its answer over the table alone.
  pub exists_where-update_where :
      (test p : A → Bool) (f : A → A) (rs : List A)
      → ((r : A) → test (f r) ≡ test r)
      → exists_where test (update_where p f rs) ≡ exists_where test rs
  unfolding exists_where update_where
  exists_where-update_where test p f [] keep = refl
  exists_where-update_where test p f (r ∷ rs) keep =
      ground (arith, keep r, exists_where-update_where test p f rs keep)

  pub exists_where-delete_where :
      (test p : A → Bool) (rs : List A)
      → exists_where test rs ≡ false
      → exists_where test (delete_where p rs) ≡ false
  unfolding exists_where delete_where
  exists_where-delete_where test p [] h = refl
  exists_where-delete_where test p (r ∷ rs) h = ground (arith, exists_where-delete_where test p rs)

  pub exists_where_congr :
      (p q : A → Bool) (rs : List A) → ((r : A) → p r ≡ q r) → exists_where p rs ≡ exists_where q rs
  unfolding exists_where
  exists_where_congr p q [] h = refl
  exists_where_congr p q (r ∷ rs) h = ground (arith, h r, exists_where_congr p q rs h)

  -- Statements that do not write the columns of a key keep it.
  pub Distinct-update_where :
      (same : A → A → Bool) (p : A → Bool) (f : A → A) (rs : List A)
      → ((a b : A) → same a (f b) ≡ same a b)
      → ((a b : A) → same (f a) b ≡ same a b)
      → Distinct same rs
      → Distinct same (update_where p f rs)
  unfolding update_where
  Distinct-update_where same p f [] right left d = tt
  Distinct-update_where same p f (r ∷ rs) right left d =
      let rest = Distinct-update_where same p f rs right left d.1 in
      let old = exists_where-update_where (same r) p f rs (λ b. right r b) in
      let new = exists_where_congr (same (f r)) (same r) (update_where p f rs) (λ b. left r b) in
      elim (Bool-cases (p r)) [
        | inl e ↦ rw e (rw (new, old) d.0, rest)
        | inr e ↦ rw e (rw old d.0, rest)
      ]

  pub Distinct-delete_where :
      (same : A → A → Bool) (p : A → Bool) (rs : List A)
      → Distinct same rs
      → Distinct same (delete_where p rs)
  unfolding delete_where
  Distinct-delete_where same p [] d = tt
  Distinct-delete_where same p (r ∷ rs) d =
      let rest = Distinct-delete_where same p rs d.1 in
      elim (Bool-cases (p r)) [
        | inl e ↦ rw e rest
        | inr e ↦ rw e (exists_where-delete_where (same r) p rs d.0, rest)
      ]

  -- A test that holds of no row holds of none after an update, if it holds of a written row only
  -- when it held before.
  pub exists_where-update_where_mono :
      (test new p : A → Bool) (f : A → A) (rs : List A)
      → ((r : A) → new r ≡ true → test r ≡ true)
      → ((r : A) → new (f r) ≡ true → test r ≡ true)
      → exists_where test rs ≡ false
      → exists_where new (update_where p f rs) ≡ false
  unfolding exists_where update_where
  exists_where-update_where_mono test new p f [] old written h = refl
  exists_where-update_where_mono test new p f (r ∷ rs) old written h =
      ground (arith, old r, written r, exists_where-update_where_mono test new p f rs old written)

  -- Statements after which a key clashes only where it did before keep it.
  pub Distinct-update_where_mono :
      (same : A → A → Bool) (p : A → Bool) (f : A → A) (rs : List A)
      → ((a b : A) → same a (f b) ≡ true → same a b ≡ true)
      → ((a b : A) → same (f a) b ≡ true → same a b ≡ true)
      → Distinct same rs
      → Distinct same (update_where p f rs)
  unfolding update_where
  Distinct-update_where_mono same p f [] right left d = tt
  Distinct-update_where_mono same p f (r ∷ rs) right left d =
      let rest = Distinct-update_where_mono same p f rs right left d.1 in
      elim (Bool-cases (p r)) [
        | inl e ↦ rw e (
          exists_where-update_where_mono (same r) (same (f r)) p f rs (λ b. left r b)
              (λ b h. right r b (left r (f b) h)) d.0,
          rest,
        )
        | inr e ↦ rw e (
          exists_where-update_where_mono (same r) (same r) p f rs (λ b h. h) (λ b. right r b) d.0,
          rest,
        )
      ]

  exists_where-false : (rs : List A) → exists_where (λ r. false) rs ≡ false
  unfolding exists_where
  exists_where-false [] = refl
  exists_where-false (r ∷ rs) = exists_where-false rs

  pub count_where_none :
      (p : A → Bool) (rs : List A) → exists_where p rs ≡ false → count_where p rs ≡ 0
  unfolding exists_where count_where
  count_where_none p [] h = refl
  count_where_none p (r ∷ rs) h = ground (arith, count_where_none p rs)

  pub count_where-or :
      (p q : A → Bool) (rs : List A)
      → count_where (λ r. p r || q r) rs ≤ count_where p rs + count_where q rs
  unfolding count_where
  count_where-or p q [] = omega arith
  count_where-or p q (r ∷ rs) = ground (arith, count_where-or p q rs)

  pub length-select_where :
      (p : A → Bool) (rs : List A) → length (select_where p rs) ≡ count_where p rs
  unfolding count_where select_where
  length-select_where p [] = refl
  length-select_where p (r ∷ rs) = ground (arith, length-select_where p rs)

  pub length-select_where_le : (p : A → Bool) (rs : List A) → length (select_where p rs) ≤ length rs
  unfolding select_where
  length-select_where_le p [] = omega arith
  length-select_where_le p (r ∷ rs) = ground (arith, length-select_where_le p rs)

module _ {A : Type 0} (key : A → ℕ) where
  abbrev pub same_id : A → A → Bool
  same_id a b = key b == key a

  -- A primary key selects one row at most, and a list of n keys selects n rows at most.
  pub count_where_id :
      (x : ℕ) (rs : List A) → Distinct same_id rs → count_where (λ r. key r == x) rs ≤ 1
  unfolding count_where
  count_where_id x [] d = omega arith
  count_where_id x (r ∷ rs) d = elim (Bool-cases (key r == x)) [
    | inl e ↦
        let others : count_where (λ s. key s == x) rs ≡ 0 =
          count_where_none (λ s. key s == x) rs
            (subst (λ y. exists_where (λ s. key s == y) rs ≡ false) ((==_iff _ _).0 e) d.0) in
        rw e (omega arith)
    | inr e ↦ rw e (omega (arith, count_where_id x rs d.1))
  ]

  pub count_where_ids :
      (ids : List ℕ) (rs : List A)
      → Distinct same_id rs
      → count_where (λ r. one_of ids (key r)) rs ≤ length ids
  unfolding one_of
  count_where_ids [] rs d = omega (arith, count_where_none (λ r. false) rs (exists_where-false rs))
  count_where_ids (x ∷ ids) rs d = omega (
    arith,
    count_where-or (λ r. key r == x) (λ r. one_of ids (key r)) rs,
    count_where_id x rs d,
    count_where_ids ids rs d,
  )
