-- ===== src/Prelude/Strict.antt =====
-- Rows of which no two have the same place in an order: `ORDER BY` puts each strictly after the one
-- before it.
use mathlib.Core.Path.{◌≡◌, refl, subst, ap}
use mathlib.Core.Logic.{inl, inr}
use mathlib.Core.Bool.{Bool, true, false, ◌&&◌}
use mathlib.Core.List.{List, [], ◌∷◌}
use native.Mathlib.Omega.{arith}
use histae_api.Prelude.Tests.{Bool-cases, if◌then◌else◌}
use histae_api.Prelude.Lists.{All, All-In, All_of_In}
use histae_api.Prelude.Table.{insert_by, order_by, select_where}
use histae_api.Prelude.Unique.{Distinct}
use histae_api.Prelude.Sorted.{IsSorted, order_by-IsSorted}
use histae_api.Prelude.Rows.{In-order_by, In-insert_by, exists_where-In, All-select_where}

module _ {A : Type 0} where
  pub select_where_all :
      (p : A → Bool) (rs : List A) → All (λ r. p r ≡ true) rs → select_where p rs ≡ rs
  unfolding select_where
  select_where_all p [] h = refl
  select_where_all p (r ∷ rs) h = rw (h.0) (ap (◌∷◌ r) (select_where_all p rs h.1))

  pub select_where-and :
      (p q : A → Bool) (rs : List A)
      → select_where (λ r. p r && q r) rs ≡ select_where q (select_where p rs)
  unfolding select_where
  select_where-and p q [] = refl
  select_where-and p q (r ∷ rs) = ground (arith, select_where-and p q rs)

  pub select_where-select_where :
      (p q : A → Bool) (rs : List A)
      → ((r : A) → q r ≡ true → p r ≡ true)
      → select_where q (select_where p rs) ≡ select_where q rs
  unfolding select_where
  select_where-select_where p q [] imp = refl
  select_where-select_where p q (r ∷ rs) imp =
      ground (arith, imp r, select_where-select_where p q rs imp)

module _ {A : Type 0} (le : A → A → Bool) where
  -- Each is at or before the other.
  abbrev pub same_place : A → A → Bool
  same_place a b = le a b && le b a

  -- No row is at or before one that stands before it.
  abbrev pub IsStrict : List A → Type 0
  IsStrict [] = Unit
  IsStrict (x ∷ xs) = All (λ y. le y x ≡ false) xs × IsStrict xs

  pub select_where-IsStrict :
      (p : A → Bool) (xs : List A) → IsStrict xs → IsStrict (select_where p xs)
  unfolding select_where
  select_where-IsStrict p [] s = tt
  select_where-IsStrict p (x ∷ xs) s = elim (Bool-cases (p x)) [
    | inl e ↦ rw e (All-select_where (λ y. le y x ≡ false) p xs s.0, select_where-IsStrict p xs s.1)
    | inr e ↦ rw e (select_where-IsStrict p xs s.1)
  ]

module _ {A : Type 0} (le : A → A → Bool) (total : (a b : A) → le a b ≡ false → le b a ≡ true)
    (trans : (a b c : A) → le a b ≡ true → le b c ≡ true → le a c ≡ true) where
  insert_by_before :
      (r : A) (xs : List A) → All (λ x. le r x ≡ true) xs → insert_by le r xs ≡ r ∷ xs
  unfolding insert_by
  insert_by_before r [] h = refl
  insert_by_before r (x ∷ xs) h = rw (h.0) refl

  insert_by-select_where :
      (p : A → Bool) (r : A) (xs : List A)
      → IsSorted le xs
      → select_where p (insert_by le r xs)
        ≡ (if p r then insert_by le r (select_where p xs) else select_where p xs)
  unfolding insert_by select_where
  insert_by-select_where p r [] s = ground arith
  insert_by-select_where p r (x ∷ xs) s = elim (Bool-cases (le r x)) [
    | inl e ↦
        let later =
          All_of_In (λ z. le r z ≡ true) xs
            (λ z m. trans r x z e (All-In (λ y. le x y ≡ true) xs s.0 m)) in
        let first = insert_by_before r (select_where p xs) (All-select_where _ p xs later) in
        ground (arith, e, first)
    | inr e ↦ ground (arith, e, insert_by-select_where p r xs s.1)
  ]

  -- A selection commutes with the order.
  pub order_by-select_where :
      (p : A → Bool) (xs : List A)
      → order_by le (select_where p xs) ≡ select_where p (order_by le xs)
  unfolding order_by select_where
  order_by-select_where p [] = refl
  order_by-select_where p (x ∷ xs) =
      let moved =
        insert_by-select_where p x (order_by le xs) (order_by-IsSorted le total trans xs) in
      ground (arith, moved, order_by-select_where p xs)

  All-insert_by :
      (P : A → Type 0) (r : A) (xs : List A) → P r → All P xs → All P (insert_by le r xs)
  All-insert_by P r xs h a =
      All_of_In P _
        (λ x m. elim (In-insert_by x r le xs m) [ inl e ↦ subst P e h | inr n ↦ All-In P xs a n ])

  insert_by-IsStrict :
      (r : A) (xs : List A)
      → All (λ x. same_place le r x ≡ false) xs
      → IsStrict le xs
      → IsStrict le (insert_by le r xs)
  unfolding insert_by
  insert_by-IsStrict r [] d s = (tt, tt)
  insert_by-IsStrict r (x ∷ xs) d s = elim (Bool-cases (le r x)) [
    | inl e ↦
        let apart : le x r ≡ false = ground (arith, e, d.0) in
        let later =
          All_of_In (λ y. le y r ≡ false) xs
            (λ y m. ground (arith, trans y r x, e, All-In (λ y. le y x ≡ false) xs s.0 m)) in
        rw e ((apart, later), s)
    | inr e ↦ rw e (All-insert_by (λ y. le y x ≡ false) r xs e s.0, insert_by-IsStrict r xs d.1 s.1)
  ]

  pub order_by-IsStrict : (xs : List A) → Distinct (same_place le) xs → IsStrict le (order_by le xs)
  unfolding order_by
  order_by-IsStrict [] d = tt
  order_by-IsStrict (x ∷ xs) d =
      insert_by-IsStrict x (order_by le xs)
        (All_of_In (λ y. same_place le x y ≡ false) (order_by le xs)
          (λ y m. exists_where-In y (same_place le x) xs d.0 (In-order_by y le xs m)))
        (order_by-IsStrict xs d.1)
