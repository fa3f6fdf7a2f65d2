-- ===== src/Prelude/Sorted.antt =====
-- `ORDER BY … LIMIT n` keeps the least rows.
use Prim.Native.Nat.{ℕ, zero, suc}
use mathlib.Core.Path.{◌≡◌, refl, subst}
use mathlib.Core.Logic.{◌⊎◌, inl, inr}
use mathlib.Core.Bool.{Bool, true, false}
use mathlib.Core.List.{List, [], ◌∷◌}
use native.Mathlib.Omega.{arith}
use histae_api.Prelude.Tests.{Bool-cases}
use histae_api.Prelude.Lists.{length, All, In, All-In, All_of_In, take}
use histae_api.Prelude.Table.{insert_by, order_by}

module _ {A : Type 0} (le : A → A → Bool) where
  abbrev pub IsSorted : List A → Type 0
  IsSorted [] = Unit
  IsSorted (x ∷ xs) = All (λ y. le x y ≡ true) xs × IsSorted xs

  -- A row of the first n comes before every row that is not one of them.
  pub take-least :
      (n : ℕ) (a b : A) (xs : List A)
      → IsSorted xs
      → In a (take n xs)
      → In b xs
      → In b (take n xs) ⊎ (le a b ≡ true)
  take-least zero a b xs s m k = absurd m
  take-least (suc n) a b [] s m k = absurd m
  take-least (suc n) a b (x ∷ xs) s m (inl e) = inl (inl e)
  take-least (suc n) a b (x ∷ xs) s (inl e) (inr k) =
      inr (subst (λ y. le y b ≡ true) e (All-In (λ y. le x y ≡ true) xs s.0 k))
  take-least (suc n) a b (x ∷ xs) s (inr m) (inr k) = elim (take-least n a b xs s.1 m k) [
    | inl i ↦ inl (inr i)
    | inr h ↦ inr h
  ]

  pub length-insert_by : (r : A) (xs : List A) → length (insert_by le r xs) ≡ suc (length xs)
  unfolding insert_by
  length-insert_by r [] = refl
  length-insert_by r (x ∷ xs) = ground (arith, length-insert_by r xs)

  pub length-order_by : (xs : List A) → length (order_by le xs) ≡ length xs
  unfolding order_by
  length-order_by [] = refl
  length-order_by (x ∷ xs) = omega (arith, length-insert_by x (order_by le xs), length-order_by xs)

  In-insert_by_of : (x r : A) (xs : List A) → (r ≡ x) ⊎ In x xs → In x (insert_by le r xs)
  unfolding insert_by
  In-insert_by_of x r [] h = h
  In-insert_by_of x r (y ∷ xs) h = ground (arith, In-insert_by_of x r xs)

  pub In-order_by_of : (x : A) (xs : List A) → In x xs → In x (order_by le xs)
  unfolding order_by
  In-order_by_of x [] m = m
  In-order_by_of x (y ∷ xs) (inl e) = In-insert_by_of x y (order_by le xs) (inl e)
  In-order_by_of x (y ∷ xs) (inr m) =
      In-insert_by_of x y (order_by le xs) (inr (In-order_by_of x xs m))

module _ {A : Type 0} (le : A → A → Bool) (total : (a b : A) → le a b ≡ false → le b a ≡ true)
    (trans : (a b c : A) → le a b ≡ true → le b c ≡ true → le a c ≡ true) where
  All-insert_by :
      (y r : A) (xs : List A)
      → le y r ≡ true
      → All (λ z. le y z ≡ true) xs
      → All (λ z. le y z ≡ true) (insert_by le r xs)
  unfolding insert_by
  All-insert_by y r [] h a = (h, tt)
  All-insert_by y r (x ∷ xs) h a = ground (arith, All-insert_by y r xs)

  insert_by-IsSorted : (r : A) (xs : List A) → IsSorted le xs → IsSorted le (insert_by le r xs)
  unfolding insert_by
  insert_by-IsSorted r [] s = (tt, tt)
  insert_by-IsSorted r (x ∷ xs) s = elim (Bool-cases (le r x)) [
    | inl e ↦ rw e (
      (
        e,
        All_of_In (λ z. le r z ≡ true) xs
            (λ z m. trans r x z e (All-In (λ y. le x y ≡ true) xs s.0 m)),
      ),
      s,
    )
    | inr e ↦ rw e (All-insert_by x r xs (total r x e) s.0, insert_by-IsSorted r xs s.1)
  ]

  pub order_by-IsSorted : (xs : List A) → IsSorted le (order_by le xs)
  unfolding order_by
  order_by-IsSorted [] = tt
  order_by-IsSorted (x ∷ xs) = insert_by-IsSorted x (order_by le xs) (order_by-IsSorted xs)
