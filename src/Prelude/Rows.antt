-- ===== src/Prelude/Rows.antt =====
-- Which rows a statement returns or writes, as membership.
use Prim.Native.Nat.{ℕ}
use mathlib.Core.Path.{◌≡◌, refl, sym, subst, ap}
use mathlib.Core.Logic.{◌⊎◌, inl, inr}
use mathlib.Core.Bool.{Bool, true, false}
use mathlib.Core.Option.{none, some}
use Prim.Native.Nat.{◌≤◌, ◌+◌}
use mathlib.Core.List.{List, [], ◌∷◌, ◌++◌, map}
use native.Mathlib.Omega.{arith}
use histae_api.Prelude.Tests.{if◌then◌else◌, ◌==◌, ==_iff, Bool-cases, Option-cases}
use histae_api.Prelude.Lists.{length, All, In, All-In, All_of_In}
use histae_api.Prelude.Table.{
  update_where, select_where, find_where, exists_where, delete_where, count_where, count_where,
  delete_where, one_of, insert_by, order_by,
}
use histae_api.Prelude.Unique.{Distinct, same_id}

module _ {A : Type 0} where
  pub In-select_where :
      (x : A) (p : A → Bool) (rs : List A) → In x (select_where p rs) → In x rs × (p x ≡ true)
  unfolding select_where
  In-select_where x p [] m = absurd m
  In-select_where x p (r ∷ rs) m = ground (arith, In-select_where x p rs)

  pub In-select_where_of :
      (x : A) (p : A → Bool) (rs : List A) → In x rs → p x ≡ true → In x (select_where p rs)
  unfolding select_where
  In-select_where_of x p [] m h = absurd m
  In-select_where_of x p (r ∷ rs) m h = ground (arith, In-select_where_of x p rs)

  pub In-insert_by :
      (x r : A) (le : A → A → Bool) (rs : List A) → In x (insert_by le r rs) → (r ≡ x) ⊎ In x rs
  unfolding insert_by
  In-insert_by x r le [] m = m
  In-insert_by x r le (y ∷ rs) m = ground (arith, In-insert_by x r le rs)

  pub In-order_by : (x : A) (le : A → A → Bool) (rs : List A) → In x (order_by le rs) → In x rs
  unfolding order_by
  In-order_by x le [] m = m
  In-order_by x le (r ∷ rs) m =
      ground (arith, In-insert_by x r le (order_by le rs), In-order_by x le rs)

  pub In-update_where :
      (x : A) (p : A → Bool) (f : A → A) (rs : List A)
      → In x rs
      → p x ≡ true
      → In (f x) (update_where p f rs)
  unfolding update_where
  In-update_where x p f [] m h = m
  In-update_where x p f (r ∷ rs) m h = ground (arith, In-update_where x p f rs)

  -- A row that an update passes over is still there.
  pub In-update_where_kept :
      (x : A) (p : A → Bool) (f : A → A) (rs : List A)
      → In x rs
      → p x ≡ false
      → In x (update_where p f rs)
  unfolding update_where
  In-update_where_kept x p f [] m h = m
  In-update_where_kept x p f (r ∷ rs) m h = ground (arith, In-update_where_kept x p f rs)

  pub In-update_where_inv :
      (x : A) (p : A → Bool) (f : A → A) (rs : List A)
      → In x (update_where p f rs)
      → (In x rs × (p x ≡ false)) ⊎ ((r : A) × In r rs × (p r ≡ true) × (x ≡ f r))
  unfolding update_where
  In-update_where_inv x p f [] m = absurd m
  In-update_where_inv x p f (r ∷ rs) m =
      let later = In-update_where_inv x p f rs in
      elim (Bool-cases (p r)) [
        | inl e ↦
            let split : (f r ≡ x) ⊎ In x (update_where p f rs) = ground arith in
            elim split [
              | inl here ↦ inr (r, inl refl, e, sym here)
              | inr rest ↦ elim (later rest) [
                | inl a ↦ inl (inr a.0, a.1)
                | inr (s, n, hit, eq) ↦ inr (s, inr n, hit, eq)
              ]
            ]
        | inr e ↦
            let split : (r ≡ x) ⊎ In x (update_where p f rs) = ground arith in
            elim split [
              | inl here ↦ inl (inl here, subst (λ y. p y ≡ false) here e)
              | inr rest ↦ elim (later rest) [
                | inl a ↦ inl (inr a.0, a.1)
                | inr (s, n, hit, eq) ↦ inr (s, inr n, hit, eq)
              ]
            ]
      ]

  pub exists_where-In :
      (x : A) (p : A → Bool) (rs : List A) → exists_where p rs ≡ false → In x rs → p x ≡ false
  unfolding exists_where
  exists_where-In x p [] h m = absurd m
  exists_where-In x p (r ∷ rs) h m = ground (arith, exists_where-In x p rs)

  pub exists_where_witness :
      (p : A → Bool) (rs : List A) → exists_where p rs ≡ true → (x : A) × In x rs × (p x ≡ true)
  unfolding exists_where
  exists_where_witness p [] h = cc
  exists_where_witness p (r ∷ rs) h = elim (Bool-cases (p r)) [
    | inl e ↦ (r, inl refl, e)
    | inr e ↦ let (x, m, hit) = exists_where_witness p rs (ground arith) in (x, inr m, hit)
  ]

  pub exists_where_of_In :
      (x : A) (p : A → Bool) (rs : List A) → In x rs → p x ≡ true → exists_where p rs ≡ true
  unfolding exists_where
  exists_where_of_In x p [] m h = absurd m
  exists_where_of_In x p (r ∷ rs) m h = ground (arith, exists_where_of_In x p rs)

  pub find_where-some :
      (p : A → Bool) (rs : List A) (x : A) → find_where p rs ≡ some x → In x rs × (p x ≡ true)
  unfolding find_where
  find_where-some p [] x h = cc
  find_where-some p (r ∷ rs) x h = ground (arith, find_where-some p rs x)

  pub find_where-none :
      (p : A → Bool) (rs : List A) → find_where p rs ≡ none → exists_where p rs ≡ false
  unfolding find_where exists_where
  find_where-none p [] h = refl
  find_where-none p (r ∷ rs) h = ground (arith, find_where-none p rs)

module _ {A : Type 0} (key : A → ℕ) where
  pub one_of-map_of : (r : A) (ids : List A) → In r ids → one_of (map key ids) (key r) ≡ true
  unfolding one_of
  one_of-map_of r [] m = absurd m
  one_of-map_of r (x ∷ ids) m = ground (arith, one_of-map_of r ids)

  pub one_of-map :
      (ids : List A) (x : ℕ) → one_of (map key ids) x ≡ true → (r : A) × In r ids × (key r ≡ x)
  unfolding one_of
  one_of-map [] x h = cc
  one_of-map (r ∷ ids) x h = elim (Bool-cases (x == key r)) [
    | inl e ↦ (r, inl refl, sym ((==_iff _ _).0 e))
    | inr e ↦ let (s, m, k) = one_of-map ids x (ground arith) in (s, inr m, k)
  ]

  -- With a primary key, two rows of the same key are one row.
  pub In-unique :
      (a b : A) (rs : List A)
      → Distinct (same_id key) rs
      → In a rs
      → In b rs
      → key a ≡ key b
      → a ≡ b
  In-unique a b [] d m n e = absurd m
  In-unique a b (r ∷ rs) d (inl p) (inl q) e = cc
  In-unique a b (r ∷ rs) d (inl p) (inr n) e =
      ground (arith, exists_where-In b (same_id key r) rs d.0 n)
  In-unique a b (r ∷ rs) d (inr m) (inl q) e =
      ground (arith, exists_where-In a (same_id key r) rs d.0 m)
  In-unique a b (r ∷ rs) d (inr m) (inr n) e = In-unique a b rs d.1 m n e

module _ {A : Type 0} (P : A → Type 0) where
  -- As `All-update_where`, for an update whose condition is known of the rows of this table alone.
  pub All-update_where_In :
      (p : A → Bool) (f : A → A) (rs : List A)
      → ((r : A) → In r rs → p r ≡ true → P r → P (f r))
      → All P rs
      → All P (update_where p f rs)
  All-update_where_In p f rs keep h = All_of_In P _ (λ x m. elim (In-update_where_inv x p f rs m) [
    | inl a ↦ All-In P rs h a.0
    | inr (r, n, hit, e) ↦ subst P (sym e) (keep r n hit (All-In P rs h n))
  ])

  pub All-select_where : (p : A → Bool) (rs : List A) → All P rs → All P (select_where p rs)
  All-select_where p rs h = All_of_In P _ (λ x m. All-In P rs h (In-select_where x p rs m).0)

module _ {A : Type 0} where
  pub update_where_none :
      (p : A → Bool) (f : A → A) (rs : List A)
      → exists_where p rs ≡ false
      → update_where p f rs ≡ rs
  unfolding update_where exists_where
  update_where_none p f [] h = refl
  update_where_none p f (r ∷ rs) h = ground (arith, update_where_none p f rs)

  -- Two updates of the same rows are one, if the first leaves the condition alone.
  pub update_where-update_where :
      (p : A → Bool) (f g : A → A) (rs : List A)
      → ((r : A) → p (f r) ≡ p r)
      → update_where p g (update_where p f rs) ≡ update_where p (λ r. g (f r)) rs
  unfolding update_where
  update_where-update_where p f g [] keep = refl
  update_where-update_where p f g (r ∷ rs) keep =
      ground (arith, keep r, update_where-update_where p f g rs keep)

  pub count_where_pos :
      (x : A) (p : A → Bool) (rs : List A) → In x rs → p x ≡ true → 1 ≤ count_where p rs
  unfolding count_where
  count_where_pos x p [] m h = absurd m
  count_where_pos x p (r ∷ rs) m h = ground (arith, count_where_pos x p rs)

  pub count_where_mono :
      (p q : A → Bool) (rs : List A)
      → ((r : A) → p r ≡ true → q r ≡ true)
      → count_where p rs ≤ count_where q rs
  unfolding count_where
  count_where_mono p q [] imp = omega arith
  count_where_mono p q (r ∷ rs) imp = ground (arith, imp r, count_where_mono p q rs imp)

  pub count_where-update_where :
      (q p : A → Bool) (f : A → A) (rs : List A)
      → ((r : A) → q (f r) ≡ q r)
      → count_where q (update_where p f rs) ≡ count_where q rs
  unfolding count_where update_where
  count_where-update_where q p f [] keep = refl
  count_where-update_where q p f (r ∷ rs) keep =
      ground (arith, keep r, count_where-update_where q p f rs keep)

  pub find_where_of_In :
      (x : A) (p : A → Bool) (rs : List A)
      → In x rs
      → p x ≡ true
      → (y : A) × (find_where p rs ≡ some y)
  find_where_of_In x p rs m h = elim (Option-cases (find_where p rs)) [
    | inl e ↦ absurd (cc (exists_where_of_In x p rs m h, find_where-none p rs e))
    | inr found ↦ found
  ]

module _ {A : Type 0} where
  pub In-delete_where :
      (x : A) (p : A → Bool) (rs : List A) → In x (delete_where p rs) → In x rs × (p x ≡ false)
  unfolding delete_where
  In-delete_where x p [] m = absurd m
  In-delete_where x p (r ∷ rs) m = ground (arith, In-delete_where x p rs)

  pub In-delete_where_of :
      (x : A) (p : A → Bool) (rs : List A) → In x rs → p x ≡ false → In x (delete_where p rs)
  unfolding delete_where
  In-delete_where_of x p [] m h = absurd m
  In-delete_where_of x p (r ∷ rs) m h = ground (arith, In-delete_where_of x p rs)

  pub length-delete_where :
      (p : A → Bool) (rs : List A) → length (delete_where p rs) + count_where p rs ≡ length rs
  unfolding delete_where count_where
  length-delete_where p [] = omega arith
  length-delete_where p (r ∷ rs) = ground (arith, length-delete_where p rs)

  pub In-append : (x : A) (xs ys : List A) → In x (xs ++ ys) → In x xs ⊎ In x ys
  In-append x [] ys m = inr m
  In-append x (y ∷ xs) ys m = ground (arith, In-append x xs ys)

pub In-map :
    {A B : Type 0} (f : A → B) (y : B) (xs : List A)
    → In y (map f xs)
    → (x : A) × In x xs × (f x ≡ y)
In-map f y [] m = absurd m
In-map f y (x ∷ xs) (inl e) = (x, inl refl, e)
In-map f y (x ∷ xs) (inr m) = let (z, n, e) = In-map f y xs m in (z, inr n, e)

pub In-map_of : {A B : Type 0} (f : A → B) (x : A) (xs : List A) → In x xs → In (f x) (map f xs)
In-map_of f x [] m = absurd m
In-map_of f x (y ∷ xs) (inl e) = inl (ap f e)
In-map_of f x (y ∷ xs) (inr m) = inr (In-map_of f x xs m)

pub one_of→In : (ids : List ℕ) (x : ℕ) → one_of ids x ≡ true → In x ids
unfolding one_of
one_of→In [] x h = cc
one_of→In (y ∷ ids) x h = ground (arith, one_of→In ids x)

module _ {A : Type 0} where
  -- The first row of a test, before and after an update that leaves the test alone.
  pub find_where-update_where :
      (test p : A → Bool) (f : A → A) (rs : List A)
      → ((r : A) → test (f r) ≡ test r)
      → find_where test (update_where p f rs)
        ≡ elim (find_where test rs) [ none ↦ none | some r ↦ some (if p r then f r else r) ]
  unfolding find_where update_where
  find_where-update_where test p f [] keep = refl
  find_where-update_where test p f (r ∷ rs) keep =
      ground (arith, keep r, find_where-update_where test p f rs keep)

  pub find_where_rewritten :
      (test : A → Bool) (f : A → A) (rs : List A) (x : A)
      → ((r : A) → test (f r) ≡ test r)
      → find_where test rs ≡ some x
      → find_where test (update_where test f rs) ≡ some (f x)
  find_where_rewritten test f rs x keep found =
      rw (find_where-update_where test test f rs keep, found)
        (rw (find_where-some test rs x found).1 refl)

  pub exists_where-update_where_kept :
      (test p : A → Bool) (f : A → A) (rs : List A)
      → ((r : A) → p r ≡ true → test (f r) ≡ false)
      → exists_where test rs ≡ false
      → exists_where test (update_where p f rs) ≡ false
  unfolding exists_where update_where
  exists_where-update_where_kept test p f [] keep h = refl
  exists_where-update_where_kept test p f (r ∷ rs) keep h =
      ground (arith, keep r, exists_where-update_where_kept test p f rs keep)

  pub count_where-update_where_le :
      (p q : A → Bool) (f : A → A) (rs : List A)
      → ((r : A) → q r ≡ true → p (f r) ≡ true → p r ≡ true)
      → count_where p (update_where q f rs) ≤ count_where p rs
  unfolding count_where update_where
  count_where-update_where_le p q f [] keep = omega arith
  count_where-update_where_le p q f (r ∷ rs) keep =
      ground (arith, keep r, count_where-update_where_le p q f rs keep)

  pub count_where-update_where_add :
      (p q : A → Bool) (f : A → A) (rs : List A)
      → count_where p (update_where q f rs) ≤ count_where p rs + count_where q rs
  unfolding count_where update_where
  count_where-update_where_add p q f [] = omega arith
  count_where-update_where_add p q f (r ∷ rs) =
      ground (arith, count_where-update_where_add p q f rs)

  -- Where a row is after an update.
  pub In-update_where_moved :
      (x : A) (p : A → Bool) (f : A → A) (rs : List A)
      → In x rs
      → In (if p x then f x else x) (update_where p f rs)
  In-update_where_moved x p f rs m = elim (Bool-cases (p x)) [
    | inl e ↦ rw e (In-update_where x p f rs m e)
    | inr e ↦ rw e (In-update_where_kept x p f rs m e)
  ]
