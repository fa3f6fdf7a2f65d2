-- ===== src/Privacy/Pages/Complete.antt =====
-- The pages of a table, one after the other, are the rows of the table.
use histae_api.Prelude.{
  String, ℕ, zero, suc, ◌+◌, ◌≤◌, Bool, true, false, not, Option, none, some, List, [], ◌∷◌, ◌++◌,
  length, take, drop, ltb, order_by, select_where, ◌==◌, ◌≡◌, refl, ap, arith, IsStrict, In,
  Distinct, same_place, order_by-IsStrict, order_by-select_where, select_where-and,
  select_where-select_where, select_where_all, select_where-IsStrict, Bool-cases, inl, inr, All-In,
  All_of_In, take-append-drop, length-drop, sym, subst, ◌⊎◌, In-select_where, ◌∙◌,
  length-select_where_le, length-order_by,
}
use histae_api.Privacy.Writer.{
  ◌>>=◌, Token, Writer, Written, WriteError, failed, done, start_array, end_array,
}
use histae_api.Privacy.Writer.Documents.Printing.{bind_assoc}
use histae_api.Privacy.Pages.{
  Row, last, is_after, in_order, load, next_page, pages_from, write_rows, write_counted, Counted,
  write_pages,
}

Written-cases :
    {S : Type 0} (m : Written S) → ((e : WriteError) × (m ≡ failed e)) ⊎ ((s : S) × (m ≡ done s))
Written-cases (failed e) = inl (e, refl)
Written-cases (done s) = inr (s, refl)

-- The last of n rows is one of them, if there is one.
last-take :
    {A : Type 0} (n : ℕ) (xs : List A)
    → 1 ≤ n
    → n ≤ length xs
    → (x : A) × (last (take n xs) ≡ some x) × In x xs
last-take zero xs p h = absurd (omega arith)
last-take (suc n) [] p h = absurd (omega arith)
last-take (suc zero) (x ∷ xs) p h = (x, refl, inl refl)
last-take (suc (suc n)) (x ∷ []) p h = absurd (omega arith)
last-take (suc (suc n)) (x ∷ y ∷ xs) p h =
    let (z, e, m) = last-take (suc n) (y ∷ xs) (omega arith) (omega arith) in (z, e, inr m)

take_all : {A : Type 0} (n : ℕ) (xs : List A) → length (take n xs) + 1 ≤ n → take n xs ≡ xs
take_all zero xs h = absurd (omega arith)
take_all (suc n) [] h = refl
take_all (suc n) (x ∷ xs) h = ap (◌∷◌ x) (take_all n xs (omega arith))

length-take_le : {A : Type 0} (n : ℕ) (xs : List A) → n ≤ length (take n xs) → n ≤ length xs
length-take_le zero xs h = omega arith
length-take_le (suc n) [] h = h
length-take_le (suc n) (x ∷ xs) h = let rest = length-take_le n xs (omega arith) in omega arith

module _ {K : Type 0} (le : K → K → Bool) (total : (a b : K) → le a b ≡ false → le b a ≡ true)
    (trans : (a b c : K) → le a b ≡ true → le b c ≡ true → le a c ≡ true) where
  le_refl : (a : K) → le a a ≡ true
  le_refl a = elim (Bool-cases (le a a)) [ inl e ↦ e | inr e ↦ total a a e ]

  -- After the last row of a page stand the rows that the page leaves.
  select_where-drop :
      (n : ℕ) (xs : List (Row K)) (x : Row K)
      → IsStrict (in_order le) xs
      → 1 ≤ n
      → n ≤ length xs
      → last (take n xs) ≡ some x
      → select_where (is_after le (some x.cursor)) xs ≡ drop n xs
  unfolding select_where
  select_where-drop zero xs x s p h e = absurd (omega arith)
  select_where-drop (suc n) [] x s p h e = absurd (omega arith)
  select_where-drop (suc zero) (y ∷ xs) x s p h e =
      let same : y ≡ x = cc in
      let after =
        All_of_In (λ z. not (le z.cursor y.cursor) ≡ true) xs
          (λ z m. ground (arith, All-In (λ z. le z.cursor y.cursor ≡ false) xs s.0 m)) in
      subst (λ x. select_where (is_after le (some x.cursor)) (y ∷ xs) ≡ xs) same
        (rw (le_refl y.cursor) (select_where_all (is_after le (some y.cursor)) xs after))
  select_where-drop (suc (suc n)) (y ∷ []) x s p h e = absurd (omega arith)
  select_where-drop (suc (suc n)) (y ∷ z ∷ xs) x s p h e =
      let rest = select_where-drop (suc n) (z ∷ xs) x s.1 (omega arith) (omega arith) e in
      let (x', e', m) = last-take (suc n) (z ∷ xs) (omega arith) (omega arith) in
      let same : x' ≡ x = cc in
      let behind = total x.cursor y.cursor (
        All-In (λ z. le z.cursor y.cursor ≡ false) (z ∷ xs) s.0
          (subst (λ x. In x (z ∷ xs)) same m)) in
      rw (behind) rest

  -- The rows after a row that is itself after a cursor are among those after the cursor.
  is_after_trans :
      (c : Option K) (x r : Row K)
      → is_after le c x ≡ true
      → is_after le (some x.cursor) r ≡ true
      → is_after le c r ≡ true
  is_after_trans none x r h k = refl
  is_after_trans (some c) x r h k = ground (arith, total x.cursor c, trans r.cursor c x.cursor)

  module _ {S : Type 0} (page_size : ℕ) (sorted : List (Row K))
      (load_page : Option K → List (Row K)) (write_page : List (Row K) → S → Written S)
      (positive : 1 ≤ page_size) (strict : IsStrict (in_order le) sorted)
      (loaded : (c : Option K) → load_page c ≡ take page_size (select_where (is_after le c) sorted))
      (written : (xs ys : List (Row K)) (s : S)
        → write_page (xs ++ ys) s ≡ (write_page xs s >>= λ s'. write_page ys s')) where
    abbrev after : Option K → List (Row K)
    after c = select_where (is_after le c) sorted

    -- The rows after a cursor are those of the page and those that the page leaves.
    write_page_split :
        (c : Option K) (s : S)
        → write_page (after c) s
          ≡ (write_page (load_page c) s >>= λ s'. write_page (drop page_size (after c)) s')
    write_page_split c s =
        let parts = take-append-drop page_size (after c) in
        let split = written (take page_size (after c)) (drop page_size (after c)) s in
        rw (loaded c) (
          subst
            (λ xs. write_page xs s ≡ (
              write_page (take page_size (after c)) s >>= λ s'.
              write_page (drop page_size (after c)) s'))
            parts split)

    -- After the last row of a full page stands what the page leaves.
    after-last :
        (c : Option K)
        → page_size ≤ length (load_page c)
        → (x : Row K) × (last (load_page c) ≡ some x)
          × (after (some x.cursor) ≡ drop page_size (after c))
          × (page_size ≤ length (after c))
    after-last c full =
        let full' : page_size ≤ length (take page_size (after c)) =
          subst (λ xs. page_size ≤ length xs) (loaded c) full in
        let enough = length-take_le page_size (after c) full' in
        let (x, e, m) = last-take page_size (after c) positive enough in
        let here = (In-select_where x (is_after le c) sorted m).1 in
        let narrowed =
          select_where-select_where (is_after le c) (is_after le (some x.cursor)) sorted
            (λ r k. is_after_trans c x r here k) in
        let rest =
          select_where-drop page_size (after c) x
            (select_where-IsStrict (in_order le) (is_after le c) sorted strict) positive enough e in
        (x, rw (loaded c) e, sym narrowed ∙ rest, enough)

    pages_from-all :
        (fuel : ℕ) (c : Option K) (s : S)
        → length (after c) + 1 ≤ fuel
        → pages_from page_size load_page write_page fuel c s ≡ some (write_page (after c) s)
    unfolding pages_from next_page
    pages_from-all zero c s h = absurd (omega arith)
    pages_from-all (suc k) c s h = elim (Written-cases (write_page (load_page c) s)) [
      | inl (e, failure) ↦ rw (write_page_split c s, failure)
      | inr (s', success) ↦ elim (Bool-cases (ltb (length (load_page c)) page_size)) [
        | inl short ↦
            let short' : length (take page_size (after c)) + 1 ≤ page_size =
              subst (λ xs. length xs + 1 ≤ page_size) (loaded c) (ground (arith, short)) in
            let whole = loaded c ∙ take_all page_size (after c) short' in
            rw (success, short) (ap some (sym success ∙ ap (λ xs. write_page xs s) whole))
        | inr full ↦
            let (x, e, rest, enough) = after-last c (ground (arith, full)) in
            let smaller : length (after (some x.cursor)) + 1 ≤ k =
              omega (arith, ap length rest, length-drop page_size (after c)) in
            rw (
              success,
              full,
              e,
              pages_from-all k (some x.cursor) s' smaller,
              write_page_split c s,
              success,
              rest,
            )
      ]
    ]

module _ (size : Token → ℕ) (max_bytes : ℕ) {K : Type 0} where
  pub write_rows-append :
      (xs ys : List (Row K)) (w : Writer)
      → write_rows size max_bytes (xs ++ ys) w
        ≡ (write_rows size max_bytes xs w >>= λ w'. write_rows size max_bytes ys w')
  unfolding write_rows
  write_rows-append [] ys w = refl
  write_rows-append (x ∷ xs) ys w = simp (bind_assoc, write_rows-append xs ys)

  pub write_counted-append :
      (xs ys : List (Row K)) (c : Counted)
      → write_counted size max_bytes (xs ++ ys) c
        ≡ (write_counted size max_bytes xs c >>= λ c'. write_counted size max_bytes ys c')
  unfolding write_counted
  write_counted-append [] ys c = refl
  write_counted-append (x ∷ xs) ys c = simp (bind_assoc, write_counted-append xs ys)

-- The rows of an account in the order of their cursors.
abbrev pub owned : {K : Type 0} → (K → K → Bool) → ℕ → List (Row K) → List (Row K)
owned le user_id t = order_by (in_order le) (select_where (λ r. r.user_id == user_id) t)

module _ {K : Type 0} (le : K → K → Bool) (total : (a b : K) → le a b ≡ false → le b a ≡ true)
    (trans : (a b c : K) → le a b ≡ true → le b c ≡ true → le a c ≡ true) where
  load-owned :
      (user_id page_size : ℕ) (t : List (Row K)) (c : Option K)
      → load le user_id page_size t c
        ≡ take page_size (select_where (is_after le c) (owned le user_id t))
  unfolding load
  load-owned user_id page_size t c =
      let own : Row K → Bool = λ r. r.user_id == user_id in
      let moved =
        order_by-select_where (in_order le) (λ a b. total a.cursor b.cursor)
          (λ a b c. trans a.cursor b.cursor c.cursor) (is_after le c) (select_where own t) in
      ap (take page_size)
        (ap (order_by (in_order le)) (select_where-and own (is_after le c) t) ∙ moved)

  length-owned : (user_id : ℕ) (t : List (Row K)) → length (owned le user_id t) ≤ length t
  length-owned user_id t =
      let own : Row K → Bool = λ r. r.user_id == user_id in
      omega
        (arith, length-order_by (in_order le) (select_where own t), length-select_where_le own t)

  module _ (page_size user_id fuel : ℕ) (t : List (Row K)) (load_page : Option K → List (Row K))
      (loaded : (c : Option K) → load_page c ≡ load le user_id page_size t c)
      (positive : 1 ≤ page_size) (enough : length t + 1 ≤ fuel)
      (distinct : Distinct
        (same_place (in_order le))
        (select_where (λ r. r.user_id == user_id) t)) where
    -- The loop ends, and what it has written are all rows of the account, in the order of the cursors.
    pub pages_from-owned :
        {S : Type 0} (write_page : List (Row K) → S → Written S) (s : S)
        → ((xs ys : List (Row K)) (s : S)
            → write_page (xs ++ ys) s ≡ (write_page xs s >>= λ s'. write_page ys s'))
        → pages_from page_size load_page write_page fuel none s
          ≡ some (write_page (owned le user_id t) s)
    pages_from-owned write_page s written =
        let all =
          select_where_all (is_after le none) (owned le user_id t)
            (All_of_In _ (owned le user_id t) (λ r m. refl)) in
        let strict =
          order_by-IsStrict (in_order le) (λ a b. total a.cursor b.cursor)
            (λ a b c. trans a.cursor b.cursor c.cursor) _ distinct in
        let pages =
          pages_from-all le total trans page_size (owned le user_id t) load_page write_page positive
            strict (λ c. loaded c ∙ load-owned user_id page_size t c) written fuel none s
            (omega (arith, enough, length-owned user_id t, ap length all)) in
        pages ∙ ap (λ xs. some (write_page xs s)) all

    -- `writePages` ends within as many rounds as the table has rows and one more, with the rows of the
    -- account in the order of their cursors in the array, each exactly once, whatever the size of a page
    -- (at least one row), where a page is the query's answer and no two rows of the account have the
    -- same cursor; an error of the writer ends it.
    pub write_pages-owned :
        (size : Token → ℕ) (max_bytes : ℕ) (n : String) (w : Writer)
        → write_pages size max_bytes page_size fuel n load_page w
          ≡ some (
              start_array size max_bytes n w
              >>= (λ w1. write_rows size max_bytes (owned le user_id t) w1)
              >>= end_array size max_bytes)
    unfolding write_pages
    write_pages-owned size max_bytes n w =
        let pages = λ (w1 : Writer).
          pages_from-owned (write_rows size max_bytes) w1 (write_rows-append size max_bytes) in
        elim (Written-cases (start_array size max_bytes n w)) [
          | inl (e, failure) ↦ rw failure refl
          | inr (w1, success) ↦
              rw (success, pages w1)
                (elim (Written-cases (write_rows size max_bytes (owned le user_id t) w1)) [
                  | inl (e, failure) ↦ rw failure refl
                  | inr (w2, written) ↦ rw written refl
                ])
        ]
