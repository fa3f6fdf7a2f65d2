-- ===== src/RateLimit/Sweep.antt =====
-- The sweep is invisible: the answers are those of a memory that never forgets.
use histae_api.Prelude.{
  ℕ, find_where, delete_where, Distinct, same_id, ◌-◌, ◌==◌, ◌∷◌, [], ◌+◌, ◌≡◌, none, some, refl,
  arith, Option, List, ltb, leb, if◌then◌else◌, ==_iff, ◌&&◌, inl, inr, false, Bool, subst,
  Bool-cases, ◌∙◌, find_where-some, sym, ap, Option-cases, Distinct-delete_where, exists_where,
  update_where, exists_where-delete_where,
}
use histae_api.RateLimit.{
  Entry, Policy, Memory, get, current, memory_allow, of_key, set, sweep, sweep_interval,
}

-- One request: how long after the previous one it comes, its key and its policy.
pub record Request : Type 0 where
  pub elapsed : ℕ
  pub key : ℕ
  pub policy : Policy

-- The answers to a list of requests.
unfoldable pub answers : Memory → ℕ → List Request → List (Option ℕ)
answers m now [] = []
answers m now (r ∷ rs) =
    let (m', a) = memory_allow m (now + r.elapsed) r.key r.policy in
    a ∷ answers m' (now + r.elapsed) rs

-- The specification: for each key the last entry written, nothing forgotten.
abbrev pub Book : Type 0
Book = ℕ → Option Entry

unfoldable pub book_allow : Book → ℕ → ℕ → Policy → Book × Option ℕ
book_allow b now key p =
    let e = current (b key) now key p in
    let counted = record e { count = e.count + 1 } in
    (
      λ k. if k == key then some counted else b k,
      if ltb p.max counted.count then some (counted.expires_at - now) else none,
    )

unfoldable pub book_answers : Book → ℕ → List Request → List (Option ℕ)
book_answers b now [] = []
book_answers b now (r ∷ rs) =
    let (b', a) = book_allow b (now + r.elapsed) r.key r.policy in
    a ∷ book_answers b' (now + r.elapsed) rs

-- An entry, if it counts at `now`.
abbrev pub live : ℕ → Option Entry → Option Entry
live now none = none
live now (some e) = if leb e.expires_at now then none else some e

current-live :
    (o : Option Entry) (now key : ℕ) (p : Policy)
    → current (live now o) now key p ≡ current o now key p
unfolding current
current-live none now key p = refl
current-live (some e) now key p = ground arith

live-later :
    (a b : Option Entry) (now elapsed : ℕ)
    → live now a ≡ live now b
    → live (now + elapsed) a ≡ live (now + elapsed) b
live-later none none now elapsed h = refl
live-later none (some e) now elapsed h = ground arith
live-later (some e) none now elapsed h = ground arith
live-later (some e) (some f) now elapsed h = ground arith

find_nothing :
    (p : Entry → Bool) (t : List Entry) → exists_where p t ≡ false → find_where p t ≡ none
unfolding find_where exists_where
find_nothing p [] h = refl
find_nothing p (e ∷ t) h = ground (arith, find_nothing p t)

get-swept :
    (t : List Entry) (now k : ℕ)
    → Distinct (same_id (λ (e : Entry). e.key)) t
    → live now (get (delete_where (λ (e : Entry). leb e.expires_at now) t) k) ≡ live now (get t k)
unfolding find_where delete_where
get-swept [] now k d = refl
get-swept (e ∷ t) now k d = elim (Bool-cases (of_key k e)) [
  | inr miss ↦ ground (arith, get-swept t now k d.1)
  | inl hit ↦
      let alone : exists_where (of_key k) t ≡ false =
        subst (λ x. exists_where (of_key x) t ≡ false) ((==_iff e.key k).0 hit) d.0 in
      let gone =
        find_nothing (of_key k) (delete_where (λ (r : Entry). leb r.expires_at now) t)
          (exists_where-delete_where (of_key k) (λ (r : Entry). leb r.expires_at now) t alone) in
      ground (arith, gone)
]

sweep-get :
    (m : Memory) (now k : ℕ)
    → Distinct (same_id (λ (e : Entry). e.key)) m.entries
    → live now (get (sweep m now).entries k) ≡ live now (get m.entries k)
unfolding sweep
sweep-get m now k d = elim (Bool-cases (ltb (m.operations + 1) sweep_interval)) [
  | inl early ↦ rw early refl
  | inr due ↦ rw due (get-swept m.entries now k d)
]

sweep-Distinct :
    (m : Memory) (now : ℕ)
    → Distinct (same_id (λ (e : Entry). e.key)) m.entries
    → Distinct (same_id (λ (e : Entry). e.key)) (sweep m now).entries
unfolding sweep
sweep-Distinct m now d = elim (Bool-cases (ltb (m.operations + 1) sweep_interval)) [
  | inl early ↦ rw early d
  | inr due ↦ rw due (
      Distinct-delete_where (same_id (λ (e : Entry). e.key)) (λ (e : Entry). leb e.expires_at now)
        m.entries d)
]

get-updated :
    (t : List Entry) (e : Entry) (k : ℕ)
    → get (update_where (of_key e.key) (λ _. e) t) k
      ≡ (if k == e.key && exists_where (of_key e.key) t then some e else get t k)
unfolding find_where update_where exists_where
get-updated [] e k = ground arith
get-updated (x ∷ t) e k = ground (arith, get-updated t e k)

get-set :
    (t : List Entry) (e : Entry) (k : ℕ)
    → get (set t e) k ≡ (if k == e.key then some e else get t k)
unfolding set find_where
get-set t e k = ground (arith, get-updated t e k)

exists_updated :
    (e : Entry) (y : ℕ) (l : List Entry)
    → exists_where (of_key y) (update_where (of_key e.key) (λ _. e) l) ≡ exists_where (of_key y) l
unfolding exists_where update_where
exists_updated e y [] = refl
exists_updated e y (z ∷ l) = ground (arith, exists_updated e y l)

updated-Distinct :
    (t : List Entry) (e : Entry)
    → Distinct (same_id (λ (x : Entry). x.key)) t
    → Distinct (same_id (λ (x : Entry). x.key)) (update_where (of_key e.key) (λ _. e) t)
unfolding update_where
updated-Distinct [] e d = tt
updated-Distinct (x ∷ t) e d =
    let rest = updated-Distinct t e d.1 in
    let same = exists_updated e x.key t in
    elim (Bool-cases (of_key e.key x)) [
      | inl hit ↦ rw hit (
        subst (λ y. exists_where (of_key y) (update_where (of_key e.key) (λ _. e) t) ≡ false)
            ((==_iff x.key e.key).0 hit) (rw same d.0),
        rest,
      )
      | inr miss ↦ rw miss (rw same d.0, rest)
    ]

set-Distinct :
    (t : List Entry) (e : Entry)
    → Distinct (same_id (λ (x : Entry). x.key)) t
    → Distinct (same_id (λ (x : Entry). x.key)) (set t e)
unfolding set
set-Distinct t e d = elim (Bool-cases (exists_where (of_key e.key) t)) [
  | inl old ↦ rw old (updated-Distinct t e d)
  | inr new ↦ rw new (new, d)
]

-- The memory and the book agree on what counts at `now`.
abbrev Agrees : ℕ → Memory → Book → Type 0
Agrees now m b = (k : ℕ) → live now (get m.entries k) ≡ live now (b k)

current-key :
    (t : List Entry) (now key : ℕ) (p : Policy) → (current (get t key) now key p).key ≡ key
unfolding current
current-key t now key p = elim (Option-cases (get t key)) [
  | inl e ↦ rw e refl
  | inr (x, e) ↦ let (_, hit) = find_where-some (of_key key) t x e in ground (arith, e)
]

module _ (m : Memory) (b : Book) (now key : ℕ) (p : Policy)
    (d : Distinct (same_id (λ (e : Entry). e.key)) m.entries) (agree : Agrees now m b) where
  same_entry : current (get (sweep m now).entries key) now key p ≡ current (b key) now key p
  same_entry =
      sym (current-live (get (sweep m now).entries key) now key p)
      ∙ ap (λ o. current o now key p) (sweep-get m now key d ∙ agree key)
      ∙ current-live (b key) now key p

  same_answer : (memory_allow m now key p).1 ≡ (book_allow b now key p).1
  unfolding memory_allow book_allow
  same_answer = rw same_entry refl

  allow-Distinct : Distinct (same_id (λ (e : Entry). e.key)) (memory_allow m now key p).0.entries
  unfolding memory_allow
  allow-Distinct = set-Distinct (sweep m now).entries _ (sweep-Distinct m now d)

  still-Agrees : Agrees now (memory_allow m now key p).0 (book_allow b now key p).0
  unfolding memory_allow book_allow
  still-Agrees k =
      let e = current (get (sweep m now).entries key) now key p in
      let counted = record e { count = e.count + 1 } in
      let written = get-set (sweep m now).entries counted k in
      let its_key = current-key (sweep m now).entries now key p in
      let book_key : (current (b key) now key p).key ≡ key =
        sym (ap (λ x. x.key) same_entry) ∙ its_key in
      elim (Bool-cases (k == key)) [
        | inl hit ↦ rw written (rw its_key (rw hit (rw same_entry (rw book_key refl))))
        | inr miss ↦ rw written (rw its_key (rw miss (sweep-get m now k d ∙ agree k)))
      ]

answers_agree :
    (rs : List Request) (m : Memory) (b : Book) (now : ℕ)
    → Distinct (same_id (λ (e : Entry). e.key)) m.entries
    → Agrees now m b
    → answers m now rs ≡ book_answers b now rs
unfolding answers book_answers
answers_agree [] m b now d agree = refl
answers_agree (r ∷ rs) m b now d agree =
    let at = now + r.elapsed in
    let agree' : Agrees at m b = λ k. live-later (get m.entries k) (b k) now r.elapsed (agree k) in
    let first = same_answer m b at r.key r.policy d agree' in
    let rest =
      answers_agree rs (memory_allow m at r.key r.policy).0 (book_allow b at r.key r.policy).0 at
        (allow-Distinct m b at r.key r.policy d agree')
        (still-Agrees m b at r.key r.policy d agree') in
    rw (first, rest) refl

-- The sweep changes no answer. From an empty memory, any sequence of requests, with any keys and
-- policies, at instants that do not go back, is answered as by a book that never forgets an entry.
pub answers-eq-book_answers :
    (rs : List Request) (now : ℕ)
    → answers (record { entries = []; operations = 0 }) now rs ≡ book_answers (λ _. none) now rs
unfolding find_where
answers-eq-book_answers rs now =
    answers_agree rs (record { entries = []; operations = 0 }) (λ _. none) now tt (λ k. refl)
