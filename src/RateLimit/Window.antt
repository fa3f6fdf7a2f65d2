-- ===== src/RateLimit/Window.antt =====
-- How many requests one window allows.
use histae_api.Prelude.{
  ℕ, min, ◌-◌, ◌∷◌, [], ◌+◌, ◌<◌, ◌≡◌, none, some, arith, Option, List, ltb→lt, ◌≤◌, inl, inr,
  false, refl, ltb, leb, Bool-cases, if◌then◌else◌, ◌++◌, ◌≢◌, ◌∙◌, ◌==◌, true, ap, subst,
}
use histae_api.RateLimit.{Entry, Policy, current}
use histae_api.RateLimit.Sweep.{
  Request, Book, book_allow, book_answers, answers, answers-eq-book_answers,
}

-- Requests inside one window, of which `left` remains: those of the key have one policy, and the
-- others are any.
abbrev pub IsInWindow : ℕ → Policy → ℕ → List Request → Type 0
IsInWindow key p left [] = Unit
IsInWindow key p left (r ∷ rs) =
    (r.elapsed < left) × (r.key ≡ key → r.policy ≡ p) × IsInWindow key p (left - r.elapsed) rs

-- How many of the requests are of the key, and how many of those were allowed.
unfoldable pub requests_of : ℕ → List Request → ℕ
requests_of key [] = 0
requests_of key (r ∷ rs) = let rest = requests_of key rs in if r.key == key then 1 + rest else rest

abbrev pass : Option ℕ → ℕ
pass none = 1
pass (some wait) = 0

unfoldable pub allowed_of : ℕ → List Request → List (Option ℕ) → ℕ
allowed_of key [] more = 0
allowed_of key (r ∷ rs) [] = 0
allowed_of key (r ∷ rs) (a ∷ more) =
    let rest = allowed_of key rs more in if r.key == key then pass a + rest else rest

abbrev pub IsAbsent : ℕ → List Request → Type 0
IsAbsent key [] = Unit
IsAbsent key (r ∷ rs) = (r.key ≢ key) × IsAbsent key rs

-- A request of another key leaves the entry of the key.
other_key :
    (b : Book) (at k key : ℕ) (p : Policy)
    → (k == key) ≡ false
    → (book_allow b at k p).0 key ≡ b key
unfolding book_allow
other_key b at k key p other = let apart : (key == k) ≡ false = ground arith in rw apart refl

-- One request in a window that is open.
in_window :
    (b : Book) (at key : ℕ) (p : Policy) (e : Entry)
    → b key ≡ some e
    → at < e.expires_at
    → ((book_allow b at key p).0 key ≡ some (record e { count = e.count + 1 }))
      × ((book_allow b at key p).1
          ≡ (if ltb p.max (e.count + 1) then some (e.expires_at - at) else none))
unfolding book_allow current
in_window b at key p e found early =
    let open_ : leb e.expires_at at ≡ false = ground arith in
    let same : current (b key) at key p ≡ e = rw found (rw open_ refl) in
    (ground (arith, same), rw same refl)

window_lem :
    (rs : List Request) (b : Book) (now key left : ℕ) (p : Policy) (e : Entry)
    → b key ≡ some e
    → e.expires_at ≡ now + left
    → IsInWindow key p left rs
    → allowed_of key rs (book_answers b now rs) ≡ min (requests_of key rs) (p.max - e.count)
unfolding allowed_of requests_of book_answers
window_lem [] b now key left p e found ends w = omega arith
window_lem (r ∷ rs) b now key left p e found ends (soon, policy, w) =
    let at = now + r.elapsed in
    let b' = (book_allow b at r.key r.policy).0 in
    let later : e.expires_at ≡ at + (left - r.elapsed) = omega (arith, ends, soon) in
    elim (Bool-cases (r.key == key)) [
      | inr other ↦
          let kept = other_key b at r.key key r.policy other ∙ found in
          rw other (window_lem rs b' at key (left - r.elapsed) p e kept later w)
      | inl hit ↦
          let same : r.key ≡ key = ground arith in
          let its = policy same in
          let (next, answer) =
            in_window b at r.key r.policy e (ap b same ∙ found) (omega (arith, ends, soon)) in
          let next' = subst (λ k. b' k ≡ some (record e { count = e.count + 1 })) same next in
          let rest =
            window_lem rs b' at key (left - r.elapsed) p (record e { count = e.count + 1 }) next'
              later w in
          let limit : r.policy.max ≡ p.max = ap (λ x. x.max) its in
          elim (Bool-cases (ltb r.policy.max (e.count + 1))) [
            | inl refused ↦ rw hit (
                rw answer (
                  rw refused
                    (omega (arith, rest, limit, ltb→lt r.policy.max (e.count + 1) refused))))
            | inr may ↦ rw hit (rw answer (rw may (ground (arith, rest, limit))))
          ]
    ]

module _ (first : Request) (rs : List Request)
    (w : IsInWindow first.key first.policy first.policy.window_ms rs)
    (some_time : 1 ≤ first.policy.window_ms) where
  opened_lem :
      (b : Book) (now : ℕ)
      → b first.key ≡ none
      → allowed_of first.key (first ∷ rs) (book_answers b now (first ∷ rs))
        ≡ min (requests_of first.key (first ∷ rs)) first.policy.max
  unfolding allowed_of requests_of book_answers book_allow current
  opened_lem b now free =
      let key = first.key in
      let p = first.policy in
      let at = now + first.elapsed in
      let e : Entry = record { key = key; count = 1; expires_at = at + p.window_ms } in
      let b' = (book_allow b at key p).0 in
      let same : (key == key) ≡ true = ground arith in
      let rest = window_lem rs b' at key p.window_ms p e (rw free (ground arith)) refl w in
      rw same (
        rw free (elim (Bool-cases (ltb p.max 1)) [
          | inl refused ↦ rw refused (omega (arith, rest, ltb→lt p.max 1 refused))
          | inr may ↦ rw may (ground (arith, rest))
        ]))

  after_others :
      (before : List Request) (b : Book) (now : ℕ)
      → IsAbsent first.key before
      → b first.key ≡ none
      → allowed_of first.key (before ++ first ∷ rs) (book_answers b now (before ++ first ∷ rs))
        ≡ min (requests_of first.key (first ∷ rs)) first.policy.max
  unfolding allowed_of book_answers
  after_others [] b now absent free = opened_lem b now free
  after_others (r ∷ before) b now (other, absent) free =
      let at = now + r.elapsed in
      let apart : (r.key == first.key) ≡ false = ground arith in
      rw apart (
        after_others before (book_allow b at r.key r.policy).0 at absent
          (other_key b at r.key first.key r.policy apart ∙ free))

  -- One window allows `max` requests of a key. From an empty memory, after any requests of other keys,
  -- the first request of a key opens a window of one millisecond or more. Of that request and the
  -- requests of the key inside the window, with the same policy and among any requests of other
  -- keys, as many are allowed as the policy says: `max` of them, or all if they are fewer.
  pub memory_allow_window :
      (before : List Request) (now : ℕ)
      → IsAbsent first.key before
      → let all = before ++ first ∷ rs in
        allowed_of first.key all (answers (record { entries = []; operations = 0 }) now all)
        ≡ min (requests_of first.key (first ∷ rs)) first.policy.max
  memory_allow_window before now absent =
      rw (answers-eq-book_answers (before ++ first ∷ rs) now)
        (after_others before (λ _. none) now absent refl)
