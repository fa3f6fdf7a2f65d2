-- ===== src/Matches/Consent/Quota.antt =====
-- The weekly quota of continuations.
use histae_api.Prelude.{
  ℕ, ◌+◌, ◌≡◌, ◌≢◌, refl, subst, arith, Bool, true, false, ◌&&◌, Bool-cases, Option-cases, inl, inr,
  ◌⊎◌, List, [], ◌∷◌, some, none, find_where, find_where-some, find_where-none,
  find_where-update_where, exists_where, exists_where-In, exists_where_of_In, Distinct,
  update_where, if◌then◌else◌, ltb, update_where_none,
}
use histae_api.Matches.Models.{Usage}
use histae_api.Matches.Consent.{usage_of, spend_quota}

-- `continuationUsage`: `rows[0]?.used_count ?? 0`.
unfoldable pub continuation_usage : ℕ → ℕ → List Usage → ℕ
continuation_usage user week usage = elim (find_where (usage_of user week) usage) [
  | none ↦ 0
  | some u ↦ u.used_count
]

-- PRIMARY KEY (user_id, week_start)
abbrev pub same_usage : Usage → Usage → Bool
same_usage a b = usage_of a.user_id a.week_start b

exists_and :
    (p q : Usage → Bool) (us : List Usage)
    → exists_where p us ≡ false
    → exists_where (λ u. p u && q u) us ≡ false
unfolding exists_where
exists_and p q [] h = refl
exists_and p q (u ∷ us) h = ground (arith, exists_and p q us)

no_other :
    (user week : ℕ) (u : Usage) (us : List Usage)
    → usage_of user week u ≡ true
    → exists_where (same_usage u) us ≡ false
    → exists_where (usage_of user week) us ≡ false
no_other user week u us hit alone =
    let same_user : u.user_id ≡ user = ground arith in
    let same_week : u.week_start ≡ week = ground arith in
    subst (λ x. exists_where (usage_of x week) us ≡ false) same_user
      (subst (λ y. exists_where (usage_of u.user_id y) us ≡ false) same_week alone)

-- With the primary key, a row passes a test that includes the key exactly when the first row of the
-- key does.
exists_first :
    (user week limit : ℕ) (usage : List Usage)
    → Distinct same_usage usage
    → exists_where (usage_of user week) usage ≡ true
    → exists_where (λ u. usage_of user week u && ltb u.used_count limit) usage
      ≡ ltb (continuation_usage user week usage) limit
unfolding continuation_usage find_where exists_where
exists_first user week limit [] d h = cc
exists_first user week limit (u ∷ us) d h = elim (Bool-cases (usage_of user week u)) [
  | inl hit ↦
      let none_left =
        exists_and (usage_of user week) (λ v. ltb v.used_count limit) us
          (no_other user week u us hit d.0) in
      ground arith
  | inr miss ↦ let rest = exists_first user week limit us d.1 in ground arith
]

-- An upsert that spends nothing writes nothing.
pub spend_quota_refused :
    (user week limit : ℕ) (usage : List Usage)
    → (spend_quota user week limit usage).1 ≡ false
    → (spend_quota user week limit usage).0 ≡ usage
unfolding spend_quota
spend_quota_refused user week limit usage h = ground (
  arith,
  update_where_none (λ u. usage_of user week u && ltb u.used_count limit)
      (λ u. record u { used_count = u.used_count + 1 }) usage,
)

module _ (user week limit : ℕ) (usage : List Usage) (d : Distinct same_usage usage) where
  abbrev pub after : List Usage × Bool
  after = spend_quota user week limit usage

  abbrev before_count : ℕ
  before_count = continuation_usage user week usage

  abbrev bumped : List Usage
  bumped =
      update_where (λ u. usage_of user week u && ltb u.used_count limit)
        (λ u. record u { used_count = u.used_count + 1 }) usage

  bumped_find :
      (other w : ℕ)
      → find_where (usage_of other w) bumped ≡ elim (find_where (usage_of other w) usage) [
        | none ↦ none
        | some r ↦ some (
            if usage_of user week r && ltb r.used_count limit
            then record r { used_count = r.used_count + 1 }
            else r)
      ]
  bumped_find other w = find_where-update_where (usage_of other w) _ _ usage (λ r. refl)

  bumped_self : continuation_usage user week bumped ≡ (
      if ltb before_count limit && exists_where (usage_of user week) usage
      then before_count + 1
      else before_count)
  unfolding continuation_usage
  bumped_self = elim (Option-cases (find_where (usage_of user week) usage)) [
    | inl e ↦ ground (arith, bumped_find user week, find_where-none (usage_of user week) usage e)
    | inr (u, e) ↦
        let (here, hit) = find_where-some (usage_of user week) usage u e in
        ground
          (arith, bumped_find user week, exists_where_of_In u (usage_of user week) usage here hit)
  ]

  bumped_other :
      (other w : ℕ)
      → (other ≢ user) ⊎ (w ≢ week)
      → continuation_usage other w bumped ≡ continuation_usage other w usage
  unfolding continuation_usage
  bumped_other other w ne = elim (Option-cases (find_where (usage_of other w) usage)) [
    | inl e ↦ ground (arith, bumped_find other w)
    | inr (u, e) ↦
        let (here, hit) = find_where-some (usage_of other w) usage u e in
        ground (arith, bumped_find other w)
  ]

  missing_count : exists_where (usage_of user week) usage ≡ false → before_count ≡ 0
  unfolding continuation_usage
  missing_count h = elim (Option-cases (find_where (usage_of user week) usage)) [
    | inl e ↦ ground arith
    | inr (u, e) ↦
        let (here, hit) = find_where-some (usage_of user week) usage u e in
        cc (exists_where-In u (usage_of user week) usage h here)
  ]

  new_other :
      (other w : ℕ)
      → (other ≢ user) ⊎ (w ≢ week)
      → continuation_usage other w
          (record { user_id = user; week_start = week; used_count = 1 } ∷ usage)
        ≡ continuation_usage other w usage
  unfolding continuation_usage find_where
  new_other other w ne = ground arith

  new_self :
      continuation_usage user week
        (record { user_id = user; week_start = week; used_count = 1 } ∷ usage)
      ≡ 1
  unfolding continuation_usage find_where
  new_self = ground arith

  -- The upsert spends one unit if there is one left, and tells so; otherwise it writes nothing. The
  -- counters of other users and other weeks stay.
  pub spend_quota_lem :
      (after.1 ≡ ltb before_count limit)
      × (continuation_usage user week after.0
          ≡ (if ltb before_count limit then before_count + 1 else before_count))
      × ((other w : ℕ)
          → (other ≢ user) ⊎ (w ≢ week)
          → continuation_usage other w after.0 ≡ continuation_usage other w usage)
  unfolding spend_quota
  spend_quota_lem = elim (Bool-cases (ltb 0 limit)) [
    | inr zero_limit ↦ (ground arith, ground arith, λ other w ne. rw zero_limit refl)
    | inl some_limit ↦ elim (Bool-cases (exists_where (usage_of user week) usage)) [
      | inl old ↦ (
        ground (arith, exists_first user week limit usage d old),
        ground (arith, bumped_self),
        λ other w ne. rw (some_limit, old) (bumped_other other w ne),
      )
      | inr new ↦ (
        ground (arith, missing_count new),
        ground (arith, missing_count new, new_self),
        λ other w ne. rw (some_limit, new) (new_other other w ne),
      )
    ]
  ]
