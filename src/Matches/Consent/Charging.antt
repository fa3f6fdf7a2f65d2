-- ===== src/Matches/Consent/Charging.antt =====
-- What a consent takes from the weekly quota.
use histae_api.Prelude.{
  ltb, leb, not, ◌&&◌, ◌==◌, ℕ, ◌+◌, ◌<◌, ◌≡◌, ◌≢◌, refl, ap, arith, Bool-cases, Option-cases, inl,
  inr, ◌⊎◌, List, some, none, Distinct, if◌then◌else◌, ltb→lt, find_where, false, Option, true,
}
use histae_api.Matches.Models.{is_active, is_awaiting, is_participant, Usage, Db, Match}
use histae_api.Matches.Week.{start_of_utc_week}
use histae_api.Matches.Plans.{plan_code, EffectivePlan, effective_plan}
use histae_api.Matches.Access.{opened, lapsed, after_opening, write_match}
use histae_api.Matches.Consent.{
  consent, Reply, rolled_back, record_continuation_consent, not_available_yet, Continuation,
  invalid_state, write_consent, quota_reached, answered, Thrown, thrown, spend_quota, confirm,
  first_consent, second_consent, state_of,
}
use histae_api.Matches.Consent.Quota.{
  continuation_usage, same_usage, spend_quota_lem, spend_quota_refused,
}

-- The counters `usage'` after the consents of `now` to a match of `initiator`, if a unit was spent.
abbrev IsSpent : Db → ℕ → List Usage → ℕ → ℕ → Type 0
IsSpent d now usage' initiator limit =
    let week = start_of_utc_week now in
    ((plan : EffectivePlan) × (effective_plan d initiator now ≡ some plan)
      × (plan.weekly_limit ≡ some limit))
    × (continuation_usage initiator week d.usage < limit)
    × (continuation_usage initiator week usage' ≡ continuation_usage initiator week d.usage + 1)
    × ((other w : ℕ)
        → (other ≢ initiator) ⊎ (w ≢ week)
        → continuation_usage other w usage' ≡ continuation_usage other w d.usage)

abbrev pub IsCharged : Db → ℕ → List Usage → Type 0
IsCharged d now usage' =
    (usage' ≡ d.usage) ⊎ ((initiator limit : ℕ) × IsSpent d now usage' initiator limit)

confirm-usage : (d : Db) (m : Match) (user now : ℕ) → (confirm d m user now).0.usage ≡ d.usage
unfolding confirm write_consent
confirm-usage d m user now = ground arith

first_consent-usage : (d : Db) (m : Match) (user : ℕ) → (first_consent d m user).0.usage ≡ d.usage
unfolding first_consent write_consent write_match
first_consent-usage d m user = ground arith

-- The four ways of the second consent.
module _ (d : Db) (m : Match) (user now initiator : ℕ) where
  no_plan :
      effective_plan d initiator now ≡ none
      → second_consent d m user now initiator ≡ (d, thrown Thrown.plan_missing)
  unfolding second_consent
  no_plan e = rw (e, second_consent) refl

  pub no_limit :
      (plan : EffectivePlan)
      → effective_plan d initiator now ≡ some plan
      → plan.weekly_limit ≡ none
      → second_consent d m user now initiator ≡ confirm d m user now
  unfolding second_consent
  no_limit plan e l = rw (e, second_consent) (rw l refl)

  pub under_limit :
      (plan : EffectivePlan) (limit : ℕ)
      → effective_plan d initiator now ≡ some plan
      → plan.weekly_limit ≡ some limit
      → second_consent d m user now initiator ≡ (
          let after = spend_quota initiator (start_of_utc_week now) limit d.usage in
          if after.1
          then confirm (record d { usage = after.0 }) m user now
          else (record d { usage = after.0 }, answered quota_reached))
  unfolding second_consent
  under_limit plan limit e l = rw (e, second_consent) (rw l refl)

second_consent-IsCharged :
    (d : Db) (m : Match) (user now initiator : ℕ)
    → Distinct same_usage d.usage
    → IsCharged d now (second_consent d m user now initiator).0.usage
second_consent-IsCharged d m user now initiator unique =
    elim (Option-cases (effective_plan d initiator now)) [
      | inl e ↦ inl (ap (λ r. r.0.usage) (no_plan d m user now initiator e))
      | inr (plan, e) ↦ elim (Option-cases plan.weekly_limit) [
        | inl unlimited ↦
            inl (rw (no_limit d m user now initiator plan e unlimited) (confirm-usage d m user now))
        | inr (limit, l) ↦
            let week = start_of_utc_week now in
            let after = spend_quota initiator week limit d.usage in
            let (tells, self, others) = spend_quota_lem initiator week limit d.usage unique in
            let this = under_limit d m user now initiator plan limit e l in
            let new = confirm-usage (record d { usage = after.0 }) m user now in
            elim (Bool-cases after.1) [
              | inl spent ↦ inr (
                initiator,
                limit,
                (
                  (plan, e, l),
                  ltb→lt _ _ (ground arith),
                  rw this (rw spent (rw new (ground arith))),
                  λ other w ne. rw this (rw spent (rw new (others other w ne))),
                ),
              )
              | inr kept ↦
                  inl (rw this (rw kept (spend_quota_refused initiator week limit d.usage kept)))
            ]
      ]
    ]

consent-IsCharged :
    (d : Db) (m : Match) (user now : ℕ)
    → Distinct same_usage d.usage
    → IsCharged d now (consent d m user now).0.usage
unfolding consent
consent-IsCharged d m user now unique =
    elim (Option-cases (find_where (state_of m.id user) d.states)) [
      | inl e ↦ inl (rw (e, consent) refl)
      | inr (s, e) ↦ elim (Bool-cases s.continued) [
        | inl again ↦ inl (rw (e, consent) (rw again refl))
        | inr new ↦ elim (Option-cases m.continuation_initiator_id) [
          | inl n ↦ inl (rw (e, consent) (rw new (rw n (first_consent-usage d m user))))
          | inr (i, n) ↦
              rw (e, consent) (rw new (rw n (second_consent-IsCharged d m user now i unique)))
        ]
      ]
    ]

rolled_back-IsCharged :
    (d d' : Db) (now : ℕ) (r : Db × Reply)
    → d'.usage ≡ d.usage
    → IsCharged d now r.0.usage
    → IsCharged d now (rolled_back d' r).0.usage
rolled_back-IsCharged d d' now (e, answered c) same h = h
rolled_back-IsCharged d d' now (e, thrown t) same h = inl same

opened_consent-IsCharged :
    (d : Db) (m : Match) (user now match_id : ℕ) (f : Match → Match)
    → Distinct same_usage d.usage
    → IsCharged d now (consent (write_match f match_id d) m user now).0.usage
unfolding write_match effective_plan plan_code
opened_consent-IsCharged d m user now match_id f unique =
    consent-IsCharged (write_match f match_id d) m user now unique

module _ (d : Db) (match_id user now : ℕ) where
  -- What follows the opening of the window, which has made `d'` of `d`.
  abbrev decided : Db → Match → Db × Reply
  decided d' m =
      if not (is_awaiting m.status)
      then (d', answered invalid_state)
      else if leb m.expires_at now
      then (write_match (lapsed now) match_id d', answered Continuation.expired)
      else rolled_back d (consent d' m user now)

  decided-IsCharged :
      (d' : Db) (m : Match)
      → d'.usage ≡ d.usage
      → IsCharged d now (consent d' m user now).0.usage
      → IsCharged d now (decided d' m).0.usage
  unfolding write_match
  decided-IsCharged d' m same charged = elim (Bool-cases (is_awaiting m.status)) [
    | inr other ↦ inl (rw other same)
    | inl waits ↦ elim (Bool-cases (leb m.expires_at now)) [
      | inl over ↦ inl (rw waits (rw over same))
      | inr fresh ↦
          rw waits (rw fresh (rolled_back-IsCharged d d now (consent d' m user now) refl charged))
    ]
  ]

  abbrev pub found : Option Match
  found = find_where (λ (m : Match). m.id == match_id && is_participant user m) d.matches

  abbrev pub outcome : Db × Reply
  outcome = record_continuation_consent d match_id user now

  module _ (m : Match) (e : found ≡ some m) where
    too_early :
        is_active m.status ≡ true
        → ltb now m.expires_at ≡ true
        → outcome ≡ (d, answered not_available_yet)
    unfolding record_continuation_consent
    too_early fresh early = rw (e, record_continuation_consent) (rw fresh (rw early refl))

    window_opens :
        is_active m.status ≡ true
        → ltb now m.expires_at ≡ false
        → outcome ≡ decided (write_match (opened now) match_id d) (after_opening now m)
    unfolding record_continuation_consent
    window_opens fresh due = rw (e, record_continuation_consent) (rw fresh (rw due refl))

    pub window_known : is_active m.status ≡ false → outcome ≡ decided d (after_opening now m)
    unfolding record_continuation_consent
    window_known old = rw (e, record_continuation_consent) (rw old refl)

  unknown : found ≡ none → outcome ≡ (d, answered Continuation.not_found)
  unfolding record_continuation_consent
  unknown e = rw (e, record_continuation_consent) refl

  module _ (unique : Distinct same_usage d.usage) where
    -- A consent takes at most one unit of one weekly quota: the counters stay, or the counter of
    -- one user for the current week, which the plan of that user limits and which was below the
    -- limit, goes up by one while every other counter stays.
    pub record_continuation_consent-IsCharged : IsCharged d now outcome.0.usage
    unfolding write_match
    record_continuation_consent-IsCharged = elim (Option-cases found) [
      | inl e ↦ inl (ap (λ r. r.0.usage) (unknown e))
      | inr (m, e) ↦ elim (Bool-cases (is_active m.status)) [
        | inl fresh ↦ elim (Bool-cases (ltb now m.expires_at)) [
          | inl early ↦ inl (ap (λ r. r.0.usage) (too_early m e fresh early))
          | inr due ↦
              let new = after_opening now m in
              let charged = opened_consent-IsCharged d new user now match_id (opened now) unique in
              rw (window_opens m e fresh due)
                (decided-IsCharged (write_match (opened now) match_id d) new refl charged)
        ]
        | inr old ↦
            let new = after_opening now m in
            rw (window_known m e old)
              (decided-IsCharged d new refl (consent-IsCharged d new user now unique))
      ]
    ]
