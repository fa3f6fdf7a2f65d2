-- ===== src/Matches/Consent/Second.antt =====
-- The consent of the second participant, from the database that the transaction reads to its answer.
use histae_api.Matches.Access.{after_opening}
use histae_api.Prelude.{
  ℕ, ◌≤◌, ◌<◌, ◌≡◌, ◌⊎◌, inl, inr, none, some, true, false, refl, arith, In, Distinct, count_where,
  leb, ap,
}
use histae_api.Matches.Models.{Match, MatchState, Db, is_active}
use histae_api.Matches.Week.{start_of_utc_week}
use histae_api.Matches.Plans.{EffectivePlan, effective_plan}
use histae_api.Matches.Consent.{
  settled, answered, confirmed, quota_reached, second_consent, spend_quota, consent, rolled_back,
  Reply, after_opening, thrown,
}
use histae_api.Matches.Consent.Quota.{
  continuation_usage, same_usage, spend_quota_lem, spend_quota_refused,
}
use histae_api.Matches.Consent.Charging.{found, outcome, window_known, no_limit, under_limit}
use histae_api.Matches.Consent.Confirmation.{AwaitsSecond, continued_of, confirm-confirmed}

-- The plan of the initiator has a unit left for the week of `now`, or no limit.
abbrev pub HasQuota : Db → ℕ → EffectivePlan → ℕ → Type 0
HasQuota d initiator plan now =
    (plan.weekly_limit ≡ none)
    ⊎ ((limit : ℕ) × (plan.weekly_limit ≡ some limit)
        × (continuation_usage initiator (start_of_utc_week now) d.usage < limit))

abbrev pub LacksQuota : Db → ℕ → EffectivePlan → ℕ → Type 0
LacksQuota d initiator plan now =
    (limit : ℕ) × (plan.weekly_limit ≡ some limit)
    × (limit ≤ continuation_usage initiator (start_of_utc_week now) d.usage)

abbrev pub IsConfirmation : Match → Db × Reply → Type 0
IsConfirmation m r =
    (r.1 ≡ answered confirmed)
    × In (settled m) r.0.matches
    × (count_where (continued_of m.id) r.0.states ≡ 2)

rolled_back-IsConfirmation :
    (d : Db) (m : Match) (r : Db × Reply) → IsConfirmation m r → IsConfirmation m (rolled_back d r)
rolled_back-IsConfirmation d m (e, answered c) h = h
rolled_back-IsConfirmation d m (e, thrown t) (h, _, _) = cc

module _ (d : Db) (m : Match) (user now initiator : ℕ) (s : MatchState) (plan : EffectivePlan)
    (w : AwaitsSecond d m user now s) (header : found d m.id user now ≡ some m)
    (first : m.continuation_initiator_id ≡ some initiator)
    (effective : effective_plan d initiator now ≡ some plan)
    (unique : Distinct same_usage d.usage) where
  abbrev week : ℕ
  week = start_of_utc_week now

  consent-second : consent d m user now ≡ second_consent d m user now initiator
  unfolding consent
  consent-second = let (_, _, _, _, _, _, row, new, _) = w in ground arith

  not_active : is_active m.status ≡ false
  not_active = let (_, _, _, waits, _, _, _, _, _) = w in ground arith

  same_match : after_opening now m ≡ m
  unfolding after_opening
  same_match = rw not_active refl

  still_open : leb m.expires_at now ≡ false
  still_open = let (_, _, _, _, fresh, _, _, _, _) = w in ground arith

  outcome-second : outcome d m.id user now ≡ rolled_back d (second_consent d m user now initiator)
  outcome-second =
      let (_, _, _, waits, _, _, _, _, _) = w in
      rw (window_known d m.id user now m header not_active)
        (rw same_match (rw waits (rw still_open (rw consent-second refl))))

  second-confirmed :
      HasQuota d initiator plan now → IsConfirmation m (second_consent d m user now initiator)
  second-confirmed (inl unlimited) =
      rw (no_limit d m user now initiator plan effective unlimited)
        (confirm-confirmed d m user now s w)
  second-confirmed (inr (limit, l, left)) =
      let after = spend_quota initiator week limit d.usage in
      let (tells, _, _) = spend_quota_lem initiator week limit d.usage unique in
      let spent : after.1 ≡ true = ground arith in
      rw (under_limit d m user now initiator plan limit effective l)
        (rw spent (confirm-confirmed (record d { usage = after.0 }) m user now s w))

  second-refused :
      LacksQuota d initiator plan now
      → second_consent d m user now initiator ≡ (d, answered quota_reached)
  second-refused (limit, l, over) =
      let after = spend_quota initiator week limit d.usage in
      let (tells, _, _) = spend_quota_lem initiator week limit d.usage unique in
      let kept : after.1 ≡ false = ground arith in
      rw (under_limit d m user now initiator plan limit effective l) (
        rw kept (
          ap (λ u. (record d { usage = u }, answered quota_reached))
            (spend_quota_refused initiator week limit d.usage kept)))

  -- The consent of the second participant, in an open window and with living accounts, is decided by
  -- the plan of the first in force. With a unit of quota left or no limit it confirms the match: the
  -- answer is `confirmed`, the table holds the match confirmed with no date of purge, and two consents
  -- are recorded. Without, the answer is `quota_reached` and nothing is written.
  pub second_consent_lem :
      (HasQuota d initiator plan now → IsConfirmation m (outcome d m.id user now))
      × (LacksQuota d initiator plan now → outcome d m.id user now ≡ (d, answered quota_reached))
  second_consent_lem = (
    λ q. rw outcome-second (rolled_back-IsConfirmation d m _ (second-confirmed q)),
    λ q. rw outcome-second (rw (second-refused q) refl),
  )
