-- ===== src/Matches/Plans.antt =====
-- `effectivePlan` of src/matches/matches.repository.ts: the plan whose weekly limit applies.
use histae_api.Prelude.{
  ℕ, String, Bool, true, false, not, ◌&&◌, ◌||◌, Option, none, some, ltb, find_where, ◌==◌,
}
use text.Mathlib.Text.{◌==◌ as str_eq}
use histae_api.Matches.Models.{
  Db, Plan, Subscription, SubscriptionStatus, trialing, active, past_due,
}

pub record EffectivePlan : Type 0 where
  pub plan : String
  pub weekly_limit : Option ℕ

-- `subscription.status IN ('trialing', 'active', 'past_due')`
abbrev is_paying : Option SubscriptionStatus → Bool
is_paying (some trialing) = true
is_paying (some active) = true
is_paying (some past_due) = true
is_paying _ = false

-- `current_period_ends_at IS NULL OR current_period_ends_at > $2`
abbrev period_open : Option ℕ → ℕ → Bool
period_open none now = true
period_open (some ends) now = ltb now ends

is_effective : ℕ → Subscription → Bool
is_effective now s =
    str_eq s.plan "free"
    || (not s.has_provider || is_paying s.status) && period_open s.current_period_ends_at now

-- The code in COALESCE: the subscription that is in force, or the free plan.
unfoldable pub plan_code : Db → ℕ → ℕ → String
unfolding is_effective
plan_code d user now =
    elim (find_where (λ s. s.user_id == user && is_effective now s) d.subscriptions) [
      | none ↦ "free"
      | some s ↦ s.plan
    ]

-- `none` is the error thrown when the plan is missing.
unfoldable pub effective_plan : Db → ℕ → ℕ → Option EffectivePlan
unfolding plan_code
effective_plan d user now =
    elim (find_where (λ (p : Plan). str_eq p.code (plan_code d user now)) d.plans) [
      | none ↦ none
      | some p ↦ some (record { plan = p.code; weekly_limit = p.weekly_continuation_limit })
    ]
