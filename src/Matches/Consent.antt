-- ===== src/Matches/Consent.antt =====
-- `recordContinuationConsent` of src/matches/matches.repository.ts: one transaction. The first
-- participant to consent opens the question; the consent of the other confirms the match, against the
-- weekly quota of the first.
pub mod Quota
pub mod Charging
pub mod Confirmation
pub mod Second
use histae_api.Prelude.{
  ℕ, ◌+◌, Bool, true, false, not, ◌&&◌, List, ◌∷◌, none, some, ltb, leb, ◌==◌, if◌then◌else◌,
  find_where, update_where, exists_where, count_where,
}
use histae_api.Matches.Models.{
  Status, Match, MatchState, Usage, Db, is_active, is_awaiting, is_participant, is_orphaned,
}
use histae_api.Matches.Week.{start_of_utc_week}
use histae_api.Matches.Plans.{effective_plan}
use histae_api.Matches.Access.{opened, lapsed, write_match, after_opening}

-- `ContinuationResult`
pub data Continuation : Type 0 where
  pending confirmed already_recorded not_available_yet : Continuation
  not_found invalid_state expired quota_reached : Continuation

-- What the transaction throws, rolled back: the trigger trg_live_match_state on the consent of a
-- match with a deleted account (P0E01), or the lack of the free plan.
pub data Thrown : Type 0 where
  account_unavailable plan_missing : Thrown

pub data Reply : Type 0 where
  answered : Continuation → Reply
  thrown : Thrown → Reply

abbrev pub state_of : ℕ → ℕ → MatchState → Bool
state_of match_id user s = s.match_id == match_id && s.user_id == user

-- UPDATE match_state SET continued = true
write_consent : ℕ → ℕ → Db → Db
write_consent match_id user d = record d {
  states = update_where (state_of match_id user) (λ s. record s { continued = true }) d.states;
}

abbrev usage_of : ℕ → ℕ → Usage → Bool
usage_of user week u = u.user_id == user && u.week_start == week

-- INSERT … SELECT … WHERE $3 > 0 ON CONFLICT DO UPDATE … WHERE used_count < $3 RETURNING: the
-- table, and whether a row came back.
pub spend_quota : ℕ → ℕ → ℕ → List Usage → List Usage × Bool
spend_quota user week limit usage =
    if not (ltb 0 limit)
    then (usage, false)
    else if exists_where (usage_of user week) usage
    then (
      update_where (λ u. usage_of user week u && ltb u.used_count limit)
          (λ u. record u { used_count = u.used_count + 1 }) usage,
      exists_where (λ u. usage_of user week u && ltb u.used_count limit) usage,
    )
    else (record { user_id = user; week_start = week; used_count = 1 } ∷ usage, true)

-- WHERE id = $1 AND status = 'awaiting_continuation' AND expires_at > $2
--   AND (SELECT count(*) FROM match_state WHERE match_id = $1 AND continued = true) = 2
is_confirmable : ℕ → ℕ → List MatchState → Match → Bool
is_confirmable match_id now states m =
    m.id == match_id
    && is_awaiting m.status
    && ltb now m.expires_at
    && count_where (λ s. s.match_id == match_id && s.continued) states == 2

abbrev pub settled : Match → Match
settled m = record m { status = Status.confirmed; purge_after = none }

-- The last two statements. The trigger refuses the first if an account of the match is deleted.
pub confirm : Db → Match → ℕ → ℕ → Db × Reply
unfolding write_consent is_confirmable
confirm d m user now =
    let d' = write_consent m.id user d in
    let test = is_confirmable m.id now d'.states in
    if is_orphaned d.accounts m then (d, thrown account_unavailable) else (
      record d' { matches = update_where test settled d'.matches },
      answered (if count_where test d'.matches == 1 then confirmed else invalid_state),
    )

-- The second consent: the quota of the initiator, then the confirmation.
pub second_consent : Db → Match → ℕ → ℕ → ℕ → Db × Reply
unfolding spend_quota confirm
second_consent d m user now initiator = elim (effective_plan d initiator now) [
  | none ↦ (d, thrown plan_missing)
  | some plan ↦ elim plan.weekly_limit [
    | none ↦ confirm d m user now
    | some limit ↦
        let (usage, spent) = spend_quota initiator (start_of_utc_week now) limit d.usage in
        if spent
        then confirm (record d { usage = usage }) m user now
        else (record d { usage = usage }, answered quota_reached)
  ]
]

-- The first consent, under the same trigger.
first_consent : Db → Match → ℕ → Db × Reply
unfolding write_consent write_match
first_consent d m user = if is_orphaned d.accounts m then (d, thrown account_unavailable) else (
  write_match (λ r. record r { continuation_initiator_id = some user }) m.id
      (write_consent m.id user d),
  answered pending,
)

-- The consent once the window is known to be open.
pub consent : Db → Match → ℕ → ℕ → Db × Reply
unfolding first_consent second_consent
consent d m user now = elim (find_where (state_of m.id user) d.states) [
  | none ↦ (d, answered not_found)
  | some s ↦
      if s.continued then (d, answered already_recorded) else elim m.continuation_initiator_id [
        | none ↦ first_consent d m user
        | some initiator ↦ second_consent d m user now initiator
      ]
]

-- A transaction that throws leaves the database as it was.
abbrev rolled_back : Db → Db × Reply → Db × Reply
rolled_back d (d', answered c) = (d', answered c)
rolled_back d (d', thrown e) = (d, thrown e)

pub record_continuation_consent : Db → ℕ → ℕ → ℕ → Db × Reply
unfolding consent after_opening write_match
record_continuation_consent d match_id user now =
    elim (find_where (λ m. m.id == match_id && is_participant user m) d.matches) [
      | none ↦ (d, answered not_found)
      | some initial ↦
          if is_active initial.status && ltb now initial.expires_at
          then (d, answered not_available_yet)
          else (let d' =
                if is_active initial.status then write_match (opened now) match_id d else d in
              let m = after_opening now initial in
              if not (is_awaiting m.status)
              then (d', answered invalid_state)
              else if leb m.expires_at now
              then (write_match (lapsed now) match_id d', answered Continuation.expired)
              else rolled_back d (consent d' m user now))
    ]
