-- ===== src/Matches/Maintenance.antt =====
-- src/matches/match-maintenance.repository.ts: one batch of maintenance, a transaction of five
-- statements, and the loop of the process that holds the advisory lock. `locked` tells the rows that
-- FOR UPDATE SKIP LOCKED passes over, by table.
pub mod Deletion
pub mod Totals
mod Tests
use histae_api.Prelude.{
  ℕ, holds, coalesce, at_or_before, take, order_by, zero, suc, max, ◌==◌, ◌&&◌, ◌||◌, ◌+◌, none,
  some, true, false, Option, List, Bool, not, ltb, leb, if◌then◌else◌, find_where, update_where,
  delete_where, exists_where, map, one_of, select_where, count_where,
}
use histae_api.Matches.Models.{Match, Status, is_active, is_awaiting}
use histae_api.Matches.Access.{opened, lapsed}
use histae_api.Matches.Messages.{Message}

-- `user_report`, as far as the maintenance reads it.
pub record Report : Type 0 where
  pub id : ℕ
  pub match_id : Option ℕ
  pub created_at : ℕ

pub record Tables : Type 0 where
  pub matches : List Match
  pub messages : List Message
  pub reports : List Report

-- Which rows another transaction holds at the five statements.
pub record Locks : Type 0 where
  pub opening : ℕ → Bool
  pub expiring : ℕ → Bool
  pub deleting : ℕ → Bool
  pub detaching : ℕ → Bool
  pub purging : ℕ → Bool

-- `MaintenanceBatchResult`
pub record BatchResult : Type 0 where
  pub opened : ℕ
  pub expired : ℕ
  pub deleted_messages : ℕ
  pub detached_reports : ℕ
  pub purged : ℕ

-- `MaintenanceResult`
pub record MaintenanceResult : Type 0 where
  pub total : BatchResult
  pub batches : ℕ
  pub work_remaining : Bool

-- ORDER BY expires_at, id
by_expiry : Match → Match → Bool
by_expiry a b = ltb a.expires_at b.expires_at || a.expires_at == b.expires_at && leb a.id b.id

due_ids : (Status → Bool) → (ℕ → Bool) → ℕ → ℕ → List Match → List ℕ
unfolding by_expiry
due_ids status locked now size t =
    map (λ (m : Match). m.id)
      (take size (
        order_by by_expiry (
          select_where (λ (m : Match). status m.status && leb m.expires_at now && not (locked m.id))
            t)))

open_due : (ℕ → Bool) → ℕ → ℕ → List Match → List Match × ℕ
unfolding due_ids
open_due locked now size t =
    let ids = due_ids is_active locked now size t in
    (
      update_where (λ (m : Match). one_of ids m.id) (opened now) t,
      count_where (λ (m : Match). one_of ids m.id) t,
    )

expire_due : (ℕ → Bool) → ℕ → ℕ → List Match → List Match × ℕ
unfolding due_ids
expire_due locked now size t =
    let ids = due_ids is_awaiting locked now size t in
    (
      update_where (λ (m : Match). one_of ids m.id) (lapsed now) t,
      count_where (λ (m : Match). one_of ids m.id) t,
    )

-- `status IN ('expired', 'ended')`
abbrev is_closed : Status → Bool
is_closed Status.expired = true
is_closed Status.ended = true
is_closed _ = false

-- `match_record.status IN ('expired', 'ended') AND match_record.purge_after <= $1`
abbrev is_purgeable : ℕ → Match → Bool
is_purgeable now m = is_closed m.status && at_or_before m.purge_after now

-- The purge date of the match of a row, the first column of ORDER BY.
purge_date : List Match → ℕ → ℕ
purge_date matches id = elim (find_where (λ (m : Match). m.id == id) matches) [
  | none ↦ 0
  | some m ↦ coalesce m.purge_after 0
]

-- ORDER BY purge_after, match id, created_at, id
abbrev Rank : Type 0
Rank = ℕ × ℕ × ℕ × ℕ

rank_le : Rank → Rank → Bool
rank_le (a, b, c, d) (e, f, g, h) =
    ltb a e || a == e && (ltb b f || b == f && (ltb c g || c == g && leb d h))

abbrev message_rank : List Match → Message → Rank
message_rank matches m = (purge_date matches m.match_id, m.match_id, m.created_at, m.id)

abbrev report_rank : List Match → Report → Rank
report_rank matches r =
    (purge_date matches (coalesce r.match_id 0), coalesce r.match_id 0, r.created_at, r.id)

abbrev of_purgeable : ℕ → List Match → ℕ → Bool
of_purgeable now matches id = exists_where (λ (m : Match). m.id == id && is_purgeable now m) matches

message_ids : (ℕ → Bool) → ℕ → ℕ → Tables → List ℕ
unfolding purge_date rank_le
message_ids locked now size t =
    map (λ (m : Message). m.id)
      (take size (
        order_by (λ a b. rank_le (message_rank t.matches a) (message_rank t.matches b))
          (select_where
            (λ (m : Message). of_purgeable now t.matches m.match_id && not (locked m.id))
            t.messages)))

delete_messages : (ℕ → Bool) → ℕ → ℕ → Tables → List Message × ℕ
unfolding message_ids
delete_messages locked now size t =
    let ids = message_ids locked now size t in
    (
      delete_where (λ (m : Message). one_of ids m.id) t.messages,
      count_where (λ (m : Message). one_of ids m.id) t.messages,
    )

abbrev reports_purgeable : ℕ → List Match → Report → Bool
reports_purgeable now matches r = elim r.match_id [
  | none ↦ false
  | some id ↦ of_purgeable now matches id
]

report_ids : (ℕ → Bool) → ℕ → ℕ → Tables → List ℕ
unfolding purge_date rank_le
report_ids locked now size t =
    map (λ (r : Report). r.id)
      (take size (
        order_by (λ a b. rank_le (report_rank t.matches a) (report_rank t.matches b))
          (select_where (λ (r : Report). reports_purgeable now t.matches r && not (locked r.id))
            t.reports)))

detach_reports : (ℕ → Bool) → ℕ → ℕ → Tables → List Report × ℕ
unfolding report_ids
detach_reports locked now size t =
    let ids = report_ids locked now size t in
    (
      update_where (λ (r : Report). one_of ids r.id) (λ r. record r { match_id = none }) t.reports,
      count_where (λ (r : Report). one_of ids r.id) t.reports,
    )

-- NOT EXISTS over the messages and the reports.
abbrev is_bare : Tables → Match → Bool
is_bare t m =
    not (exists_where (λ (g : Message). g.match_id == m.id) t.messages)
    && not (exists_where (λ (r : Report). holds r.match_id m.id) t.reports)

by_purge : Match → Match → Bool
by_purge a b =
    ltb (coalesce a.purge_after 0) (coalesce b.purge_after 0)
    || coalesce a.purge_after 0 == coalesce b.purge_after 0 && leb a.id b.id

unfoldable pub purge_ids : (ℕ → Bool) → ℕ → ℕ → Tables → List ℕ
unfolding by_purge
purge_ids locked now size t =
    map (λ (m : Match). m.id)
      (take size (
        order_by by_purge (
          select_where (λ (m : Match). is_purgeable now m && is_bare t m && not (locked m.id))
            t.matches)))

purge_matches : (ℕ → Bool) → ℕ → ℕ → Tables → List Match × ℕ
unfolding purge_ids
purge_matches locked now size t =
    let ids = purge_ids locked now size t in
    (
      delete_where (λ (m : Match). one_of ids m.id) t.matches,
      count_where (λ (m : Match). one_of ids m.id) t.matches,
    )

-- `runMaintenance`
pub run_maintenance : Locks → ℕ → ℕ → Tables → Tables × BatchResult
unfolding open_due expire_due delete_messages detach_reports purge_matches
run_maintenance locks now size t =
    let (matches, opened) = open_due locks.opening now size t.matches in
    let (matches', expired) = expire_due locks.expiring now size matches in
    let t1 = record t { matches = matches' } in
    let (messages, deleted) = delete_messages locks.deleting now size t1 in
    let (reports, detached) = detach_reports locks.detaching now size t1 in
    let t2 = record t1 { messages = messages; reports = reports } in
    let (rest, purged) = purge_matches locks.purging now size t2 in
    (
      record t2 { matches = rest },
      record {
        opened = opened;
        expired = expired;
        deleted_messages = deleted;
        detached_reports = detached;
        purged = purged;
      },
    )

-- `batchIsFull`
batch_is_full : BatchResult → ℕ → Bool
batch_is_full r size =
    leb size
      (max r.opened (max r.expired (max r.deleted_messages (max r.detached_reports r.purged))))

-- `merge`
merge : BatchResult → BatchResult → BatchResult
merge total batch = record {
  opened = total.opened + batch.opened;
  expired = total.expired + batch.expired;
  deleted_messages = total.deleted_messages + batch.deleted_messages;
  detached_reports = total.detached_reports + batch.detached_reports;
  purged = total.purged + batch.purged;
}

abbrev nothing_done : BatchResult
nothing_done = record {
  opened = 0;
  expired = 0;
  deleted_messages = 0;
  detached_reports = 0;
  purged = 0;
}

-- The loop of `runMaintenanceAsLeader`; `rounds` is maxBatches - batch. The transactions of
-- others come between two batches, so the locks are those of the batch.
maintain : ℕ → (ℕ → Locks) → ℕ → ℕ → Tables → MaintenanceResult → Tables × MaintenanceResult
unfolding run_maintenance batch_is_full merge
maintain zero locks now size t totals = (t, totals)
maintain (suc rounds) locks now size t totals =
    let (t', batch) = run_maintenance (locks totals.batches) now size t in
    let totals' : MaintenanceResult = record {
      total = merge totals.total batch;
      batches = totals.batches + 1;
      work_remaining = batch_is_full batch size;
    } in
    let rest = maintain rounds locks now size t' totals' in
    if totals'.work_remaining then rest else (t', totals')

-- `runMaintenanceAsLeader`: nothing is done unless the advisory lock was acquired.
pub run_maintenance_as_leader :
    Bool → (ℕ → Locks) → ℕ → ℕ → ℕ → Tables → Tables × Option MaintenanceResult
unfolding maintain
run_maintenance_as_leader acquired locks now size max_batches t =
    let (t', totals) =
      maintain max_batches locks now size t
        (record { total = nothing_done; batches = 0; work_remaining = false }) in
    if acquired then (t', some totals) else (t, none)
