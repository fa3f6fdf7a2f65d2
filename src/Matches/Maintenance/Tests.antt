-- ===== src/Matches/Maintenance/Tests.antt =====
-- A batch of maintenance on small tables.
use histae_api.Prelude.{
  ℕ, In, length, ◌∷◌, [], ◌+◌, ◌≤◌, ◌≡◌, inl, inr, none, some, true, false, refl, ltb, delete_where,
  one_of, order_by, select_where, exists_where, update_where, find_where,
}
use histae_api.Matches.Models.{Match, Status}
use histae_api.Matches.Messages.{Message}
use histae_api.Matches.Maintenance.{
  Tables, Locks, MaintenanceResult, run_maintenance, run_maintenance_as_leader,
}
use histae_api.Matches.Maintenance.Deletion.{run_maintenance_deletes}
use histae_api.Matches.Maintenance.Totals.{run_maintenance_as_leader_lem}

abbrev over : Match
over = record {
  id = 1;
  user1_id = 10;
  user2_id = 20;
  status = Status.expired;
  expires_at = 0;
  purge_after = some 50;
  continuation_initiator_id = none;
  created_at = 0;
  last_message_at = none;
}

abbrev running : Match
running = record over { id = 2; status = Status.active; expires_at = 500; purge_after = none }

abbrev message : ℕ → Message
message n = record {
  id = n;
  match_id = 1;
  sender_id = 10;
  idempotency_key = none;
  content = 0;
  created_at = n;
  read_at = none;
}

abbrev tables : Tables
tables = record {
  matches = over ∷ running ∷ [];
  messages = message 1 ∷ message 2 ∷ [];
  reports = record { id = 1; match_id = some 1; created_at = 5 } ∷ [];
}

abbrev unlocked : Locks
unlocked = record {
  opening = λ _. false;
  expiring = λ _. false;
  deleting = λ _. false;
  detaching = λ _. false;
  purging = λ _. false;
}

-- With batches of one row, a message stays, and so does its match.
one_message_left : (run_maintenance unlocked 100 1 tables).0.messages ≡ message 2 ∷ []
unfolding run_maintenance delete_where one_of order_by select_where exists_where update_where
    find_where
one_message_left = refl

run_maintenance_deletes_example :
    (y : Match) × In y (run_maintenance unlocked 100 1 tables).0.matches × (y.id ≡ 1)
unfolding exists_where run_maintenance delete_where one_of order_by select_where update_where
    find_where
run_maintenance_deletes_example =
    run_maintenance_deletes unlocked 100 1 tables (refl, (refl, tt)) over (inl refl)
      (inr (inl (message 2, inl refl, refl)))

run_maintenance_as_leader_lem_example :
    (t' : Tables) × (r : MaintenanceResult) × (run_maintenance_as_leader true
        (λ _. unlocked)
        100
        1
        20
        tables
      ≡ (t', some r))
    × (length t'.matches + r.total.purged ≡ 2)
    × (length t'.messages + r.total.deleted_messages ≡ 2)
    × (length t'.reports ≡ 1)
    × (r.batches ≤ 20)
    × (ltb r.batches 20 ≡ true → r.work_remaining ≡ false)
run_maintenance_as_leader_lem_example =
    run_maintenance_as_leader_lem (λ _. unlocked) 100 1 20 tables
