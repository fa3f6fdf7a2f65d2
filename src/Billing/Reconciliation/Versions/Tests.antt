-- ===== src/Billing/Reconciliation/Versions/Tests.antt =====
-- A reconciliation of one account while the subscription of another starts.
use histae_api.Prelude.{
  none, some, [], ◌∷◌, ◌≡◌, refl, false, find_where, exists_where, update_where, List,
}
use histae_api.Billing.Models.{Db, active}
use histae_api.Billing.Subscriptions.{upsert_subscription}
use histae_api.Billing.Versions.{row_of}
use histae_api.Billing.Reconciliation.{Snapshot, subscription_context, apply_subscription, applied}
use histae_api.Billing.Reconciliation.Versions.{Command, webhook, run_commands, applied_unchanged}
use histae_api.Billing.Fixtures.{db, projection}

abbrev snapshot : Snapshot
snapshot = record {
  context = record { user_id = 1; stripe_customer_id = 70; projection_version = none };
  projection = some (projection 1 active 300);
  snapshot_at = 300;
  next_due_at = 900;
  customer_deleted = false;
}

abbrev commands : List Command
commands = webhook 200 (record (projection 2 active 150) { stripe_subscription_id = 91 }) ∷ []

abbrev db_after : Db
unfolding run_commands apply_subscription upsert_subscription find_where exists_where update_where
db_after = (apply_subscription 301 snapshot (run_commands commands db)).0

context_read : subscription_context db 1 ≡ some snapshot.context
unfolding subscription_context find_where exists_where
context_read = refl

snapshot_applied :
    apply_subscription 301 snapshot (run_commands commands db)
    ≡ (db_after, applied none (some active))
unfolding run_commands apply_subscription upsert_subscription find_where exists_where update_where
snapshot_applied = refl

applied_unchanged_example :
    row_of 1 (run_commands commands db).subscriptions ≡ row_of 1 db.subscriptions
applied_unchanged_example =
    applied_unchanged 1 db snapshot commands 301 db_after none (some active) context_read
      snapshot_applied
