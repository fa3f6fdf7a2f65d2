-- ===== src/Billing/Customers/Receipts.antt =====
-- The statements on the customers leave the receipts of the webhooks alone.
use histae_api.Prelude.{Option, none, some, ◌≡◌, arith, ℕ, find_where, exists_where, not}
use histae_api.Billing.Models.{
  Db, Customer, ok, >>-eq-ok, >>=-eq-ok, throw_if, mapping_error, is_live,
}
use histae_api.Billing.Customers.{
  resolve_billing_user, mark_customer_deleted, resolve_mapped, resolve_unmapped, map_customer,
  require_active_billing_account,
}
use histae_api.Billing.Subscriptions.{is_customer_of}

map_customer-webhooks :
    (clock user customer : ℕ) (d : Db) (r : Db × ℕ) (o : Option Customer)
    → map_customer clock user customer d o ≡ ok r
    → r.0.webhooks ≡ d.webhooks
unfolding map_customer
map_customer-webhooks clock user customer d r none h = ground arith
map_customer-webhooks clock user customer d r (some i) h = ground arith

resolve_mapped-webhooks :
    (metadata : Option ℕ) (d : Db) (r : Db × Option ℕ) (mapped : ℕ)
    → resolve_mapped mapped metadata d ≡ ok r
    → r.0.webhooks ≡ d.webhooks
unfolding resolve_mapped require_active_billing_account
resolve_mapped-webhooks metadata d r mapped h = ground arith

resolve_unmapped-webhooks :
    (clock customer : ℕ) (metadata : Option ℕ) (d : Db) (r : Db × Option ℕ)
    → resolve_unmapped clock customer metadata d ≡ ok r
    → r.0.webhooks ≡ d.webhooks
unfolding resolve_unmapped require_active_billing_account
resolve_unmapped-webhooks clock customer none d r h = ground arith
resolve_unmapped-webhooks clock customer (some user) d r h =
    let h1 = >>-eq-ok (require_active_billing_account d user) h in
    let h2 = >>-eq-ok (throw_if (not (exists_where (is_live user) d.accounts)) mapping_error) h1 in
    let (saved, e, h3) =
      >>=-eq-ok (map_customer clock user customer d (find_where (is_customer_of user) d.customers))
        _ h2 in
    ground (
      arith,
      h3,
      map_customer-webhooks clock user customer d saved
          (find_where (is_customer_of user) d.customers) e,
    )

pub resolve-webhooks :
    (clock customer : ℕ) (metadata : Option ℕ) (d : Db) (r : Db × Option ℕ)
    → resolve_billing_user clock customer metadata d ≡ ok r
    → r.0.webhooks ≡ d.webhooks
unfolding resolve_billing_user
resolve-webhooks clock customer metadata d r h = ground (
  arith,
  resolve_unmapped-webhooks clock customer metadata d r,
  resolve_mapped-webhooks metadata d r,
)

pub mark_customer_deleted-webhooks :
    (clock customer event : ℕ) (d : Db) (r : Db × Option ℕ)
    → mark_customer_deleted clock customer event d ≡ ok r
    → r.0.webhooks ≡ d.webhooks
unfolding mark_customer_deleted
mark_customer_deleted-webhooks clock customer event d r h = ground arith
