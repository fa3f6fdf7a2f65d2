-- ===== src/Billing/Invoices/Ordering.antt =====
-- The webhooks of one invoice, in whatever order Stripe delivers them.
mod Tests
use histae_api.Prelude.{
  ℕ, Bool, true, false, Option, none, some, List, [], ◌∷◌, ◌==◌, ◌≡◌, refl, arith, All, In,
  find_where, update_where, find_where_rewritten, Bool-cases, inl, inr, ==_self, ap, sym,
  if◌then◌else◌,
}
use histae_api.Billing.Models.{Invoice, InvoiceProjection, Db, Result, ok, is_known, is_settled}
use histae_api.Billing.Latest.{
  is_up_to, Latest, deliver_all, deliver_all-Latest, Latest-newer, Latest-older,
}
use histae_api.Billing.Invoices.{
  is_invoice, settled, not_settled, recorded, rerecorded, is_invoice_superseded, record_invoice,
  upsert_invoice,
}

-- One webhook: the instant at which it is handled, and what it tells of the invoice.
pub record Delivery : Type 0 where
  pub handled_at : ℕ
  pub invoice : InvoiceProjection

abbrev pub deliver : ℕ → Delivery → Db → Result Db
deliver user x d = upsert_invoice x.handled_at user x.invoice d

-- The instant of the event, and its rank at that instant: open, then without a status, then settled.
abbrev pub rank : InvoiceProjection → ℕ
rank p = elim p.status [ none ↦ 1 | some s ↦ if is_settled s then 2 else 0 ]

abbrev pub key : Delivery → ℕ × ℕ
key x = (x.invoice.event_created_at, rank x.invoice)

-- The row holds what the delivery says: writing it once more would change nothing.
abbrev pub Shows : ℕ → Delivery → Invoice → Type 0
Shows user x i = rerecorded i.updated_at user x.invoice i ≡ i

-- The table shows the delivery in the row of the invoice.
abbrev pub IsShown : ℕ → ℕ → Delivery → Db → Type 0
IsShown user id x d =
    (is_known d user ≡ true)
    × ((i : Invoice) × (find_where (is_invoice id) d.invoices ≡ some i) × Shows user x i)

module _ (user : ℕ) (q x : Delivery) (i : Invoice)
    (event : i.provider_event_created_at ≡ some q.invoice.event_created_at)
    (status : i.status ≡ q.invoice.status) where
  superseded_key : is_invoice_superseded x.invoice i ≡ true → is_up_to (key q) (key x) ≡ true
  unfolding is_invoice_superseded
  superseded_key newer = ground arith

  kept_key : is_invoice_superseded x.invoice i ≡ false → is_up_to (key x) (key q) ≡ true
  unfolding is_invoice_superseded
  kept_key older = ground arith

-- One more webhook.
deliver-IsShown :
    (user id : ℕ) (q x : Delivery) (d : Db)
    → x.invoice.stripe_invoice_id ≡ id
    → IsShown user id q d
    → (d' : Db) × (deliver user x d ≡ ok d')
      × (r : Delivery) × Latest key (q ∷ x ∷ []) r
      × IsShown user id r d'
unfolding upsert_invoice record_invoice
deliver-IsShown user id q x d same (known, (i, found, shows)) =
    let event : i.provider_event_created_at ≡ some q.invoice.event_created_at =
      ap (λ r. r.provider_event_created_at) (sym shows) in
    let status : i.status ≡ q.invoice.status = ap (λ r. r.status) (sym shows) in
    let found' : find_where (is_invoice x.invoice.stripe_invoice_id) d.invoices ≡ some i =
      rw same found in
    elim (Bool-cases (is_invoice_superseded x.invoice i)) [
      | inl newer ↦ (
        record d {
          invoices =
              update_where (is_invoice x.invoice.stripe_invoice_id)
                (rerecorded x.handled_at user x.invoice) d.invoices;
        },
        rw (found', newer, known) refl,
        x,
        Latest-newer key q x (superseded_key user q x i event status newer),
        (
          known,
          (
            rerecorded x.handled_at user x.invoice i,
            rw (← same) (
                find_where_rewritten (is_invoice x.invoice.stripe_invoice_id)
                  (rerecorded x.handled_at user x.invoice) d.invoices i (λ r. refl) found'),
            refl,
          ),
        ),
      )
      | inr older ↦ (
        d,
        rw (found', older) refl,
        q,
        Latest-older key q x (kept_key user q x i event status older),
        (known, (i, found, shows)),
      )
    ]

-- The webhooks of one invoice may come in any order. However many of them are handled, all succeed,
-- and afterwards the row of the invoice holds what the latest of them says: no other has a later
-- instant, nor a higher rank at the same instant, where an open invoice ranks lowest and a settled
-- one highest. The account must exist, and the invoice have no row before.
pub invoice-Latest :
    (user id : ℕ) (d : Db) (x : Delivery) (xs : List Delivery)
    → is_known d user ≡ true
    → find_where (is_invoice id) d.invoices ≡ none
    → All (λ y. y.invoice.stripe_invoice_id ≡ id) (x ∷ xs)
    → (d' : Db) × (deliver_all (deliver user) (x ∷ xs) d ≡ ok d')
      × (q : Delivery) × Latest key (x ∷ xs) q
      × IsShown user id q d'
unfolding deliver_all upsert_invoice record_invoice find_where
invoice-Latest user id d x xs known fresh same =
    let row = recorded x.handled_at user x.invoice in
    let d1 = record d { invoices = row ∷ d.invoices } in
    let absent : find_where (is_invoice x.invoice.stripe_invoice_id) d.invoices ≡ none =
      rw same.0 fresh in
    let found : find_where (is_invoice id) d1.invoices ≡ some row = rw (same.0, ==_self id) refl in
    let (d2, e2, r, latest, shown) =
      deliver_all-Latest key (deliver user) (λ y. y.invoice.stripe_invoice_id ≡ id)
        (IsShown user id) (deliver-IsShown user id) x xs d1 same.1 (known, (row, found, refl)) in
    (d2, rw (absent, known) e2, r, latest, shown)
