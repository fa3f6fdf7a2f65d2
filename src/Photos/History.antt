-- ===== src/Photos/History.antt =====
-- Every transaction on the photos, as one transition system.
use histae_api.Prelude.{
  ℕ, Bool, Option, some, none, List, [], ◌∷◌, ◌≡◌, arith, Distinct, update_where,
  Distinct-update_where,
}
use histae_api.Photos.Models.{PhotoMetadata, UploadRequest, Tables, ProcessingPhoto}
use histae_api.Photos.{is_of_key, create_processing, record_processed, activate}
use histae_api.Photos.Removal.{
  begin_delete, begin_account_deletion, complete_deletion, discard_processing,
  purge_expired_upload_requests, claim_cleanup_batch,
}
use histae_api.Photos.Invariant.{AreSound}

pub data Op : Type 0 where
  creates : (clock : ℕ) → ProcessingPhoto → Op
  records : (clock id user_id : ℕ) → PhotoMetadata → Op
  activates : (clock id user_id verdict : ℕ) → Op
  deletes : (clock user_id : ℕ) → Op
  erases : (clock user_id limit : ℕ) → Op
  completes discards : (id user_id : ℕ) → Op
  purges : (before limit : ℕ) → Op
  cleans : List ℕ → (now stale_before retry_before limit : ℕ) → Op

-- A transaction that fails changes nothing.
abbrev pub after : {A : Type 0} → Tables → Option (Tables × A) → Tables
after d none = d
after d (some (d', answer)) = d'

pub perform : Tables → Op → Tables
perform d (creates clock n) = after d (create_processing d clock n)
perform d (records clock id user_id m) = after d (record_processed d clock id user_id m)
perform d (activates clock id user_id verdict) = after d (activate d clock id user_id verdict)
perform d (deletes clock user_id) = (begin_delete d clock user_id).0
perform d (erases clock user_id limit) = (begin_account_deletion d clock user_id limit).0
perform d (completes id user_id) = complete_deletion d id
perform d (discards id user_id) = discard_processing d id user_id
perform d (purges before limit) = (purge_expired_upload_requests d before limit).0
perform d (cleans locked now stale_before retry_before limit) =
    (claim_cleanup_batch d locked now stale_before retry_before limit).0

pub run : Tables → List Op → Tables
unfolding perform
run d [] = d
run d (op ∷ ops) = run (perform d op) ops

-- The primary key of photo_upload_request
abbrev pub same_key : UploadRequest → UploadRequest → Bool
same_key a b = is_of_key a.user_id a.idempotency_key b

pub record IsSound (d : Tables) : Type 0 where
  pub photos : AreSound d.photos
  pub keys : Distinct same_key d.requests

pub keys-updated :
    (p : UploadRequest → Bool) (f : UploadRequest → UploadRequest) (rs : List UploadRequest)
    → ((r : UploadRequest)
        → ((f r).user_id ≡ r.user_id) × ((f r).idempotency_key ≡ r.idempotency_key))
    → Distinct same_key rs
    → Distinct same_key (update_where p f rs)
keys-updated p f rs same h =
    Distinct-update_where same_key p f rs (λ a b. ground (arith, same b))
      (λ a b. ground (arith, same a)) h
