-- ===== src/Photos/Removal.antt =====
-- The methods of src/photos/photos.repository.ts that take photos and requests away.
use histae_api.Prelude.{
  ℕ, Bool, true, false, not, ◌&&◌, ◌||◌, Option, none, List, [], ◌∷◌, map, ◌==◌, leb, ltb,
  if◌then◌else◌, take, update_where, delete_where, select_where, find_where, exists_where,
  count_where, order_by, one_of,
}
use histae_api.Photos.Models.{
  is_in_progress, is_deleting, UserPhoto, UploadRequest, Tables, deleting, consumed,
}
use histae_api.Photos.{
  lock_active_profile, enqueue_deletion, is_of_key, has_photo_id, is_active_upload, with_status,
  is_shown, is_open_request, retired,
}

-- `rows[0]?.id`
abbrev pub enqueue_first : List UserPhoto → List ℕ → List ℕ
enqueue_first [] ids = ids
enqueue_first (p ∷ ps) ids = enqueue_deletion p.id ids

unfoldable pub begin_delete : Tables → (clock user_id : ℕ) → Tables × Bool
begin_delete d clock user_id = if not (lock_active_profile d user_id) then (d, false) else (
  record d {
    photos = retired clock user_id d.photos;
    deletions = enqueue_first (select_where (is_shown user_id) d.photos) d.deletions;
  },
  true,
)

abbrev pub by_id : UserPhoto → UserPhoto → Bool
by_id a b = leb a.id b.id

unfoldable pub begin_account_deletion : Tables → (clock user_id limit : ℕ) → Tables × List UserPhoto
begin_account_deletion d clock user_id limit =
    let ids =
      map (λ p. p.id)
        (take limit (order_by by_id (select_where (λ p. p.user_id == user_id) d.photos))) in
    (
      record d {
        photos = update_where (λ p. one_of ids p.id) (with_status deleting clock) d.photos;
      },
      map (with_status deleting clock) (select_where (λ p. one_of ids p.id) d.photos),
    )

-- ON DELETE SET NULL
abbrev pub detached : UploadRequest → UploadRequest
detached r = record r { photo_id = none }

-- The DELETE of a photo, with its case: ON DELETE CASCADE.
abbrev pub delete_photo : (UserPhoto → Bool) → ℕ → Tables → Tables
delete_photo gone id d = record d {
  photos = delete_where gone d.photos;
  cases =
      if exists_where gone d.photos then delete_where (λ c. c.photo_id == id) d.cases else d.cases;
}

unfoldable pub complete_deletion : Tables → ℕ → Tables
complete_deletion d id =
    delete_photo (λ p. p.id == id && is_deleting p.status) id
      (record d {
        requests =
            update_where (has_photo_id id) (λ r. record r { status = consumed; photo_id = none })
              d.requests;
      })

unfoldable pub discard_processing : Tables → (id user_id : ℕ) → Tables
discard_processing d id user_id =
    let gone = λ (p : UserPhoto). p.id == id && is_active_upload user_id p in
    let kept = delete_where (is_open_request user_id id) d.requests in
    delete_photo gone id (record d {
      requests =
          if exists_where gone d.photos then update_where (has_photo_id id) detached kept else kept;
    })

pub find_deleting : Tables → ℕ → Option UserPhoto
find_deleting d id = find_where (λ p. p.id == id && is_deleting p.status) d.photos

-- expires_at, user_id, idempotency_key
abbrev pub by_expiry : UploadRequest → UploadRequest → Bool
by_expiry a b =
    ltb a.expires_at b.expires_at
    || a.expires_at == b.expires_at
      && (ltb a.user_id b.user_id
          || a.user_id == b.user_id && leb a.idempotency_key b.idempotency_key)

abbrev pub is_one_of_requests : List UploadRequest → UploadRequest → Bool
is_one_of_requests rs r = exists_where (is_of_key r.user_id r.idempotency_key) rs

unfoldable pub purge_expired_upload_requests : Tables → (before limit : ℕ) → Tables × ℕ
purge_expired_upload_requests d before limit =
    let due =
      take limit (order_by by_expiry (select_where (λ r. leb r.expires_at before) d.requests)) in
    (
      record d { requests = delete_where (is_one_of_requests due) d.requests },
      count_where (is_one_of_requests due) d.requests,
    )

-- updated_at, id
abbrev pub by_update : UserPhoto → UserPhoto → Bool
by_update a b = ltb a.updated_at b.updated_at || a.updated_at == b.updated_at && leb a.id b.id

abbrev pub is_stale : ℕ → ℕ → UserPhoto → Bool
is_stale stale_before retry_before p =
    is_in_progress p.status && leb p.updated_at stale_before
    || is_deleting p.status && leb p.updated_at retry_before

-- `locked` are the rows that another transaction holds.
unfoldable pub claim_cleanup_batch :
    Tables → List ℕ → (now stale_before retry_before limit : ℕ) → Tables × List UserPhoto
claim_cleanup_batch d locked now stale_before retry_before limit =
    let ids =
      map (λ p. p.id)
        (take limit (
          order_by by_update (
            select_where (λ p. is_stale stale_before retry_before p && not (one_of locked p.id))
              d.photos))) in
    (
      record d { photos = update_where (λ p. one_of ids p.id) (with_status deleting now) d.photos },
      map (with_status deleting now) (select_where (λ p. one_of ids p.id) d.photos),
    )
