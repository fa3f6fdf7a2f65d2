-- ===== src/Photos.antt =====
-- src/photos/photos.repository.ts: each method as a function of the tables. `clock` is what
-- `clock_timestamp()` gives; none is an error, after which the transaction is rolled back.
pub mod Models
pub mod Removal
pub mod Invariant
pub mod History
pub mod Uploads
mod Tests
use histae_api.Prelude.{
  ℕ, String, Bool, true, false, not, ◌&&◌, ◌||◌, Option, none, some, List, [], ◌∷◌, map, ◌==◌, leb,
  ltb, if◌then◌else◌, holds, take, is_set, update_where, delete_where, select_where, find_where,
  exists_where, count_where, order_by, one_of,
}
use histae_api.Photos.Models.{
  PhotoStatus, is_in_progress, is_processing, is_ready, PhotoMetadata, is_storable, UserPhoto,
  is_in_process, is_completed, UploadRequest, ModerationCase, Tables, ProcessingPhoto,
  CreationResult, processing, ready, deleting, in_process, completed, created, profile_not_found,
  update_in_progress, idempotency_conflict, idempotency_consumed, replay,
}

abbrev pub lock_active_profile : Tables → ℕ → Bool
lock_active_profile d user_id = one_of d.active_profiles user_id

-- `enqueueDeletion`: ON CONFLICT DO NOTHING.
abbrev pub enqueue_deletion : ℕ → List ℕ → List ℕ
enqueue_deletion id ids = if one_of ids id then ids else id ∷ ids

abbrev pub enqueue_deletions : List UserPhoto → List ℕ → List ℕ
enqueue_deletions [] ids = ids
enqueue_deletions (p ∷ ps) ids = enqueue_deletions ps (enqueue_deletion p.id ids)

abbrev pub is_of_key : ℕ → ℕ → UploadRequest → Bool
is_of_key user_id key r = r.user_id == user_id && r.idempotency_key == key

abbrev pub is_id : ℕ → Option ℕ → Bool
is_id id none = false
is_id id (some p) = p == id

abbrev pub has_photo_id : ℕ → UploadRequest → Bool
has_photo_id id r = is_id id r.photo_id

abbrev pub case_verdict : Option ModerationCase → Option ℕ
case_verdict none = none
case_verdict (some c) = some c.verdict

abbrev pub verdict_of : ℕ → Tables → Option ℕ
verdict_of id d = case_verdict (find_where (λ c. c.photo_id == id) d.cases)

-- The photo of a request, by the join.
abbrev pub photo_of : UploadRequest → Tables → Option UserPhoto
photo_of r d = find_where (λ p. has_photo_id p.id r) d.photos

-- `creationResultForExistingRequest`, past the comparison of the hashes
pub replayed : ProcessingPhoto → UploadRequest → Tables → CreationResult
replayed n r d = if is_in_process r.status then update_in_progress else elim (photo_of r d) [
  | none ↦ idempotency_consumed
  | some p ↦
      if is_completed r.status && p.user_id == n.user_id && is_ready p.status
      then replay p (verdict_of p.id d)
      else idempotency_consumed
]

abbrev pub is_active_upload : ℕ → UserPhoto → Bool
is_active_upload user_id p = p.user_id == user_id && is_in_progress p.status

abbrev pub new_photo : ProcessingPhoto → ℕ → UserPhoto
new_photo n clock = record {
  id = n.id;
  user_id = n.user_id;
  object_key = n.object_key;
  status = processing;
  metadata = none;
  updated_at = clock;
}

abbrev pub new_request : ProcessingPhoto → UploadRequest
new_request n = record {
  user_id = n.user_id;
  idempotency_key = n.idempotency_key;
  request_sha256 = n.request_sha256;
  photo_id = some n.id;
  status = in_process;
  expires_at = n.expires_at;
}

-- The two INSERTs: the primary key of user_photo, the unique photo_id and the check of expires_at.
pub insert_upload : Tables → ℕ → ProcessingPhoto → Option (Tables × CreationResult)
insert_upload d clock n =
    if exists_where (λ p. p.id == n.id) d.photos
      || exists_where (has_photo_id n.id) d.requests
      || leb n.expires_at n.created_at
    then none
    else some (
      record d { photos = new_photo n clock ∷ d.photos; requests = new_request n ∷ d.requests },
      created,
    )

pub answer_request :
    Tables → ℕ → ProcessingPhoto → Option UploadRequest → Option (Tables × CreationResult)
unfolding replayed insert_upload
answer_request d clock n (some r) =
    some (d, if r.request_sha256 == n.request_sha256 then replayed n r d else idempotency_conflict)
answer_request d clock n none =
    if exists_where (is_active_upload n.user_id) d.photos
    then some (d, update_in_progress)
    else insert_upload d clock n

-- The request of the key, if it has expired.
abbrev pub is_expired : ProcessingPhoto → UploadRequest → Bool
is_expired n r = is_of_key n.user_id n.idempotency_key r && leb r.expires_at n.created_at

pub create_processing : Tables → ℕ → ProcessingPhoto → Option (Tables × CreationResult)
unfolding answer_request
create_processing d clock n =
    if not (lock_active_profile d n.user_id)
    then some (d, profile_not_found)
    else let d' = record d { requests = delete_where (is_expired n) d.requests } in
      answer_request d' clock n (find_where (is_of_key n.user_id n.idempotency_key) d'.requests)

abbrev pub is_candidate : ℕ → ℕ → UserPhoto → Bool
is_candidate id user_id p = p.id == id && p.user_id == user_id && is_processing p.status

abbrev pub with_metadata : PhotoMetadata → ℕ → UserPhoto → UserPhoto
with_metadata m clock p = record p { metadata = some m; updated_at = clock }

pub record_processed : Tables → (clock id user_id : ℕ) → PhotoMetadata → Option (Tables × Bool)
record_processed d clock id user_id m =
    if not (exists_where (is_candidate id user_id) d.photos)
    then some (d, false)
    else if not (is_storable m)
    then none
    else some (
      record d { photos = update_where (is_candidate id user_id) (with_metadata m clock) d.photos },
      true,
    )

abbrev pub with_status : PhotoStatus → ℕ → UserPhoto → UserPhoto
with_status s clock p = record p { status = s; updated_at = clock }

abbrev pub is_shown : ℕ → UserPhoto → Bool
is_shown user_id p = p.user_id == user_id && is_ready p.status

abbrev pub is_open_request : ℕ → ℕ → UploadRequest → Bool
is_open_request user_id id r = (r.user_id == user_id && has_photo_id id r) && is_in_process r.status

-- The statements of `activate` once the candidate is locked: the former photo, the new one.
abbrev pub retired : ℕ → ℕ → List UserPhoto → List UserPhoto
retired clock user_id ps = update_where (is_shown user_id) (with_status deleting clock) ps

abbrev pub activated : ℕ → ℕ → ℕ → List UserPhoto → List UserPhoto
activated clock id user_id ps =
    update_where (is_candidate id user_id) (with_status ready clock) (retired clock user_id ps)

pub activate : Tables → (clock id user_id verdict : ℕ) → Option (Tables × Bool)
activate d clock id user_id verdict =
    if not (lock_active_profile d user_id)
      || not (exists_where (λ p. is_candidate id user_id p && is_set p.metadata) d.photos)
    then some (d, false)
    else if not (count_where (is_candidate id user_id) (retired clock user_id d.photos) == 1)
        || exists_where (λ c. c.photo_id == id) d.cases
        || not (count_where (is_open_request user_id id) d.requests == 1)
    then none
    else some (
      record d {
        photos = activated clock id user_id d.photos;
        requests =
            update_where (is_open_request user_id id) (λ r. record r { status = completed })
              d.requests;
        cases = record { photo_id = id; verdict = verdict } ∷ d.cases;
        deletions = enqueue_deletions (select_where (is_shown user_id) d.photos) d.deletions;
      },
      true,
    )
