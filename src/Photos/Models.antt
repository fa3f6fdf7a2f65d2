-- ===== src/Photos/Models.antt =====
-- src/photos/photos.repository.ts: its types, and the tables of db/schema_postgres.sql that it writes.
use histae_api.Prelude.{ℕ, String, Bool, true, false, ◌&&◌, Option, List, leb}

-- PHOTO_STATUSES
pub data PhotoStatus : Type 0 where
  pending processing ready deleting : PhotoStatus

abbrev pub is_in_progress : PhotoStatus → Bool
is_in_progress pending = true
is_in_progress processing = true
is_in_progress _ = false

abbrev pub is_processing : PhotoStatus → Bool
is_processing processing = true
is_processing _ = false

abbrev pub is_ready : PhotoStatus → Bool
is_ready ready = true
is_ready _ = false

abbrev pub is_deleting : PhotoStatus → Bool
is_deleting deleting = true
is_deleting _ = false

-- `PhotoMetadata`; the MIME type is always image/webp.
pub record PhotoMetadata : Type 0 where
  pub size_bytes : ℕ
  pub width : ℕ
  pub height : ℕ
  pub sha256 : ℕ

-- chk_user_photo_size, chk_user_photo_width, chk_user_photo_height
abbrev pub is_storable : PhotoMetadata → Bool
is_storable m =
    (leb 1 m.size_bytes && leb m.size_bytes 500000)
    && (leb 1 m.width && leb m.width 2048)
    && (leb 1 m.height && leb m.height 2048)

-- `user_photo`
pub record UserPhoto : Type 0 where
  pub id : ℕ
  pub user_id : ℕ
  pub object_key : String
  pub status : PhotoStatus
  pub metadata : Option PhotoMetadata
  pub updated_at : ℕ

pub data RequestStatus : Type 0 where
  in_process completed consumed : RequestStatus

abbrev pub is_in_process : RequestStatus → Bool
is_in_process in_process = true
is_in_process _ = false

abbrev pub is_completed : RequestStatus → Bool
is_completed completed = true
is_completed _ = false

-- `photo_upload_request`
pub record UploadRequest : Type 0 where
  pub user_id : ℕ
  pub idempotency_key : ℕ
  pub request_sha256 : ℕ
  pub photo_id : Option ℕ
  pub status : RequestStatus
  pub expires_at : ℕ

-- The case that `activate` opens: `AutomatedPhotoModeration` as one value.
pub record ModerationCase : Type 0 where
  pub photo_id : ℕ
  pub verdict : ℕ

-- The tables; `active_profiles` is `user_profile` joined with the accounts that are not deleted, and
-- `deletions` the aggregates of the events photo.delete.
pub record Tables : Type 0 where
  pub active_profiles : List ℕ
  pub photos : List UserPhoto
  pub requests : List UploadRequest
  pub cases : List ModerationCase
  pub deletions : List ℕ

-- `ProcessingPhoto`
pub record ProcessingPhoto : Type 0 where
  pub id : ℕ
  pub user_id : ℕ
  pub object_key : String
  pub idempotency_key : ℕ
  pub request_sha256 : ℕ
  pub created_at : ℕ
  pub expires_at : ℕ

-- `PhotoCreationResult`; a replay has the photo and its verdict, if there is a case.
pub data CreationResult : Type 0 where
  created profile_not_found update_in_progress : CreationResult
  idempotency_conflict idempotency_consumed : CreationResult
  replay : UserPhoto → Option ℕ → CreationResult
