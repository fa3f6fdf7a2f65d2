-- ===== src/Privacy/Export/Service.antt =====
-- src/privacy/data-export.service.ts: the file of an export, and the answers of `prepare`.
use histae_api.Prelude.{
  ℕ, String, Bool, Option, none, some, List, ◌∷◌, leb, if◌then◌else◌, ◌+◌, ◌-◌,
}
use histae_api.Privacy.Writer.{
  ◌>>=◌, Token, Writer, Written, failed, done, empty, start_object, end_object, property,
  assert_complete, WriteError, too_large, storage_unavailable,
}
use histae_api.Privacy.Pages.{◌>>=?◌}
use histae_api.Privacy.Export.{Database, Snapshot, write_snapshot}

-- The texts that JSON.stringify gives for the objects that the service builds, and the object
-- storage: a signed URL, or none where the call throws.
pub record Outside : Type 0 where
  -- `{ ...profile, photo }`
  pub profile_with_photo : String → Option String → String
  -- `toISOString`
  pub iso : ℕ → String
  -- by snapshot_at, started_at, completed_at and rows
  pub consistency : ℕ → ℕ → ℕ → ℕ → String
  -- PROFILE_PHOTO_KEY_PATTERN
  pub is_profile_photo_key : String → Bool
  pub signed_get_url : String → Option String

-- The dates of one call of `prepare`.
pub record Dates : Type 0 where
  pub discovery_started_at : ℕ
  pub discovery_completed_at : ℕ
  pub completed_at : ℕ

abbrev pub or_null : Option String → String
or_null none = "null"
or_null (some v) = v

-- `PhotosService.urlForKey`: null, a URL, or a throw
unfoldable pub url_for_key : Outside → Option String → Written (Option String)
url_for_key o none = done none
url_for_key o (some key) =
    if o.is_profile_photo_key key
    then elim (o.signed_get_url key) [
      | none ↦ failed storage_unavailable
      | some url ↦ done (some url)
    ]
    else done none

abbrev pub profile_value : Outside → Option String → Option String → String
profile_value o none photo = "null"
profile_value o (some profile) photo = o.profile_with_photo profile photo

module _ (size : Token → ℕ) (max_bytes page_size : ℕ) (o : Outside) (user_id : ℕ) where
  -- What is written after the snapshot.
  unfoldable pub write_properties : Dates → Snapshot → Writer → Written Writer
  unfolding url_for_key
  write_properties at_ s w = url_for_key o s.photo_key >>= (λ photo.
      property size max_bytes "account" (some (or_null s.account)) w
      >>= property size max_bytes "profile" (some (profile_value o s.profile photo))
      >>= property size max_bytes "preferences" (some (or_null s.preferences))
      >>= property size max_bytes "subscription" (some (or_null s.subscription))
      >>= property size max_bytes "exported_at" (some (o.iso at_.completed_at))
      >>= property size max_bytes "consistency" (
          some (
            o.consistency s.snapshot_at at_.discovery_started_at at_.discovery_completed_at
              s.discovery_rows)))

  unfoldable pub write_export : Dates → Database → Option (Written Writer)
  unfolding write_properties write_snapshot
  write_export at_ d =
      some (start_object size max_bytes none empty)
      >>=? write_snapshot size max_bytes page_size user_id d
      >>=? (λ r.
          some (write_properties at_ r.1 r.0 >>= end_object size max_bytes >>= assert_complete))

pub data ExportError : Type 0 where
  data_export_busy data_export_too_large data_export_unavailable : ExportError

abbrev pub export_error : WriteError → ExportError
export_error too_large = data_export_too_large
export_error _ = data_export_unavailable

-- How the calls of a request that the model does not look into end: making the directory and the
-- file, closing the file, and recording the export.
pub record Calls : Type 0 where
  pub opened : Bool
  pub closed : Bool
  pub recorded : Bool

-- The process: `activeExports`, and the accounts in `data_access_log`.
pub record Process : Type 0 where
  pub active_exports : ℕ
  pub access_log : List ℕ

pub data Prepared : Type 0 where
  -- the length of the stream
  streamed : ℕ → Prepared
  rejected : ExportError → Prepared

unfoldable pub acquire_slot : ℕ → Process → Option Process
acquire_slot max_concurrency p =
    if leb max_concurrency p.active_exports
    then none
    else some (record p { active_exports = p.active_exports + 1 })

-- The closure that `acquireSlot` returns, where it has not been called yet.
unfoldable pub release_slot : Process → Process
release_slot p = record p { active_exports = p.active_exports - 1 }

-- The `catch` of `prepare`
unfoldable pub abandon : Process → ExportError → Process × Prepared
unfolding release_slot
abandon p e = (release_slot p, rejected e)

unfoldable pub finish_export : ℕ → Calls → Process → Written Writer → Process × Prepared
unfolding abandon
finish_export user_id c p (failed e) = abandon p (export_error e)
finish_export user_id c p (done w) =
    if c.closed
    then if c.recorded
      then (record p { access_log = user_id ∷ p.access_log }, streamed w.output.bytes)
      else abandon p data_export_unavailable
    else abandon p data_export_unavailable

unfoldable pub prepare_in :
    ℕ → Calls → Process → Option (Written Writer) → Option (Process × Prepared)
unfolding finish_export
prepare_in user_id c p none = none
prepare_in user_id c p (some m) = some (finish_export user_id c p m)

module _ (size : Token → ℕ) (max_bytes page_size max_concurrency : ℕ) (o : Outside) where
  -- `prepare` once it has a slot, or has none.
  unfoldable pub prepare_with :
      ℕ → Calls → Dates → Database → Process → Option Process → Option (Process × Prepared)
  unfolding prepare_in abandon write_export
  prepare_with user_id c at_ d p none = some (p, rejected data_export_busy)
  prepare_with user_id c at_ d p (some p') =
      if c.opened
      then prepare_in user_id c p' (write_export size max_bytes page_size o user_id at_ d)
      else some (abandon p' data_export_unavailable)

  unfoldable pub prepare : ℕ → Calls → Dates → Database → Process → Option (Process × Prepared)
  unfolding prepare_with
  prepare user_id c at_ d p = prepare_with user_id c at_ d p (acquire_slot max_concurrency p)
