-- ===== src/Photos/Tests.antt =====
-- An upload, its activation and its repetition.
use histae_api.Prelude.{
  true, some, [], ◌∷◌, ◌≡◌, refl, inl, In, one_of, exists_where, select_where, update_where,
  count_where, inr,
}
use histae_api.Photos.Models.{
  UserPhoto, PhotoMetadata, ready, processing, UploadRequest, RequestStatus, in_process, Tables,
  ProcessingPhoto, replay,
}
use histae_api.Photos.{activate, create_processing}
use histae_api.Photos.History.{IsSound}
use histae_api.Photos.Uploads.{activate_replays}

abbrev small : PhotoMetadata
small = record { size_bytes = 1000; width = 10; height = 10; sha256 = 7 }

abbrev first_upload : ProcessingPhoto
first_upload = record {
  id = 5;
  user_id = 1;
  object_key = "profile-photos/1/5.webp";
  idempotency_key = 3;
  request_sha256 = 9;
  created_at = 10;
  expires_at = 100;
}

abbrev nothing : Tables
nothing = record {
  active_profiles = 1 ∷ [];
  photos = [];
  requests = [];
  cases = [];
  deletions = [];
}

abbrev candidate : UserPhoto
candidate = record {
  id = 5;
  user_id = 1;
  object_key = "profile-photos/1/5.webp";
  status = processing;
  metadata = some small;
  updated_at = 11;
}

abbrev request : UploadRequest
request = record {
  user_id = 1;
  idempotency_key = 3;
  request_sha256 = 9;
  photo_id = some 5;
  status = in_process;
  expires_at = 100;
}

abbrev uploading : Tables
uploading = record {
  active_profiles = 1 ∷ [];
  photos = candidate ∷ [];
  requests = request ∷ [];
  cases = [];
  deletions = [];
}

uploading-IsSound : IsSound uploading
unfolding exists_where
uploading-IsSound = record {
  photos = record {
    ids = (refl, tt);
    one_shown = λ a b m n u. elim m [ inl e ↦ absurd cc | inr e ↦ absurd e ];
    one_upload = λ a b m n u v e. elim m [
      | inl x ↦ elim n [ inl y ↦ cc | inr y ↦ absurd y ]
      | inr x ↦ absurd x
    ];
    processed = λ p m e. elim m [ inl x ↦ absurd cc | inr x ↦ absurd x ];
  };
  keys = (refl, tt);
}

abbrev done_ : Tables
done_ = record {
  active_profiles = 1 ∷ [];
  photos = record candidate { status = ready; updated_at = 12 } ∷ [];
  requests = record request { status = RequestStatus.completed } ∷ [];
  cases = record { photo_id = 5; verdict = 4 } ∷ [];
  deletions = [];
}

activation : activate uploading 12 5 1 4 ≡ some (done_, true)
unfolding activate one_of exists_where select_where update_where count_where
activation = refl

activate_replays_example :
    (p : UserPhoto) × In p done_.photos
    × (p.id ≡ 5)
    × (p.status ≡ ready)
    × (create_processing done_ 20 first_upload ≡ some (done_, replay p (some 4)))
activate_replays_example =
    activate_replays uploading uploading-IsSound 12 5 1 4 done_ request first_upload 20 activation
      (inl refl) refl refl refl refl refl
