-- ===== src/Privacy/Export/Tests.antt =====
-- An export of an account with three messages, in pages of two.
use histae_api.Prelude.{
  ℕ, String, true, some, [], ◌∷◌, ◌≡◌, refl, arith, leb, ltb, not, ◌&&◌, ◌+◌, if◌then◌else◌,
  exists_where, select_where, find_where,
}
use histae_api.Privacy.Writer.{Token}
use histae_api.Privacy.Pages.{Row}
use histae_api.Privacy.Export.{Key, Database}
use histae_api.Privacy.Export.Document.{IsReadable}
use histae_api.Privacy.Export.File.{prepare_lem, export_bytes}
use histae_api.Privacy.Export.Service.{
  Outside, Dates, Calls, Process, prepare, rejected, streamed, data_export_busy,
  data_export_unavailable, data_export_too_large, url_for_key,
}

abbrev four_bytes : Token → ℕ
four_bytes t = 4

abbrev message : ℕ → ℕ → String → Row Key
message at_ id text = record {
  user_id = 1;
  cursor = record { at = at_; id = id };
  public_row = text;
}

abbrev database : Database
database = record {
  transaction_timestamp = 100;
  accounts = record { user_id = 1; public_row = "account" } ∷ [];
  profiles = record { user_id = 1; public_row = "profile" } ∷ [];
  photos = record { user_id = 1; is_ready = true; object_key = "key" } ∷ [];
  preferences = [];
  subscriptions = [];
  traits = [];
  answers = [];
  consents = [];
  matches = [];
  messages = message 5 2 "second" ∷ message 9 1 "third" ∷ message 5 1 "first" ∷ [];
  reports = [];
  blocks = [];
  invoices = [];
  mobile_sessions = [];
  swipes = [];
}

abbrev outside : Outside
outside = record {
  profile_with_photo = λ profile photo. profile;
  iso = λ t. "date";
  consistency = λ snapshot_at started_at completed_at rows. "consistency";
  is_profile_photo_key = λ key. true;
  signed_get_url = λ key. some "url";
}

abbrev dates : Dates
dates = record { discovery_started_at = 99; discovery_completed_at = 101; completed_at = 102 }

abbrev all_well : Calls
all_well = record { opened = true; closed = true; recorded = true }

abbrev idle : Process
idle = record { active_exports = 0; access_log = [] }

database-IsReadable : IsReadable 1 database
unfolding exists_where select_where
database-IsReadable = (tt, tt, tt, (refl, (refl, (refl, tt))), tt, tt, tt, tt, tt)

prepare_lem_example :
    prepare four_bytes 1000 2 3 outside 1 all_well dates database idle
    ≡ some (
        if leb 3 0
        then (idle, rejected data_export_busy)
        else if not true
        then (idle, rejected data_export_unavailable)
        else if ltb 1000 (export_bytes four_bytes outside dates 1 database (some "url"))
        then (idle, rejected data_export_too_large)
        else if not (true && true)
        then (idle, rejected data_export_unavailable)
        else (
          record { active_exports = 0 + 1; access_log = 1 ∷ [] },
          streamed (export_bytes four_bytes outside dates 1 database (some "url")),
        ))
unfolding url_for_key find_where
prepare_lem_example =
    prepare_lem four_bytes 1000 2 3 outside 1 all_well dates database idle (some "url")
      (ground arith) database-IsReadable refl
