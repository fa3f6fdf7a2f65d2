-- ===== src/Privacy/Export.antt =====
-- src/privacy/data-export.repository.ts: the snapshot of an account, section by section, and the file
-- that src/privacy/data-export.service.ts writes around it. The columns of a row that go into the file
-- are one value of JSON; the values that the service builds itself are parameters, functions of what
-- it puts into them.
pub mod Document
pub mod Sections
pub mod File
mod Tests
pub mod Service
use histae_api.Prelude.{
  String, is_set, ◌+◌, ℕ, Bool, true, false, not, ◌&&◌, ◌||◌, Option, none, some, List, [], ◌∷◌,
  ◌++◌, map, length, take, ltb, leb, order_by, select_where, find_where, ◌==◌, if◌then◌else◌,
}
use histae_api.Privacy.Writer.{
  ◌>>=◌, Token, Writer, Written, failed, done, empty, start_object, end_object, start_array,
  end_array, property, assert_complete,
}
use histae_api.Privacy.Pages.{
  Row, is_after, in_order, load, pages_from, pages_fuel, ◌>>=?◌, Counted, write_rows, write_counted,
  write_pages,
}

-- `(timestamp, id)`; for the traits `(name, id)`, the names by their order
pub record Key : Type 0 where
  pub at : ℕ
  pub id : ℕ

abbrev pub le_key : Key → Key → Bool
le_key a b = ltb a.at b.at || a.at == b.at && leb a.id b.id

-- `user_account`, `user_preferences`, `user_subscription`
pub record Entry : Type 0 where
  pub user_id : ℕ
  pub public_row : String

-- `user_photo`
pub record Photo : Type 0 where
  pub user_id : ℕ
  pub is_ready : Bool
  pub object_key : String

-- `match_init`
pub record Match : Type 0 where
  pub user1_id : ℕ
  pub user2_id : ℕ
  pub cursor : Key
  pub public_row : String

-- `swipe_decision`
pub record Swipe : Type 0 where
  pub actor_id : ℕ
  pub expires_at : ℕ
  pub cursor : Key
  pub public_row : String

-- The database as the transaction reads it. A row's `user_id` is the column that the statement
-- compares: the sender of a message, the reporter of a report, the blocker of a block.
pub record Database : Type 0 where
  pub transaction_timestamp : ℕ
  pub accounts : List Entry
  pub profiles : List Entry
  pub photos : List Photo
  pub preferences : List Entry
  pub subscriptions : List Entry
  -- `trait` joined with `user_trait`
  pub traits : List (Row Key)
  -- `user_profile_answer` joined with `profile_question`, by position
  pub answers : List (Row ℕ)
  -- `user_consent`, by event_sequence
  pub consents : List (Row ℕ)
  pub matches : List Match
  pub messages : List (Row Key)
  pub reports : List (Row Key)
  pub blocks : List (Row Key)
  pub invoices : List (Row Key)
  pub mobile_sessions : List (Row Key)
  pub swipes : List Swipe

-- `PostgresExportSnapshot`
pub record Snapshot : Type 0 where
  pub snapshot_at : ℕ
  pub account : Option String
  pub profile : Option String
  pub photo_key : Option String
  pub preferences : Option String
  pub subscription : Option String
  pub discovery_rows : ℕ

-- `rows[0] ?? null`
abbrev pub row_of : ℕ → List Entry → Option String
row_of user_id t = elim (find_where (λ r. r.user_id == user_id) t) [
  | none ↦ none
  | some r ↦ some r.public_row
]

abbrev pub photo_key_of : ℕ → Database → Option String
photo_key_of user_id d =
    if is_set (row_of user_id d.profiles)
    then elim (find_where (λ p. p.user_id == user_id && p.is_ready) d.photos) [
      | none ↦ none
      | some p ↦ some p.object_key
    ]
    else none

-- A match as its row for one of the two.
abbrev pub participation : ℕ → Match → Row Key
participation user_id m = record { user_id = user_id; cursor = m.cursor; public_row = m.public_row }

-- `participant_matches`, of which the page takes the first.
abbrev pub load_matches : ℕ → ℕ → List Match → Option Key → List (Row Key)
load_matches user_id page_size t c =
    let after : Match → Bool = λ m. is_after le_key c (participation user_id m) in
    take page_size (
      order_by (in_order le_key) (
        map (participation user_id) (select_where (λ m. m.user1_id == user_id && after m) t)
        ++ map (participation user_id) (select_where (λ m. m.user2_id == user_id && after m) t)))

abbrev pub swiped : Swipe → Row Key
swiped s = record { user_id = s.actor_id; cursor = s.cursor; public_row = s.public_row }

abbrev pub load_swipes : ℕ → ℕ → Database → Option Key → List (Row Key)
load_swipes user_id page_size d c = take page_size (
    order_by (in_order le_key) (
      map swiped (
        select_where
          (λ s.
            (s.actor_id == user_id && ltb d.transaction_timestamp s.expires_at)
            && is_after le_key c (swiped s))
          d.swipes)))

module _ (size : Token → ℕ) (max_bytes page_size : ℕ) (user_id : ℕ) where
  -- `writeProfileAnswers`
  pub write_profile_answers : List (Row ℕ) → Writer → Option (Written Writer)
  write_profile_answers t w = some (
      start_array size max_bytes "profile_answers" w
      >>= (λ w1.
          write_rows size max_bytes
            (order_by (in_order leb) (select_where (λ r. r.user_id == user_id) t)) w1)
      >>= end_array size max_bytes)

  -- The sections that are written page by page.
  pub write_table :
      {K : Type 0} → (K → K → Bool) → String → List (Row K) → Writer → Option (Written Writer)
  write_table le n t w =
      write_pages size max_bytes page_size (pages_fuel t) n (load le user_id page_size t) w

  -- `writeMatches`
  pub write_matches : List Match → Writer → Option (Written Writer)
  write_matches t w =
      write_pages size max_bytes page_size (1 + (length t + length t)) "matches"
        (load_matches user_id page_size t) w

  -- `writeDiscoveryActions`
  pub write_discovery_actions : Database → Writer → Option (Written Counted)
  write_discovery_actions d w =
      some (
        start_object size max_bytes (some "discovery_actions") w
        >>= start_array size max_bytes "outgoing")
      >>=? (λ w1.
          pages_from page_size (load_swipes user_id page_size d) (write_counted size max_bytes)
            (1 + length d.swipes) none (record { writer = w1; count = 0 }))
      >>=? (λ c. some (
          end_array size max_bytes c.writer >>= end_object size max_bytes >>= λ w2.
          done (record c { writer = w2 })))

  -- `writeSnapshot`: the writer, and what is returned
  unfoldable pub write_snapshot : Database → Writer → Option (Written (Writer × Snapshot))
  unfolding write_profile_answers
  write_snapshot d w =
      write_table le_key "traits" d.traits w
      >>=? write_profile_answers d.answers
      >>=? write_table leb "legal_choices" d.consents
      >>=? write_matches d.matches
      >>=? write_table le_key "authored_messages" d.messages
      >>=? write_table le_key "submitted_reports" d.reports
      >>=? write_table le_key "blocked_users" d.blocks
      >>=? write_table le_key "billing_invoices" d.invoices
      >>=? write_table le_key "mobile_sessions" d.mobile_sessions
      >>=? write_discovery_actions d
      >>=? (λ c. some (
          done (
            c.writer,
            record {
              snapshot_at = d.transaction_timestamp;
              account = row_of user_id d.accounts;
              profile = row_of user_id d.profiles;
              photo_key = photo_key_of user_id d;
              preferences = row_of user_id d.preferences;
              subscription = row_of user_id d.subscriptions;
              discovery_rows = c.count;
            },
          )))
