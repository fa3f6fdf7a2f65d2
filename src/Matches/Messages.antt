-- ===== src/Matches/Messages.antt =====
-- src/matches/match-message.repository.ts: sending a message once, and marking messages as read. Each
-- method is one transaction; `none` is an id that is taken. `now` is the clock of the lock and
-- `clock` that of the statement after it. The calls of `enqueueNotification` are a log, in the order
-- made. Texts are numbers, compared for equality.
pub mod Idempotency
pub mod Reading
mod Tests
use histae_api.Prelude.{
  ℕ, is_null, holds, coalesce, ◌==◌, ◌&&◌, ◌||◌, ◌∷◌, none, some, true, false, Option, List, Bool,
  not, ltb, leb, if◌then◌else◌, find_where, update_where, exists_where, count_where,
}
use histae_api.Matches.Models.{
  Match, Db, AvailabilityFailure, CommandResult, ok, refused, is_orphaned,
}
use histae_api.Matches.Access.{write_match, lock_messaging_match}

-- `chat_message`
pub record Message : Type 0 where
  pub id : ℕ
  pub match_id : ℕ
  pub sender_id : ℕ
  pub idempotency_key : Option ℕ
  pub content : ℕ
  pub created_at : ℕ
  pub read_at : Option ℕ

-- The intent `new_message` of one call of `enqueueNotification`.
pub record Notification : Type 0 where
  pub recipient_id : ℕ
  pub match_id : ℕ
  pub message_id : ℕ
  pub sender_id : ℕ

pub record Chat : Type 0 where
  pub db : Db
  pub messages : List Message
  pub notifications : List Notification

-- `MessageCreation`
pub record MessageCreation : Type 0 where
  pub message : Message
  pub participant_ids : ℕ × ℕ
  pub created : Bool

-- `MessageCreationResult`
pub data CreationResult : Type 0 where
  sent : MessageCreation → CreationResult
  unavailable : AvailabilityFailure → CreationResult
  idempotency_conflict : CreationResult

-- `MessageRead`
pub record MessageRead : Type 0 where
  pub updated_count : ℕ
  pub participant_ids : ℕ × ℕ
  pub read_through_message_id : ℕ

abbrev has_key : ℕ → ℕ → Message → Bool
has_key sender key m = m.sender_id == sender && holds m.idempotency_key key

-- The match of the JOIN, if none of its accounts is deleted.
abbrev joined : Db → ℕ → Match → Bool
joined d id r = r.id == id && not (is_orphaned d.accounts r)

-- `findIdempotentMessage`
find_idempotent_message : Chat → ℕ → ℕ → Option (Message × (ℕ × ℕ))
find_idempotent_message c sender key =
    elim (find_where
      (λ (m : Message). has_key sender key m && exists_where (joined c.db m.match_id) c.db.matches)
      c.messages) [
        | none ↦ none
        | some m ↦ elim (find_where (joined c.db m.match_id) c.db.matches) [
          | none ↦ none
          | some r ↦ some (m, (r.user1_id, r.user2_id))
        ]
      ]

-- The answer to a key that is known.
replayed : Message × (ℕ × ℕ) → ℕ → ℕ → CreationResult
replayed (m, participants) match_id content =
    if not (m.match_id == match_id) || not (m.content == content)
    then idempotency_conflict
    else sent (record { message = m; participant_ids = participants; created = false })

new_message : ℕ → ℕ → ℕ → ℕ → ℕ → ℕ → Message
new_message clock id match_id sender content key = record {
  id = id;
  match_id = match_id;
  sender_id = sender;
  idempotency_key = some key;
  content = content;
  created_at = clock;
  read_at = none;
}

abbrev recipient : ℕ → Match → ℕ
recipient sender m = if m.user1_id == sender then m.user2_id else m.user1_id

-- `createMessage` once the match may be used.
insert_message : Chat → ℕ → ℕ → Match → ℕ → ℕ → ℕ → Option (Chat × CreationResult)
unfolding find_idempotent_message replayed new_message write_match
insert_message c clock id m sender content key =
    let message = new_message clock id m.id sender content key in
    if exists_where (has_key sender key) c.messages
    then (elim (find_idempotent_message c sender key) [
      | none ↦ some (c, idempotency_conflict)
      | some old ↦ some (c, replayed old m.id content)
    ])
    else if exists_where (λ (r : Message). r.id == id) c.messages
    then none
    else some (
      record {
        db = write_match (λ r. record r { last_message_at = some clock }) m.id c.db;
        messages = message ∷ c.messages;
        notifications =
            record {
              recipient_id = recipient sender m;
              match_id = m.id;
              message_id = id;
              sender_id = sender;
            }
            ∷ c.notifications;
      },
      sent (record {
        message = message;
        participant_ids = (m.user1_id, m.user2_id);
        created = true;
      }),
    )

pub create_message : Chat → ℕ → ℕ → ℕ → ℕ → ℕ → ℕ → ℕ → Option (Chat × CreationResult)
unfolding find_idempotent_message replayed insert_message
create_message c now clock id match_id sender content key =
    elim (find_idempotent_message c sender key) [
      | some old ↦ some (c, replayed old match_id content)
      | none ↦
          let (d, answer) = lock_messaging_match c.db match_id sender now in
          elim answer [
            | refused why ↦ some (record c { db = d }, unavailable why)
            | ok m ↦ insert_message (record c { db = d }) clock id m sender content key
          ]
    ]

-- `markMessageRead`
abbrev is_readable : ℕ → ℕ → ℕ → Message → Bool
is_readable id match_id user m = m.id == id && m.match_id == match_id && not (m.sender_id == user)

abbrev read_now : ℕ → Message → Message
read_now clock m = record m { read_at = some (coalesce m.read_at clock) }

mark_message_read : Chat → ℕ → ℕ → ℕ → ℕ → ℕ → Chat × CommandResult (Option MessageRead)
mark_message_read c now clock match_id id user =
    let (d, answer) = lock_messaging_match c.db match_id user now in
    elim answer [
      | refused why ↦ (record c { db = d }, refused why)
      | ok m ↦ (
        record c {
          db = d;
          messages = update_where (is_readable id match_id user) (read_now clock) c.messages;
        },
        ok (
            if count_where (is_readable id match_id user) c.messages == 1
            then some (record {
              updated_count = 1;
              participant_ids = (m.user1_id, m.user2_id);
              read_through_message_id = id;
            })
            else none),
      )
    ]

-- `(message.created_at, message.id) <= (boundary.created_at, boundary.id)`
abbrev up_to : Message → Message → Bool
up_to boundary m =
    ltb m.created_at boundary.created_at
    || m.created_at == boundary.created_at && leb m.id boundary.id

abbrev is_unread : ℕ → ℕ → Message → Message → Bool
is_unread match_id user boundary m =
    m.match_id == match_id && not (m.sender_id == user) && is_null m.read_at && up_to boundary m

abbrev read_at_last : ℕ → Message → Message
read_at_last clock m = record m { read_at = some clock }

-- `markMessagesReadThrough`
pub mark_messages_read_through :
    Chat → ℕ → ℕ → ℕ → ℕ → ℕ → Chat × CommandResult (Option MessageRead)
mark_messages_read_through c now clock match_id id user =
    let (d, answer) = lock_messaging_match c.db match_id user now in
    elim answer [
      | refused why ↦ (record c { db = d }, refused why)
      | ok m ↦
          elim (find_where (λ (b : Message). b.id == id && b.match_id == match_id) c.messages) [
            | none ↦ (record c { db = d }, ok none)
            | some boundary ↦ (
              record c {
                db = d;
                messages =
                    update_where (is_unread match_id user boundary) (read_at_last clock) c.messages;
              },
              ok (
                  some (record {
                    updated_count = count_where (is_unread match_id user boundary) c.messages;
                    participant_ids = (m.user1_id, m.user2_id);
                    read_through_message_id = id;
                  })),
            )
          ]
    ]
