-- ===== src/Matches/Messages/Tests.antt =====
-- Runs of the message commands on a small database.
use histae_api.Prelude.{
  ℕ, exists_where, find_where, ◌∷◌, [], ◌≡◌, ◌≢◌, none, some, true, false, refl, update_where,
}
use histae_api.Matches.Models.{Match, Account, Db, Status, is_orphaned}
use histae_api.Matches.Access.{lock_messaging_match}
use histae_api.Matches.Messages.{
  Chat, Message, MessageCreation, sent, idempotency_conflict, has_key, create_message,
}
use histae_api.Matches.Messages.Idempotency.{create_message_once}

abbrev conversation : Match
conversation = record {
  id = 1;
  user1_id = 10;
  user2_id = 20;
  status = Status.confirmed;
  expires_at = 500;
  purge_after = none;
  continuation_initiator_id = some 10;
  created_at = 0;
  last_message_at = none;
}

abbrev account : ℕ → Account
account user = record { user_id = user; deleted = false; is_banned = false }

abbrev db : Db
db = record {
  accounts = account 10 ∷ account 20 ∷ [];
  blocks = [];
  matches = conversation ∷ [];
  states = [];
  usage = [];
  subscriptions = [];
  plans = [];
}

abbrev chat : Chat
chat = record { db = db; messages = []; notifications = [] }

abbrev hello : Message
hello = record {
  id = 5;
  match_id = 1;
  sender_id = 10;
  idempotency_key = some 77;
  content = 1000;
  created_at = 601;
  read_at = none;
}

abbrev chat_after : Chat
chat_after = record {
  db = record db { matches = record conversation { last_message_at = some 601 } ∷ [] };
  messages = hello ∷ [];
  notifications = record { recipient_id = 20; match_id = 1; message_id = 5; sender_id = 10 } ∷ [];
}

abbrev creation : MessageCreation
creation = record { message = hello; participant_ids = (10, 20); created = true }

first_request : create_message chat 600 601 5 1 10 1000 77 ≡ some (chat_after, sent creation)
unfolding create_message find_where lock_messaging_match is_orphaned exists_where update_where
first_request = refl

create_message_once_example :
    (exists_where (has_key 10 77) [] ≡ false)
    × (chat_after.messages ≡ hello ∷ [])
    × ((later clock' id' : ℕ)
        → create_message chat_after later clock' id' 1 10 1000 77
          ≡ some (chat_after, sent (record creation { created = false })))
    × ((later clock' id' content' : ℕ)
        → content' ≢ 1000
        → create_message chat_after later clock' id' 1 10 content' 77
          ≡ some (chat_after, idempotency_conflict))
unfolding exists_where
create_message_once_example =
    create_message_once chat chat_after 600 601 5 1 10 1000 77 creation (refl, tt) first_request
      refl
