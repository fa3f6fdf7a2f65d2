-- ===== src/Matches/Messages/Reading.antt =====
-- What reading through to a message writes.
use histae_api.Prelude.{
  ℕ, find_where, update_where, is_null, ◌&&◌, ◌==◌, ◌≡◌, some, List, Bool, not, ltb, ◌||◌, leb,
}
use histae_api.Matches.Models.{Match, Db, ok}
use histae_api.Matches.Access.{lock_messaging_match}
use histae_api.Matches.Messages.{Chat, Message, is_unread, read_at_last}

-- A message that waits for the reader: of the match, by the other participant, without a date of
-- reading, and not after the boundary in the order of the instants and, within one, of the ids.
abbrev pub waits : (match_id user : ℕ) → (boundary x : Message) → Bool
waits match_id user boundary x =
    x.match_id == match_id
    && not (x.sender_id == user)
    && is_null x.read_at
    && (ltb x.created_at boundary.created_at
        || x.created_at == boundary.created_at && leb x.id boundary.id)

module _ (c : Chat) (now clock match_id id user : ℕ) (d : Db) (m : Match) (boundary : Message)
    (usable : lock_messaging_match c.db match_id user now ≡ (d, ok m))
    (found : find_where (λ (b : Message). b.id == id && b.match_id == match_id) c.messages
      ≡ some boundary) where
  abbrev read : List Message
  read = update_where (is_unread match_id user boundary) (read_at_last clock) c.messages
