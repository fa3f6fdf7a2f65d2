-- ===== src/Matches/Messages/Idempotency.antt =====
-- A message is sent once per sender and idempotency key.
use histae_api.Matches.Messages.{
  Chat, Message, MessageCreation, sent, unavailable, has_key, joined, find_idempotent_message,
  replayed, new_message, insert_message, create_message, recipient, idempotency_conflict,
}
use histae_api.Prelude.{
  ℕ, In, Distinct, Distinct-update_where, same_id, ◌&&◌, leb, ◌∙◌, ◌==◌, ◌≡◌, inl, inr, false, refl,
  arith, sym, ap, subst, Bool-cases, ◌∷◌, some, true, Bool, Option-cases, In-update_where,
  In-unique, find_where, find_where-some, find_where_of_In, exists_where, exists_where_of_In,
  update_where, ◌≢◌,
}
use histae_api.Matches.Models.{Match, Db, ok, is_orphaned, is_active, CommandResult, refused}
use histae_api.Matches.Access.{write_match, lock_messaging_match, after_opening, opened}
use histae_api.Matches.Access.Lock.{advanced, advanced_row, lock_messaging_match_cases}

-- What the lock hands to `createMessage`: a row of the table it leaves, with living accounts.
module _ (d : Db) (match_id user now : ℕ) where
  advanced-Distinct :
      (m : Match)
      → Distinct (same_id (λ (r : Match). r.id)) d.matches
      → Distinct (same_id (λ (r : Match). r.id)) (advanced d match_id user now m).matches
  unfolding write_match
  advanced-Distinct m h = elim (Bool-cases (is_active m.status && leb m.expires_at now)) [
    | inl due ↦ rw due (
        Distinct-update_where (same_id (λ (r : Match). r.id)) (λ (r : Match). r.id == match_id)
          (opened now) d.matches (λ a b. refl) (λ a b. refl) h)
    | inr early ↦ rw early h
  ]

  advanced-accounts : (m : Match) → (advanced d match_id user now m).accounts ≡ d.accounts
  unfolding write_match
  advanced-accounts m = ground arith

  opening-keeps :
      (m : Match)
      → ((after_opening now m).id ≡ m.id)
        × ((after_opening now m).user1_id ≡ m.user1_id)
        × ((after_opening now m).user2_id ≡ m.user2_id)
  unfolding after_opening
  opening-keeps m = ground arith

  locked_row :
      (d' : Db) (m : Match)
      → Distinct (same_id (λ (r : Match). r.id)) d.matches
      → lock_messaging_match d match_id user now ≡ (d', ok m)
      → In m d'.matches
        × (m.id ≡ match_id)
        × (is_orphaned d'.accounts m ≡ false)
        × Distinct (same_id (λ (r : Match). r.id)) d'.matches
  unfolding is_orphaned
  locked_row d' m h e = elim (lock_messaging_match_cases d match_id user now) [
    | inl (_, eq) ↦ absurd (ground arith)
    | inr (m0, visible, inl (_, eq)) ↦ absurd (ground arith)
    | inr (m0, visible, inr (inl (_, _, eq))) ↦ absurd (ground arith)
    | inr (m0, visible, inr (inr (_, eq))) ↦
        let same_db : advanced d match_id user now m0 ≡ d' = ap (λ x. x.0) (sym eq ∙ e) in
        let same_row : after_opening now m0 ≡ m = ground arith in
        let (_, m0_id, _, alive) = visible in
        let (keeps_id, keeps1, keeps2) = opening-keeps m0 in
        let row = advanced_row d match_id user now m0 visible in
        (
          subst (λ x. In m x.matches) same_db
              (subst (λ x. In x (advanced d match_id user now m0).matches) same_row row),
          sym (ap (λ x. x.id) same_row) ∙ keeps_id ∙ m0_id,
          subst (λ x. is_orphaned x.accounts m ≡ false) same_db
              (subst (λ x. is_orphaned (advanced d match_id user now m0).accounts x ≡ false)
                same_row (rw (advanced-accounts m0, keeps1, keeps2) alive)),
          subst (λ x. Distinct (same_id (λ (r : Match). r.id)) x.matches) same_db
              (advanced-Distinct m0 h),
        )
  ]

-- What `createMessage` leaves when it inserts a message.
abbrev touched : ℕ → Match → Match
touched clock r = record r { last_message_at = some clock }

abbrev stored : Chat → ℕ → ℕ → Match → ℕ → ℕ → ℕ → Chat
stored c clock id m sender content key = record {
  db = write_match (touched clock) m.id c.db;
  messages = new_message clock id m.id sender content key ∷ c.messages;
  notifications =
      record {
        recipient_id = recipient sender m;
        match_id = m.id;
        message_id = id;
        sender_id = sender;
      }
      ∷ c.notifications;
}

abbrev creation : ℕ → ℕ → Match → ℕ → ℕ → ℕ → Bool → MessageCreation
creation clock id m sender content key created = record {
  message = new_message clock id m.id sender content key;
  participant_ids = (m.user1_id, m.user2_id);
  created = created;
}

replayed-old :
    (old : Message × (ℕ × ℕ)) (match_id content : ℕ) (p : MessageCreation)
    → replayed old match_id content ≡ sent p
    → p.created ≡ false
unfolding replayed
replayed-old (m, ps) match_id content p h = ground arith

insert_message-some :
    (c c' : Chat) (clock id sender content key : ℕ) (m : Match) (p : MessageCreation)
    → insert_message c clock id m sender content key ≡ some (c', sent p)
    → p.created ≡ true
    → (exists_where (has_key sender key) c.messages ≡ false)
      × (c' ≡ stored c clock id m sender content key)
      × (p ≡ creation clock id m sender content key true)
unfolding insert_message
insert_message-some c c' clock id sender content key m p h fresh =
    elim (Bool-cases (exists_where (has_key sender key) c.messages)) [
      | inr new ↦ elim (Bool-cases (exists_where (λ (r : Message). r.id == id) c.messages)) [
        | inl taken ↦ absurd (ground (arith, new, taken))
        | inr free ↦ (new, ground (arith, new, free), ground (arith, new, free))
      ]
      | inl known ↦ elim (Option-cases (find_idempotent_message c sender key)) [
        | inl lost ↦ absurd (ground (arith, known, lost))
        | inr (old, e) ↦
            let eq : replayed old m.id content ≡ sent p = ground (arith, known, e) in
            absurd (ground (arith, replayed-old old m.id content p eq))
      ]
    ]

create_message-some :
    (c c' : Chat) (now clock id match_id sender content key : ℕ) (p : MessageCreation)
    → create_message c now clock id match_id sender content key ≡ some (c', sent p)
    → p.created ≡ true
    → (d : Db) × (m : Match) × (lock_messaging_match c.db match_id sender now ≡ (d, ok m))
      × (insert_message (record c { db = d }) clock id m sender content key ≡ some (c', sent p))
unfolding create_message
create_message-some c c' now clock id match_id sender content key p h fresh =
    elim (Option-cases (find_idempotent_message c sender key)) [
      | inr (old, e) ↦
          let eq : replayed old match_id content ≡ sent p = ground (arith, e) in
          absurd (ground (arith, replayed-old old match_id content p eq))
      | inl new ↦
          go (lock_messaging_match c.db match_id sender now) refl (rw (new, create_message) at h)
    ]
  where
    go :
        (a : Db × CommandResult Match)
        → a ≡ lock_messaging_match c.db match_id sender now
        → elim a.1 [
          | refused why ↦ some (record c { db = a.0 }, unavailable why)
          | ok m ↦ insert_message (record c { db = a.0 }) clock id m sender content key
        ]
          ≡ some (c', sent p)
        → (d : Db) × (m : Match) × (lock_messaging_match c.db match_id sender now ≡ (d, ok m))
          × (insert_message (record c { db = d }) clock id m sender content key ≡ some (c', sent p))
    go (d, ok m) eq k = (d, m, sym eq, k)
    go (d, refused why) eq k = absurd (ground (arith, k))

-- The key finds the stored message, with the participants of its match.
stored-found :
    (c : Chat) (clock id sender content key : ℕ) (m : Match)
    → In m c.db.matches
    → is_orphaned c.db.accounts m ≡ false
    → Distinct (same_id (λ (r : Match). r.id)) c.db.matches
    → find_idempotent_message (stored c clock id m sender content key) sender key
      ≡ some (new_message clock id m.id sender content key, (m.user1_id, m.user2_id))
unfolding find_idempotent_message find_where new_message write_match is_orphaned
stored-found c clock id sender content key m here alive ids =
    let p = λ (r : Match). r.id == m.id in
    let rows = update_where p (touched clock) c.db.matches in
    let row = In-update_where m p (touched clock) c.db.matches here (ground arith) in
    let test = joined (write_match (touched clock) m.id c.db) m.id in
    let fits : test (touched clock m) ≡ true = ground (arith, alive) in
    let ids' =
      Distinct-update_where (same_id (λ (r : Match). r.id)) p (touched clock) c.db.matches
        (λ a b. refl) (λ a b. refl) ids in
    let (r, e) = find_where_of_In (touched clock m) test rows row fits in
    let (r_in, r_fits) = find_where-some test rows r e in
    let same =
      In-unique (λ (x : Match). x.id) r (touched clock m) rows ids' r_in row (ground arith) in
    let some_match = exists_where_of_In (touched clock m) test rows row fits in
    ground (arith, e, same, some_match)

replayed_cases :
    (clock id match_id sender content key : ℕ) (ps : ℕ × ℕ) (content' : ℕ)
    → (replayed (new_message clock id match_id sender content key, ps) match_id content
        ≡ sent (record {
          message = new_message clock id match_id sender content key;
          participant_ids = ps;
          created = false;
        }))
      × (content' ≢ content
          → replayed (new_message clock id match_id sender content key, ps) match_id content'
            ≡ idempotency_conflict)
unfolding replayed new_message
replayed_cases clock id match_id sender content key ps content' =
    (ground arith, λ other. ground arith)

-- A message is sent once. After a request that created a message, whose key was new, and on the
-- tables that it leaves, a request of the same sender with the same key, for the same match, writes
-- nothing and inserts nothing, at any later instant, even when the deadline of the match has
-- passed: with the same text it is answered with the same message, marked as not created, and with
-- another text it is refused as a conflict.
pub create_message_once :
    (c c' : Chat) (now clock id match_id sender content key : ℕ) (p : MessageCreation)
    → Distinct (same_id (λ (r : Match). r.id)) c.db.matches
    → create_message c now clock id match_id sender content key ≡ some (c', sent p)
    → p.created ≡ true
    → (exists_where (has_key sender key) c.messages ≡ false)
      × (c'.messages ≡ p.message ∷ c.messages)
      × ((later clock' id' : ℕ)
          → create_message c' later clock' id' match_id sender content key
            ≡ some (c', sent (record p { created = false })))
      × ((later clock' id' content' : ℕ)
          → content' ≢ content
          → create_message c' later clock' id' match_id sender content' key
            ≡ some (c', idempotency_conflict))
unfolding create_message
create_message_once c c' now clock id match_id sender content key p ids h fresh =
    let (d, m, locked_eq, inserted_eq) =
      create_message-some c c' now clock id match_id sender content key p h fresh in
    let (here, m_id, alive, ids') = locked_row c.db match_id sender now d m ids locked_eq in
    let (new, c_eq, p_eq) =
      insert_message-some (record c { db = d }) c' clock id sender content key m p inserted_eq
        fresh in
    let found : find_idempotent_message c' sender key
        ≡ some (new_message clock id m.id sender content key, (m.user1_id, m.user2_id)) =
      rw c_eq (stored-found (record c { db = d }) clock id sender content key m here alive ids') in
    let answers = λ (content' : ℕ).
      replayed_cases clock id m.id sender content key (m.user1_id, m.user2_id) content' in
    (
      new,
      rw (c_eq, p_eq) refl,
      λ later clock' id'.
          rw (found, create_message) (rw⁻¹ m_id (rw ((answers content).0, p_eq) refl)),
      λ later clock' id' content' other.
          rw (found, create_message) (rw⁻¹ m_id (rw ((answers content').1 other) refl)),
    )
