-- ===== src/Matches/Consent/Confirmation.antt =====
-- The consent that confirms a match.
use histae_api.Prelude.{
  ℕ, ◌+◌, ◌≡◌, arith, Bool, List, count_where, true, update_where, exists_where, false, find_where,
  subst, Distinct, some, ◌==◌, ◌&&◌, ◌∷◌, [], inl, inr, refl, Bool-cases, ◌<◌, same_id,
  count_where_pos, In, count_where_mono, count_where_id, In-update_where,
}
use histae_api.Matches.Models.{MatchState}
use histae_api.Matches.Consent.{
  state_of, Db, Match, is_confirmable, write_consent, confirm, answered, confirmed, is_awaiting,
  is_orphaned, settled,
}

-- PRIMARY KEY (match_id, user_id)
abbrev same_state : MatchState → MatchState → Bool
same_state a b = state_of a.match_id a.user_id b

abbrev pub continued_of : ℕ → MatchState → Bool
continued_of match_id s = s.match_id == match_id && s.continued

abbrev now_continued : MatchState → MatchState
now_continued s = record s { continued = true }

no_other_state :
    (match_id user : ℕ) (s : MatchState) (ss : List MatchState)
    → state_of match_id user s ≡ true
    → exists_where (same_state s) ss ≡ false
    → exists_where (state_of match_id user) ss ≡ false
no_other_state match_id user s ss hit alone =
    let same_match : s.match_id ≡ match_id = ground arith in
    let same_user : s.user_id ≡ user = ground arith in
    subst (λ x. exists_where (state_of x user) ss ≡ false) same_match
      (subst (λ y. exists_where (state_of s.match_id y) ss ≡ false) same_user alone)

-- Rows that no test meets are not updated.
untouched_count :
    (match_id user : ℕ) (ss : List MatchState)
    → exists_where (state_of match_id user) ss ≡ false
    → count_where (continued_of match_id) (update_where (state_of match_id user) now_continued ss)
      ≡ count_where (continued_of match_id) ss
unfolding count_where update_where exists_where
untouched_count match_id user [] h = refl
untouched_count match_id user (s ∷ ss) h = ground (arith, untouched_count match_id user ss)

-- The first `continued` of a participant adds one to the number of consents.
consent_count :
    (match_id user : ℕ) (s : MatchState) (ss : List MatchState)
    → Distinct same_state ss
    → find_where (state_of match_id user) ss ≡ some s
    → s.continued ≡ false
    → count_where (continued_of match_id) (update_where (state_of match_id user) now_continued ss)
      ≡ count_where (continued_of match_id) ss + 1
unfolding count_where update_where find_where
consent_count match_id user s [] d h new = ground arith
consent_count match_id user s (r ∷ ss) d h new = elim (Bool-cases (state_of match_id user r)) [
  | inl hit ↦
      let rest = untouched_count match_id user ss (no_other_state match_id user r ss hit d.0) in
      ground (arith, rest)
  | inr miss ↦ ground (arith, consent_count match_id user s ss d.1)
]

-- `m` is a match of the database whose continuation window is open at `now`, whose accounts live, to
-- which one participant has consented, and `s` is the row of `user`, who has not consented yet.
abbrev pub AwaitsSecond : Db → Match → ℕ → ℕ → MatchState → Type 0
AwaitsSecond d m user now s =
    Distinct (same_id Match.id) d.matches
    × Distinct same_state d.states
    × In m d.matches
    × (is_awaiting m.status ≡ true)
    × (now < m.expires_at)
    × (is_orphaned d.accounts m ≡ false)
    × (find_where (state_of m.id user) d.states ≡ some s)
    × (s.continued ≡ false)
    × (count_where (continued_of m.id) d.states ≡ 1)

module _ (d : Db) (m : Match) (user now : ℕ) (s : MatchState)
    (w : AwaitsSecond d m user now s) where
  abbrev new_states : List MatchState
  new_states = (write_consent m.id user d).states

  both : count_where (continued_of m.id) new_states ≡ 2
  unfolding write_consent
  both =
      let (_, states, _, _, _, _, row, new, one) = w in
      omega (arith, consent_count m.id user s d.states states row new)

  confirmable : is_confirmable m.id now new_states m ≡ true
  unfolding is_confirmable
  confirmable = let (_, _, _, waits, fresh, _, _, _, _) = w in ground (arith, both)

  confirmable_id : (r : Match) → is_confirmable m.id now new_states r ≡ true → (r.id == m.id) ≡ true
  unfolding is_confirmable
  confirmable_id r h = ground arith

  one_match : count_where (is_confirmable m.id now new_states) d.matches ≡ 1
  one_match =
      let (ids, _, here, _, _, _, _, _, _) = w in
      omega (
        arith,
        count_where_pos m (is_confirmable m.id now new_states) d.matches here confirmable,
        count_where_mono (is_confirmable m.id now new_states) (λ (r : Match). r.id == m.id)
            d.matches confirmable_id,
        count_where_id Match.id m.id d.matches ids,
      )

  pub confirm-confirmed :
      ((confirm d m user now).1 ≡ answered confirmed)
      × In (settled m) (confirm d m user now).0.matches
      × (count_where (continued_of m.id) (confirm d m user now).0.states ≡ 2)
  unfolding confirm write_consent
  confirm-confirmed =
      let (_, _, here, _, _, live, _, _, _) = w in
      let row =
        In-update_where m (is_confirmable m.id now new_states) settled d.matches here confirmable in
      rw live (rw one_match refl, row, both)
