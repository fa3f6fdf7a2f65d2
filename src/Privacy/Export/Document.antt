-- ===== src/Privacy/Export/Document.antt =====
-- The document that an export writes: the sections of the snapshot and the properties of the service.
use histae_api.Prelude.{
  Bool-cases, inl, inr, ==_iff, ℕ, String, Bool, true, false, ◌&&◌, Option, List, [], ◌∷◌, ◌++◌,
  map, length, ltb, leb, select_where, ◌==◌, ◌≡◌, refl, arith, Distinct, same_place,
}
use histae_api.Privacy.Writer.Documents.{
  Fields, nil, member, object_member, array_member, Items, end, element,
}
use histae_api.Privacy.Pages.{Row, is_after, in_order, load}
use histae_api.Privacy.Pages.Complete.{owned}
use histae_api.Privacy.Export.{
  Key, le_key, Match, Swipe, Database, row_of, participation, load_matches, swiped, load_swipes,
}
use histae_api.Privacy.Export.Service.{Outside, Dates, or_null, profile_value}

abbrev pub items_of : {K : Type 0} → List (Row K) → Items
items_of [] = end
items_of (r ∷ rs) = element r.public_row (items_of rs)

-- The matches of an account, and the decisions of all accounts that have not expired, as rows.
abbrev pub participations : ℕ → List Match → List (Row Key)
participations user_id t =
    map (participation user_id) (select_where (λ m. m.user1_id == user_id) t)
    ++ map (participation user_id) (select_where (λ m. m.user2_id == user_id) t)

abbrev pub live_swipes : Database → List (Row Key)
live_swipes d = map swiped (select_where (λ s. ltb d.transaction_timestamp s.expires_at) d.swipes)

-- Of two rows of an account in one table the cursors differ.
abbrev pub HasCursors : {K : Type 0} → (K → K → Bool) → ℕ → List (Row K) → Type 0
HasCursors le user_id t =
    Distinct (same_place (in_order le)) (select_where (λ r. r.user_id == user_id) t)

abbrev pub IsReadable : ℕ → Database → Type 0
IsReadable u d =
    HasCursors le_key u d.traits
    × HasCursors leb u d.consents
    × HasCursors le_key u (participations u d.matches)
    × HasCursors le_key u d.messages
    × HasCursors le_key u d.reports
    × HasCursors le_key u d.blocks
    × HasCursors le_key u d.invoices
    × HasCursors le_key u d.mobile_sessions
    × HasCursors le_key u (live_swipes d)

-- The document of an account.
abbrev pub export_document : Outside → Dates → ℕ → Database → Option String → Fields
export_document o at_ u d photo = array_member "traits" (items_of (owned le_key u d.traits)) (
    array_member "profile_answers" (items_of (owned leb u d.answers)) (
      array_member "legal_choices" (items_of (owned leb u d.consents)) (
        array_member "matches" (items_of (owned le_key u (participations u d.matches))) (
          array_member "authored_messages" (items_of (owned le_key u d.messages)) (
            array_member "submitted_reports" (items_of (owned le_key u d.reports)) (
              array_member "blocked_users" (items_of (owned le_key u d.blocks)) (
                array_member "billing_invoices" (items_of (owned le_key u d.invoices)) (
                  array_member "mobile_sessions" (items_of (owned le_key u d.mobile_sessions)) (
                    object_member "discovery_actions"
                      (array_member "outgoing" (items_of (owned le_key u (live_swipes d))) nil)
                      (member "account" (or_null (row_of u d.accounts)) (
                        member "profile" (profile_value o (row_of u d.profiles) photo) (
                          member "preferences" (or_null (row_of u d.preferences)) (
                            member "subscription" (or_null (row_of u d.subscriptions)) (
                              member "exported_at" (o.iso at_.completed_at) (
                                member "consistency"
                                  (o.consistency d.transaction_timestamp at_.discovery_started_at
                                    at_.discovery_completed_at
                                    (length (owned le_key u (live_swipes d))))
                                  nil)))))))))))))))

pub le_key_total : (a b : Key) → le_key a b ≡ false → le_key b a ≡ true
le_key_total a b h = ground arith

pub le_key_trans : (a b c : Key) → le_key a b ≡ true → le_key b c ≡ true → le_key a c ≡ true
le_key_trans a b c h k = ground arith

pub leb_total : (a b : ℕ) → leb a b ≡ false → leb b a ≡ true
leb_total a b h = ground arith

pub leb_trans : (a b c : ℕ) → leb a b ≡ true → leb b c ≡ true → leb a c ≡ true
leb_trans a b c h k = ground arith

module _ {A : Type 0} (u : ℕ) (c : Option Key) (row : A → Row Key) where
  -- The condition on the cursor, before and after the rows are made.
  select_where-rows :
      (p : A → Bool) (t : List A)
      → ((a : A) → p a ≡ true → (row a).user_id ≡ u)
      → select_where (λ r. r.user_id == u && is_after le_key c r) (map row (select_where p t))
        ≡ map row (select_where (λ a. p a && is_after le_key c (row a)) t)
  unfolding select_where
  select_where-rows p [] own = refl
  select_where-rows p (a ∷ t) own = elim (Bool-cases (p a)) [
    | inl e ↦
        let here : ((row a).user_id == u) ≡ true = (==_iff _ _).1 (own a e) in
        ground (arith, e, here, select_where-rows p t own)
    | inr e ↦ rw e (select_where-rows p t own)
  ]

select_where-append :
    {A : Type 0} (p : A → Bool) (xs ys : List A)
    → select_where p (xs ++ ys) ≡ select_where p xs ++ select_where p ys
unfolding select_where
select_where-append p [] ys = refl
select_where-append p (x ∷ xs) ys = ground (arith, select_where-append p xs ys)

pub load_matches-load :
    (u page_size : ℕ) (t : List Match) (c : Option Key)
    → load_matches u page_size t c ≡ load le_key u page_size (participations u t) c
unfolding load
load_matches-load u page_size t c =
    let first = select_where-rows u c (participation u) (λ m. m.user1_id == u) t (λ m h. refl) in
    let second = select_where-rows u c (participation u) (λ m. m.user2_id == u) t (λ m h. refl) in
    rw (
      select_where-append (λ (r : Row Key). r.user_id == u && is_after le_key c r)
          (map (participation u) (select_where (λ m. m.user1_id == u) t))
          (map (participation u) (select_where (λ m. m.user2_id == u) t)),
      first,
      second,
    )

select_where-swipes :
    (u now : ℕ) (c : Option Key) (t : List Swipe)
    → select_where
        (λ r. r.user_id == u && is_after le_key c r)
        (map swiped (select_where (λ s. ltb now s.expires_at) t))
      ≡ map swiped (
          select_where
            (λ s. (s.actor_id == u && ltb now s.expires_at) && is_after le_key c (swiped s))
            t)
unfolding select_where
select_where-swipes u now c [] = refl
select_where-swipes u now c (s ∷ t) =
    let rest = select_where-swipes u now c t in
    elim (Bool-cases (ltb now s.expires_at)) [
      | inl live ↦ ground (arith, live, rest)
      | inr gone ↦ ground (arith, gone, rest)
    ]

pub load_swipes-load :
    (u page_size : ℕ) (d : Database) (c : Option Key)
    → load_swipes u page_size d c ≡ load le_key u page_size (live_swipes d) c
unfolding load
load_swipes-load u page_size d c = rw (select_where-swipes u d.transaction_timestamp c d.swipes)
