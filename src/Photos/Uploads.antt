-- ===== src/Photos/Uploads.antt =====
-- A request for an upload that is sent again with its key.
use histae_api.Prelude.{
  ℕ, Bool, true, false, not, ◌&&◌, ◌||◌, Option, some, none, List, [], ◌∷◌, ◌==◌, ==_iff, leb, ◌≡◌,
  refl, sym, subst, arith, inl, inr, In, is_set, Distinct, update_where, delete_where, exists_where,
  find_where, find_where-some, find_where_of_In, Bool-cases, if◌then◌else◌, count_where, In-unique,
  In-update_where, In-update_where_kept, exists_where_witness, exists_where-In, some-subst,
  select_where, ◌∙◌, ap,
}
use histae_api.Photos.Models.{
  UserPhoto, PhotoStatus, ready, pending, processing, deleting, is_processing, is_ready,
  is_completed, is_in_process, ModerationCase, UploadRequest, completed, Tables, ProcessingPhoto,
  replay, idempotency_conflict,
}
use histae_api.Photos.{
  is_id, case_verdict, enqueue_deletions, is_of_key, has_photo_id, is_candidate, is_open_request,
  is_shown, lock_active_profile, answer_request, create_processing, replayed, verdict_of, activate,
  retired, activated, with_status, is_expired,
}
use histae_api.Photos.Invariant.{AreSound, activated-AreSound}
use histae_api.Photos.History.{IsSound, same_key, keys-updated}

delete_where_none :
    {A : Type 0} (p : A → Bool) (rs : List A) → exists_where p rs ≡ false → delete_where p rs ≡ rs
unfolding delete_where exists_where
delete_where_none p [] h = refl
delete_where_none p (r ∷ rs) h = ground (arith, delete_where_none p rs)

-- Of one key there is one request.
one_request :
    (a b : UploadRequest) (rs : List UploadRequest)
    → Distinct same_key rs
    → In a rs
    → In b rs
    → same_key a b ≡ true
    → a ≡ b
one_request a b [] d m n e = absurd m
one_request a b (r ∷ rs) d (inl p) (inl q) e = cc
one_request a b (r ∷ rs) d (inl p) (inr n) e =
    let apart = subst (λ x. same_key x b ≡ false) p (exists_where-In b (same_key r) rs d.0 n) in
    absurd cc
one_request a b (r ∷ rs) d (inr m) (inl q) e =
    let apart = subst (λ x. same_key x a ≡ false) q (exists_where-In a (same_key r) rs d.0 m) in
    absurd (ground (arith, apart, e))
one_request a b (r ∷ rs) d (inr m) (inr n) e = one_request a b rs d.1 m n e

module _ (d : Tables) (h : IsSound d) (n : ProcessingPhoto) (r : UploadRequest)
    (here : In r d.requests) (of_key : is_of_key n.user_id n.idempotency_key r ≡ true)
    (live : leb r.expires_at n.created_at ≡ false) where
  -- The request of a live key is found, and nothing is deleted for it.
  nothing_expired : delete_where (is_expired n) d.requests ≡ d.requests
  nothing_expired =
      delete_where_none (is_expired n) d.requests
        (elim (Bool-cases (exists_where (is_expired n) d.requests)) [
          | inr none_such ↦ none_such
          | inl some_such ↦
              let (x, m, expired) = exists_where_witness (is_expired n) d.requests some_such in
              let same_row : r ≡ x =
                one_request r x d.requests h.keys here m (ground (arith, of_key, expired)) in
              absurd (
                subst (λ y. leb y.expires_at n.created_at ≡ false → ⊥) (sym same_row)
                  (λ still. ground (arith, still, expired)) live)
        ])

  found : find_where (is_of_key n.user_id n.idempotency_key) d.requests ≡ some r
  found =
      let (x, e) =
        find_where_of_In r (is_of_key n.user_id n.idempotency_key) d.requests here of_key in
      let (m, key) = find_where-some (is_of_key n.user_id n.idempotency_key) d.requests x e in
      let same_row : r ≡ x =
        one_request r x d.requests h.keys here m (ground (arith, of_key, key)) in
      e ∙ ap some (sym same_row)

  create_processing-repeated :
      (clock : ℕ)
      → lock_active_profile d n.user_id ≡ true
      → create_processing d clock n
        ≡ some (
          d,
          if r.request_sha256 == n.request_sha256 then replayed n r d else idempotency_conflict,
        )
  unfolding create_processing answer_request
  create_processing-repeated clock active = rw (active, nothing_expired, found) refl

is_id-some : (id : ℕ) (o : Option ℕ) → is_id id o ≡ true → o ≡ some id
is_id-some id none e = cc
is_id-some id (some p) e = ap some ((==_iff _ _).0 e)

abbrev complete_request : UploadRequest → UploadRequest
complete_request r = record r { status = completed }

verdict_first :
    (d : Tables) (id pid v : ℕ)
    → pid ≡ id
    → verdict_of pid (record d { cases = record { photo_id = id; verdict = v } ∷ d.cases }) ≡ some v
unfolding find_where
verdict_first d id pid v e =
    let opened : ModerationCase = record { photo_id = id; verdict = v } in
    let here : (id == pid) ≡ true = (==_iff _ _).1 (sym e) in
    let first : find_where (λ (c : ModerationCase). c.photo_id == pid) (opened ∷ d.cases)
        ≡ some opened =
      rw here refl in
    ap case_verdict first

processing_hidden : (s : PhotoStatus) → is_processing s ≡ true → is_ready s ≡ false
processing_hidden processing e = refl
processing_hidden pending e = refl
processing_hidden deleting e = refl
processing_hidden ready e = absurd cc

module _ (d : Tables) (h : IsSound d) (clock id user_id verdict : ℕ) where
  -- The photo that is activated.
  activated_photo :
      exists_where (λ p. is_candidate id user_id p && is_set p.metadata) d.photos ≡ true
      → (p : UserPhoto) × In p (activated clock id user_id d.photos)
        × (p.id ≡ id)
        × (p.user_id ≡ user_id)
        × (p.status ≡ ready)
  activated_photo e =
      let (q, m, hit) = exists_where_witness _ d.photos e in
      let kept =
        In-update_where_kept q (is_shown user_id) (with_status PhotoStatus.deleting clock) d.photos
          m (ground (arith, hit, processing_hidden q.status)) in
      (
        with_status ready clock q,
        In-update_where q (is_candidate id user_id) (with_status ready clock)
            (retired clock user_id d.photos) kept (ground (arith, hit)),
        ground (arith, hit),
        ground (arith, hit),
        refl,
      )

  -- The photo of the request is the one that was activated.
  replayed-activated :
      (d' : Tables) (n : ProcessingPhoto) (r : UploadRequest) (p : UserPhoto) (verdict' : Option ℕ)
      → AreSound d'.photos
      → In p d'.photos
      → p.user_id ≡ n.user_id
      → p.status ≡ ready
      → r.status ≡ completed
      → r.photo_id ≡ some p.id
      → verdict_of p.id d' ≡ verdict'
      → replayed n r d' ≡ replay p verdict'
  unfolding replayed
  replayed-activated d' n r p verdict' sound m user shown done_ photo v =
      let here : has_photo_id p.id r ≡ true = rw photo ((==_iff _ _).1 refl) in
      let (q, e) = find_where_of_In p (λ (p : UserPhoto). has_photo_id p.id r) d'.photos m here in
      let (m', hit) = find_where-some (λ (p : UserPhoto). has_photo_id p.id r) d'.photos q e in
      let same_id : p.id ≡ q.id = (==_iff _ _).0 (rw photo at hit) in
      let same_row =
        In-unique (λ (p : UserPhoto). p.id) q p d'.photos sound.ids m' m (sym same_id) in
      let owner : (p.user_id == n.user_id) ≡ true = (==_iff _ _).1 user in
      let over : is_in_process r.status ≡ false = rw done_ refl in
      let done' : is_completed r.status ≡ true = rw done_ refl in
      let seen : is_ready p.status ≡ true = rw shown refl in
      rw (over, e, same_row, done', owner, seen, v) refl

  -- When an upload has been activated, the request sent again, with the key and the hash of the first
  -- and before the key expires, gets the photo of the first with its verdict, shown for the account,
  -- and changes no table: no second photo is made.
  pub activate_replays :
      (d' : Tables) (r : UploadRequest) (n : ProcessingPhoto) (clock' : ℕ)
      → activate d clock id user_id verdict ≡ some (d', true)
      → In r d.requests
      → is_open_request user_id id r ≡ true
      → is_of_key user_id n.idempotency_key r ≡ true
      → leb r.expires_at n.created_at ≡ false
      → n.user_id ≡ user_id
      → r.request_sha256 ≡ n.request_sha256
      → (p : UserPhoto) × In p d'.photos
        × (p.id ≡ id)
        × (p.status ≡ ready)
        × (create_processing d' clock' n ≡ some (d', replay p (some verdict)))
  unfolding activate
  activate_replays d' r n clock' e here open_ of_key live user same =
      let refused =
        not (lock_active_profile d user_id)
        || not (exists_where (λ p. is_candidate id user_id p && is_set p.metadata) d.photos) in
      let broken =
        not (count_where (is_candidate id user_id) (retired clock user_id d.photos) == 1)
        || exists_where (λ c. c.photo_id == id) d.cases
        || not (count_where (is_open_request user_id id) d.requests == 1) in
      elim (Bool-cases refused) [
        | inl x ↦ absurd (let e' = rw (activate, x) at e in cc)
        | inr x ↦ elim (Bool-cases broken) [
          | inl y ↦ absurd (let e' = rw (activate, x, y) at e in cc)
          | inr y ↦
              let d1 = record d {
                photos = activated clock id user_id d.photos;
                requests = update_where (is_open_request user_id id) complete_request d.requests;
                cases = record { photo_id = id; verdict = verdict } ∷ d.cases;
                deletions =
                    enqueue_deletions (select_where (is_shown user_id) d.photos) d.deletions;
              } in
              some-subst
                (λ (z : Tables × Bool).
                  (p : UserPhoto) × In p z.0.photos
                  × (p.id ≡ id)
                  × (p.status ≡ ready)
                  × (create_processing z.0 clock' n ≡ some (z.0, replay p (some verdict))))
                (d1, true) (d', true) (rw (activate, x, y) at e)
                (let candidate : exists_where (λ p. is_candidate id user_id p && is_set p.metadata)
                        d.photos
                      ≡ true =
                    ground (arith, x) in
                  let sound : IsSound d1 = record {
                    photos = activated-AreSound d.photos h.photos clock id user_id candidate;
                    keys = keys-updated _ _ d.requests (λ r. (refl, refl)) h.keys;
                  } in
                  let (p, m, pid, puser, shown) = activated_photo candidate in
                  let repeated =
                    create_processing-repeated d1 sound n (complete_request r)
                      (In-update_where r (is_open_request user_id id) complete_request d.requests
                        here open_)
                      (rw user of_key) live clock' (rw user (ground (arith, x))) in
                  let photo = is_id-some id r.photo_id (ground (arith, open_)) in
                  let answer =
                    replayed-activated d1 n (complete_request r) p (some verdict) sound.photos m
                      (puser ∙ sym user) shown refl (photo ∙ ap some (sym pid))
                      (verdict_first d id p.id verdict pid) in
                  let hash : (r.request_sha256 == n.request_sha256) ≡ true = (==_iff _ _).1 same in
                  (p, m, pid, shown, repeated ∙ (rw (hash, answer) refl)))
        ]
      ]
