-- ===== src/Billing/Latest.antt =====
-- What it means for one delivery among many to be the latest: deliveries carry an instant and, among
-- those of one instant, a rank.
use histae_api.Prelude.{
  ℕ, Bool, true, ◌&&◌, ◌||◌, List, [], ◌∷◌, ◌==◌, ltb, leb, ◌≡◌, refl, ◌∙◌, arith, All, In, inl,
  inr,
}
use histae_api.Billing.Models.{Result, ok, ◌>>=◌}

-- Lexicographic on the pairs.
abbrev pub is_up_to : ℕ × ℕ → ℕ × ℕ → Bool
is_up_to (t, r) (u, s) = ltb t u || t == u && leb r s

pub is_up_to_trans :
    (a b c : ℕ × ℕ) → is_up_to a b ≡ true → is_up_to b c ≡ true → is_up_to a c ≡ true
is_up_to_trans (t, r) (u, s) (v, w) p q = ground arith

pub is_up_to_refl : (a : ℕ × ℕ) → is_up_to a a ≡ true
is_up_to_refl (t, r) = ground arith

module _ {D : Type 0} (key : D → ℕ × ℕ) where
  -- One of the deliveries, and none has a greater key.
  abbrev pub Latest : List D → D → Type 0
  Latest ps q = In q ps × ((p : D) → In p ps → is_up_to (key p) (key q) ≡ true)

  pub Latest-first : (p : D) → Latest (p ∷ []) p
  Latest-first p =
      (inl refl, λ x m. elim m [ inl e ↦ rw (← e) (is_up_to_refl (key p)) | inr n ↦ absurd n ])

  -- The next delivery takes over when its key is as great as that of the latest.
  pub Latest-newer : (q p : D) → is_up_to (key q) (key p) ≡ true → Latest (q ∷ p ∷ []) p
  Latest-newer q p le = (
    inr (inl refl),
    λ x m. elim m [
      | inl e ↦ rw (← e) le
      | inr n ↦ elim n [ inl e ↦ rw (← e) (is_up_to_refl (key p)) | inr k ↦ absurd k ]
    ],
  )

  pub Latest-older : (q p : D) → is_up_to (key p) (key q) ≡ true → Latest (q ∷ p ∷ []) q
  Latest-older q p le = (
    inl refl,
    λ x m. elim m [
      | inl e ↦ rw (← e) (is_up_to_refl (key q))
      | inr n ↦ elim n [ inl e ↦ rw (← e) le | inr k ↦ absurd k ]
    ],
  )

  -- The latest of all is found by going on from the latest so far.
  pub Latest-step :
      (q p r s : D) (xs : List D)
      → Latest (q ∷ p ∷ []) r
      → Latest (r ∷ xs) s
      → Latest (q ∷ p ∷ xs) s
  Latest-step q p r s xs first rest = (
    elim rest.0 [
      | inl e ↦ elim first.0 [
        | inl a ↦ inl (a ∙ e)
        | inr b ↦ elim b [ inl a ↦ inr (inl (a ∙ e)) | inr k ↦ absurd k ]
      ]
      | inr n ↦ inr (inr n)
    ],
    λ x m.
        let below : is_up_to (key r) (key s) ≡ true = rest.1 r (inl refl) in
        elim m [
          | inl e ↦ is_up_to_trans (key x) (key r) (key s) (first.1 x (inl e)) below
          | inr n ↦ elim n [
            | inl e ↦ is_up_to_trans (key x) (key r) (key s) (first.1 x (inr (inl e))) below
            | inr k ↦ rest.1 x (inr k)
          ]
        ],
  )

-- A state that takes one delivery after the other.
unfoldable pub deliver_all : {D S : Type 0} → (D → S → Result S) → List D → S → Result S
deliver_all step [] s = ok s
deliver_all step (x ∷ xs) s = do s' ← step x s; deliver_all step xs s'

-- When each step leaves the state showing the later of two deliveries, the whole run leaves it
-- showing the latest of all.
pub deliver_all-Latest :
    {D S : Type 0} (key : D → ℕ × ℕ) (step : D → S → Result S) (Good : D → Type 0)
    (Shows : D → S → Type 0)
    → ((q x : D) (s : S)
        → Good x
        → Shows q s
        → (s' : S) × (step x s ≡ ok s') × (r : D) × Latest key (q ∷ x ∷ []) r × Shows r s')
    → (q : D) (xs : List D) (s : S) → All Good xs
    → Shows q s
    → (s' : S) × (deliver_all step xs s ≡ ok s') × (r : D) × Latest key (q ∷ xs) r × Shows r s'
unfolding deliver_all
deliver_all-Latest key step Good Shows keep q [] s good h = (s, refl, q, Latest-first key q, h)
deliver_all-Latest key step Good Shows keep q (x ∷ xs) s good h =
    let (s1, e1, r, first, h1) = keep q x s good.0 h in
    let (s2, e2, t, last, h2) = deliver_all-Latest key step Good Shows keep r xs s1 good.1 h1 in
    (s2, rw e1 e2, t, Latest-step key q x r t xs first last, h2)
