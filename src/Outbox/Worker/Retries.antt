-- ===== src/Outbox/Worker/Retries.antt =====
-- The waiting time before the next attempt, and how many attempts a failing job gets.
use histae_api.Prelude.{min, ℕ, suc, ◌*◌, ◌≡◌, arith, refl, List, [], ◌∷◌, if◌then◌else◌}
use native.Mathlib.Nat.{pow-suc}
use histae_api.Outbox.Models.{Event}
use histae_api.Outbox.Store.{claimed, rescheduled}
use histae_api.Outbox.Worker.{retry_delay_millis, max_attempts, HandlerError, outbox_failure}

-- After the first attempt a job waits for one second, and after each further one for twice the
-- time before, until it meets the minute.
pub retry_delay_millis_lem :
    (retry_delay_millis 1 ≡ 1000)
    × ((n : ℕ) → retry_delay_millis (suc (suc n)) ≡ min (2 * retry_delay_millis (suc n)) 60000)
unfolding retry_delay_millis
retry_delay_millis_lem = (refl, λ n. omega (arith, pow-suc 2 n))

-- One failed attempt, by the error of the handler: the claim, and the job given back.
abbrev pub attempt : (worker now clock at : ℕ) → HandlerError → Event → Event
attempt worker now clock at error e =
    let f = outbox_failure error in
    rescheduled clock at f.code (if f.permanent then 1 else max_attempts) (claimed worker now e)

-- The attempts with the given errors, the last one first.
abbrev pub attempts_made : List HandlerError → (worker now clock at : ℕ) → Event → Event
attempts_made [] worker now clock at e = e
attempts_made (error ∷ errors) worker now clock at e =
    attempt worker now clock at error (attempts_made errors worker now clock at e)
