-- ===== src/Outbox/WellFormed.antt =====
-- The CHECK constraints of the table `outbox_event` (db/schema_postgres.sql) on one row of the model. The
-- statuses and the types are data types, and the payload is left out.
use histae_api.Prelude.{
  ◌≤◌, ◌≡◌, ◌||◌, ◌&&◌, ◌==◌, leb, Bool, String, true, false, some, none, ℕ, List, [], ◌∷◌, is_set,
  length,
}
use Prim.Native.Char.{code}
use histae_api.Outbox.Models.{Event, is_processing, is_completed, is_dead_letter, is_discarded}

-- The regular expression ^[a-z][a-z0-9_]{0,63}$ of outbox_event_last_error_code_check.
abbrev is_letter : ℕ → Bool
is_letter c = leb 97 c && leb c 122

is_code_rest : List ℕ → Bool
is_code_rest [] = true
is_code_rest (c ∷ cs) = (is_letter c || leb 48 c && leb c 57 || c == 95) && is_code_rest cs

is_code_text : List ℕ → Bool
unfolding is_code_rest
is_code_text [] = false
is_code_text (c ∷ cs) = is_letter c && is_code_rest cs && leb (length cs) 63

code_points : String → List ℕ
code_points String.[] = []
code_points (String.◌∷◌ c s) = code c ∷ code_points s

unfoldable pub is_error_code : String → Bool
unfolding is_code_text code_points
is_error_code s = is_code_text (code_points s)

pub record WellFormed (e : Event) : Type 0 where
  -- chk_outbox_event_completion
  pub completion : is_set e.processed_at ≡ is_completed e.status
  -- chk_outbox_event_dead_letter
  pub dead_letter : is_set e.dead_lettered_at ≡ (is_dead_letter e.status || is_discarded e.status)
  -- chk_outbox_event_lock
  pub lock_instant : is_set e.locked_at ≡ is_processing e.status
  pub lock_owner : is_set e.locked_by ≡ is_processing e.status
  -- chk_outbox_event_resolution
  pub resolution : is_set e.resolved_at ≡ is_discarded e.status
  pub reason : is_set e.resolution_reason ≡ is_discarded e.status
  pub reason_fits : (r : List ℕ) → e.resolution_reason ≡ some r → (3 ≤ length r) × (length r ≤ 500)
  -- outbox_event_last_error_code_check
  pub error_code : (s : String) → e.last_error_code ≡ some s → is_error_code s ≡ true
  pub resolver : is_discarded e.status ≡ false → e.resolved_by ≡ none
