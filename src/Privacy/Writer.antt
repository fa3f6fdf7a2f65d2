-- ===== src/Privacy/Writer.antt =====
-- src/privacy/json-export.writer.ts. What `JSON.stringify` gives for a name or a value is a token of
-- the output, with its size in bytes as the argument `size`; none stands for `undefined`. The file
-- takes all bytes that it is given.
pub mod Documents
use histae_api.Prelude.{
  String, ℕ, Bool, true, false, not, ◌||◌, ◌&&◌, Option, none, some, List, [], ◌∷◌, ◌++◌, ◌==◌, ◌+◌,
  ltb, if◌then◌else◌, is_set, ◌≡◌, refl, ◌⊎◌, inl, inr,
}

pub data Kind : Type 0 where
  array object : Kind

abbrev pub same_kind : Kind → Kind → Bool
same_kind array array = true
same_kind object object = true
same_kind _ _ = false

-- `JsonContext`
pub record JsonContext : Type 0 where
  pub kind : Kind
  pub first : Bool

-- What is written in one call of `write`.
pub data Token : Type 0 where
  open_brace close_brace open_bracket close_bracket comma : Token
  -- a name with its colon, and the text that JSON.stringify gives for a value
  name value : String → Token

pub data WriteError : Type 0 where
  invalid_root name_required named_item invalid_nesting unsupported_undefined : WriteError
  too_large incomplete no_last_row storage_unavailable : WriteError

pub data Written {ℓ} (T : Type ℓ) : Type ℓ where
  failed : WriteError → Written T
  done : T → Written T

infixl 5 ◌>>=◌
abbrev pub ◌>>=◌ {ℓ κ} : {S : Type ℓ} {T : Type κ} → Written S → (S → Written T) → Written T
failed e >>= f = failed e
done s >>= f = f s

-- The file and `writtenBytes`.
pub record Output : Type 0 where
  pub bytes : ℕ
  pub tokens : List Token

pub record Writer : Type 0 where
  -- the innermost first
  pub contexts : List JsonContext
  pub output : Output

module _ (size : Token → ℕ) (max_bytes : ℕ) where
  -- `write`
  pub write : Token → Output → Written Output
  write t o =
      if ltb max_bytes (o.bytes + size t)
      then failed too_large
      else done (record { bytes = o.bytes + size t; tokens = o.tokens ++ t ∷ [] })

  pub put : Token → Writer → Written Writer
  put t w = write t w.output >>= λ o. done (record w { output = o })

  -- A value that JSON.stringify may not have.
  pub put_value : Option String → Writer → Written Writer
  put_value none w = failed unsupported_undefined
  put_value (some v) w = put (value v) w

  put_comma : JsonContext → Writer → Written Writer
  put_comma c w = if c.first then done w else put comma w

  put_name : Option String → Writer → Written Writer
  put_name none w = done w
  put_name (some n) w = put (name n) w

  -- `beforeValue`, by the stack of contexts
  pub before_value_in : List JsonContext → Option String → Writer → Written Writer
  unfolding put_comma put_name
  before_value_in [] n w =
      if not (w.output.bytes == 0) || is_set n then failed invalid_root else done w
  before_value_in (c ∷ cs) n w =
      if same_kind c.kind object && not (is_set n)
      then failed name_required
      else if same_kind c.kind array && is_set n
      then failed named_item
      else put_comma c w >>= λ w'.
          put_name n (record w' { contexts = record c { first = false } ∷ cs })

  pub before_value : Option String → Writer → Written Writer
  unfolding before_value_in
  before_value n w = before_value_in w.contexts n w

  pushed : Kind → Writer → Writer
  pushed k w = record w { contexts = record { kind = k; first = true } ∷ w.contexts }

  pub start_object : Option String → Writer → Written Writer
  unfolding before_value pushed
  start_object n w =
      before_value n w >>= (λ w1. put open_brace w1 >>= λ w2. done (pushed object w2))

  pub start_array : String → Writer → Written Writer
  unfolding before_value pushed
  start_array n w =
      before_value (some n) w >>= (λ w1. put open_bracket w1 >>= λ w2. done (pushed array w2))

  -- `closeContext`
  pub close_context : Kind → List JsonContext → Writer → Written Writer
  close_context k [] w = failed invalid_nesting
  close_context k (c ∷ cs) w =
      if same_kind c.kind k then done (record w { contexts = cs }) else failed invalid_nesting

  pub end_object : Writer → Written Writer
  unfolding close_context
  end_object w = close_context object w.contexts w >>= put close_brace

  pub end_array : Writer → Written Writer
  unfolding close_context
  end_array w = close_context array w.contexts w >>= put close_bracket

  pub property : String → Option String → Writer → Written Writer
  unfolding before_value
  property n v w = before_value (some n) w >>= put_value v

  pub item : Option String → Writer → Written Writer
  unfolding before_value
  item v w = before_value none w >>= put_value v

pub assert_complete : Writer → Written Writer
assert_complete w = elim w.contexts [ [] ↦ done w | c ∷ cs ↦ failed incomplete ]

abbrev pub empty : Writer
empty = record { contexts = []; output = record { bytes = 0; tokens = [] } }
