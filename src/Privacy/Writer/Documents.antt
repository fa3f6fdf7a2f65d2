-- ===== src/Privacy/Writer/Documents.antt =====
-- A document as the export writes it: an object whose members are values, objects and arrays. Written
-- through the writer, it comes out as its tokens.
pub mod Printing
pub mod Reading
mod Tests
use histae_api.Prelude.{
  String, ℕ, Bool, true, false, ◌&&◌, Option, none, some, List, [], ◌∷◌, ◌++◌, ◌+◌, ltb, ◌≡◌, ◌∙◌,
  refl, sym, ap, arith, if◌then◌else◌, Bool-cases, inl, inr, fun_ext,
}
use histae_api.Privacy.Writer.{
  Kind, array, object, JsonContext, Token, open_brace, close_brace, open_bracket, close_bracket,
  comma, name, value, WriteError, too_large, Written, failed, done, ◌>>=◌, Output, Writer, write,
  put, put_value, before_value, before_value_in, start_object, start_array, end_object, end_array,
  property, item, assert_complete, empty, close_context, pushed, put_comma, put_name,
}

mutual
  pub data Fields : Type 0 where
    nil : Fields
    member : String → String → Fields → Fields
    object_member : String → Fields → Fields → Fields
    array_member : String → Items → Fields → Fields

  pub data Items : Type 0 where
    end : Items
    element : String → Items → Items
    object_element : Fields → Items → Items

abbrev pub separated : Bool → List Token → List Token
separated true ts = ts
separated false ts = comma ∷ ts

mutual
  -- The tokens of the members of an object, where the test tells whether the first comes first.
  pub print_fields : Bool → Fields → List Token
  print_fields first nil = []
  print_fields first (member n v fs) =
      separated first (name n ∷ value v ∷ []) ++ print_fields false fs
  print_fields first (object_member n o fs) =
      separated first (name n ∷ open_brace ∷ [])
      ++ (print_fields true o ++ (close_brace ∷ [] ++ print_fields false fs))
  print_fields first (array_member n xs fs) =
      separated first (name n ∷ open_bracket ∷ [])
      ++ (print_items true xs ++ (close_bracket ∷ [] ++ print_fields false fs))

  pub print_items : Bool → Items → List Token
  print_items first end = []
  print_items first (element v xs) = separated first (value v ∷ []) ++ print_items false xs
  print_items first (object_element o xs) =
      separated first (open_brace ∷ [])
      ++ (print_fields true o ++ (close_brace ∷ [] ++ print_items false xs))

abbrev pub print_document : Fields → List Token
print_document fs = open_brace ∷ [] ++ (print_fields true fs ++ close_brace ∷ [])

module _ (size : Token → ℕ) (max_bytes : ℕ) where
  unfoldable mutual
    -- The calls of the writer for the members of an object, and for the items of an array.
    pub write_fields : Fields → Writer → Written Writer
    write_fields nil w = done w
    write_fields (member n v fs) w =
        property size max_bytes n (some v) w >>= (λ w1. write_fields fs w1)
    write_fields (object_member n o fs) w = start_object size max_bytes (some n) w >>= (λ w1.
        write_fields o w1 >>= λ w2. end_object size max_bytes w2 >>= λ w3. write_fields fs w3)
    write_fields (array_member n xs fs) w = start_array size max_bytes n w >>= (λ w1.
        write_items xs w1 >>= λ w2. end_array size max_bytes w2 >>= λ w3. write_fields fs w3)

    pub write_items : Items → Writer → Written Writer
    write_items end w = done w
    write_items (element v xs) w = item size max_bytes (some v) w >>= (λ w1. write_items xs w1)
    write_items (object_element o xs) w = start_object size max_bytes none w >>= (λ w1.
        write_fields o w1 >>= λ w2. end_object size max_bytes w2 >>= λ w3. write_items xs w3)

  unfoldable pub write_document : Fields → Written Writer
  unfolding write_fields
  write_document fs =
      start_object size max_bytes none empty
      >>= (λ w1. write_fields fs w1 >>= λ w2. end_object size max_bytes w2 >>= assert_complete)

  -- The tokens written one after the other.
  pub emit : List Token → Output → Written Output
  emit [] o = done o
  emit (t ∷ ts) o = write size max_bytes t o >>= (λ o'. emit ts o')
