-- ===== src/Privacy/Writer/Documents/Printing.antt =====
-- What the writer writes for a document are the tokens of the document, or as many as fit.
use mathlib.Core.List.{append-nil, append_assoc}
use histae_api.Prelude.{
  String, ℕ, Bool, true, false, none, some, List, [], ◌∷◌, ◌++◌, ◌+◌, ltb, ◌≡◌, refl, arith,
  if◌then◌else◌, Bool-cases, inl, inr, ◌≤◌,
}
use histae_api.Privacy.Writer.{
  Kind, array, object, JsonContext, Token, open_brace, close_brace, open_bracket, close_bracket,
  name, value, too_large, Written, failed, done, ◌>>=◌, Output, Writer, write, put, put_value,
  before_value, before_value_in, start_object, start_array, end_object, end_array, property, item,
  assert_complete, empty, close_context, pushed, put_comma, put_name,
}
use histae_api.Privacy.Writer.Documents.{
  Fields, nil, member, object_member, array_member, Items, end, element, object_element, separated,
  print_fields, print_items, print_document, write_fields, write_items, write_document, emit,
}

pub bind_assoc :
    {A B C : Type 0} (m : Written A) (f : A → Written B) (g : B → Written C)
    → ((m >>= f) >>= g) ≡ (m >>= λ a. f a >>= g)
bind_assoc (failed e) f g = refl
bind_assoc (done a) f g = refl

bind_done : {A : Type 0} (m : Written A) → (m >>= λ a. done a) ≡ m
bind_done (failed e) = refl
bind_done (done a) = refl

abbrev at_ : List JsonContext → Output → Writer
at_ cs o = record { contexts = cs; output = o }

abbrev context : Kind → Bool → JsonContext
context k first = record { kind = k; first = first }

-- Whether the next value comes first, after the members or items.
abbrev none_yet : Fields → Bool → Bool
none_yet nil first = first
none_yet _ first = false

abbrev none_yet_item : Items → Bool → Bool
none_yet_item end first = first
none_yet_item _ first = false

none_yet-false : (fs : Fields) → none_yet fs false ≡ false
none_yet-false nil = refl
none_yet-false _ = refl

none_yet_item-false : (xs : Items) → none_yet_item xs false ≡ false
none_yet_item-false end = refl
none_yet_item-false _ = refl

module _ (size : Token → ℕ) (max_bytes : ℕ) where
  emit-append :
      (xs ys : List Token) (o : Output)
      → emit size max_bytes (xs ++ ys) o
        ≡ (emit size max_bytes xs o >>= λ o'. emit size max_bytes ys o')
  unfolding emit
  emit-append [] ys o = refl
  emit-append (x ∷ xs) ys o = simp (bind_assoc, emit-append xs ys)

  property-emit :
      (n v : String) (first : Bool) (cs : List JsonContext) (o : Output)
      → property size max_bytes n (some v) (at_ (context object first ∷ cs) o) ≡ (
          emit size max_bytes (separated first (name n ∷ value v ∷ [])) o >>= λ o'.
          done (at_ (context object false ∷ cs) o'))
  unfolding property before_value before_value_in put_comma put_name put_value put emit
  property-emit n v true cs o = simp (bind_assoc)
  property-emit n v false cs o = simp (bind_assoc)

  item-emit :
      (v : String) (first : Bool) (cs : List JsonContext) (o : Output)
      → item size max_bytes (some v) (at_ (context array first ∷ cs) o) ≡ (
          emit size max_bytes (separated first (value v ∷ [])) o >>= λ o'.
          done (at_ (context array false ∷ cs) o'))
  unfolding item before_value before_value_in put_comma put_name put_value put emit
  item-emit v true cs o = simp (bind_assoc)
  item-emit v false cs o = simp (bind_assoc)

  start_object-emit :
      (n : String) (first : Bool) (cs : List JsonContext) (o : Output)
      → start_object size max_bytes (some n) (at_ (context object first ∷ cs) o) ≡ (
          emit size max_bytes (separated first (name n ∷ open_brace ∷ [])) o >>= λ o'.
          done (at_ (context object true ∷ context object false ∷ cs) o'))
  unfolding start_object before_value before_value_in put_comma put_name put pushed emit
  start_object-emit n true cs o = simp (bind_assoc)
  start_object-emit n false cs o = simp (bind_assoc)

  start_element-emit :
      (first : Bool) (cs : List JsonContext) (o : Output)
      → start_object size max_bytes none (at_ (context array first ∷ cs) o) ≡ (
          emit size max_bytes (separated first (open_brace ∷ [])) o >>= λ o'.
          done (at_ (context object true ∷ context array false ∷ cs) o'))
  unfolding start_object before_value before_value_in put_comma put_name put pushed emit
  start_element-emit true cs o = simp (bind_assoc)
  start_element-emit false cs o = simp (bind_assoc)

  start_array-emit :
      (n : String) (first : Bool) (cs : List JsonContext) (o : Output)
      → start_array size max_bytes n (at_ (context object first ∷ cs) o) ≡ (
          emit size max_bytes (separated first (name n ∷ open_bracket ∷ [])) o >>= λ o'.
          done (at_ (context array true ∷ context object false ∷ cs) o'))
  unfolding start_array before_value before_value_in put_comma put_name put pushed emit
  start_array-emit n true cs o = simp (bind_assoc)
  start_array-emit n false cs o = simp (bind_assoc)

  end_object-emit :
      (first : Bool) (cs : List JsonContext) (o : Output)
      → end_object size max_bytes (at_ (context object first ∷ cs) o)
        ≡ (emit size max_bytes (close_brace ∷ []) o >>= λ o'. done (at_ cs o'))
  unfolding end_object close_context put emit
  end_object-emit first cs o = simp (bind_assoc)

  end_array-emit :
      (first : Bool) (cs : List JsonContext) (o : Output)
      → end_array size max_bytes (at_ (context array first ∷ cs) o)
        ≡ (emit size max_bytes (close_bracket ∷ []) o >>= λ o'. done (at_ cs o'))
  unfolding end_array close_context put emit
  end_array-emit first cs o = simp (bind_assoc)

  mutual
    unfolding write_fields print_fields emit

    write_fields-emit :
        (fs : Fields) (first : Bool) (cs : List JsonContext) (o : Output)
        → write_fields size max_bytes fs (at_ (context object first ∷ cs) o) ≡ (
            emit size max_bytes (print_fields first fs) o >>= λ o'.
            done (at_ (context object (none_yet fs first) ∷ cs) o'))
    write_fields-emit nil first cs o = refl
    write_fields-emit (member n v fs) first cs o =
        simp
          (property-emit, bind_assoc, emit-append, write_fields-emit fs false cs, none_yet-false fs)
    write_fields-emit (object_member n x fs) first cs o = simp (
      start_object-emit,
      bind_assoc,
      emit-append,
      end_object-emit,
      write_fields-emit x true (context object false ∷ cs),
      write_fields-emit fs false cs,
      none_yet-false fs,
    )
    write_fields-emit (array_member n xs fs) first cs o = simp (
      start_array-emit,
      bind_assoc,
      emit-append,
      end_array-emit,
      write_items-emit xs true (context object false ∷ cs),
      write_fields-emit fs false cs,
      none_yet-false fs,
    )

    write_items-emit :
        (xs : Items) (first : Bool) (cs : List JsonContext) (o : Output)
        → write_items size max_bytes xs (at_ (context array first ∷ cs) o) ≡ (
            emit size max_bytes (print_items first xs) o >>= λ o'.
            done (at_ (context array (none_yet_item xs first) ∷ cs) o'))
    write_items-emit end first cs o = refl
    write_items-emit (element v xs) first cs o =
        simp
          (item-emit, bind_assoc, emit-append, write_items-emit xs false cs, none_yet_item-false xs)
    write_items-emit (object_element x xs) first cs o = simp (
      start_element-emit,
      bind_assoc,
      emit-append,
      end_object-emit,
      write_fields-emit x true (context array false ∷ cs),
      write_items-emit xs false cs,
      none_yet_item-false xs,
    )

abbrev pub total : (Token → ℕ) → List Token → ℕ
total size [] = 0
total size (t ∷ ts) = size t + total size ts

module _ (size : Token → ℕ) (max_bytes : ℕ) where
  -- A write that no longer fits fails, and with it all.
  emit-fits :
      (ts : List Token) (o : Output)
      → o.bytes ≤ max_bytes
      → emit size max_bytes ts o ≡ (
          if ltb max_bytes (o.bytes + total size ts)
          then failed too_large
          else done (record { bytes = o.bytes + total size ts; tokens = o.tokens ++ ts }))
  unfolding emit write
  emit-fits [] o h =
      let same : o.bytes + 0 ≡ o.bytes = omega arith in
      let fits : ltb max_bytes o.bytes ≡ false = ground arith in
      rw (same, fits, append-nil o.tokens)
  emit-fits (t ∷ ts) o h = elim (Bool-cases (ltb max_bytes (o.bytes + size t))) [
    | inl over ↦
        let all_over : ltb max_bytes (o.bytes + (size t + total size ts)) ≡ true =
          ground (arith, over) in
        rw (over, all_over)
    | inr fits ↦
        let rest =
          emit-fits ts (record { bytes = o.bytes + size t; tokens = o.tokens ++ t ∷ [] })
            (ground (arith, fits)) in
        let sum : (o.bytes + size t) + total size ts ≡ o.bytes + (size t + total size ts) =
          omega arith in
        rw (fits, rest, sum, append_assoc o.tokens (t ∷ []) ts)
  ]

  write_document-emit :
      (fs : Fields)
      → write_document size max_bytes fs
        ≡ (emit size max_bytes (print_document fs) empty.output >>= λ o. done (at_ [] o))
  unfolding write_document start_object before_value before_value_in put pushed assert_complete emit
  write_document-emit fs = simp (bind_assoc, emit-append, end_object-emit, write_fields-emit)

  -- A document written through the writer is its tokens in the file, a name before each member of an
  -- object, a comma between two values of one container and the brackets closed, and the bytes counted
  -- are theirs; where they exceed the limit, the writer fails with DataExportTooLargeError, and with no
  -- other error. What JSON.stringify gives for a name or a value is one token, whose size is a
  -- parameter.
  pub write_document_lem :
      (fs : Fields)
      → write_document size max_bytes fs ≡ (
          if ltb max_bytes (total size (print_document fs))
          then failed too_large
          else done (record {
            contexts = [];
            output = record { bytes = total size (print_document fs); tokens = print_document fs };
          }))
  write_document_lem fs =
      let emitted = emit-fits (print_document fs) empty.output (ground arith) in
      let sum : empty.output.bytes + total size (print_document fs)
          ≡ total size (print_document fs) =
        omega arith in
      elim (Bool-cases (ltb max_bytes (total size (print_document fs)))) [
        | inl over ↦ rw (write_document-emit fs, emitted, sum, over)
        | inr fits ↦ rw (write_document-emit fs, emitted, sum, fits)
      ]
