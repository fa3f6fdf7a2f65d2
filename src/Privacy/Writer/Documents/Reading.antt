-- ===== src/Privacy/Writer/Documents/Reading.antt =====
-- A reader of the documents, written from the grammar of JSON and not from the writer. What it reads
-- from the tokens of a document is the document.
use histae_api.Prelude.{
  String, ℕ, zero, suc, Bool, true, false, Option, none, some, List, [], ◌∷◌, ◌++◌, ◌+◌, ◌*◌, ◌≡◌,
  refl, arith, length, ◌≤◌, ◌-◌, length-append, ltb,
}
use mathlib.Core.List.{append_assoc}
use histae_api.Privacy.Writer.{
  Token, open_brace, close_brace, open_bracket, close_bracket, comma, name, value, Writer, done,
}
use histae_api.Privacy.Writer.Documents.Printing.{total, write_document_lem}
use histae_api.Privacy.Writer.Documents.{
  Fields, nil, member, object_member, array_member, Items, end, element, object_element, separated,
  print_fields, print_items, print_document, write_document,
}

-- A part of a document with the tokens that follow it.
record Read (T : Type 0) : Type 0 where
  result : T
  rest : List Token

infixl 5 ◌>>=◌
abbrev ◌>>=◌ :
    {S T : Type 0} → Option (Read S) → (S → List Token → Option (Read T)) → Option (Read T)
none >>= f = none
some r >>= f = f r.result r.rest

abbrev read_as : {S T : Type 0} → (S → T) → Option (Read S) → Option (Read T)
read_as f none = none
read_as f (some r) = some (record { result = f r.result; rest = r.rest })

mutual
  -- The members of an object with its closing brace.
  read_fields : ℕ → Bool → List Token → Option (Read Fields)
  read_fields zero _ _ = none
  read_fields (suc k) _ (close_brace ∷ ts) = some (record { result = nil; rest = ts })
  read_fields (suc k) true ts = read_member k ts
  read_fields (suc k) false (comma ∷ ts) = read_member k ts
  read_fields (suc k) false _ = none

  read_member : ℕ → List Token → Option (Read Fields)
  read_member (suc k) (name n ∷ value v ∷ ts) = read_as (member n v) (read_fields k false ts)
  read_member (suc k) (name n ∷ open_brace ∷ ts) =
      read_fields k true ts >>= λ o ts'. read_as (object_member n o) (read_fields k false ts')
  read_member (suc k) (name n ∷ open_bracket ∷ ts) =
      read_items k true ts >>= λ xs ts'. read_as (array_member n xs) (read_fields k false ts')
  read_member _ _ = none

  -- The items of an array with its closing bracket.
  read_items : ℕ → Bool → List Token → Option (Read Items)
  read_items zero _ _ = none
  read_items (suc k) _ (close_bracket ∷ ts) = some (record { result = end; rest = ts })
  read_items (suc k) true ts = read_item k ts
  read_items (suc k) false (comma ∷ ts) = read_item k ts
  read_items (suc k) false _ = none

  read_item : ℕ → List Token → Option (Read Items)
  read_item (suc k) (value v ∷ ts) = read_as (element v) (read_items k false ts)
  read_item (suc k) (open_brace ∷ ts) =
      read_fields k true ts >>= λ o ts'. read_as (object_element o) (read_items k false ts')
  read_item _ _ = none

-- Nothing may follow the document.
abbrev whole : Option (Read Fields) → Option Fields
whole none = none
whole (some r) = elim r.rest [ [] ↦ some r.result | _ ∷ _ ↦ none ]

-- The document of which the tokens are read, if they are those of a document.
pub read_document : List Token → Option Fields
unfolding read_fields
read_document (open_brace ∷ ts) = whole (read_fields (2 * length ts) true ts)
read_document _ = none

mutual
  fields_fuel : Fields → ℕ
  fields_fuel nil = 1
  fields_fuel (member n v fs) = 2 + fields_fuel fs
  fields_fuel (object_member n o fs) = 2 + (fields_fuel o + fields_fuel fs)
  fields_fuel (array_member n xs fs) = 2 + (items_fuel xs + fields_fuel fs)

  items_fuel : Items → ℕ
  items_fuel end = 1
  items_fuel (element v xs) = 2 + items_fuel xs
  items_fuel (object_element o xs) = 2 + (fields_fuel o + items_fuel xs)

length-separated :
    (first : Bool) (us ts : List Token) → length us + length ts ≤ length (separated first us ++ ts)
length-separated true us ts = simp (length-append) (omega arith)
length-separated false us ts = simp (length-append) (omega arith)

mutual
  unfolding print_fields fields_fuel

  fields_fuel-length :
      (fs : Fields) (first : Bool) → fields_fuel fs ≤ 2 * length (print_fields first fs) + 1
  fields_fuel-length nil first = omega arith
  fields_fuel-length (member n v fs) first =
      let rest = fields_fuel-length fs false in
      let sep = length-separated first (name n ∷ value v ∷ []) (print_fields false fs) in
      omega arith
  fields_fuel-length (object_member n o fs) first =
      let inner = fields_fuel-length o true in
      let rest = fields_fuel-length fs false in
      let sep =
        length-separated first (name n ∷ open_brace ∷ [])
          (print_fields true o ++ (close_brace ∷ print_fields false fs)) in
      let sum = length-append (print_fields true o) (close_brace ∷ print_fields false fs) in
      omega arith
  fields_fuel-length (array_member n xs fs) first =
      let inner = items_fuel-length xs true in
      let rest = fields_fuel-length fs false in
      let sep =
        length-separated first (name n ∷ open_bracket ∷ [])
          (print_items true xs ++ (close_bracket ∷ print_fields false fs)) in
      let sum = length-append (print_items true xs) (close_bracket ∷ print_fields false fs) in
      omega arith

  items_fuel-length :
      (xs : Items) (first : Bool) → items_fuel xs ≤ 2 * length (print_items first xs) + 1
  items_fuel-length end first = omega arith
  items_fuel-length (element v xs) first =
      let rest = items_fuel-length xs false in
      let sep = length-separated first (value v ∷ []) (print_items false xs) in omega arith
  items_fuel-length (object_element o xs) first =
      let inner = fields_fuel-length o true in
      let rest = items_fuel-length xs false in
      let sep =
        length-separated first (open_brace ∷ [])
          (print_fields true o ++ (close_brace ∷ print_items false xs)) in
      let sum = length-append (print_fields true o) (close_brace ∷ print_items false xs) in
      omega arith

more : {j k : ℕ} → 2 + j ≤ k → (i : ℕ) × (k ≡ suc (suc i)) × (j ≤ i)
more {j = j} {k = k} h = (k - 2, omega arith, omega arith)

module _ (n : String) (us ts : List Token) (k : ℕ) where
  read_fields-separated :
      (first : Bool)
      → read_fields (suc k) first (separated first (name n ∷ us) ++ ts)
        ≡ read_member k (name n ∷ (us ++ ts))
  unfolding read_fields
  read_fields-separated true = refl
  read_fields-separated false = refl

  read_items-separated :
      (first : Bool)
      → read_items (suc k) first (separated first (value n ∷ us) ++ ts)
        ≡ read_item k (value n ∷ (us ++ ts))
  unfolding read_fields
  read_items-separated true = refl
  read_items-separated false = refl

module _ (us ts : List Token) (k : ℕ) where
  read_items-separated_object :
      (first : Bool)
      → read_items (suc k) first (separated first (open_brace ∷ us) ++ ts)
        ≡ read_item k (open_brace ∷ (us ++ ts))
  unfolding read_fields
  read_items-separated_object true = refl
  read_items-separated_object false = refl

mutual
  unfolding print_fields fields_fuel read_fields

  read_fields-print :
      (fs : Fields) (first : Bool) (k : ℕ) (ts : List Token)
      → fields_fuel fs ≤ k
      → read_fields k first (print_fields first fs ++ (close_brace ∷ ts))
        ≡ some (record { result = fs; rest = ts })
  read_fields-print nil first k ts h = let e : k ≡ suc (k - 1) = omega arith in rw (e)
  read_fields-print (member n v fs) first k ts h =
      let (i, e, le) = more h in
      simp (e, append_assoc, read_fields-separated, read_fields-print fs false i ts le)
  read_fields-print (object_member n o fs) first k ts h =
      let (i, e, le) = more h in
      simp (
        e,
        append_assoc,
        read_fields-separated,
        read_fields-print o true i (print_fields false fs ++ (close_brace ∷ ts)) (omega arith),
        read_fields-print fs false i ts (omega arith),
      )
  read_fields-print (array_member n o fs) first k ts h =
      let (i, e, le) = more h in
      simp (
        e,
        append_assoc,
        read_fields-separated,
        read_items-print o true i (print_fields false fs ++ (close_brace ∷ ts)) (omega arith),
        read_fields-print fs false i ts (omega arith),
      )

  read_items-print :
      (xs : Items) (first : Bool) (k : ℕ) (ts : List Token)
      → items_fuel xs ≤ k
      → read_items k first (print_items first xs ++ (close_bracket ∷ ts))
        ≡ some (record { result = xs; rest = ts })
  read_items-print end first k ts h = let e : k ≡ suc (k - 1) = omega arith in rw (e)
  read_items-print (element v xs) first k ts h =
      let (i, e, le) = more h in
      simp (e, append_assoc, read_items-separated, read_items-print xs false i ts le)
  read_items-print (object_element o xs) first k ts h =
      let (i, e, le) = more h in
      simp (
        e,
        append_assoc,
        read_items-separated_object,
        read_fields-print o true i (print_items false xs ++ (close_bracket ∷ ts)) (omega arith),
        read_items-print xs false i ts (omega arith),
      )

read_document-print : (fs : Fields) → read_document (print_document fs) ≡ some fs
unfolding read_document
read_document-print fs =
    let sum = length-append (print_fields true fs) (close_brace ∷ []) in
    let bound = fields_fuel-length fs true in
    rw (
      read_fields-print fs true (2 * length (print_fields true fs ++ close_brace ∷ [])) []
        (omega arith))

-- A document that fits is written to its end, and reading the tokens of the file by the grammar of
-- JSON gives the document again: each name, value, object and array at its place. What JSON.stringify
-- gives for a name or a value is one token, whose size is a parameter.
pub read_document-written :
    (size : Token → ℕ) (max_bytes : ℕ) (fs : Fields)
    → total size (print_document fs) ≤ max_bytes
    → (w : Writer) × (write_document size max_bytes fs ≡ done w)
      × (read_document w.output.tokens ≡ some fs)
read_document-written size max_bytes fs fits =
    let within : ltb max_bytes (total size (print_document fs)) ≡ false = ground arith in
    (
      record {
        contexts = [];
        output = record { bytes = total size (print_document fs); tokens = print_document fs };
      },
      rw (write_document_lem size max_bytes fs, within),
      read_document-print fs,
    )
