-- ===== src/Privacy/Writer/Documents/Tests.antt =====
-- Documents written by the writer.
use histae_api.Prelude.{ℕ, ◌≡◌, [], arith, if◌then◌else◌, ltb, some}
use histae_api.Privacy.Writer.{Token, Writer, done, failed, too_large}
use histae_api.Privacy.Writer.Documents.{
  Fields, nil, member, object_member, array_member, end, element, object_element, write_document,
  print_document, print_fields,
}
use histae_api.Privacy.Writer.Documents.Printing.{total, write_document_lem}
use histae_api.Privacy.Writer.Documents.Reading.{read_document, read_document-written}

abbrev one_byte : Token → ℕ
one_byte t = 1

-- An object with a value, an array of a value and an object, and an object.
abbrev document : Fields
document = member "a" "1" (
    array_member "b" (element "2" (object_element (member "c" "3" nil) end))
      (object_member "d" nil nil))

read_document-written_example :
    (w : Writer) × (write_document one_byte 30 document ≡ done w)
    × (read_document w.output.tokens ≡ some document)
unfolding print_fields
read_document-written_example = read_document-written one_byte 30 document (ground arith)

write_document_lem_example : write_document one_byte 10 document ≡ (
    if ltb 10 (total one_byte (print_document document))
    then failed too_large
    else done (record {
      contexts = [];
      output = record {
        bytes = total one_byte (print_document document);
        tokens = print_document document;
      };
    }))
write_document_lem_example = write_document_lem one_byte 10 document
