-- ===== src/Privacy/Export/File.antt =====
-- The file of an export is the document of the account, and the answers of `prepare`.
use histae_api.Prelude.{
  ℕ, String, Option, some, [], ltb, leb, if◌then◌else◌, ◌≡◌, ap, ◌≤◌, ◌∙◌, not, ◌&&◌, ◌+◌, ◌-◌, ◌∷◌,
  arith, Bool-cases, inl, inr, refl,
}
use histae_api.Privacy.Writer.{Token, Writer, failed, done, too_large}
use histae_api.Privacy.Writer.Documents.{write_fields, write_document, print_document}
use histae_api.Privacy.Writer.Documents.Printing.{bind_assoc, total, write_document_lem}
use histae_api.Privacy.Export.{le_key, Database, photo_key_of, write_snapshot}
use histae_api.Privacy.Export.Service.{
  Outside, Dates, url_for_key, write_properties, write_export, prepare, acquire_slot, prepare_in,
  finish_export, abandon, release_slot, Calls, Process, rejected, data_export_busy,
  data_export_unavailable, data_export_too_large, streamed, prepare_with,
}
use histae_api.Privacy.Export.Document.{
  le_key_total, le_key_trans, leb_total, leb_trans, IsReadable, export_document,
}
use histae_api.Privacy.Export.Sections.{
  then_some, then_assoc, section, write_table-section, write_rows-items, write_matches-section,
  write_discovery-section,
}

module _ (size : Token → ℕ) (max_bytes page_size : ℕ) (positive : 1 ≤ page_size) (o : Outside)
    (u : ℕ) (d : Database) (readable : IsReadable u d) where
  write_export-document :
      (at_ : Dates) (photo : Option String)
      → url_for_key o (photo_key_of u d) ≡ done photo
      → write_export size max_bytes page_size o u at_ d
        ≡ some (write_document size max_bytes (export_document o at_ u d photo))
  unfolding write_export write_snapshot write_properties section write_document write_fields
  write_export-document at_ photo signed =
      let by_key =
        write_table-section size max_bytes page_size positive u le_key le_key_total le_key_trans in
      let (traits, consents, matches, messages, reports, blocks, invoices, sessions, swipes) =
        readable in
      simp (
        then_some,
        then_assoc,
        bind_assoc,
        λ (w : Writer). by_key "traits" d.traits w traits,
        λ (w : Writer).
            write_table-section size max_bytes page_size positive u leb leb_total leb_trans
              "legal_choices" d.consents w consents,
        λ (w : Writer). by_key "authored_messages" d.messages w messages,
        λ (w : Writer). by_key "submitted_reports" d.reports w reports,
        λ (w : Writer). by_key "blocked_users" d.blocks w blocks,
        λ (w : Writer). by_key "billing_invoices" d.invoices w invoices,
        λ (w : Writer). by_key "mobile_sessions" d.mobile_sessions w sessions,
        write_rows-items size max_bytes,
        λ (w : Writer).
            write_matches-section size max_bytes page_size positive u d.matches w matches,
        λ (w : Writer). write_discovery-section size max_bytes page_size positive u d w swipes,
        signed,
      )

  -- The file is the document of the account, or the writer fails for its size.
  write_export_lem :
      (at_ : Dates) (photo : Option String)
      → url_for_key o (photo_key_of u d) ≡ done photo
      → write_export size max_bytes page_size o u at_ d
        ≡ some (
            if ltb max_bytes (total size (print_document (export_document o at_ u d photo)))
            then failed too_large
            else done (record {
              contexts = [];
              output = record {
                bytes = total size (print_document (export_document o at_ u d photo));
                tokens = print_document (export_document o at_ u d photo);
              };
            }))
  write_export_lem at_ photo signed =
      write_export-document at_ photo signed
      ∙ ap some (write_document_lem size max_bytes (export_document o at_ u d photo))

-- The bytes of the document of an account.
abbrev pub export_bytes : (Token → ℕ) → Outside → Dates → ℕ → Database → Option String → ℕ
export_bytes size o at_ u d photo = total size (print_document (export_document o at_ u d photo))

module _ (size : Token → ℕ) (max_bytes page_size max_concurrency : ℕ) (o : Outside) where
  -- An export answers as follows, in this order, where each table has distinct cursors for the
  -- account, pages have at least one row, and the photo has no key or its URL can be signed:
  -- data_export_busy when all slots are taken; data_export_unavailable when the file cannot be opened;
  -- data_export_too_large exactly when the document of the account exceeds the limit; unavailable when
  -- closing the file or recording the export fails; else a stream as long as the document, with one
  -- more slot taken and the export recorded. After every failure the process is as before: the slot is
  -- given back and nothing is recorded.
  pub prepare_lem :
      (u : ℕ) (c : Calls) (at_ : Dates) (d : Database) (p : Process) (photo : Option String)
      → 1 ≤ page_size
      → IsReadable u d
      → url_for_key o (photo_key_of u d) ≡ done photo
      → prepare size max_bytes page_size max_concurrency o u c at_ d p
        ≡ some (
            if leb max_concurrency p.active_exports
            then (p, rejected data_export_busy)
            else if not c.opened
            then (p, rejected data_export_unavailable)
            else if ltb max_bytes (export_bytes size o at_ u d photo)
            then (p, rejected data_export_too_large)
            else if not (c.closed && c.recorded)
            then (p, rejected data_export_unavailable)
            else (
              record { active_exports = p.active_exports + 1; access_log = u ∷ p.access_log },
              streamed (export_bytes size o at_ u d photo),
            ))
  unfolding prepare prepare_with acquire_slot prepare_in finish_export abandon release_slot
  prepare_lem u c at_ d p photo positive readable signed =
      let file =
        write_export_lem size max_bytes page_size positive o u d readable at_ photo signed in
      let back : (p.active_exports + 1) - 1 ≡ p.active_exports = omega arith in
      elim (Bool-cases (leb max_concurrency p.active_exports)) [
        | inl busy ↦ rw busy refl
        | inr free ↦ elim (Bool-cases c.opened) [
          | inr e ↦ rw (free, e, back) refl
          | inl e ↦ elim (Bool-cases (ltb max_bytes (export_bytes size o at_ u d photo))) [
            | inl over ↦ rw (free, e, file, over, back) refl
            | inr fits ↦ elim (Bool-cases c.closed) [
              | inr x ↦ rw (free, e, file, fits, x, back) refl
              | inl x ↦ elim (Bool-cases c.recorded) [
                | inl y ↦ rw (free, e, file, fits, x, y) refl
                | inr y ↦ rw (free, e, file, fits, x, y, back) refl
              ]
            ]
          ]
        ]
      ]
