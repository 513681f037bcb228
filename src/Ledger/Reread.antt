-- ===== src/Ledger/Reread.antt =====
-- `parseOriginState` on what the encoder writes.
use html_inbox.Common.{
  ℕ, ◌≤◌, ◌≡◌, refl, true, false, [], ◌∷◌, Text, js, ltb, text_eq, text_eq_iff, ok, arith,
}
use html_inbox.Json.{str, get, has_own, stringify, byte_length}
use html_inbox.Model.{
  OriginalMetadata, OriginState, Platform, Liveness, live, deleted, max_descriptor_bytes,
  max_html_bytes, max_safe_integer,
}
use html_inbox.Model.Fields.{
  parse_object, assert_exact_keys, parse_string, parse_choice, choose, is_bounded_string,
  check_string,
}
use html_inbox.Model.Checked.{
  parse_uuid_complete, parse_safe_id_complete, parse_digest_complete, parse_integer_complete,
}
use html_inbox.Model.Codec.{metadata_encoding, liveness_text}
use html_inbox.Model.Parse.{
  parse_document_metadata, parse_original_metadata, parse_origin_state, is_schema_one, text_field,
}
use html_inbox.Ledger.Encode.{of_state, of_metadata}
use html_inbox.Ledger.Origin.{IsMetadata, IsState, assert_metadata_length_complete}

module _ ⦃p : Platform⦄ where
  parse_metadata-of_metadata :
      (m : OriginalMetadata) → IsMetadata m → parse_original_metadata (of_metadata m) ≡ ok m
  unfolding parse_original_metadata parse_document_metadata of_metadata assert_exact_keys has_own
      get text_eq parse_object is_schema_one text_field
  parse_metadata-of_metadata m h =
      let a = h.id in
      let b = h.created_at in
      rw
        (
          a,
          b,
          assert_metadata_length_complete 200 m.title h.title,
          assert_metadata_length_complete 64 m.type h.type,
          assert_metadata_length_complete 255 m.source_file_name h.source_file_name,
        )
        refl

  choose-liveness :
      (l : Liveness)
      → parse_choice ((js "live", live) ∷ (js "deleted", deleted) ∷ []) (str (liveness_text l))
        ≡ ok l
  unfolding parse_choice choose text_eq
  choose-liveness live = refl
  choose-liveness deleted = refl

  parse_string_complete :
      (maximum : ℕ) (s : Text)
      → is_bounded_string maximum s ≡ true
      → parse_string maximum (str s) ≡ ok s
  unfolding parse_string check_string
  parse_string_complete maximum s h = rw h refl

  not_larger : (n : ℕ) → n ≤ max_descriptor_bytes → ltb max_descriptor_bytes n ≡ false
  not_larger n h = ground arith

  same_text : (a b : Text) → a ≡ b → text_eq a b ≡ true
  same_text a b h = ground (arith, text_eq_iff a b)

  -- A state that the protocol allows, written by the encoder in no more than the 64 KiB that the parser
  -- admits, is read back as the same state.
  pub parse_origin_state-of_state :
      (s : OriginState)
      → IsState s
      → byte_length (stringify (of_state s)) ≤ max_descriptor_bytes
      → parse_origin_state (of_state s) ≡ ok s
  unfolding parse_origin_state of_state assert_exact_keys has_own get text_eq parse_object
  parse_origin_state-of_state s h small =
      let a = same_text s.metadata.id s.origin_document_id h.same_document in
      let b =
        same_text (p.digest (metadata_encoding s.metadata)) s.metadata_sha256 h.metadata_digest in
      let c = h.signature_encoding in
      rw
        (
          not_larger (byte_length (stringify (of_state s))) small,
          parse_metadata-of_metadata s.metadata h.metadata,
          parse_safe_id_complete s.origin_document_id h.origin_document_id,
          parse_digest_complete s.metadata_sha256 h.metadata_sha256,
          a,
          b,
          parse_string_complete 86 s.signature h.signature,
          c,
          parse_uuid_complete s.origin_inbox_id h.origin_inbox_id,
          parse_uuid_complete s.history_epoch h.history_epoch,
          parse_integer_complete 1 max_safe_integer s.version h.version,
          choose-liveness s.state,
          parse_digest_complete s.sha256 h.sha256,
          parse_integer_complete 0 max_html_bytes s.byte_length h.byte_length,
        )
        refl
