-- ===== src/Ledger/Origin.antt =====
-- What `parseOriginState` and `parseOriginalMetadata` accept.
use html_inbox.Common.{
  ℕ, ◌≤◌, ◌≡◌, refl, subst, Bool, true, false, not, ◌||◌, [], ◌∷◌, Text, js, length, all, ltb,
  text_eq, text_eq_iff, Fault, ok, >>=-eq-ok, reject-eq-ok, reject, arith, descriptor_too_large,
  metadata_conflict, invalid_signature_encoding, invalid_schema, invalid_metadata,
}
use html_inbox.Json.{Json, Fields, get, stringify, byte_length}
use html_inbox.Model.{
  OriginalMetadata, OriginState, Platform, live, deleted, max_descriptor_bytes, max_html_bytes,
  max_safe_integer,
}
use html_inbox.Model.Fields.{
  parse_object, assert_exact_keys, parse_string, parse_uuid, parse_safe_id, parse_digest,
  parse_integer, parse_choice, is_one, is_safe_document_id, is_bounded_string,
}
use html_inbox.Model.Checked.{
  IsUuid, IsSafeId, IsDigest, IsWithin, parse_uuid_sound, parse_safe_id_sound, parse_digest_sound,
  parse_integer_sound, parse_string_sound,
}
use html_inbox.Model.Codec.{metadata_encoding}
use html_inbox.Model.Parse.{
  parse_document_metadata, parse_original_metadata, parse_origin_state, is_signature, state_fields,
  metadata_fields, assert_metadata_length, is_schema_one, text_field, is_space,
}

-- A text of the metadata: not blank, and no longer than the limit.
pub record IsLabel (maximum : ℕ) (s : Text) : Type 0 where
  pub not_blank : all is_space s ≡ false
  pub not_longer : length s ≤ maximum

assert_metadata_length-IsLabel :
    (maximum : ℕ) (s : Text) {u : Unit {0}}
    → assert_metadata_length s maximum ≡ ok u
    → IsLabel maximum s
unfolding assert_metadata_length
assert_metadata_length-IsLabel maximum s h =
    let rejected = reject-eq-ok _ _ h in
    record { not_blank = ground arith; not_longer = ground arith }

pub assert_metadata_length_complete :
    (maximum : ℕ) (s : Text) → IsLabel maximum s → assert_metadata_length s maximum ≡ ok tt
unfolding assert_metadata_length
assert_metadata_length_complete maximum s h =
    let a = h.not_blank in let b = h.not_longer in ground arith

reject-not : (b : Bool) (e : Fault) {u : Unit {0}} → reject (not b) e ≡ ok u → b ≡ true
reject-not true e h = refl
reject-not false e h = cc

agree :
    (a b c d : Text) (e : Fault) {u : Unit {0}}
    → reject (not (text_eq a b) || not (text_eq c d)) e ≡ ok u
    → (a ≡ b) × (c ≡ d)
agree a b c d e h =
    let passed = reject-eq-ok _ _ h in
    (ground (arith, text_eq_iff a b), ground (arith, text_eq_iff c d))

module _ ⦃p : Platform⦄ where
  pub record IsMetadata (m : OriginalMetadata) : Type 0 where
    pub id : is_safe_document_id m.id ≡ true
    pub title : IsLabel 200 m.title
    pub type : IsLabel 64 m.type
    pub source_file_name : IsLabel 255 m.source_file_name
    pub created_at : p.is_date m.created_at ≡ true

  IsMetadata-fields :
      (id title type name at : Text) (m : OriginalMetadata)
      → is_safe_document_id id ≡ true
      → p.is_date at ≡ true
      → IsLabel 200 title
      → IsLabel 64 type
      → IsLabel 255 name
      → ok
          (record { id = id; title = title; type = type; created_at = at; source_file_name = name })
        ≡ ok m
      → IsMetadata m
  IsMetadata-fields id title type name at m a b c d e h =
      let same : record {
        id = id;
        title = title;
        type = type;
        created_at = at;
        source_file_name = name;
      }
          ≡ m =
        ground arith in
      subst (λ m. IsMetadata m) same
        (record { id = a; title = c; type = d; source_file_name = e; created_at = b })

  parse_document_metadata_sound :
      (value : Fields) (m : OriginalMetadata) → parse_document_metadata value ≡ ok m → IsMetadata m
  unfolding parse_document_metadata
  parse_document_metadata_sound value m h =
      let (_, _, h1) =
        >>=-eq-ok (reject (not (is_schema_one (get (js "schemaVersion") value))) invalid_schema) _
          h in
      let (id, _, h2) = >>=-eq-ok (text_field (get (js "id") value)) _ h1 in
      let (_, e3, h3) = >>=-eq-ok (reject (not (is_safe_document_id id)) invalid_metadata) _ h2 in
      let (title, _, h4) = >>=-eq-ok (text_field (get (js "title") value)) _ h3 in
      let (type, _, h5) = >>=-eq-ok (text_field (get (js "type") value)) _ h4 in
      let (name, _, h6) = >>=-eq-ok (text_field (get (js "sourceFileName") value)) _ h5 in
      let (at, _, h7) = >>=-eq-ok (text_field (get (js "createdAt") value)) _ h6 in
      let (_, e8, h8) = >>=-eq-ok (reject (not (p.is_date at)) invalid_metadata) _ h7 in
      let (_, e9, h9) = >>=-eq-ok (assert_metadata_length title 200) _ h8 in
      let (_, e10, h10) = >>=-eq-ok (assert_metadata_length type 64) _ h9 in
      let (_, e11, h11) = >>=-eq-ok (assert_metadata_length name 255) _ h10 in
      IsMetadata-fields id title type name at m
        (reject-not (is_safe_document_id id) invalid_metadata e3)
        (reject-not (p.is_date at) invalid_metadata e8)
        (assert_metadata_length-IsLabel 200 title e9) (assert_metadata_length-IsLabel 64 type e10)
        (assert_metadata_length-IsLabel 255 name e11) h11

  parse_original_metadata_sound :
      (value : Json) (m : OriginalMetadata) → parse_original_metadata value ≡ ok m → IsMetadata m
  unfolding parse_original_metadata
  parse_original_metadata_sound value m h =
      let (fs, _, h1) = >>=-eq-ok (parse_object value) _ h in
      let (_, _, h2) = >>=-eq-ok (assert_exact_keys fs metadata_fields) _ h1 in
      let (_, _, h3) =
        >>=-eq-ok (reject (not (is_one (get (js "schemaVersion") fs))) invalid_schema) _ h2 in
      parse_document_metadata_sound fs m h3

  -- A state that the protocol allows. Its metadata is the document's, and has the digest that the
  -- state names.
  pub record IsState (s : OriginState) : Type 0 where
    pub metadata : IsMetadata s.metadata
    pub same_document : s.metadata.id ≡ s.origin_document_id
    pub metadata_digest : p.digest (metadata_encoding s.metadata) ≡ s.metadata_sha256
    pub origin_inbox_id : IsUuid s.origin_inbox_id
    pub origin_document_id : IsSafeId s.origin_document_id
    pub history_epoch : IsUuid s.history_epoch
    pub version : IsWithin 1 max_safe_integer s.version
    pub sha256 : IsDigest s.sha256
    pub byte_length : IsWithin 0 max_html_bytes s.byte_length
    pub metadata_sha256 : IsDigest s.metadata_sha256
    pub signature : is_bounded_string 86 s.signature ≡ true
    pub signature_encoding : is_signature s.signature ≡ true

  ok-IsState : (r s : OriginState) → IsState r → ok r ≡ ok s → IsState s
  ok-IsState r s i h = let same : r ≡ s = ground arith in subst (λ x. IsState x) same i

  -- Whatever the parser accepts as an origin state is one: its version and size are within their
  -- bounds, its identities and digests are well formed, and its metadata is that of the document and
  -- has the digest that the state names.
  pub parse_origin_state-IsState :
      (value : Json) (s : OriginState) → parse_origin_state value ≡ ok s → IsState s
  unfolding parse_origin_state
  parse_origin_state-IsState value s h =
      let (fs, _, h1) = >>=-eq-ok (parse_object value) _ h in
      let (_, _, h2) = >>=-eq-ok (assert_exact_keys fs state_fields) _ h1 in
      let (_, _, h3) =
        >>=-eq-ok
          (reject (ltb max_descriptor_bytes (byte_length (stringify value))) descriptor_too_large) _
          h2 in
      let (metadata, e4, h4) = >>=-eq-ok (parse_original_metadata (get (js "metadata") fs)) _ h3 in
      let (document, e5, h5) = >>=-eq-ok (parse_safe_id (get (js "originDocumentId") fs)) _ h4 in
      let (digest, e6, h6) = >>=-eq-ok (parse_digest (get (js "metadataSha256") fs)) _ h5 in
      let (_, e7, h7) =
        >>=-eq-ok
          (reject
            (not (text_eq metadata.id document)
              || not (text_eq (p.digest (metadata_encoding metadata)) digest))
            metadata_conflict)
          _ h6 in
      let (signature, e8, h8) = >>=-eq-ok (parse_string 86 (get (js "signature") fs)) _ h7 in
      let (_, e9, h9) =
        >>=-eq-ok (reject (not (is_signature signature)) invalid_signature_encoding) _ h8 in
      let (inbox, e10, h10) = >>=-eq-ok (parse_uuid (get (js "originInboxId") fs)) _ h9 in
      let (epoch, e11, h11) = >>=-eq-ok (parse_uuid (get (js "historyEpoch") fs)) _ h10 in
      let (version, e12, h12) =
        >>=-eq-ok (parse_integer 1 max_safe_integer (get (js "version") fs)) _ h11 in
      let (state, _, h13) =
        >>=-eq-ok
          (parse_choice ((js "live", live) ∷ (js "deleted", deleted) ∷ []) (get (js "state") fs)) _
          h12 in
      let (sha256, e14, h14) = >>=-eq-ok (parse_digest (get (js "sha256") fs)) _ h13 in
      let (size, e15, h15) =
        >>=-eq-ok (parse_integer 0 max_html_bytes (get (js "byteLength") fs)) _ h14 in
      let (same, fits) =
        agree metadata.id document (p.digest (metadata_encoding metadata)) digest metadata_conflict
          e7 in
      ok-IsState _ s
        (record {
          metadata = parse_original_metadata_sound (get (js "metadata") fs) metadata e4;
          same_document = same;
          metadata_digest = fits;
          origin_inbox_id = (parse_uuid_sound _ inbox e10).1;
          origin_document_id = (parse_safe_id_sound _ document e5).1;
          history_epoch = (parse_uuid_sound _ epoch e11).1;
          version = (parse_integer_sound 1 max_safe_integer _ version e12).1;
          sha256 = (parse_digest_sound _ sha256 e14).1;
          byte_length = (parse_integer_sound 0 max_html_bytes _ size e15).1;
          metadata_sha256 = (parse_digest_sound _ digest e6).1;
          signature = (parse_string_sound 86 _ signature e8).1;
          signature_encoding = reject-not (is_signature signature) invalid_signature_encoding e9;
        })
        h15
