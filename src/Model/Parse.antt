-- ===== src/Model/Parse.antt =====
-- packages/cli/src/sync-model.ts and documents.ts: the parsers of the protocol's records.
use html_inbox.Common.{
  ℕ, Bool, true, false, not, ◌&&◌, ◌||◌, List, [], ◌∷◌, Text, js, text_eq, length, all, ltb, leb,
  ◌==◌, Result, ok, err, ◌>>=◌, ◌>>◌, reject, invalid_schema, invalid_metadata,
  descriptor_too_large, metadata_conflict, invalid_signature_encoding,
}
use html_inbox.Json.{Json, undefined, num, str, Fields, get, stringify, byte_length}
use html_inbox.Model.{
  OriginalMetadata, OriginState, Platform, live, deleted, max_descriptor_bytes, max_html_bytes,
}
use html_inbox.Model.Fields.{
  parse_object, assert_exact_keys, parse_string, parse_uuid, parse_safe_id, parse_digest,
  parse_integer, parse_integer_from, parse_choice, is_one, is_safe_document_id, is_base64url,
}
use html_inbox.Model.Codec.{metadata_encoding}

abbrev pub metadata_fields : List Text
metadata_fields =
    js "schemaVersion"
    ∷ js "id"
    ∷ js "title"
    ∷ js "type"
    ∷ js "createdAt"
    ∷ js "sourceFileName"
    ∷ []

-- The units that `String.prototype.trim` takes away.
unfoldable pub is_space : ℕ → Bool
is_space c =
    (leb 9 c && leb c 13)
    || ((c == 32)
        || ((c == 160)
            || ((c == 5760)
                || ((leb 8192 c && leb c 8202)
                    || ((c == 8232)
                        || ((c == 8233)
                            || ((c == 8239)
                                || ((c == 8287) || ((c == 12288) || (c == 65279))))))))))

-- `assertMetadataLength`
unfoldable pub assert_metadata_length : Text → ℕ → Result (Unit {0})
unfolding is_space
assert_metadata_length value maximum =
    reject (all is_space value || ltb maximum (length value)) invalid_metadata

unfoldable pub text_field : Json → Result Text
text_field (str s) = ok s
text_field _ = err invalid_metadata

-- `schemaVersion in value ? value.schemaVersion : 1`, which must be 1.
unfoldable pub is_schema_one : Json → Bool
is_schema_one undefined = true
is_schema_one (num n) = n == 1
is_schema_one _ = false

abbrev pub state_fields : List Text
state_fields =
    js "originInboxId"
    ∷ js "originDocumentId"
    ∷ js "historyEpoch"
    ∷ js "version"
    ∷ js "state"
    ∷ js "metadata"
    ∷ js "sha256"
    ∷ js "byteLength"
    ∷ js "metadataSha256"
    ∷ js "signature"
    ∷ []

-- The last of the 86 characters of an encoding of 64 bytes carries four zero bits.
unfoldable pub is_canonical_end : Text → Bool
is_canonical_end [] = false
is_canonical_end (c ∷ []) = (c == 65) || ((c == 81) || ((c == 103) || (c == 119)))
is_canonical_end (c ∷ d ∷ s) = is_canonical_end (d ∷ s)

unfoldable pub is_signature : Text → Bool
is_signature s = (length s == 86) && (all is_base64url s && is_canonical_end s)

module _ ⦃p : Platform⦄ where
  -- `parseDocumentMetadata` of an object with the six original fields: the branch for `origin` is not
  -- taken, since no such field is there.
  unfoldable pub parse_document_metadata : Fields → Result OriginalMetadata
  unfolding is_schema_one text_field assert_metadata_length
  parse_document_metadata value = do
    reject (not (is_schema_one (get (js "schemaVersion") value))) invalid_schema
    id ← text_field (get (js "id") value)
    reject (not (is_safe_document_id id)) invalid_metadata
    title ← text_field (get (js "title") value)
    type ← text_field (get (js "type") value)
    source_file_name ← text_field (get (js "sourceFileName") value)
    created_at ← text_field (get (js "createdAt") value)
    reject (not (p.is_date created_at)) invalid_metadata
    assert_metadata_length title 200
    assert_metadata_length type 64
    assert_metadata_length source_file_name 255
    ok (record {
      id = id;
      title = title;
      type = type;
      created_at = created_at;
      source_file_name = source_file_name;
    })

  -- `record.schemaVersion !== 1`
  unfoldable pub parse_original_metadata : Json → Result OriginalMetadata
  unfolding parse_document_metadata
  parse_original_metadata value = do
    fields ← parse_object value
    assert_exact_keys fields metadata_fields
    reject (not (is_one (get (js "schemaVersion") fields))) invalid_schema
    parse_document_metadata fields

  unfoldable pub parse_origin_state : Json → Result OriginState
  unfolding parse_original_metadata is_signature is_canonical_end
  parse_origin_state value = do
    fields ← parse_object value
    assert_exact_keys fields state_fields
    reject (ltb max_descriptor_bytes (byte_length (stringify value))) descriptor_too_large
    metadata ← parse_original_metadata (get (js "metadata") fields)
    origin_document_id ← parse_safe_id (get (js "originDocumentId") fields)
    metadata_sha256 ← parse_digest (get (js "metadataSha256") fields)
    reject
        (not (text_eq metadata.id origin_document_id)
          || not (text_eq (p.digest (metadata_encoding metadata)) metadata_sha256))
        metadata_conflict
    signature ← parse_string 86 (get (js "signature") fields)
    reject (not (is_signature signature)) invalid_signature_encoding
    origin_inbox_id ← parse_uuid (get (js "originInboxId") fields)
    history_epoch ← parse_uuid (get (js "historyEpoch") fields)
    version ← parse_integer_from 1 (get (js "version") fields)
    state ←
        parse_choice ((js "live", live) ∷ (js "deleted", deleted) ∷ []) (get (js "state") fields)
    sha256 ← parse_digest (get (js "sha256") fields)
    byte_length ← parse_integer 0 max_html_bytes (get (js "byteLength") fields)
    ok (record {
      unsigned = record {
        origin_inbox_id = origin_inbox_id;
        origin_document_id = origin_document_id;
        history_epoch = history_epoch;
        version = version;
        state = state;
        metadata = metadata;
        sha256 = sha256;
        byte_length = byte_length;
        metadata_sha256 = metadata_sha256;
      };
      signature = signature;
    })
