-- ===== src/Model/Codec.antt =====
-- packages/cli/src/sync-model.ts: what is signed, the fingerprint of a state, and signatures.
use html_inbox.Common.{
  Bool, not, ◌&&◌, List, [], ◌∷◌, Text, js, text_eq, text_lt, map, Result, reject,
  signature_mismatch, if◌then◌else◌, ◌==◌,
}
use html_inbox.Json.{Json, str, num, arr, items, stringify}
use html_inbox.Json.Keys.{canonical_key}
use html_inbox.Model.{
  Platform, OriginalMetadata, UnsignedState, OriginState, Liveness, live, deleted,
}

-- `SYNC_PROTOCOL_VERSION`, `SYNC_SCHEMA_VERSION` and the like are all 1.
abbrev pub metadata_array : OriginalMetadata → Json
metadata_array m = arr (
    items (
      num 1 ∷ str m.id ∷ str m.title ∷ str m.type ∷ str m.created_at ∷ str m.source_file_name ∷ []))

unfoldable pub metadata_encoding : OriginalMetadata → Text
unfolding stringify
metadata_encoding m = stringify (metadata_array m)

abbrev pub state_domain : Text
state_domain = js "html-inbox/sync/v1/origin-state"

abbrev pub liveness_text : Liveness → Text
liveness_text live = js "live"
liveness_text deleted = js "deleted"

unfoldable pub state_encoding : UnsignedState → Text
unfolding stringify
state_encoding s = stringify (
    arr (
      items (
        str state_domain
        ∷ num 1
        ∷ str s.origin_inbox_id
        ∷ str s.origin_document_id
        ∷ str s.history_epoch
        ∷ num s.version
        ∷ str (liveness_text s.state)
        ∷ metadata_array s.metadata
        ∷ str s.sha256
        ∷ num s.byte_length
        ∷ str s.metadata_sha256
        ∷ [])))

-- The key of a state in `ledger.records`.
abbrev pub state_key : UnsignedState → Text
state_key s = canonical_key s.origin_inbox_id s.origin_document_id

unfoldable pub same_immutable_descriptor : UnsignedState → UnsignedState → Bool
same_immutable_descriptor left right =
    text_eq left.history_epoch right.history_epoch
    && (text_eq left.sha256 right.sha256
        && ((left.byte_length == right.byte_length)
            && (text_eq left.metadata_sha256 right.metadata_sha256
                && text_eq (metadata_encoding left.metadata) (metadata_encoding right.metadata))))

module _ ⦃p : Platform⦄ where
  unfoldable pub state_fingerprint : OriginState → Text
  state_fingerprint s = p.digest (state_encoding s.unsigned)

  unfoldable pub sign_origin_state : UnsignedState → Text → OriginState
  sign_origin_state s private_key = record {
    unsigned = s;
    signature = p.sign private_key (state_encoding s);
  }

  unfoldable pub verify_origin_state : OriginState → Text → Result (Unit {0})
  verify_origin_state s public_key =
      reject
        (not (
          p.is_ed25519 public_key && p.verifies public_key (state_encoding s.unsigned) s.signature))
        signature_mismatch

  -- The list sorted by canonical key; `Array.prototype.sort` is stable.
  unfoldable pub insert_by_key : OriginState → List OriginState → List OriginState
  insert_by_key s [] = s ∷ []
  insert_by_key s (t ∷ ts) =
      if text_lt (state_key s.unsigned) (state_key t.unsigned)
      then s ∷ t ∷ ts
      else t ∷ insert_by_key s ts

  unfoldable pub sort_from : List OriginState → List OriginState → List OriginState
  sort_from sorted [] = sorted
  sort_from sorted (s ∷ ss) = sort_from (insert_by_key s sorted) ss

  unfoldable pub sort_by_key : List OriginState → List OriginState
  unfolding sort_from insert_by_key
  sort_by_key states = sort_from [] states

  unfoldable pub inventory_digest : List OriginState → Text
  unfolding sort_by_key stringify
  inventory_digest states = p.digest (
      stringify (
        arr (
          items (
            map (λ s. arr (items (str (state_key s.unsigned) ∷ str (state_fingerprint s) ∷ [])))
              (sort_by_key states)))))
