-- ===== src/Deletion.antt =====
-- packages/cli/src/document-deletion-protocol.ts: what the process that deletes a document answers, and how
-- its parent reads it.
pub mod Serialized
pub mod Answered
use html_inbox.Common.{
  ℕ, zero, suc, ◌+◌, Bool, true, false, not, ◌&&◌, ◌||◌, List, [], ◌∷◌, ◌++◌, Option, none, some,
  Text, js, text_eq, length, ltb, leb, ◌==◌, if◌then◌else◌, Result, ok, err, ◌>>=◌, ◌>>◌, reject,
  message_too_long, invalid_response, invalid_result, invalid_worker_error, invalid_error_kind,
  identity_mismatch, not_a_record,
}
use html_inbox.Json.{
  Json, Fields, undefined, null, bool, num, str, obj, fields, get, stringify, byte_length,
}
use html_inbox.Model.{OriginalMetadata, Platform, max_safe_integer}
use html_inbox.Model.Fields.{is_one}
use html_inbox.Model.Parse.{parse_document_metadata}
use html_inbox.Ledger.Encode.{of_metadata}

-- The class of an error: `DocumentIdentityError`, `DocumentCleanupError` or another.
pub data ErrorClass : Type 0 where
  identity : ErrorClass
  cleanup : OriginalMetadata → ErrorClass
  plain : ErrorClass

mutual
  -- An error with its message, its name, its code where it has a textual one, and its cause; `other` is a
  -- thrown value that is no error, by its `String(value)`.
  pub data Thrown : Type 0 where
    thrown : ErrorClass → Text → Text → Option Text → Cause → Thrown
    other : Text → Thrown

  pub data Cause : Type 0 where
    no_cause : Cause
    caused : Thrown → Cause

pub record DeleteResult : Type 0 where
  pub metadata : OriginalMetadata
  pub reclaimed_bytes : ℕ

-- `{ ok: true; result } | { ok: false; error }`
pub data Response : Type 0 where
  done : Option DeleteResult → Response
  refused : Thrown → Response

-- `text.slice(0, n)`
unfoldable pub slice : ℕ → Text → Text
slice zero s = []
slice (suc n) [] = []
slice (suc n) (c ∷ s) = c ∷ slice n s

abbrev pub kind_text : ErrorClass → Text
kind_text identity = js "identity"
kind_text (cleanup metadata) = js "cleanup"
kind_text plain = js "error"

abbrev pub code_fields : Option Text → List (Text × Json) → List (Text × Json)
code_fields none more = more
code_fields (some code) more = (js "code", str (slice 64 code)) ∷ more

abbrev pub metadata_fields : ErrorClass → List (Text × Json) → List (Text × Json)
metadata_fields (cleanup metadata) more = (js "metadata", of_metadata metadata) ∷ more
metadata_fields _ more = more

abbrev pub cause_fields : Option Fields → List (Text × Json)
cause_fields none = []
cause_fields (some cause) = (js "cause", obj cause) ∷ []

-- The object of `serializeDeletionError`, once the cause is serialized.
unfoldable pub serialized : ErrorClass → Text → Text → Option Text → Option Fields → Fields
serialized class message name code cause = fields (
    (js "kind", str (kind_text class))
    ∷ (js "message", str (slice 2048 message))
    ∷ (js "name", str (slice 64 name))
    ∷ code_fields code (metadata_fields class (cause_fields cause)))

unfoldable mutual
  unfolding serialized slice

  -- `serializeDeletionError`
  pub serialize_deletion_error : ℕ → Thrown → Fields
  serialize_deletion_error depth (thrown class message name code cause) =
      serialized class message name code (serialize_cause depth cause)
  serialize_deletion_error depth (other text) = serialized plain text (js "Error") none none

  pub serialize_cause : ℕ → Cause → Option Fields
  serialize_cause depth no_cause = none
  serialize_cause depth (caused error) =
      let cause = serialize_deletion_error (suc depth) error in
      if ltb depth 2 then some cause else none

-- What the worker sends.
unfoldable pub of_response : Response → Json
unfolding serialize_deletion_error
of_response (done none) =
    obj (fields ((js "protocolVersion", num 1) ∷ (js "ok", bool true) ∷ (js "result", null) ∷ []))
of_response (done (some result)) = obj (
    fields (
      (js "protocolVersion", num 1)
      ∷ (js "ok", bool true)
      ∷ (
        js "result",
        obj (
            fields (
              (js "metadata", of_metadata result.metadata)
              ∷ (js "reclaimedBytes", num result.reclaimed_bytes)
              ∷ [])),
      )
      ∷ []))
of_response (refused error) = obj (
    fields (
      (js "protocolVersion", num 1)
      ∷ (js "ok", bool false)
      ∷ (js "error", obj (serialize_deletion_error 0 error))
      ∷ []))

abbrev is_undefined : Json → Bool
is_undefined undefined = true
is_undefined _ = false

-- `assertBoundedMessage`
unfoldable pub check_bounded : Json → Result (Unit {0})
check_bounded value =
    reject (is_undefined value || ltb 65536 (byte_length (stringify value))) message_too_long

-- A string of at most so many units, or none where it may be left out.
abbrev pub short_text : ℕ → Json → Result Text
short_text maximum (str s) = if leb (length s) maximum then ok s else err invalid_worker_error
short_text maximum _ = err invalid_worker_error

abbrev pub short_code : Json → Result (Option Text)
short_code undefined = ok none
short_code value = do code ← short_text 64 value; ok (some code)

abbrev pub fields_or {ℓ} : {A : Type ℓ} → Json → Result A → (Fields → Result A) → Result A
fields_or (obj fs) otherwise use_fields = use_fields fs
fields_or _ otherwise use_fields = otherwise

-- The message of a `DocumentCleanupError`.
abbrev pub cleanup_message : Text
cleanup_message = js "Document was removed from the library, but permanent cleanup failed"

abbrev syntax_error : Text
syntax_error = js "SyntaxError"

-- The name of the class that is built.
abbrev pub built_name : Text → Text
built_name name = if text_eq name syntax_error then syntax_error else js "Error"

-- The bytes that were reclaimed: a safe integer.
unfoldable pub parse_size : Json → Result ℕ
parse_size (num n) = if leb n max_safe_integer then ok n else err invalid_result
parse_size _ = err invalid_result

module _ ⦃p : Platform⦄ where
  -- `parseDocumentMetadata` and `assertMatchingId`
  unfoldable pub parse_own_metadata : Text → Json → Result OriginalMetadata
  parse_own_metadata id value = do
    metadata ← fields_or value (err not_a_record) parse_document_metadata
    reject (not (text_eq metadata.id id)) identity_mismatch
    ok metadata

  -- The error that is built for a kind.
  unfoldable pub build_error : Text → Fields → Text → Text → Option Text → Cause → Result Thrown
  unfolding parse_own_metadata
  build_error id fs message name code cause = elim (get (js "kind") fs) [
    | str kind ↦
        if text_eq kind (js "cleanup")
        then parse_own_metadata id (get (js "metadata") fs)
          >>= (λ metadata. ok (thrown (cleanup metadata) cleanup_message (js "Error") none cause))
        else if text_eq kind (js "identity")
        then ok (thrown identity message (js "Error") code cause)
        else if text_eq kind (js "error")
        then ok (thrown plain message (built_name name) code cause)
        else err invalid_error_kind
    | _ ↦ err invalid_error_kind
  ]

  -- `value.cause === undefined ? undefined : parse(value.cause)`
  abbrev pub read_cause : (Json → Result Thrown) → Json → Result Cause
  read_cause parse undefined = ok no_cause
  read_cause parse value = parse value >>= (λ error. ok (caused error))

  -- `parseDeletionError`; `left` is how many levels it may still read, 3 - depth.
  unfoldable pub parse_deletion_error : ℕ → Text → Json → Result Thrown
  unfolding build_error
  parse_deletion_error zero id value = err invalid_worker_error
  parse_deletion_error (suc left) id value = fields_or value (err invalid_worker_error) (λ fs. do
    message ← short_text 2048 (get (js "message") fs)
    name ← short_text 64 (get (js "name") fs)
    code ← short_code (get (js "code") fs)
    cause ← read_cause (parse_deletion_error left id) (get (js "cause") fs)
    build_error id fs message name code cause)

  abbrev is_null : Json → Bool
  is_null null = true
  is_null _ = false

  -- The two kinds of answers, by `value.ok`.
  abbrev read_flag : Json → Result Response → Result Response → Result Response
  read_flag (bool true) good bad = good
  read_flag (bool false) good bad = bad
  read_flag _ good bad = err invalid_response

  -- `parseDocumentDeletionResponse`
  unfoldable pub parse_deletion_response : Text → Json → Result Response
  unfolding check_bounded parse_deletion_error parse_own_metadata
  parse_deletion_response id value = do
    check_bounded value
    fields_or value (err invalid_response) (λ fs.
        reject (not (is_one (get (js "protocolVersion") fs))) invalid_response
        >> read_flag (get (js "ok") fs)
            (if is_null (get (js "result") fs)
              then ok (done none)
              else fields_or (get (js "result") fs) (err invalid_result) (λ result. do
                size ← parse_size (get (js "reclaimedBytes") result)
                metadata ← parse_own_metadata id (get (js "metadata") result)
                ok (done (some (record { metadata = metadata; reclaimed_bytes = size })))))
            (parse_deletion_error 3 id (get (js "error") fs) >>= (λ error. ok (refused error))))
