-- ===== src/Deletion/Serialized.antt =====
-- What the parent reads of an error that the worker has serialized.
use html_inbox.Common.{
  ℕ, zero, suc, ◌≤◌, ◌≡◌, refl, arith, true, [], ◌∷◌, Option, none, some, Text, js, text_eq,
  text_eq_iff, not_a_record, length, ok, err,
}
use html_inbox.Json.{Json, Fields, undefined, str, obj, get}
use html_inbox.Model.{OriginalMetadata, Platform}
use html_inbox.Model.Parse.{parse_document_metadata, is_schema_one, text_field}
use html_inbox.Ledger.Encode.{of_metadata}
use html_inbox.Ledger.Origin.{IsMetadata, assert_metadata_length_complete}
use html_inbox.Deletion.{
  Cause, ErrorClass, Thrown, build_error, built_name, fields_or, cleanup, cleanup_message, identity,
  kind_text, parse_deletion_error, parse_own_metadata, plain, read_cause, serialized, short_code,
  short_text, slice, thrown,
}

pub length-slice : (n : ℕ) (s : Text) → length (slice n s) ≤ n
unfolding slice
length-slice zero s = omega arith
length-slice (suc n) [] = omega arith
length-slice (suc n) (c ∷ s) = ground (arith, length-slice n s)

short_text-slice : (n : ℕ) (s : Text) → short_text n (str (slice n s)) ≡ ok (slice n s)
short_text-slice n s = ground (arith, length-slice n s)

-- The code that is kept.
abbrev pub cut_code : Option Text → Option Text
cut_code none = none
cut_code (some code) = some (slice 64 code)

abbrev code_json : Option Text → Json
code_json none = undefined
code_json (some code) = str (slice 64 code)

abbrev pub cause_json : Option Fields → Json
cause_json none = undefined
cause_json (some cause) = obj cause

short_code-code_json : (code : Option Text) → short_code (code_json code) ≡ ok (cut_code code)
short_code-code_json none = refl
short_code-code_json (some code) = rw (short_text-slice 64 code) refl

module _ (message name : Text) where
  get_code :
      (class : ErrorClass) (code : Option Text) (cause : Option Fields)
      → get (js "code") (serialized class message name code cause) ≡ code_json code
  unfolding get serialized text_eq
  get_code class (some code) cause = refl
  get_code identity none none = refl
  get_code identity none (some cause) = refl
  get_code plain none none = refl
  get_code plain none (some cause) = refl
  get_code (cleanup metadata) none none = refl
  get_code (cleanup metadata) none (some cause) = refl

  get_cause :
      (class : ErrorClass) (code : Option Text) (cause : Option Fields)
      → get (js "cause") (serialized class message name code cause) ≡ cause_json cause
  unfolding get serialized text_eq
  get_cause identity none none = refl
  get_cause identity none (some cause) = refl
  get_cause plain none none = refl
  get_cause plain none (some cause) = refl
  get_cause (cleanup metadata) none none = refl
  get_cause (cleanup metadata) none (some cause) = refl
  get_cause identity (some code) none = refl
  get_cause identity (some code) (some cause) = refl
  get_cause plain (some code) none = refl
  get_cause plain (some code) (some cause) = refl
  get_cause (cleanup metadata) (some code) none = refl
  get_cause (cleanup metadata) (some code) (some cause) = refl

  get_metadata :
      (metadata : OriginalMetadata) (code : Option Text) (cause : Option Fields)
      → get (js "metadata") (serialized (cleanup metadata) message name code cause)
        ≡ of_metadata metadata
  unfolding get serialized text_eq
  get_metadata metadata none cause = refl
  get_metadata metadata (some code) cause = refl

  get_fixed :
      (class : ErrorClass) (code : Option Text) (cause : Option Fields)
      → (get (js "kind") (serialized class message name code cause) ≡ str (kind_text class))
        × (get (js "message") (serialized class message name code cause) ≡ str (slice 2048 message))
        × (get (js "name") (serialized class message name code cause) ≡ str (slice 64 name))
  unfolding get serialized text_eq
  get_fixed class code cause = (refl, refl, refl)

-- The error of a class, as the parent builds it from its parts.
abbrev pub built : ErrorClass → Text → Text → Option Text → Cause → Thrown
built identity message name code cause = thrown identity message (js "Error") code cause
built plain message name code cause = thrown plain message (built_name name) code cause
built (cleanup metadata) message name code cause =
    thrown (cleanup metadata) cleanup_message (js "Error") none cause

module _ ⦃p : Platform⦄ where
  -- The metadata that an error carries is that of the document.
  abbrev pub Concerns : Text → ErrorClass → Type 0
  Concerns id identity = Unit {0}
  Concerns id plain = Unit {0}
  Concerns id (cleanup metadata) = IsMetadata metadata × (metadata.id ≡ id)

  parse_document_metadata-of_metadata :
      (m : OriginalMetadata)
      → IsMetadata m
      → fields_or (of_metadata m) (err not_a_record) parse_document_metadata ≡ ok m
  unfolding parse_document_metadata of_metadata get text_eq is_schema_one text_field
  parse_document_metadata-of_metadata m h =
      let a = h.id in
      let b = h.created_at in
      rw
        (
          a,
          b,
          assert_metadata_length_complete 200 m.title h.title,
          assert_metadata_length_complete 64 m.type h.type,
          assert_metadata_length_complete 255 m.source_file_name h.source_file_name,
        )
        refl

  pub parse_own_metadata-of_metadata :
      (id : Text) (m : OriginalMetadata)
      → IsMetadata m
      → m.id ≡ id
      → parse_own_metadata id (of_metadata m) ≡ ok m
  unfolding parse_own_metadata
  parse_own_metadata-of_metadata id m h same =
      let own : text_eq m.id id ≡ true = ground (arith, text_eq_iff m.id id) in
      rw (parse_document_metadata-of_metadata m h, own) refl

  build_error-serialized :
      (id : Text) (class : ErrorClass) (message name cut_name : Text) (code kept : Option Text)
      (cause : Option Fields) (read : Cause)
      → Concerns id class
      → build_error id
          (serialized class message name code cause)
          (slice 2048 message)
          cut_name
          kept
          read
        ≡ ok (built class (slice 2048 message) cut_name kept read)
  unfolding build_error text_eq
  build_error-serialized id identity message name cut_name code kept cause read h =
      rw ((get_fixed message name identity code cause).0, build_error) refl
  build_error-serialized id plain message name cut_name code kept cause read h =
      rw ((get_fixed message name plain code cause).0, build_error) refl
  build_error-serialized id (cleanup metadata) message name cut_name code kept cause read h =
      rw
        (
          (get_fixed message name (cleanup metadata) code cause).0,
          get_metadata message name metadata code cause,
          parse_own_metadata-of_metadata id metadata h.0 h.1,
          build_error,
        )
        refl

  -- A level is read where its cause is.
  pub parse_deletion_error-serialized :
      (left : ℕ) (id : Text) (class : ErrorClass) (message name : Text) (code : Option Text)
      (cause : Option Fields) (read : Cause)
      → Concerns id class
      → read_cause (parse_deletion_error left id) (cause_json cause) ≡ ok read
      → parse_deletion_error (suc left) id (obj (serialized class message name code cause))
        ≡ ok (built class (slice 2048 message) (slice 64 name) (cut_code code) read)
  unfolding parse_deletion_error
  parse_deletion_error-serialized left id class message name code cause read h reads =
      let fixed = get_fixed message name class code cause in
      rw
        (
          fixed.1,
          fixed.2,
          get_code message name class code cause,
          get_cause message name class code cause,
          short_text-slice 2048 message,
          short_text-slice 64 name,
          short_code-code_json code,
          reads,
        )
        (build_error-serialized id class message name (slice 64 name) code (cut_code code) cause
          read h)
