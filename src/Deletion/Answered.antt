-- ===== src/Deletion/Answered.antt =====
-- The parent reads what the worker answered.
use html_inbox.Common.{
  ℕ, zero, suc, ◌+◌, ◌≤◌, ◌≡◌, refl, arith, true, false, none, some, Text, js, text_eq, ltb,
  if◌then◌else◌, ok,
}
use html_inbox.Json.{num, Fields, obj, get, stringify, byte_length}
use html_inbox.Model.{Platform, max_safe_integer}
use html_inbox.Ledger.Origin.{IsMetadata}
use html_inbox.Deletion.{
  Cause, Response, Thrown, caused, check_bounded, done, no_cause, of_response, other,
  parse_deletion_error, parse_deletion_response, parse_size, plain, read_cause, refused,
  serialize_cause, serialize_deletion_error, slice, thrown,
}
use html_inbox.Deletion.Serialized.{
  Concerns, built, cause_json, cut_code, parse_deletion_error-serialized,
  parse_own_metadata-of_metadata,
}

unfoldable mutual
  -- What is left of an error on its way, as its class is built again; of its causes two remain.
  pub received : ℕ → Thrown → Thrown
  received depth (thrown class message name code cause) =
      built class (slice 2048 message) (slice 64 name) (cut_code code) (received_cause depth cause)
  received depth (other text) = built plain (slice 2048 text) (slice 64 (js "Error")) none no_cause

  pub received_cause : ℕ → Cause → Cause
  received_cause depth no_cause = no_cause
  received_cause depth (caused error) =
      let cause = received (suc depth) error in if ltb depth 2 then caused cause else no_cause

not_longer : (n : ℕ) → n ≤ 65536 → ltb 65536 n ≡ false
not_longer n h = ground arith

parse_size-num : (n : ℕ) → n ≤ max_safe_integer → parse_size (num n) ≡ ok n
unfolding parse_size
parse_size-num n h = ground arith

check_bounded-obj :
    (fs : Fields) → byte_length (stringify (obj fs)) ≤ 65536 → check_bounded (obj fs) ≡ ok tt
unfolding check_bounded
check_bounded-obj fs small = rw (not_longer (byte_length (stringify (obj fs))) small) refl

unfoldable pub received_response : Response → Response
unfolding received
received_response (done result) = done result
received_response (refused error) = refused (received 0 error)

module _ ⦃p : Platform⦄ (id : Text) where
  unfoldable mutual
    -- The error and its causes are about the document.
    pub IsAbout : Thrown → Type 0
    IsAbout (thrown class message name code cause) = Concerns id class × IsCauseAbout cause
    IsAbout (other text) = Unit {0}

    pub IsCauseAbout : Cause → Type 0
    IsCauseAbout no_cause = Unit {0}
    IsCauseAbout (caused error) = IsAbout error

  mutual
    unfolding IsAbout serialize_deletion_error received

    pub parse-serialize :
        (error : Thrown) (left depth : ℕ)
        → left + depth ≡ 2
        → IsAbout error
        → parse_deletion_error (suc left) id (obj (serialize_deletion_error depth error))
          ≡ ok (received depth error)
    parse-serialize (thrown class message name code cause) left depth e (about, causes) =
        parse_deletion_error-serialized left id class message name code
          (serialize_cause depth cause) (received_cause depth cause) about
          (read-serialize cause left depth e causes)
    parse-serialize (other text) left depth e about =
        parse_deletion_error-serialized left id plain text (js "Error") none none no_cause tt refl

    read-serialize :
        (cause : Cause) (left depth : ℕ)
        → left + depth ≡ 2
        → IsCauseAbout cause
        → read_cause (parse_deletion_error left id) (cause_json (serialize_cause depth cause))
          ≡ ok (received_cause depth cause)
    read-serialize no_cause left depth e about = refl
    read-serialize (caused error) zero depth e about =
        let deep : ltb depth 2 ≡ false = ground arith in rw deep refl
    read-serialize (caused error) (suc left) depth e about =
        let shallow : ltb depth 2 ≡ true = ground arith in
        rw (shallow, parse-serialize error left (suc depth) (omega arith) about) refl

  -- The answer is about the document.
  unfoldable pub IsAnswerAbout : Response → Type 0
  unfolding IsAbout
  IsAnswerAbout (done none) = Unit {0}
  IsAnswerAbout (done (some result)) =
      IsMetadata result.metadata
      × (result.metadata.id ≡ id)
      × (result.reclaimed_bytes ≤ max_safe_integer)
  IsAnswerAbout (refused error) = IsAbout error

  check_bounded-of_response :
      (response : Response)
      → byte_length (stringify (of_response response)) ≤ 65536
      → check_bounded (of_response response) ≡ ok tt
  unfolding of_response
  check_bounded-of_response (done none) small = check_bounded-obj _ small
  check_bounded-of_response (done (some result)) small = check_bounded-obj _ small
  check_bounded-of_response (refused error) small = check_bounded-obj _ small

  -- What the worker answers about a document, in a message of at most 64 KiB and with a size that is a safe
  -- integer, its parent reads. A result comes back as it was. An error comes back in its class, with two of its
  -- causes: a cleanup error with its metadata and the message of its class, without a code; another with its
  -- message and its code cut, and the name `SyntaxError` if it is plain and had it, otherwise `Error`.
  pub parse_deletion_response-of_response :
      (response : Response)
      → IsAnswerAbout response
      → byte_length (stringify (of_response response)) ≤ 65536
      → parse_deletion_response id (of_response response) ≡ ok (received_response response)
  unfolding parse_deletion_response IsAnswerAbout received_response of_response get text_eq
  parse_deletion_response-of_response (done none) about small =
      rw (check_bounded-of_response (done none) small) refl
  parse_deletion_response-of_response (done (some result)) about small =
      rw
        (
          check_bounded-of_response (done (some result)) small,
          parse_own_metadata-of_metadata id result.metadata about.0 about.1,
        )
        (rw (parse_size-num result.reclaimed_bytes about.2) refl)
  parse_deletion_response-of_response (refused error) about small =
      rw (check_bounded-of_response (refused error) small, parse-serialize error 2 0 refl about)
        refl
