-- ===== src/Ledger/Parse.antt =====
-- packages/cli/src/sync-ledger.ts: the parsers of the ledger's entries.
use html_inbox.Common.{
  ℕ, Bool, true, false, not, ◌&&◌, ◌||◌, List, [], ◌∷◌, ◌++◌, Option, none, Text, js, map, Dict,
  text_eq, length, ltb, ◌==◌, if◌then◌else◌, Result, ok, ◌>>=◌, ◌>>◌, reject, invalid_schema,
  receipt_fingerprint_conflict, receipt_disposition_conflict, capacity_exceeded, invalid_body_file,
  duplicate_contribution, invalid_provenance,
}
use html_inbox.Json.{Json, obj, Fields, fields, get, has_own, entries}
use html_inbox.Model.{Platform, Liveness, live, deleted}
use html_inbox.Model.Fields.{
  parse_object, assert_exact_keys, parse_string, parse_uuid, parse_safe_id, parse_reference,
  parse_integer_from, parse_boolean, parse_nullable_string, parse_choice, parse_array,
  parse_nullable, is_one, is_lower_hex,
}
use html_inbox.Model.Codec.{state_fingerprint}
use html_inbox.Model.Parse.{parse_origin_state}
use html_inbox.Model.Routes.{all_distinct}
use html_inbox.Ledger.{
  Attachment, Contribution, Provenance, ManagedRecord, Custody, Disposition, OutboxEntry,
  DurableReceipt, RouteRetryState, committed, removed, suppressed, superseded, pending, confirmed,
  retired,
}

parse_entries {ℓ} : {T : Type ℓ} → (Json → Result T) → List (Text × Json) → Result (Dict T)
parse_entries parse [] = ok []
parse_entries parse ((key, item) ∷ more) = do
  value ← parse item
  rest ← parse_entries parse more
  ok ((key, value) ∷ rest)

-- `dictionary`
unfoldable pub dictionary {ℓ} : {T : Type ℓ} → (Json → Result T) → ℕ → Json → Result (Dict T)
unfolding parse_entries
dictionary parse maximum value = do
  record_fields ← parse_object value
  reject (ltb maximum (length (entries record_fields))) capacity_exceeded
  parse_entries parse (entries record_fields)

abbrev custody_choices : List (Text × Custody)
custody_choices =
    (js "committed", committed)
    ∷ (js "deleted", removed)
    ∷ (js "suppressed", suppressed)
    ∷ (js "superseded", superseded)
    ∷ []

abbrev disposition_choices : List (Text × Disposition)
disposition_choices =
    (js "pending", pending)
    ∷ (js "confirmed", confirmed)
    ∷ (js "blocked", Disposition.blocked)
    ∷ (js "retired", retired)
    ∷ []

-- A live state is not deleted, and a deleted one is neither committed nor suppressed.
unfoldable pub custody_conflicts : Liveness → Custody → Bool
custody_conflicts live removed = true
custody_conflicts deleted committed = true
custody_conflicts deleted suppressed = true
custody_conflicts _ _ = false

parse_contribution : Json → Result Contribution
parse_contribution value = do
  contribution ← parse_object value
  assert_exact_keys contribution (js "routeId" ∷ js "revision" ∷ js "state" ∷ [])
  route_id ← parse_uuid (get (js "routeId") contribution)
  revision ← parse_integer_from 1 (get (js "revision") contribution)
  state ←
      parse_choice
        ((js "attached", Attachment.attached) ∷ (js "detached", Attachment.detached) ∷ [])
        (get (js "state") contribution)
  ok (record { route_id = route_id; revision = revision; state = state })

-- `/^[a-f0-9-]{36}\.html$/`
all_name_units : ℕ → Text → Bool
all_name_units Prim.Native.Nat.zero s = text_eq s (js ".html")
all_name_units (Prim.Native.Nat.suc n) [] = false
all_name_units (Prim.Native.Nat.suc n) (c ∷ s) = (is_lower_hex c || (c == 45)) && all_name_units n s

parse_body_file : Json → Result Text
unfolding all_name_units
parse_body_file value = do
  name ← parse_string 64 value
  reject (not (all_name_units 36 name)) invalid_body_file
  ok name

unfoldable pub parse_route_retry : Json → Result RouteRetryState
parse_route_retry value = do
  fields ← parse_object value
  assert_exact_keys fields
      (js "revision" ∷ js "attempts" ∷ js "nextAttemptAt" ∷ js "lastError" ∷ js "blocked" ∷ [])
  revision ← parse_integer_from 1 (get (js "revision") fields)
  attempts ← parse_integer_from 0 (get (js "attempts") fields)
  next_attempt_at ← parse_integer_from 0 (get (js "nextAttemptAt") fields)
  last_error ← parse_nullable_string (get (js "lastError") fields)
  blocked ← parse_boolean (get (js "blocked") fields)
  ok (record {
    revision = revision;
    attempts = attempts;
    next_attempt_at = next_attempt_at;
    last_error = last_error;
    blocked = blocked;
  })

abbrev outbox_keys : List Text
outbox_keys =
    js "routeId"
    ∷ js "revision"
    ∷ js "canonicalKey"
    ∷ js "fingerprint"
    ∷ js "receiverStorageIncarnation"
    ∷ js "attempts"
    ∷ js "nextAttemptAt"
    ∷ js "lastError"
    ∷ js "disposition"
    ∷ []

-- The property `receiptDisposition` may be missing, which reads as null.
parse_receipt_disposition : Fields → Result (Option Custody)
parse_receipt_disposition fields =
    if has_own (js "receiptDisposition") fields
    then parse_nullable (parse_choice custody_choices) (get (js "receiptDisposition") fields)
    else ok none

unfoldable pub parse_outbox : Json → Result OutboxEntry
unfolding parse_receipt_disposition has_own
parse_outbox value = do
  fields ← parse_object value
  receipt_disposition ← parse_receipt_disposition fields
  assert_exact_keys fields (
      if has_own (js "receiptDisposition") fields
      then outbox_keys ++ js "receiptDisposition" ∷ []
      else outbox_keys)
  route_id ← parse_uuid (get (js "routeId") fields)
  revision ← parse_integer_from 1 (get (js "revision") fields)
  canonical_key ← parse_string 512 (get (js "canonicalKey") fields)
  fingerprint ← parse_reference (get (js "fingerprint") fields)
  incarnation ← parse_nullable parse_uuid (get (js "receiverStorageIncarnation") fields)
  attempts ← parse_integer_from 0 (get (js "attempts") fields)
  next_attempt_at ← parse_integer_from 0 (get (js "nextAttemptAt") fields)
  last_error ← parse_nullable_string (get (js "lastError") fields)
  disposition ← parse_choice disposition_choices (get (js "disposition") fields)
  ok (record {
    route_id = route_id;
    revision = revision;
    canonical_key = canonical_key;
    fingerprint = fingerprint;
    receiver_storage_incarnation = incarnation;
    receipt_disposition = receipt_disposition;
    attempts = attempts;
    next_attempt_at = next_attempt_at;
    last_error = last_error;
    disposition = disposition;
  })

-- `parseOriginState({ originInboxId: record.originInboxId, … })`
abbrev projected_state : Fields → Json
projected_state f =
    let pick : Text → Text × Json = λ k. (k, get k f) in
    obj (
      fields (
        pick (js "originInboxId")
        ∷ pick (js "originDocumentId")
        ∷ pick (js "historyEpoch")
        ∷ pick (js "version")
        ∷ pick (js "state")
        ∷ pick (js "metadata")
        ∷ pick (js "sha256")
        ∷ pick (js "byteLength")
        ∷ pick (js "metadataSha256")
        ∷ pick (js "signature")
        ∷ []))

module _ ⦃p : Platform⦄ where
  unfoldable pub parse_receipt : Json → Result DurableReceipt
  parse_receipt value = do
    fields ← parse_object value
    assert_exact_keys fields (
        js "schemaVersion"
        ∷ js "receiverInboxId"
        ∷ js "storageIncarnation"
        ∷ js "destinationInboxId"
        ∷ js "routeId"
        ∷ js "revision"
        ∷ js "originState"
        ∷ js "fingerprint"
        ∷ js "disposition"
        ∷ [])
    reject (not (is_one (get (js "schemaVersion") fields))) invalid_schema
    origin_state ← parse_origin_state (get (js "originState") fields)
    fingerprint ← parse_string 64 (get (js "fingerprint") fields)
    reject (not (text_eq fingerprint (state_fingerprint origin_state))) receipt_fingerprint_conflict
    disposition ← parse_choice custody_choices (get (js "disposition") fields)
    reject (custody_conflicts origin_state.state disposition) receipt_disposition_conflict
    receiver_inbox_id ← parse_uuid (get (js "receiverInboxId") fields)
    storage_incarnation ← parse_uuid (get (js "storageIncarnation") fields)
    destination_inbox_id ← parse_uuid (get (js "destinationInboxId") fields)
    route_id ← parse_uuid (get (js "routeId") fields)
    revision ← parse_integer_from 1 (get (js "revision") fields)
    ok (record {
      receiver_inbox_id = receiver_inbox_id;
      storage_incarnation = storage_incarnation;
      destination_inbox_id = destination_inbox_id;
      route_id = route_id;
      revision = revision;
      origin_state = origin_state;
      fingerprint = fingerprint;
      disposition = disposition;
    })

  parse_provenance : Json → Result Provenance
  parse_provenance value = do
    provenance ← parse_object value
    assert_exact_keys provenance (js "peerId" ∷ js "routeId" ∷ js "receivedAt" ∷ [])
    received_at ← parse_string 4096 (get (js "receivedAt") provenance)
    reject (not (p.is_date received_at)) invalid_provenance
    peer_id ← parse_uuid (get (js "peerId") provenance)
    route_id ← parse_uuid (get (js "routeId") provenance)
    ok (record { peer_id = peer_id; route_id = route_id; received_at = received_at })

  unfoldable pub parse_managed_record : Json → Result ManagedRecord
  unfolding parse_body_file parse_contribution parse_provenance
  parse_managed_record value = do
    fields ← parse_object value
    assert_exact_keys fields (
        js "originInboxId"
        ∷ js "originDocumentId"
        ∷ js "historyEpoch"
        ∷ js "version"
        ∷ js "state"
        ∷ js "metadata"
        ∷ js "sha256"
        ∷ js "byteLength"
        ∷ js "metadataSha256"
        ∷ js "signature"
        ∷ js "localId"
        ∷ js "bodyFile"
        ∷ js "contributions"
        ∷ js "suppressed"
        ∷ js "provenance"
        ∷ [])
    origin ← parse_origin_state (projected_state fields)
    body_file ← parse_nullable parse_body_file (get (js "bodyFile") fields)
    contributions ← parse_array parse_contribution 10000 (get (js "contributions") fields)
    reject (not (all_distinct (map (λ c. c.route_id) contributions))) duplicate_contribution
    local_id ← parse_safe_id (get (js "localId") fields)
    is_suppressed ← parse_boolean (get (js "suppressed") fields)
    provenance ← parse_array parse_provenance 10000 (get (js "provenance") fields)
    ok (record {
      origin = origin;
      local_id = local_id;
      body_file = body_file;
      contributions = contributions;
      suppressed = is_suppressed;
      provenance = provenance;
    })
