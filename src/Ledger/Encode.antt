-- ===== src/Ledger/Encode.antt =====
-- The ledger as the JSON value that `JSON.stringify(ledger)` prints, and the key of a receipt.
use html_inbox.Common.{List, [], ◌∷◌, Option, none, some, Text, js, map, Dict}
use html_inbox.Json.{
  Json, null, bool, num, str, arr, obj, items, fields, Fields, field, end, stringify,
}
use html_inbox.Json.Keys.{canonical_key}
use html_inbox.Model.{
  OriginalMetadata, OriginState, OriginGrant, SyncRoute, CompleteInventory, Scope, Direction,
  inbound, outbound, RouteState,
}
use html_inbox.Model.Codec.{liveness_text}
use html_inbox.Model.Routes.{manifest_domain}
use html_inbox.Runtime.{SyncTarget, Listener, Timings, TlsFiles, RuntimeConfig}
use html_inbox.Ledger.{
  Attachment, Contribution, Provenance, ManagedRecord, OwnerAnchor, Custody, Disposition,
  OutboxEntry, DurableReceipt, RouteRetryState, Runtime, Phase, Migration, Worker, SyncLedger,
  committed, removed, suppressed, superseded, pending, confirmed, retired, intent, barrier,
  enrolling, forking, complete,
}

abbrev nullable {ℓ} : {T : Type ℓ} → (T → Json) → Option T → Json
nullable f none = null
nullable f (some t) = f t

abbrev list {ℓ} : {T : Type ℓ} → (T → Json) → List T → Json
list f ts = arr (items (map f ts))

abbrev dict_fields {ℓ} : {T : Type ℓ} → (T → Json) → Dict T → Fields
dict_fields f [] = end
dict_fields f ((k, v) ∷ d) = field k (f v) (dict_fields f d)

abbrev dict {ℓ} : {T : Type ℓ} → (T → Json) → Dict T → Json
dict f d = obj (dict_fields f d)

abbrev record_of : List (Text × Json) → Json
record_of ps = obj (fields ps)

abbrev pub direction_text : Direction → Text
direction_text inbound = js "inbound"
direction_text outbound = js "outbound"

abbrev pub route_state_text : RouteState → Text
route_state_text RouteState.active = js "active"
route_state_text RouteState.reconnecting = js "reconnecting"
route_state_text RouteState.detached = js "detached"
route_state_text RouteState.blocked = js "blocked"

abbrev pub attachment_text : Attachment → Text
attachment_text Attachment.attached = js "attached"
attachment_text Attachment.detached = js "detached"

abbrev pub custody_text : Custody → Text
custody_text committed = js "committed"
custody_text removed = js "deleted"
custody_text suppressed = js "suppressed"
custody_text superseded = js "superseded"

abbrev pub disposition_text : Disposition → Text
disposition_text pending = js "pending"
disposition_text confirmed = js "confirmed"
disposition_text Disposition.blocked = js "blocked"
disposition_text retired = js "retired"

abbrev pub phase_text : Phase → Text
phase_text intent = js "intent"
phase_text barrier = js "barrier"
phase_text enrolling = js "enrolling"
phase_text forking = js "forking"
phase_text complete = js "complete"

unfoldable pub of_metadata : OriginalMetadata → Json
of_metadata m = record_of (
    (js "schemaVersion", num 1)
    ∷ (js "id", str m.id)
    ∷ (js "title", str m.title)
    ∷ (js "type", str m.type)
    ∷ (js "createdAt", str m.created_at)
    ∷ (js "sourceFileName", str m.source_file_name)
    ∷ [])

abbrev state_properties : OriginState → List (Text × Json) → List (Text × Json)
state_properties s more =
    (js "originInboxId", str s.origin_inbox_id)
    ∷ (js "originDocumentId", str s.origin_document_id)
    ∷ (js "historyEpoch", str s.history_epoch)
    ∷ (js "version", num s.version)
    ∷ (js "state", str (liveness_text s.state))
    ∷ (js "metadata", of_metadata s.metadata)
    ∷ (js "sha256", str s.sha256)
    ∷ (js "byteLength", num s.byte_length)
    ∷ (js "metadataSha256", str s.metadata_sha256)
    ∷ (js "signature", str s.signature)
    ∷ more

unfoldable pub of_state : OriginState → Json
unfolding of_metadata
of_state s = record_of (state_properties s [])

of_grant : OriginGrant → Json
of_grant g = record_of (
    (js "inboxId", str g.inbox_id)
    ∷ (js "historyEpoch", str g.history_epoch)
    ∷ (js "publicKey", str g.public_key)
    ∷ (js "completeHistory", bool g.complete_history)
    ∷ (js "redistribute", bool g.redistribute)
    ∷ [])

unfoldable pub of_route : SyncRoute → Json
unfolding of_grant
of_route r = record_of (
    (js "id", str r.id)
    ∷ (js "revision", num r.revision)
    ∷ (js "direction", str (direction_text r.direction))
    ∷ (js "peerId", str r.peer_id)
    ∷ (js "peerUrl", str r.peer_url)
    ∷ (js "sourceInboxId", str r.source_inbox_id)
    ∷ (js "destinationInboxId", str r.destination_inbox_id)
    ∷ (js "localInboxName", str r.local_inbox_name)
    ∷ (js "readerAudience", str r.reader_audience)
    ∷ (js "allowedOrigins", list of_grant r.allowed_origins)
    ∷ (js "credentialRef", str r.credential_ref)
    ∷ (js "tlsTrustRef", str r.tls_trust_ref)
    ∷ (js "state", str (route_state_text r.state))
    ∷ (js "lastError", nullable str r.last_error)
    ∷ [])

unfoldable pub of_scope : Scope → Json
of_scope s =
    record_of ((js "inboxId", str s.inbox_id) ∷ (js "historyEpoch", str s.history_epoch) ∷ [])

unfoldable pub of_inventory : CompleteInventory → Json
unfolding of_scope
of_inventory i = record_of (
    (js "protocolVersion", num 1)
    ∷ (js "domain", str manifest_domain)
    ∷ (js "peerId", str i.peer_id)
    ∷ (js "routeId", str i.route_id)
    ∷ (js "revision", num i.revision)
    ∷ (js "scope", list of_scope i.scope)
    ∷ (js "generation", num i.generation)
    ∷ (js "count", num i.count)
    ∷ (js "descriptorDigest", str i.descriptor_digest)
    ∷ (js "nonce", str i.nonce)
    ∷ [])

of_contribution : Contribution → Json
of_contribution c = record_of (
    (js "routeId", str c.route_id)
    ∷ (js "revision", num c.revision)
    ∷ (js "state", str (attachment_text c.state))
    ∷ [])

of_provenance : Provenance → Json
of_provenance q = record_of (
    (js "peerId", str q.peer_id)
    ∷ (js "routeId", str q.route_id)
    ∷ (js "receivedAt", str q.received_at)
    ∷ [])

of_record : ManagedRecord → Json
unfolding of_metadata of_contribution of_provenance
of_record r = record_of (
    state_properties r.origin (
      (js "localId", str r.local_id)
      ∷ (js "bodyFile", nullable str r.body_file)
      ∷ (js "contributions", list of_contribution r.contributions)
      ∷ (js "suppressed", bool r.suppressed)
      ∷ (js "provenance", list of_provenance r.provenance)
      ∷ []))

of_entry : OutboxEntry → Json
of_entry e = record_of (
    (js "routeId", str e.route_id)
    ∷ (js "revision", num e.revision)
    ∷ (js "canonicalKey", str e.canonical_key)
    ∷ (js "fingerprint", str e.fingerprint)
    ∷ (js "receiverStorageIncarnation", nullable str e.receiver_storage_incarnation)
    ∷ (js "receiptDisposition", nullable (λ c. str (custody_text c)) e.receipt_disposition)
    ∷ (js "attempts", num e.attempts)
    ∷ (js "nextAttemptAt", num e.next_attempt_at)
    ∷ (js "lastError", nullable str e.last_error)
    ∷ (js "disposition", str (disposition_text e.disposition))
    ∷ [])

unfoldable pub of_receipt : DurableReceipt → Json
unfolding of_state
of_receipt r = record_of (
    (js "schemaVersion", num 1)
    ∷ (js "receiverInboxId", str r.receiver_inbox_id)
    ∷ (js "storageIncarnation", str r.storage_incarnation)
    ∷ (js "destinationInboxId", str r.destination_inbox_id)
    ∷ (js "routeId", str r.route_id)
    ∷ (js "revision", num r.revision)
    ∷ (js "originState", of_state r.origin_state)
    ∷ (js "fingerprint", str r.fingerprint)
    ∷ (js "disposition", str (custody_text r.disposition))
    ∷ [])

of_retry : RouteRetryState → Json
of_retry t = record_of (
    (js "revision", num t.revision)
    ∷ (js "attempts", num t.attempts)
    ∷ (js "nextAttemptAt", num t.next_attempt_at)
    ∷ (js "lastError", nullable str t.last_error)
    ∷ (js "blocked", bool t.blocked)
    ∷ [])

unfoldable pub of_target : SyncTarget → Json
of_target t =
    record_of
      ((js "peerId", str t.peer_id) ∷ (js "destinationInboxId", str t.destination_inbox_id) ∷ [])

of_listener : Listener → Json
of_listener l =
    record_of
      ((js "host", str l.host) ∷ (js "port", num l.port) ∷ (js "tlsRef", str l.tls_ref) ∷ [])

of_timings : Timings → Json
of_timings t = record_of (
    (js "foregroundMs", num t.foreground_ms)
    ∷ (js "requestMs", num t.request_ms)
    ∷ (js "reconcileMs", num t.reconcile_ms)
    ∷ (js "passMs", num t.pass_ms)
    ∷ [])

of_tls : TlsFiles → Json
of_tls t = record_of ((js "key", str t.key) ∷ (js "cert", str t.cert) ∷ [])

unfoldable pub of_config : RuntimeConfig → Json
unfolding of_target of_listener of_timings of_tls
of_config c = record_of (
    (js "schemaVersion", num 1)
    ∷ (js "intendedTarget", nullable of_target c.intended_target)
    ∷ (js "listener", nullable of_listener c.listener)
    ∷ (js "timings", of_timings c.timings)
    ∷ (js "credentials", dict str c.credentials)
    ∷ (js "trust", dict (nullable str) c.trust)
    ∷ (js "tls", dict of_tls c.tls)
    ∷ [])

of_runtime : Runtime → Json
unfolding of_config
of_runtime r = record_of ((js "revision", num r.revision) ∷ (js "config", of_config r.config) ∷ [])

of_anchor : OwnerAnchor → Json
of_anchor a =
    record_of ((js "home", str a.home) ∷ (js "dev", num a.dev) ∷ (js "ino", num a.ino) ∷ [])

of_migration : Migration → Json
of_migration m =
    record_of
      ((js "phase", str (phase_text m.phase)) ∷ (js "enrolledIds", list str m.enrolled_ids) ∷ [])

of_worker : Worker → Json
of_worker w = record_of (
    (js "enabled", bool w.enabled)
    ∷ (js "retryPaused", bool w.retry_paused)
    ∷ (js "ownerQuarantined", bool w.owner_quarantined)
    ∷ (js "bootSupervised", bool w.boot_supervised)
    ∷ (js "lastRunAt", nullable num w.last_run_at)
    ∷ (js "lastError", nullable str w.last_error)
    ∷ [])

unfoldable pub of_ledger : SyncLedger → Json
unfolding of_retry of_runtime of_target of_anchor of_grant of_record of_route of_entry of_receipt
    of_inventory of_migration of_worker
of_ledger l = record_of (
    (js "schemaVersion", num 1)
    ∷ (js "routeRetries", dict of_retry l.route_retries)
    ∷ (js "runtime", nullable of_runtime l.runtime)
    ∷ (js "publicationIntents", dict (nullable of_target) l.publication_intents)
    ∷ (js "inboxId", str l.inbox_id)
    ∷ (js "historyEpoch", str l.history_epoch)
    ∷ (js "storageIncarnation", str l.storage_incarnation)
    ∷ (js "ownerAnchor", of_anchor l.owner_anchor)
    ∷ (js "generation", num l.generation)
    ∷ (js "nextOriginVersion", num l.next_origin_version)
    ∷ (js "originKeys", list of_grant l.origin_keys)
    ∷ (js "records", dict of_record l.records)
    ∷ (js "routes", dict of_route l.routes)
    ∷ (js "outbox", dict of_entry l.outbox)
    ∷ (js "receipts", dict of_receipt l.receipts)
    ∷ (js "checkpoints", dict of_inventory l.checkpoints)
    ∷ (js "historyCheckpoints", dict of_inventory l.history_checkpoints)
    ∷ (js "migration", of_migration l.migration)
    ∷ (js "worker", of_worker l.worker)
    ∷ [])

-- `receiptKey`
unfoldable pub receipt_key : DurableReceipt → Text
unfolding stringify canonical_key
receipt_key r = stringify (
    arr (
      items (
        str r.route_id
        ∷ num r.revision
        ∷ str (canonical_key r.origin_state.origin_inbox_id r.origin_state.origin_document_id)
        ∷ str r.fingerprint
        ∷ str r.storage_incarnation
        ∷ str (custody_text r.disposition)
        ∷ [])))
