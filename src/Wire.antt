-- ===== src/Wire.antt =====
-- packages/cli/src/sync-wire.ts: the messages that two inboxes exchange.
pub mod Tokens
pub mod Parse
pub mod Evidence
pub mod Progress
pub mod Ordered
pub mod Failure
pub mod Classified
use html_inbox.Common.{ℕ, ◌*◌, List, Option, Text, js, Fault, protocol_error}
use html_inbox.Model.{OriginState, CompleteInventory}
use html_inbox.Store.Outbound.{InventoryReadiness}
use html_inbox.Ledger.{DurableReceipt, Custody}

-- `WIRE_LIMITS`
abbrev pub max_sessions : ℕ
max_sessions = 8

abbrev pub max_cached_bytes : ℕ
max_cached_bytes = 128 * 1024 * 1024

abbrev pub max_transfers : ℕ
max_transfers = 16

abbrev pub max_concurrent : ℕ
max_concurrent = 16

abbrev pub max_body_transfers : ℕ
max_body_transfers = 4

pub record RequestBinding : Type 0 where
  pub route_id : Text
  pub revision : ℕ
  pub caller_peer_id : Text
  pub target_peer_id : Text
  pub source_inbox_id : Text
  pub destination_inbox_id : Text
  pub caller_storage_incarnation : Text

pub record IdentityResponse : Type 0 where
  pub session_id : Text
  pub request_nonce : Text
  pub challenge_nonce : Text
  pub peer_id : Text
  pub inbox_id : Text
  pub storage_incarnation : Text
  pub scope_digest : Text
  pub expires_at : ℕ

pub record ManifestPage : Type 0 where
  pub evidence : CompleteInventory
  pub page_number : ℕ
  pub descriptors : List OriginState
  pub next_cursor : Option Text

-- `OfferResponse`: the body is wanted under a transfer that expires, or there is a receipt.
pub data OfferResponse : Type 0 where
  needs_body : Text → ℕ → OfferResponse
  settled : Custody → DurableReceipt → OfferResponse

-- `ManifestRequest`; each begins with the session.
pub data ManifestRequest : Type 0 where
  pull : Text → Option Text → ManifestRequest
  push : Text → ManifestPage → ManifestRequest
  ready : Text → InventoryReadiness → ManifestRequest
  complete : Text → ManifestRequest

abbrev pub unauthorized : Fault
unauthorized = protocol_error 403 (js "unauthorized")
