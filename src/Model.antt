-- ===== src/Model.antt =====
-- packages/cli/src/sync-model.ts and documents.ts: the data of the synchronisation protocol.
-- A field that the source types by the literal 1 (`schemaVersion`, `protocolVersion`) is left out of
-- the record and written by the encoders; so is `domain`.
pub mod Fields
pub mod Codec
pub mod Checked
pub mod Parse
pub mod Routes
use html_inbox.Common.{ℕ, ◌+◌, ◌*◌, ◌-◌, ◌^◌, Bool, true, false, Option, List, Text, ◌&&◌, text_eq}

-- `SYNC_LIMITS`
abbrev pub max_records : ℕ
max_records = 10000

abbrev pub max_ledger_bytes : ℕ
max_ledger_bytes = 64 * 1024 * 1024

abbrev pub max_html_bytes : ℕ
max_html_bytes = 10 * 1024 * 1024

abbrev pub max_descriptor_bytes : ℕ
max_descriptor_bytes = 64 * 1024

abbrev pub manifest_page : ℕ
manifest_page = 128

-- `Number.MAX_SAFE_INTEGER`
abbrev pub max_safe_integer : ℕ
max_safe_integer = 2 ^ 53 - 1

pub data Liveness : Type 0 where
  live deleted : Liveness

pub data Direction : Type 0 where
  inbound outbound : Direction

pub data RouteState : Type 0 where
  active reconnecting detached blocked : RouteState

pub record OriginalMetadata : Type 0 where
  pub id : Text
  pub title : Text
  pub type : Text
  pub created_at : Text
  pub source_file_name : Text

-- The signed part of an origin state: `Omit<OriginState, "signature">`.
pub record UnsignedState : Type 0 where
  pub origin_inbox_id : Text
  pub origin_document_id : Text
  pub history_epoch : Text
  pub version : ℕ
  pub state : Liveness
  pub metadata : OriginalMetadata
  pub sha256 : Text
  pub byte_length : ℕ
  pub metadata_sha256 : Text

pub record OriginState : Type 0 where
  pub unsigned : UnsignedState
  pub open unsigned use *
  pub signature : Text

pub record OriginGrant : Type 0 where
  pub inbox_id : Text
  pub history_epoch : Text
  pub public_key : Text
  pub complete_history : Bool
  pub redistribute : Bool

pub record SyncRoute : Type 0 where
  pub id : Text
  pub revision : ℕ
  pub direction : Direction
  pub peer_id : Text
  pub peer_url : Text
  pub source_inbox_id : Text
  pub destination_inbox_id : Text
  pub local_inbox_name : Text
  pub reader_audience : Text
  pub allowed_origins : List OriginGrant
  pub credential_ref : Text
  pub tls_trust_ref : Text
  pub state : RouteState
  pub last_error : Option Text

pub record RouteAuthorization : Type 0 where
  pub route_id : Text
  pub revision : ℕ
  pub peer_id : Text
  pub source_inbox_id : Text
  pub destination_inbox_id : Text

pub record Scope : Type 0 where
  pub inbox_id : Text
  pub history_epoch : Text

pub record CompleteInventory : Type 0 where
  pub peer_id : Text
  pub route_id : Text
  pub revision : ℕ
  pub scope : List Scope
  pub generation : ℕ
  pub count : ℕ
  pub descriptor_digest : Text
  pub nonce : Text

-- What a WHATWG URL parser reports of a URL.
pub record Url : Type 0 where
  pub protocol : Text
  pub username : Text
  pub password : Text
  pub search : Text
  pub hash : Text
  pub pathname : Text

-- The services of the host that the code calls: `node:crypto`, `Date.parse`, `new URL` and `isIP`. A
-- text stands for its UTF-8 bytes. `octets` are the four numbers of an IPv4 address, `ipv6_hostname`
-- is the URL parser's spelling of an IPv6 address, and `mapped_words` are the numbers after the
-- prefix `::ffff:` of such a spelling.
pub record Platform : Type 0 where
  pub digest : Text → Text
  pub is_ed25519 : Text → Bool
  pub verifies : Text → Text → Text → Bool
  pub sign : Text → Text → Text
  pub is_date : Text → Bool
  pub parse_url : Text → Option Url
  pub ip_family : Text → ℕ
  pub octets : Text → List ℕ
  pub ipv6_hostname : Text → Text
  pub mapped_words : Text → List ℕ

abbrev pub is_live : Liveness → Bool
is_live live = true
is_live deleted = false

abbrev pub is_deleted : Liveness → Bool
is_deleted live = false
is_deleted deleted = true

abbrev pub same_liveness : Liveness → Liveness → Bool
same_liveness live s = is_live s
same_liveness deleted s = is_deleted s

abbrev pub is_inbound : Direction → Bool
is_inbound inbound = true
is_inbound outbound = false

abbrev pub is_outbound : Direction → Bool
is_outbound inbound = false
is_outbound outbound = true

abbrev pub same_direction : Direction → Direction → Bool
same_direction inbound d = is_inbound d
same_direction outbound d = is_outbound d

abbrev pub is_active : RouteState → Bool
is_active active = true
is_active _ = false

abbrev pub is_reconnecting : RouteState → Bool
is_reconnecting reconnecting = true
is_reconnecting _ = false

abbrev pub is_detached : RouteState → Bool
is_detached detached = true
is_detached _ = false

abbrev pub is_blocked : RouteState → Bool
is_blocked blocked = true
is_blocked _ = false
