-- ===== src/Tests/Data.antt =====
-- A small inbox: one route out, one route in, a document of its own and one from a peer.
use html_inbox.Common.{ℕ, true, false, [], ◌∷◌, none, some, Text, js}
use html_inbox.Json.Keys.{outbox_key}
use html_inbox.Model.{
  OriginalMetadata, OriginState, OriginGrant, SyncRoute, RouteAuthorization, Platform, Liveness,
  live, Direction, inbound, outbound, active,
}
use html_inbox.Model.Codec.{state_key}
use html_inbox.Ledger.{
  ManagedRecord, OutboxEntry, DurableReceipt, SyncLedger, Phase, OwnerAnchor, pending, committed,
}
use html_inbox.Store.{Store, Attempt}

abbrev pub digest_text : Text
digest_text = js "aaaaaaaaaaaaaaaaaaaaaaaaaaaaaaaaaaaaaaaaaaaaaaaaaaaaaaaaaaaaaaaa"

abbrev pub signature_text : Text
signature_text =
    js "AAAAAAAAAAAAAAAAAAAAAAAAAAAAAAAAAAAAAAAAAAAAAAAAAAAAAAAAAAAAAAAAAAAAAAAAAAAAAAAAAAAAAA"

-- A host on which every key signs everything alike.
instance unfoldable pub host : Platform
host = record {
  digest = λ t. digest_text;
  is_ed25519 = λ key. true;
  verifies = λ key message signature. true;
  sign = λ key message. signature_text;
  is_date = λ t. true;
  parse_url = λ t. some (record {
    protocol = js "https:";
    username = [];
    password = [];
    search = [];
    hash = [];
    pathname = js "/";
  });
  ip_family = λ t. 4;
  octets = λ t. 127 ∷ 0 ∷ 0 ∷ 1 ∷ [];
  ipv6_hostname = λ t. t;
  mapped_words = λ t. [];
}

abbrev pub inbox : Text
inbox = js "aaaaaaaa-aaaa-4aaa-8aaa-aaaaaaaaaaaa"

abbrev pub other_inbox : Text
other_inbox = js "bbbbbbbb-bbbb-4bbb-8bbb-bbbbbbbbbbbb"

abbrev pub epoch : Text
epoch = js "cccccccc-cccc-4ccc-8ccc-cccccccccccc"

abbrev pub peer : Text
peer = js "dddddddd-dddd-4ddd-8ddd-dddddddddddd"

abbrev pub route_out : Text
route_out = js "eeeeeeee-eeee-4eee-8eee-eeeeeeeeeeee"

abbrev pub route_in : Text
route_in = js "ffffffff-ffff-4fff-8fff-ffffffffffff"

abbrev pub metadata_of : Text → OriginalMetadata
metadata_of id = record {
  id = id;
  title = js "Title";
  type = js "note";
  created_at = js "2025-01-01T00:00:00.000Z";
  source_file_name = js "a.html";
}

abbrev pub state_of : Text → Text → ℕ → Liveness → OriginState
state_of origin id version liveness = record {
  unsigned = record {
    origin_inbox_id = origin;
    origin_document_id = id;
    history_epoch = epoch;
    version = version;
    state = liveness;
    metadata = metadata_of id;
    sha256 = digest_text;
    byte_length = 3;
    metadata_sha256 = digest_text;
  };
  signature = signature_text;
}

abbrev pub grant_of : Text → OriginGrant
grant_of origin = record {
  inbox_id = origin;
  history_epoch = epoch;
  public_key = js "key";
  complete_history = true;
  redistribute = true;
}

abbrev pub route_of : Text → Direction → Text → Text → OriginGrant → SyncRoute
route_of id direction source destination grant = record {
  id = id;
  revision = 1;
  direction = direction;
  peer_id = peer;
  peer_url = js "https://peer.example";
  source_inbox_id = source;
  destination_inbox_id = destination;
  local_inbox_name = js "home";
  reader_audience = js "home";
  allowed_origins = grant ∷ [];
  credential_ref = js "credential";
  tls_trust_ref = js "trust";
  state = active;
  last_error = none;
}

abbrev pub outgoing : SyncRoute
outgoing = route_of route_out outbound inbox other_inbox (grant_of inbox)

abbrev pub incoming : SyncRoute
incoming = route_of route_in inbound other_inbox inbox (grant_of other_inbox)

abbrev pub authorization_of : SyncRoute → RouteAuthorization
authorization_of route = record {
  route_id = route.id;
  revision = route.revision;
  peer_id = route.peer_id;
  source_inbox_id = route.source_inbox_id;
  destination_inbox_id = route.destination_inbox_id;
}

abbrev pub own_state : OriginState
own_state = state_of inbox (js "mine") 1 live

abbrev pub peer_state : OriginState
peer_state = state_of other_inbox (js "theirs") 4 live

abbrev pub record_of : OriginState → Text → ManagedRecord
record_of state local_id = record {
  origin = state;
  local_id = local_id;
  body_file = none;
  contributions = [];
  suppressed = false;
  provenance = [];
}

abbrev pub own_record : ManagedRecord
own_record = record_of own_state (js "mine")

abbrev pub peer_record : ManagedRecord
peer_record = record_of peer_state (js "theirs")

abbrev pub own_key : Text
own_key = state_key own_state.unsigned

abbrev pub peer_key : Text
peer_key = state_key peer_state.unsigned

abbrev pub own_entry : OutboxEntry
own_entry = record {
  route_id = route_out;
  revision = 1;
  canonical_key = own_key;
  fingerprint = digest_text;
  receiver_storage_incarnation = none;
  receipt_disposition = none;
  attempts = 0;
  next_attempt_at = 0;
  last_error = none;
  disposition = pending;
}

abbrev pub entry_key : Text
entry_key = outbox_key route_out 1 own_key

abbrev pub anchor : OwnerAnchor
anchor = record { home = js "/home/owner"; dev = 1; ino = 2 }

abbrev pub ledger : SyncLedger
ledger = record {
  route_retries = [];
  runtime = none;
  publication_intents = [];
  inbox_id = inbox;
  history_epoch = epoch;
  storage_incarnation = epoch;
  owner_anchor = anchor;
  generation = 7;
  next_origin_version = 2;
  origin_keys = grant_of inbox ∷ grant_of other_inbox ∷ [];
  records = (own_key, own_record) ∷ (peer_key, peer_record) ∷ [];
  routes = (route_out, outgoing) ∷ (route_in, incoming) ∷ [];
  outbox = (entry_key, own_entry) ∷ [];
  receipts = [];
  checkpoints = [];
  history_checkpoints = [];
  migration = record { phase = Phase.complete; enrolled_ids = [] };
  worker = record {
    enabled = true;
    retry_paused = false;
    owner_quarantined = false;
    boot_supervised = false;
    last_run_at = none;
    last_error = none;
  };
}

abbrev pub attempt_of : SyncRoute → Attempt
attempt_of route = record {
  route_id = route.id;
  revision = route.revision;
  locally_initiated = true;
  aborted = false;
}

abbrev pub store : Store
store = record {
  disk = ledger;
  bodies = [];
  owner_keys = (inbox, js "private") ∷ [];
  reader_identity = none;
  has_barrier = true;
  anchor = anchor;
  uncertain = false;
  attempts = attempt_of outgoing ∷ attempt_of incoming ∷ [];
}

-- The receipt of the peer for the own document.
abbrev pub receipt : DurableReceipt
receipt = record {
  receiver_inbox_id = other_inbox;
  storage_incarnation = epoch;
  destination_inbox_id = other_inbox;
  route_id = route_out;
  revision = 1;
  origin_state = own_state;
  fingerprint = digest_text;
  disposition = committed;
}
