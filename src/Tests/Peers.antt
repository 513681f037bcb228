-- ===== src/Tests/Peers.antt =====
-- Runs of the server and of the client of one route.
use html_inbox.Common.{
  ℕ, ◌≡◌, ◌⊎◌, ◌≤◌, refl, arith, true, false, [], ◌∷◌, List, Option, none, some, Text, js, Result,
  ok, err, protocol_error, lookup, text_eq,
}
use html_inbox.Json.{Json, obj, fields, str, num}
use html_inbox.Model.{CompleteInventory, SyncRoute, RouteAuthorization, inbound}
use html_inbox.Store.Outbound.{Inventory}
use html_inbox.Wire.{RequestBinding, unauthorized}
use html_inbox.Wire.Classified.{meaning, recognize-classified}
use html_inbox.Wire.Tokens.{parse_token}
use html_inbox.Ledger.Encode.{of_state}
use html_inbox.Ledger.Origin.{parse_origin_state-IsState}
use html_inbox.Wire.Evidence.{create_evidence}
use html_inbox.Wire.Failure.{classify_sync_failure, recognize, remote_failures, is_bound_to}
use html_inbox.Server.{Server, Session, Verified}
use html_inbox.Server.Sessions.{filled, new_session}
use html_inbox.Server.Events.{Event, here, next, identify, answer, inventoried, request, pull, step}
use html_inbox.Server.Sound.{IsSound}
use html_inbox.Server.Reached.{Reach-IsSound}
use html_inbox.Server.Failures.{
  error, denies, is_capacity, limits, mentions, message_failure, protocol_failure, starts_with,
  authorized_failure,
}
use html_inbox.Server.Answered.{recognize-protocol_failure}
use html_inbox.Server.Requests.{
  Endpoint, Head, Local, authenticate, content_length, decimal_value, envelope, is_decimal,
  read_chunks,
}
use html_inbox.Server.Authenticated.{
  IsAuthenticated, authenticate-IsAuthenticated, envelope-IsRead, joined,
}
use html_inbox.Reconciliation.{Pass, Pulling}
use html_inbox.Reconciliation.Exchange.{exchange}
use html_inbox.Reconciliation.Pull.{is_challenge_answered, receive_states, start_pulling}
use html_inbox.Reconciliation.Checks.{verify_remote_state, is_unexpected}
use html_inbox.Reconciliation.Pages.{CanBeSent}
use html_inbox.Reconciliation.Whole.{IsInTime, IsPulled, exchange-IsWhole}
use html_inbox.Reconciliation.Vouched.{IsVouched, pull-IsVouched}
use html_inbox.Tests.Opened.{opened}
use html_inbox.Tests.Data.{
  authorization_of, epoch, host, inbox, other_inbox, outgoing, own_state, peer, route_out, store,
}

abbrev token : Text
token = js "AAAAAAAAAAAAAAAAAAAAAAAAAAAAAAAAAAAAAAAAAAA"

abbrev binding : RequestBinding
binding = record {
  route_id = route_out;
  revision = 1;
  caller_peer_id = peer;
  target_peer_id = other_inbox;
  source_inbox_id = inbox;
  destination_inbox_id = other_inbox;
  caller_storage_incarnation = epoch;
}

abbrev verified : Verified
verified = record {
  auth = authorization_of outgoing;
  binding = binding;
  route = outgoing;
  local_inbox_id = inbox;
  local_incarnation = epoch;
}

abbrev cut : Inventory
cut = record { generation = 7; states = own_state ∷ []; scope = outgoing.allowed_origins }

-- The other end of the route.
abbrev client : SyncRoute
client = record outgoing { direction = inbound }

abbrev tokens : ℕ → Text
tokens n = token

abbrev opened_session : Session
opened_session = filled verified peer cut (new_session verified token token token 10)

abbrev pass : Pass
pass = record {
  authorization = authorization_of client;
  lease_deadline = 1000;
  clock = λ n. n;
  fresh = λ state. record { local_id = js "fresh"; received_at = js "2025-01-01T00:00:00.000Z" };
}

in_time : IsInTime pass (own_state ∷ [])
in_time n h = omega arith

abbrev cut_evidence : CompleteInventory
cut_evidence = create_evidence outgoing peer token cut

can_be_sent : CanBeSent cut_evidence tokens (own_state ∷ [])
unfolding opened create_evidence parse_token
can_be_sent = record {
  evidence_allowed = record {
    peer_id = record { bounded = refl; tested = refl };
    route_id = record { bounded = refl; tested = refl };
    revision = record { at_least = omega arith; at_most = omega arith; exact = omega arith };
    scope =
        ((record { bounded = refl; tested = refl }, record { bounded = refl; tested = refl }), tt);
    few = omega arith;
    distinct = refl;
    generation = record { at_least = omega arith; at_most = omega arith; exact = omega arith };
    count = record { at_least = omega arith; at_most = omega arith; exact = omega arith };
    descriptor_digest = record { bounded = refl; tested = refl };
    nonce = record { bounded = refl; tested = refl };
  };
  tokens_read = λ n. refl;
  allowed = ((parse_origin_state-IsState (of_state own_state) own_state refl, omega arith), tt);
}

pull-IsVouched_example :
    (s : Session) × (q : Pulling) × (exchange 1 pass client token tokens opened_session
        start_pulling store
      ≡ (ok (s, q), store))
    × IsVouched client token (own_state ∷ []) q
unfolding opened receive_states verify_remote_state is_unexpected
pull-IsVouched_example =
    pull-IsVouched pass verified client peer token token token 10 tokens cut 1 store store refl
      (record { same_id = refl; same_revision = refl; same_scope = refl; same_peer = refl }) in_time
      can_be_sent (tt, tt) (omega arith) refl (omega arith) (omega arith) (omega arith)

exchange-IsWhole_example :
    (s : Session) × (q : Pulling) × (exchange 3 pass client token tokens opened_session
        start_pulling store
      ≡ (ok (s, q), store))
    × IsPulled cut_evidence (own_state ∷ []) s q
unfolding opened receive_states verify_remote_state is_unexpected is_challenge_answered
    create_evidence filled new_session
exchange-IsWhole_example =
    exchange-IsWhole pass client token tokens cut_evidence opened_session 3 store store
      (record { way = refl; unread = refl; known = refl; first = refl; unasked = refl }) in_time
      can_be_sent refl (tt, tt) (omega arith) refl (omega arith) (omega arith) (omega arith)

abbrev idle_server : Server
idle_server = record {
  peer_id = peer;
  lease_ms = 1000;
  sessions = [];
  transfers = [];
  handlers = [];
  active_transfers = 0;
  closed = false;
}

idle_server-IsSound : IsSound idle_server
unfolding lookup
idle_server-IsSound = record {
  sessions_fit = omega arith;
  transfers_fit = omega arith;
  cache_fits = omega arith;
  uploads_fit = omega arith;
  named = λ id s e. cc;
  orderly = λ id s e. cc;
  held = λ id h s e k. cc;
  fitting = λ id h e. cc;
  awaited = λ id s e b. cc;
}

abbrev asked : Event
asked = identify verified token token token 5

abbrev answered : Event
answered = answer token (inventoried (ok cut))

abbrev pulled : Event
pulled = request token verified 6 (pull none token)

Reach-IsSound_example : IsSound (step pulled (step answered (step asked idle_server)))
unfolding lookup
Reach-IsSound_example =
    Reach-IsSound idle_server-IsSound
      (next (next (next here asked (refl, refl)) answered tt) pulled tt)

recognize-protocol_failure_example :
    recognize (str (js "resource-limit")) 413 ≡ ok (protocol_error 413 (js "resource-limit"))
unfolding opened protocol_failure is_capacity authorized_failure message_failure denies limits
    mentions starts_with
recognize-protocol_failure_example =
    recognize-protocol_failure (error (js "Ledger capacity")) true tt

recognize-classified_example :
    (lookup (js "session-expired") remote_failures ≡ some 410)
    × (classify_sync_failure (protocol_error 410 (js "session-expired"))
        ≡ (meaning 410 (js "session-expired"), js "session-expired"))
unfolding lookup text_eq recognize is_bound_to remote_failures
recognize-classified_example =
    recognize-classified (js "session-expired") 410 (protocol_error 410 (js "session-expired")) refl

abbrev head : Head
head = record {
  url = js "/sync/v1/identity";
  pathname = js "/sync/v1/identity";
  search = [];
  hash = [];
  method = js "POST";
  content_type = some (js "application/json");
  content_length = some (js "3");
  content_encoding = none;
  transfer_encoding = none;
  expect = none;
  authorization = some (js "Bearer AAAAAAAAAAAAAAAAAAAAAAAAAAAAAAAAAAAAAAAAAAA");
  binding = str (js "binding");
  destroyed = false;
}

abbrev chunks : List (List ℕ)
chunks = (1 ∷ []) ∷ (2 ∷ 3 ∷ []) ∷ []

envelope-IsRead_example :
    ((1 ∷ 2 ∷ 3 ∷ []) ≡ joined chunks) × (3 ≤ 4096) × (content_length (some (js "3")) 4096 ≡ ok 3)
unfolding opened envelope content_length is_decimal decimal_value read_chunks text_eq
envelope-IsRead_example = envelope-IsRead head 4096 chunks (1 ∷ 2 ∷ 3 ∷ []) refl

-- What the header of the binding decodes to.
abbrev decoded : Text → Option Json
decoded text = some (
    obj (
      fields (
        (js "protocolVersion", num 1)
        ∷ (js "routeId", str route_out)
        ∷ (js "revision", num 1)
        ∷ (js "callerPeerId", str peer)
        ∷ (js "targetPeerId", str other_inbox)
        ∷ (js "sourceInboxId", str inbox)
        ∷ (js "destinationInboxId", str other_inbox)
        ∷ (js "callerStorageIncarnation", str epoch)
        ∷ [])))

abbrev credentials : SyncRoute → Json
credentials route = str token

abbrev admit : RouteAuthorization → Result (SyncRoute × Local)
admit auth =
    ok (outgoing, record { inbox_id = inbox; storage_incarnation = epoch; runtime_revision = none })

authenticate-IsAuthenticated_example :
    ((v : Verified) × (authenticate other_inbox none credentials decoded admit Endpoint.identity
          head
        ≡ ok v)
      × IsAuthenticated other_inbox none credentials Endpoint.identity head decoded admit v)
    ⊎ (authenticate other_inbox none credentials decoded admit Endpoint.identity head
        ≡ err unauthorized)
authenticate-IsAuthenticated_example =
    authenticate-IsAuthenticated other_inbox none credentials Endpoint.identity head decoded admit
