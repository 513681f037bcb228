-- ===== src/Server/Sessions.antt =====
-- packages/cli/src/sync-http-server.ts: the sessions, their limits, and the endpoint `identity`.
use html_inbox.Common.{
  adjust, delete_where, ℕ, ◌+◌, Bool, true, false, not, ◌&&◌, ◌||◌, List, [], ◌∷◌, none, some, Text,
  js, text_eq, Dict, lookup, put, remove, length, map, leb, ltb, ◌==◌, if◌then◌else◌, Result, ok,
  err, ◌>>=◌, ◌>>◌, reject, require, protocol_error,
}
use html_inbox.Json.{arr, items, stringify, byte_length}
use html_inbox.Model.{OriginState, RouteAuthorization, Platform, is_outbound}
use html_inbox.Ledger.Encode.{of_state}
use html_inbox.Store.Outbound.{Inventory}
use html_inbox.Wire.{RequestBinding, IdentityResponse, max_sessions, max_cached_bytes, unauthorized}
use html_inbox.Wire.Evidence.{create_evidence, scope_digest}
use html_inbox.Server.{Session, Verified, Stage, opening, Server, Reply, waiting, identity}

-- `purgeExpired`
unfoldable pub purge_expired : ℕ → Server → Server
unfolding delete_where
purge_expired now server = record server {
  sessions =
      delete_where (λ session. leb session.expires_at now && not session.busy) server.sessions
        server.sessions;
  transfers =
      delete_where (λ transfer. leb transfer.expires_at now) server.transfers server.transfers;
}

abbrev pub cached_bytes : Dict Session → ℕ
cached_bytes [] = 0
cached_bytes ((id, session) ∷ sessions) = session.bytes + cached_bytes sessions

-- `checkCache`
unfoldable pub check_cache : ℕ → Dict Session → Result (Unit {0})
check_cache additional sessions = do
  reject (ltb max_cached_bytes additional) (protocol_error 413 (js "inventory-limit"))
  reject (ltb max_cached_bytes (cached_bytes sessions + additional))
      (protocol_error 503 (js "session-capacity"))

-- `Buffer.byteLength(JSON.stringify(states))`
unfoldable pub states_size : List OriginState → ℕ
unfolding stringify byte_length of_state
states_size states = byte_length (stringify (arr (items (map of_state states))))

unfoldable pub is_bound_to :
    RouteAuthorization → RequestBinding → Text → RouteAuthorization → RequestBinding → Text → Bool
is_bound_to own_auth own_binding own_incarnation auth binding local_incarnation =
    text_eq own_auth.route_id auth.route_id
    && ((own_auth.revision == auth.revision)
        && (text_eq own_auth.peer_id auth.peer_id
            && (text_eq own_binding.caller_storage_incarnation binding.caller_storage_incarnation
                && text_eq own_incarnation local_incarnation)))

-- `sessionFor`
unfoldable pub session_for : Text → Verified → ℕ → Server → Result Session
unfolding is_bound_to
session_for id verified now server = do
  session ← require (lookup id server.sessions) (protocol_error 410 (js "session-expired"))
  reject (leb session.expires_at now) (protocol_error 410 (js "session-expired"))
  reject
      (not (
          is_bound_to session.auth session.binding session.local_incarnation verified.auth
            verified.binding verified.local_incarnation)
        || session.busy)
      unauthorized
  ok session

abbrev pub with_busy : Bool → Session → Session
with_busy busy session = record session { busy = busy }

-- The handler changes its session and waits, with the session busy. `session` is what it holds.
unfoldable pub suspend : Text → Stage → (Session → Session) → Session → Server → Server
unfolding adjust
suspend id stage change session server = record server {
  sessions = adjust id (λ s. with_busy true (change s)) server.sessions;
  handlers =
      put id (record { session = with_busy true (change session); stage = stage }) server.handlers;
}

-- The handler of the session ends: `session.busy = false`.
unfoldable pub release : Text → (Session → Session) → Server → Server
unfolding adjust
release id change server = record server {
  sessions = adjust id (λ s. with_busy false (change s)) server.sessions;
  handlers = remove id server.handlers;
}

-- The handler ends and its session is deleted.
unfoldable pub drop_session : Text → Server → Server
drop_session id server = record server {
  sessions = remove id server.sessions;
  handlers = remove id server.handlers;
}

unfoldable pub new_session : Verified → Text → Text → Text → ℕ → Session
new_session verified id request_nonce challenge_nonce expires_at = record {
  id = id;
  auth = verified.auth;
  binding = verified.binding;
  local_incarnation = verified.local_incarnation;
  request_nonce = request_nonce;
  challenge_nonce = challenge_nonce;
  expires_at = expires_at;
  direction = verified.route.direction;
  states = [];
  evidence = none;
  cursor = none;
  page_number = 0;
  bytes = 0;
  ready = false;
  activated = false;
  busy = true;
}

-- The slot is taken before the handler waits for the inventory.
unfoldable pub reserved : Verified → Session → Server → Server
reserved verified session server = record server {
  sessions = put session.id session server.sessions;
  handlers =
      put session.id (record { session = session; stage = opening verified }) server.handlers;
}

-- The endpoint `identity` until it waits for the inventory. `id` and `challenge` are what
-- `opaqueToken` returns.
unfoldable pub reserve : Verified → Text → Text → Text → ℕ → Server → Result Reply × Server
unfolding new_session reserved
reserve verified request_nonce id challenge now server =
    if leb max_sessions (length server.sessions)
    then (err (protocol_error 503 (js "session-capacity")), server)
    else (
      ok waiting,
      reserved verified (new_session verified id request_nonce challenge (now + server.lease_ms))
          server,
    )

module _ ⦃p : Platform⦄ where
  unfoldable pub identity_response : Verified → Session → Text → IdentityResponse
  unfolding scope_digest
  identity_response verified session peer_id = record {
    session_id = session.id;
    request_nonce = session.request_nonce;
    challenge_nonce = session.challenge_nonce;
    peer_id = peer_id;
    inbox_id = verified.local_inbox_id;
    storage_incarnation = session.local_incarnation;
    scope_digest = scope_digest verified.route.allowed_origins;
    expires_at = session.expires_at;
  }

  -- The inventory of a session that the peer will pull.
  unfoldable pub filled : Verified → Text → Inventory → Session → Session
  unfolding states_size create_evidence
  filled verified peer_id cut session = record session {
    states = cut.states;
    evidence = some (create_evidence verified.route peer_id session.request_nonce cut);
    bytes = states_size cut.states;
  }

  -- The endpoint `identity` once the store has answered.
  unfoldable pub fill :
      Text → Verified → Session → Result Inventory → Server → Result Reply × Server
  unfolding filled identity_response drop_session release check_cache states_size
  fill id verified session (err thrown) server = (err thrown, drop_session id server)
  fill id verified session (ok cut) server =
      elim (check_cache (states_size cut.states) server.sessions) [
        | err thrown ↦ (err thrown, drop_session id server)
        | ok _ ↦ (
          ok (identity (identity_response verified session server.peer_id)),
          release id (filled verified server.peer_id cut) server,
        )
      ]

  -- An inbound route has no inventory to wait for.
  unfoldable pub open_session :
      Text → Verified → Session → Result Inventory → Server → Result Reply × Server
  unfolding fill identity_response release
  open_session id verified session outcome server =
      if is_outbound verified.route.direction then fill id verified session outcome server else (
        ok (identity (identity_response verified session server.peer_id)),
        release id (λ s. s) server,
      )
