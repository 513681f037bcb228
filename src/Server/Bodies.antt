-- ===== src/Server/Bodies.antt =====
-- packages/cli/src/sync-http-server.ts: the endpoints `offer` and `body`, and what ends sessions.
use html_inbox.Common.{
  delete_where, ℕ, ◌+◌, ◌-◌, Bool, true, false, not, ◌&&◌, ◌||◌, List, [], ◌∷◌, Option, none, some,
  Text, js, text_eq, Dict, lookup, put, remove, length, any, leb, ◌==◌, if◌then◌else◌, Result, ok,
  err, ◌>>=◌, ◌>>◌, reject, require, protocol_error, Fault,
}
use html_inbox.Model.{OriginState, Platform, is_outbound}
use html_inbox.Model.Codec.{state_fingerprint}
use html_inbox.Store.{ApplyResult, settled}
use html_inbox.Wire.{max_transfers, max_body_transfers, unauthorized}
use html_inbox.Server.{
  Session, Transfer, Verified, sending, Server, Reply, waiting, needs_body, applied, body,
}
use html_inbox.Server.Sessions.{drop_session, is_bound_to, release, suspend}

abbrev pub new_transfer : Verified → OriginState → ℕ → Transfer
new_transfer verified state expires_at = record {
  auth = verified.auth;
  binding = verified.binding;
  local_incarnation = verified.local_incarnation;
  state = state;
  expires_at = expires_at;
}

-- The endpoint `offer` once `apply` has answered; `id` is what `opaqueToken` returns.
unfoldable pub offer_answered :
    Verified → OriginState → Text → ℕ → Result ApplyResult → Server → Result Reply × Server
offer_answered verified state id now (err thrown) server = (err thrown, server)
offer_answered verified state id now (ok (settled custody receipt)) server =
    (ok (applied (settled custody receipt)), server)
offer_answered verified state id now (ok ApplyResult.needs_body) server =
    if leb max_transfers (length server.transfers)
    then (err (protocol_error 503 (js "transfer-capacity")), server)
    else (
      ok (needs_body id (now + server.lease_ms)),
      record server {
        transfers = put id (new_transfer verified state (now + server.lease_ms)) server.transfers;
      },
    )

-- The checks of `PUT` on the transfer that it names.
unfoldable pub transfer_for : Text → Verified → ℕ → Server → Result Transfer
unfolding is_bound_to
transfer_for id verified now server = do
  transfer ← require (lookup id server.transfers) (protocol_error 410 (js "transfer-expired"))
  reject (leb transfer.expires_at now) (protocol_error 410 (js "transfer-expired"))
  reject
      (not (
        is_bound_to transfer.auth transfer.binding transfer.local_incarnation verified.auth
          verified.binding verified.local_incarnation))
      unauthorized
  ok transfer

-- The transfer is used up whatever follows. `declared` is the content length of a request with the type
-- of bytes, none with another type, or what `contentLength` throws.
unfoldable pub use_transfer :
    Text → Transfer → Result (Option ℕ) → Server → Result OriginState × Server
use_transfer id transfer (err thrown) server =
    (err thrown, record server { transfers = remove id server.transfers })
use_transfer id transfer (ok none) server = (
  err (protocol_error 409 (js "body-length-conflict")),
  record server { transfers = remove id server.transfers },
)
use_transfer id transfer (ok (some size)) server =
    let used = record server { transfers = remove id server.transfers } in
    if not (size == transfer.state.byte_length)
    then (err (protocol_error 409 (js "body-length-conflict")), used)
    else if leb max_body_transfers server.active_transfers
    then (err (protocol_error 503 (js "transfer-capacity")), used)
    else (ok transfer.state, record used { active_transfers = server.active_transfers + 1 })

-- `PUT` until the body is given to the store.
unfoldable pub put_in :
    Text → Verified → Result (Option ℕ) → ℕ → Server → Result OriginState × Server
unfolding transfer_for use_transfer
put_in id verified declared now server = elim (transfer_for id verified now server) [
  | err thrown ↦ (err thrown, server)
  | ok transfer ↦ use_transfer id transfer declared server
]

-- `PUT` once `applyStream` has answered or thrown.
unfoldable pub put_answered : Result ApplyResult → Server → Result Reply × Server
put_answered outcome server = (
  html_inbox.Common.◌>>=◌ outcome (λ result. ok (applied result)),
  record server { active_transfers = server.active_transfers - 1 },
)

-- `invalidateRoute`
unfoldable pub invalidate_route : Text → Server → Server
unfolding delete_where
invalidate_route route_id server = record server {
  sessions =
      delete_where (λ session. text_eq session.auth.route_id route_id) server.sessions
        server.sessions;
  transfers =
      delete_where (λ transfer. text_eq transfer.auth.route_id route_id) server.transfers
        server.transfers;
}

-- `close`
unfoldable pub close : Server → Server
close server = record server { closed = true; sessions = []; transfers = [] }

module _ ⦃p : Platform⦄ where
  -- A session holds the state that a `GET` names.
  unfoldable pub offers : Session → Text → Text → Text → Bool
  unfolding state_fingerprint
  offers session inbox_id document_id fingerprint =
      any
        (λ state.
          text_eq state.origin_inbox_id inbox_id
          && (text_eq state.origin_document_id document_id
              && text_eq (state_fingerprint state) fingerprint))
        session.states

  -- `GET` until it waits for the pinned document.
  unfoldable pub get_in : Session → Text → Text → Text → Server → Result Reply × Server
  unfolding offers suspend
  get_in session inbox_id document_id fingerprint server =
      if is_outbound session.direction
        && (session.activated && offers session inbox_id document_id fingerprint)
      then (ok waiting, suspend session.id sending (λ s. s) session server)
      else (err unauthorized, server)

  -- `GET` once it has ended; a response that was not written whole ends the session.
  unfoldable pub get_answered :
      Text → Result (Option (List ℕ)) → Bool → Server → Result Reply × Server
  unfolding release drop_session
  get_answered id outcome finished server = (
    html_inbox.Common.◌>>=◌ outcome (λ document.
        html_inbox.Common.◌>>=◌ (require document (protocol_error 503 (js "body-unavailable")))
          (λ bytes. ok (body bytes))),
    if finished then release id (λ s. s) server else drop_session id server,
  )
