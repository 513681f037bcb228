-- ===== src/Server/Manifest.antt =====
-- packages/cli/src/sync-http-server.ts: the endpoint `manifest`.
use html_inbox.Common.{
  adjust, ℕ, ◌+◌, ◌*◌, suc, zero, Bool, true, false, not, ◌&&◌, ◌||◌, List, [], ◌∷◌, ◌++◌, Option,
  none, some, Text, js, text_eq, length, ltb, ◌==◌, if◌then◌else◌, Result, ok, err, ◌>>=◌, ◌>>◌,
  reject, require, protocol_error, Fault, remove,
}
use html_inbox.Model.{
  OriginState, SyncRoute, CompleteInventory, is_outbound, is_inbound, manifest_page,
  max_ledger_bytes,
}
use html_inbox.Ledger.Encode.{of_inventory}
use html_inbox.Policy.Grants.{route_origin_grant}
use html_inbox.Store.Outbound.{InventoryReadiness}
use html_inbox.Wire.{ManifestPage, unauthorized}
use html_inbox.Wire.Progress.{validate_page_progress}
use html_inbox.Server.{
  Session, Verified, pushing, completing, activating, Server, Reply, waiting, page, continued,
  ready, active, completed,
}
use html_inbox.Server.Sessions.{check_cache, release, states_size, suspend}

-- `states.slice(offset, offset + size)`
abbrev pub take {ℓ} : {A : Type ℓ} → ℕ → List A → List A
take zero xs = []
take (suc n) [] = []
take (suc n) (x ∷ xs) = x ∷ take n xs

abbrev pub drop {ℓ} : {A : Type ℓ} → ℕ → List A → List A
drop zero xs = xs
drop (suc n) [] = []
drop (suc n) (x ∷ xs) = drop n xs

abbrev pub has_none {ℓ} : {A : Type ℓ} → Option A → Bool
has_none none = true
has_none (some a) = false

unfoldable pub same_cursor : Option Text → Option Text → Bool
same_cursor none none = true
same_cursor (some s) (some t) = text_eq s t
same_cursor none (some t) = false
same_cursor (some s) none = false

-- The page that `pull` answers with; `token` is what `opaqueToken` returns.
unfoldable pub page_of : Session → CompleteInventory → Text → ManifestPage
page_of session evidence token =
    let offset = session.page_number * manifest_page in
    let descriptors = take manifest_page (drop offset session.states) in
    record {
      evidence = evidence;
      page_number = session.page_number;
      descriptors = descriptors;
      next_cursor =
          if ltb (offset + length descriptors) (length session.states) then some token else none;
    }

unfoldable pub pulled : ManifestPage → Session → Session
pulled sent session = record session {
  page_number = session.page_number + 1;
  cursor = sent.next_cursor;
  ready = has_none sent.next_cursor || session.ready;
}

abbrev invalid_transition : Fault
invalid_transition = protocol_error 409 (js "invalid-history-transition")

-- The operation `pull`, which waits for nothing.
unfoldable pub pull_page : Session → Option Text → Text → Result (ManifestPage × Session)
unfolding page_of pulled same_cursor
pull_page session cursor token = do
  reject (not (is_outbound session.direction) || session.ready) invalid_transition
  evidence ← require session.evidence invalid_transition
  reject (not (same_cursor cursor session.cursor)) (protocol_error 409 (js "invalid-cursor"))
  ok (page_of session evidence token, pulled (page_of session evidence token) session)

unfoldable pub pull_in : Session → Option Text → Text → Server → Result Reply × Server
unfolding pull_page adjust
pull_in session cursor token server = elim (pull_page session cursor token) [
  | err thrown ↦ (err thrown, server)
  | ok answer ↦ (
    ok (page answer.0),
    record server { sessions = adjust session.id (λ s. answer.1) server.sessions },
  )
]

-- The evidence answers this session's challenge on the authorized route.
unfoldable pub answers_challenge : Session → Verified → CompleteInventory → Bool
answers_challenge session verified evidence =
    text_eq evidence.nonce session.challenge_nonce
    && (text_eq evidence.peer_id verified.auth.peer_id
        && (text_eq evidence.route_id verified.auth.route_id
            && (evidence.revision == verified.auth.revision)))

-- `checkOrigin`
unfoldable pub check_origin : SyncRoute → OriginState → Result (Unit {0})
unfolding route_origin_grant
check_origin route state =
    reject (has_none (route_origin_grant route state.origin_inbox_id (some state.history_epoch)))
      unauthorized

-- The operation `push` until it gives the first state to the store; the answer is the session's bytes.
unfoldable pub check_push : Session → Verified → ManifestPage → Server → Result ℕ
unfolding validate_page_progress answers_challenge check_cache states_size
check_push session verified sent server = do
  reject (not (is_inbound session.direction) || session.ready) invalid_transition
  validate_page_progress sent session.states session.page_number session.evidence
  reject (not (answers_challenge session verified sent.evidence))
      (protocol_error 409 (js "challenge-conflict"))
  check_cache (states_size sent.descriptors) server.sessions
  reject (ltb max_ledger_bytes (session.bytes + states_size sent.descriptors))
      (protocol_error 413 (js "inventory-limit"))
  ok (session.bytes + states_size sent.descriptors)

unfoldable pub push_in : Session → Verified → ManifestPage → Server → Result Reply × Server
unfolding check_push suspend
push_in session verified sent server = elim (check_push session verified sent server) [
  | err thrown ↦ (err thrown, server)
  | ok bytes ↦ (
    ok waiting,
    suspend session.id (pushing verified sent) (λ s. record s { bytes = bytes }) session server,
  )
]

-- The states of the page are taken once the store has applied its terminal ones.
unfoldable pub taken : ManifestPage → Session → Session
taken sent session = record session {
  evidence = some sent.evidence;
  states = session.states ++ sent.descriptors;
  page_number = session.page_number + 1;
}

-- `push` once each state was in scope and each terminal one applied, or one of them threw.
unfoldable pub push_taken :
    Text → Verified → ManifestPage → Session → Result (Unit {0}) → Server → Result Reply × Server
unfolding taken release suspend
push_taken id verified sent session (err thrown) server = (err thrown, release id (λ s. s) server)
push_taken id verified sent session (ok _) server =
    if has_none sent.next_cursor
    then (ok waiting, suspend id (completing verified sent) (taken sent) session server)
    else (ok continued, release id (taken sent) server)

unfoldable pub readiness_of : Verified → Session → CompleteInventory → Text → InventoryReadiness
unfolding of_inventory
readiness_of verified session evidence peer_id = record {
  kind = js "terminal-inventory-ready";
  evidence = of_inventory evidence;
  ack_nonce = session.request_nonce;
  receiver_peer_id = peer_id;
  destination_inbox_id = verified.route.destination_inbox_id;
  storage_incarnation = session.local_incarnation;
}

-- `push` of the last page once `completeInventory` has answered.
unfoldable pub push_completed :
    Text
    → Verified
    → Session
    → CompleteInventory
    → Result (Unit {0})
    → Server
    → Result Reply × Server
unfolding release readiness_of
push_completed id verified session evidence (err thrown) server =
    (err thrown, release id (λ s. s) server)
push_completed id verified session evidence (ok _) server = (
  ok (ready (readiness_of verified session evidence server.peer_id)),
  release id (λ s. record s { ready = true }) server,
)

-- The operation `ready` until it waits for `activateOutbound`.
unfoldable pub ready_in : Session → Server → Result Reply × Server
unfolding suspend
ready_in session server =
    if is_outbound session.direction
      && (session.ready && (not session.activated && not (has_none session.evidence)))
    then (ok waiting, suspend session.id activating (λ s. s) session server)
    else (err invalid_transition, server)

unfoldable pub ready_answered : Text → Result (Unit {0}) → Server → Result Reply × Server
unfolding release
ready_answered id (err thrown) server = (err thrown, release id (λ s. s) server)
ready_answered id (ok _) server =
    (ok active, release id (λ s. record s { activated = true }) server)

-- The operation `complete`
unfoldable pub complete_in : Session → Server → Result Reply × Server
complete_in session server =
    (ok completed, record server { sessions = remove session.id server.sessions })
