-- ===== src/Wire/Tokens.antt =====
-- packages/cli/src/sync-wire.ts: tokens, the binding of a request, and the messages that open a session.
use html_inbox.Common.{
  ℕ, ◌+◌, ◌-◌, ◌%◌, Bool, true, not, ◌&&◌, [], ◌∷◌, Option, Text, js, length, all, leb, ◌==◌,
  if◌then◌else◌, Result, ok, ◌>>=◌, ◌>>◌, reject, require, invalid_json,
}
use html_inbox.Json.{Json, get}
use html_inbox.Model.Fields.{
  parse_object, assert_exact_keys, parse_string, parse_uuid, parse_digest, parse_integer_from,
  parse_choice, is_one, is_base64url, is_upper, is_lower, is_digit,
}
use html_inbox.Model.Routes.{parse_complete_inventory}
use html_inbox.Ledger.Encode.{of_inventory}
use html_inbox.Store.Outbound.{InventoryReadiness}
use html_inbox.Wire.{RequestBinding, IdentityResponse, unauthorized}

-- The six bits that a character of base64url stands for.
unfoldable pub base64url_bits : ℕ → ℕ
base64url_bits c =
    if is_upper c
    then c - 65
    else if is_lower c
    then c - 71
    else if is_digit c
    then c + 4
    else if c == 45
    then 62
    else 63

-- The last character carries no bit beyond the whole bytes: with two characters in the last group four
-- of its bits are zero, with three two of them, and one alone is never printed.
unfoldable pub ends_whole : ℕ → Text → Bool
unfolding base64url_bits
ends_whole size [] = true
ends_whole size (c ∷ []) =
    if size % 4 == 2
    then base64url_bits c % 16 == 0
    else if size % 4 == 3
    then base64url_bits c % 4 == 0
    else size % 4 == 0
ends_whole size (c ∷ d ∷ s) = ends_whole size (d ∷ s)

-- What `opaqueToken` prints and more: 43 to 128 characters that decode to bytes and print the same.
unfoldable pub is_token : Text → Bool
unfolding ends_whole
is_token s =
    leb 43 (length s) && (leb (length s) 128 && (all is_base64url s && ends_whole (length s) s))

unfoldable pub parse_token : Json → Result Text
unfolding is_token
parse_token value = do
  token ← parse_string 128 value
  reject (not (is_token token)) unauthorized
  ok token

-- `parseBinding`: `decoded` is what the text holds as base64url of JSON, if it does.
unfoldable pub parse_binding : (Text → Option Json) → Json → Result RequestBinding
parse_binding decoded encoded = do
  text ← parse_string 2048 encoded
  value ← require (decoded text) invalid_json
  fields ← parse_object value
  assert_exact_keys fields (
      js "protocolVersion"
      ∷ js "routeId"
      ∷ js "revision"
      ∷ js "callerPeerId"
      ∷ js "targetPeerId"
      ∷ js "sourceInboxId"
      ∷ js "destinationInboxId"
      ∷ js "callerStorageIncarnation"
      ∷ [])
  reject (not (is_one (get (js "protocolVersion") fields))) unauthorized
  route_id ← parse_uuid (get (js "routeId") fields)
  revision ← parse_integer_from 1 (get (js "revision") fields)
  caller_peer_id ← parse_uuid (get (js "callerPeerId") fields)
  target_peer_id ← parse_uuid (get (js "targetPeerId") fields)
  source_inbox_id ← parse_uuid (get (js "sourceInboxId") fields)
  destination_inbox_id ← parse_uuid (get (js "destinationInboxId") fields)
  caller_storage_incarnation ← parse_uuid (get (js "callerStorageIncarnation") fields)
  ok (record {
    route_id = route_id;
    revision = revision;
    caller_peer_id = caller_peer_id;
    target_peer_id = target_peer_id;
    source_inbox_id = source_inbox_id;
    destination_inbox_id = destination_inbox_id;
    caller_storage_incarnation = caller_storage_incarnation;
  })

unfoldable pub parse_identity_request : Json → Result Text
unfolding parse_token
parse_identity_request value = do
  fields ← parse_object value
  assert_exact_keys fields (js "nonce" ∷ [])
  parse_token (get (js "nonce") fields)

unfoldable pub parse_identity_response : Json → Result IdentityResponse
unfolding parse_token
parse_identity_response value = do
  fields ← parse_object value
  assert_exact_keys fields (
      js "sessionId"
      ∷ js "requestNonce"
      ∷ js "challengeNonce"
      ∷ js "peerId"
      ∷ js "inboxId"
      ∷ js "storageIncarnation"
      ∷ js "scopeDigest"
      ∷ js "expiresAt"
      ∷ [])
  session_id ← parse_token (get (js "sessionId") fields)
  request_nonce ← parse_token (get (js "requestNonce") fields)
  challenge_nonce ← parse_token (get (js "challengeNonce") fields)
  peer_id ← parse_uuid (get (js "peerId") fields)
  inbox_id ← parse_uuid (get (js "inboxId") fields)
  storage_incarnation ← parse_uuid (get (js "storageIncarnation") fields)
  scope_digest ← parse_digest (get (js "scopeDigest") fields)
  expires_at ← parse_integer_from 0 (get (js "expiresAt") fields)
  ok (record {
    session_id = session_id;
    request_nonce = request_nonce;
    challenge_nonce = challenge_nonce;
    peer_id = peer_id;
    inbox_id = inbox_id;
    storage_incarnation = storage_incarnation;
    scope_digest = scope_digest;
    expires_at = expires_at;
  })

-- `parseReadiness`; `activateOutbound` parses the evidence again, so it is kept as JSON.
unfoldable pub parse_readiness : Json → Result InventoryReadiness
unfolding parse_token
parse_readiness value = do
  fields ← parse_object value
  assert_exact_keys fields (
      js "kind"
      ∷ js "evidence"
      ∷ js "ackNonce"
      ∷ js "receiverPeerId"
      ∷ js "destinationInboxId"
      ∷ js "storageIncarnation"
      ∷ [])
  kind ←
      parse_choice ((js "terminal-inventory-ready", js "terminal-inventory-ready") ∷ [])
        (get (js "kind") fields)
  evidence ← parse_complete_inventory (get (js "evidence") fields)
  ack_nonce ← parse_token (get (js "ackNonce") fields)
  receiver_peer_id ← parse_uuid (get (js "receiverPeerId") fields)
  destination_inbox_id ← parse_uuid (get (js "destinationInboxId") fields)
  storage_incarnation ← parse_uuid (get (js "storageIncarnation") fields)
  ok (record {
    kind = kind;
    evidence = of_inventory evidence;
    ack_nonce = ack_nonce;
    receiver_peer_id = receiver_peer_id;
    destination_inbox_id = destination_inbox_id;
    storage_incarnation = storage_incarnation;
  })
