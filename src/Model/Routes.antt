-- ===== src/Model/Routes.antt =====
-- packages/cli/src/sync-model.ts: the parsers of grants, routes, authorizations and inventories.
use html_inbox.Common.{
  ℕ, Bool, true, false, not, ◌&&◌, ◌||◌, List, [], ◌∷◌, Text, js, text_eq, all, any, ◌==◌, Result,
  ok, ◌>>=◌, ◌>>◌, reject, require, invalid_public_key, invalid_peer_url, duplicate_origin,
  invalid_inbox_name, invalid_inventory_domain, map,
}
use html_inbox.Json.{Json, get}
use html_inbox.Model.{
  OriginGrant, SyncRoute, RouteAuthorization, Scope, CompleteInventory, Url, Platform, Direction,
  inbound, outbound, RouteState, active, reconnecting, detached, blocked, max_records,
}
use html_inbox.Model.Fields.{
  parse_object, assert_exact_keys, parse_string, parse_uuid, parse_digest, parse_reference,
  parse_integer, parse_integer_from, parse_boolean, parse_nullable_string, parse_choice,
  parse_array, is_one, is_text, is_lower, is_digit,
}

-- `new Set(texts).size === texts.length`
unfoldable pub all_distinct : List Text → Bool
all_distinct [] = true
all_distinct (t ∷ ts) = not (any (text_eq t) ts) && all_distinct ts

-- `/^[a-z0-9][a-z0-9_-]*$/`
is_name_unit : ℕ → Bool
is_name_unit c = is_lower c || is_digit c

is_inbox_name : Text → Bool
unfolding is_name_unit
is_inbox_name [] = false
is_inbox_name (c ∷ s) = is_name_unit c && all (λ d. is_name_unit d || ((d == 95) || (d == 45))) s

is_empty : Text → Bool
is_empty [] = true
is_empty (_ ∷ _) = false

-- An HTTPS origin without credentials or paths.
is_https_origin : Url → Bool
unfolding is_empty
is_https_origin url =
    text_eq url.protocol (js "https:")
    && (is_empty url.username
        && (is_empty url.password
            && (is_empty url.search && (is_empty url.hash && text_eq url.pathname (js "/")))))

abbrev pub direction_choices : List (Text × Direction)
direction_choices = (js "inbound", inbound) ∷ (js "outbound", outbound) ∷ []

abbrev pub route_state_choices : List (Text × RouteState)
route_state_choices =
    (js "active", active)
    ∷ (js "reconnecting", reconnecting)
    ∷ (js "detached", detached)
    ∷ (js "blocked", blocked)
    ∷ []

unfoldable pub parse_authorization : Json → Result RouteAuthorization
parse_authorization value = do
  fields ← parse_object value
  assert_exact_keys fields (
      js "routeId"
      ∷ js "revision"
      ∷ js "peerId"
      ∷ js "sourceInboxId"
      ∷ js "destinationInboxId"
      ∷ [])
  route_id ← parse_uuid (get (js "routeId") fields)
  revision ← parse_integer_from 1 (get (js "revision") fields)
  peer_id ← parse_uuid (get (js "peerId") fields)
  source_inbox_id ← parse_uuid (get (js "sourceInboxId") fields)
  destination_inbox_id ← parse_uuid (get (js "destinationInboxId") fields)
  ok (record {
    route_id = route_id;
    revision = revision;
    peer_id = peer_id;
    source_inbox_id = source_inbox_id;
    destination_inbox_id = destination_inbox_id;
  })

unfoldable pub parse_scope : Json → Result Scope
parse_scope value = do
  origin ← parse_object value
  assert_exact_keys origin (js "inboxId" ∷ js "historyEpoch" ∷ [])
  inbox_id ← parse_uuid (get (js "inboxId") origin)
  history_epoch ← parse_uuid (get (js "historyEpoch") origin)
  ok (record { inbox_id = inbox_id; history_epoch = history_epoch })

abbrev pub manifest_domain : Text
manifest_domain = js "html-inbox/sync/v1/complete-manifest"

unfoldable pub parse_complete_inventory : Json → Result CompleteInventory
unfolding parse_scope all_distinct
parse_complete_inventory value = do
  fields ← parse_object value
  assert_exact_keys fields (
      js "protocolVersion"
      ∷ js "domain"
      ∷ js "peerId"
      ∷ js "routeId"
      ∷ js "revision"
      ∷ js "scope"
      ∷ js "generation"
      ∷ js "count"
      ∷ js "descriptorDigest"
      ∷ js "nonce"
      ∷ [])
  reject
      (not (is_one (get (js "protocolVersion") fields))
        || not (is_text manifest_domain (get (js "domain") fields)))
      invalid_inventory_domain
  scope ← parse_array parse_scope max_records (get (js "scope") fields)
  reject (not (all_distinct (map (λ s. s.inbox_id) scope))) duplicate_origin
  peer_id ← parse_uuid (get (js "peerId") fields)
  route_id ← parse_uuid (get (js "routeId") fields)
  revision ← parse_integer_from 1 (get (js "revision") fields)
  generation ← parse_integer_from 0 (get (js "generation") fields)
  count ← parse_integer 0 max_records (get (js "count") fields)
  descriptor_digest ← parse_digest (get (js "descriptorDigest") fields)
  nonce ← parse_reference (get (js "nonce") fields)
  ok (record {
    peer_id = peer_id;
    route_id = route_id;
    revision = revision;
    scope = scope;
    generation = generation;
    count = count;
    descriptor_digest = descriptor_digest;
    nonce = nonce;
  })

module _ ⦃p : Platform⦄ where
  unfoldable pub parse_origin_grant : Json → Result OriginGrant
  parse_origin_grant value = do
    fields ← parse_object value
    assert_exact_keys fields (
        js "inboxId"
        ∷ js "historyEpoch"
        ∷ js "publicKey"
        ∷ js "completeHistory"
        ∷ js "redistribute"
        ∷ [])
    public_key ← parse_string 1024 (get (js "publicKey") fields)
    reject (not (p.is_ed25519 public_key)) invalid_public_key
    inbox_id ← parse_uuid (get (js "inboxId") fields)
    history_epoch ← parse_uuid (get (js "historyEpoch") fields)
    complete_history ← parse_boolean (get (js "completeHistory") fields)
    redistribute ← parse_boolean (get (js "redistribute") fields)
    ok (record {
      inbox_id = inbox_id;
      history_epoch = history_epoch;
      public_key = public_key;
      complete_history = complete_history;
      redistribute = redistribute;
    })

  unfoldable pub parse_route : Json → Result SyncRoute
  unfolding parse_origin_grant is_https_origin all_distinct is_inbox_name
  parse_route value = do
    fields ← parse_object value
    assert_exact_keys fields (
        js "id"
        ∷ js "revision"
        ∷ js "direction"
        ∷ js "peerId"
        ∷ js "peerUrl"
        ∷ js "sourceInboxId"
        ∷ js "destinationInboxId"
        ∷ js "localInboxName"
        ∷ js "readerAudience"
        ∷ js "allowedOrigins"
        ∷ js "credentialRef"
        ∷ js "tlsTrustRef"
        ∷ js "state"
        ∷ js "lastError"
        ∷ [])
    peer_url ← parse_string 2048 (get (js "peerUrl") fields)
    url ← require (p.parse_url peer_url) invalid_peer_url
    reject (not (is_https_origin url)) invalid_peer_url
    allowed_origins ← parse_array parse_origin_grant max_records (get (js "allowedOrigins") fields)
    reject (not (all_distinct (map (λ g. g.inbox_id) allowed_origins))) duplicate_origin
    local_inbox_name ← parse_string 63 (get (js "localInboxName") fields)
    reject (not (is_inbox_name local_inbox_name)) invalid_inbox_name
    id ← parse_uuid (get (js "id") fields)
    revision ← parse_integer_from 1 (get (js "revision") fields)
    direction ← parse_choice direction_choices (get (js "direction") fields)
    peer_id ← parse_uuid (get (js "peerId") fields)
    source_inbox_id ← parse_uuid (get (js "sourceInboxId") fields)
    destination_inbox_id ← parse_uuid (get (js "destinationInboxId") fields)
    reader_audience ← parse_string 1024 (get (js "readerAudience") fields)
    credential_ref ← parse_reference (get (js "credentialRef") fields)
    tls_trust_ref ← parse_reference (get (js "tlsTrustRef") fields)
    state ← parse_choice route_state_choices (get (js "state") fields)
    last_error ← parse_nullable_string (get (js "lastError") fields)
    ok (record {
      id = id;
      revision = revision;
      direction = direction;
      peer_id = peer_id;
      peer_url = peer_url;
      source_inbox_id = source_inbox_id;
      destination_inbox_id = destination_inbox_id;
      local_inbox_name = local_inbox_name;
      reader_audience = reader_audience;
      allowed_origins = allowed_origins;
      credential_ref = credential_ref;
      tls_trust_ref = tls_trust_ref;
      state = state;
      last_error = last_error;
    })
