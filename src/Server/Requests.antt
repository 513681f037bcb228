-- ===== src/Server/Requests.antt =====
-- packages/cli/src/sync-http-server.ts: what a request must be before a handler serves it. The server's
-- HTTP library gives the method, the headers, the chunks of the body and the parts of the URL.
use html_inbox.Common.{
  ℕ, ◌+◌, ◌*◌, ◌-◌, Bool, true, false, not, ◌&&◌, ◌||◌, List, [], ◌∷◌, ◌++◌, Option, none, some,
  Text, js, text_eq, length, all, any, ltb, ◌==◌, if◌then◌else◌, Result, ok, err, ◌>>=◌, ◌>>◌,
  reject, require, protocol_error,
}
use html_inbox.Json.{Json, num, str}
use html_inbox.Model.{SyncRoute, RouteAuthorization, Direction, Platform, is_inbound, is_outbound}
use html_inbox.Model.Fields.{parse_integer, is_digit}
use html_inbox.Wire.{RequestBinding, max_concurrent, unauthorized}
use html_inbox.Wire.Tokens.{parse_binding, parse_token}
use html_inbox.Server.{Verified}
use html_inbox.Server.Failures.{starts_with}
use html_inbox.Policy.Grants.{route_origin_grant}
use html_inbox.Server.Manifest.{drop, has_none}

pub data Endpoint : Type 0 where
  identity manifest holdings offer body : Endpoint

-- The request, and whether it is destroyed by the time its authorization is admitted.
pub record Head : Type 0 where
  pub url : Text
  pub pathname : Text
  pub search : Text
  pub hash : Text
  pub method : Text
  pub content_type : Option Text
  pub content_length : Option Text
  pub content_encoding : Option Text
  pub transfer_encoding : Option Text
  pub expect : Option Text
  pub authorization : Option Text
  pub binding : Json
  pub destroyed : Bool

-- `/^\/sync\/v1\/(identity|manifest|holdings|offer|body)$/`
unfoldable pub endpoint_of : Text → Option Endpoint
endpoint_of pathname =
    if text_eq pathname (js "/sync/v1/identity")
    then some identity
    else if text_eq pathname (js "/sync/v1/manifest")
    then some manifest
    else if text_eq pathname (js "/sync/v1/holdings")
    then some holdings
    else if text_eq pathname (js "/sync/v1/offer")
    then some offer
    else if text_eq pathname (js "/sync/v1/body")
    then some body
    else none

abbrev pub is_body : Endpoint → Bool
is_body body = true
is_body _ = false

abbrev is_nothing : Text → Bool
is_nothing [] = true
is_nothing (_ ∷ _) = false

-- A header that is there and not empty.
abbrev is_set : Option Text → Bool
is_set none = false
is_set (some s) = not (is_nothing s)

unfoldable pub is_method_of : Endpoint → Text → Bool
is_method_of body method = text_eq method (js "PUT") || text_eq method (js "GET")
is_method_of _ method = text_eq method (js "POST")

-- `handle` until it authenticates. `active` counts this request.
unfoldable pub check_request : Bool → ℕ → Head → Result Endpoint
unfolding endpoint_of is_method_of
check_request closed active head = do
  reject (closed || ltb max_concurrent active) (protocol_error 503 (js "request-capacity"))
  reject (is_nothing head.url || ltb 2048 (length head.url)) unauthorized
  endpoint ← require (endpoint_of head.pathname) unauthorized
  reject (not (is_nothing head.hash) || (not (is_body endpoint) && not (is_nothing head.search)))
      unauthorized
  reject (not (is_method_of endpoint head.method)) unauthorized
  ok endpoint

-- Which endpoints a route serves, by its direction.
unfoldable pub is_allowed : Endpoint → Direction → Text → Bool
is_allowed identity direction method = true
is_allowed manifest direction method = true
is_allowed offer direction method = is_inbound direction
is_allowed holdings direction method = is_inbound direction
is_allowed body direction method =
    (is_inbound direction && text_eq method (js "PUT"))
    || (is_outbound direction && text_eq method (js "GET"))

-- After authentication.
unfoldable pub check_encoding : Head → Result (Unit {0})
check_encoding head =
    reject (is_set head.content_encoding || (is_set head.transfer_encoding || is_set head.expect))
      (protocol_error 409 (js "compression-or-transfer-encoding-rejected"))

-- `Number(header)` of decimal digits.
unfoldable pub decimal_value : ℕ → Text → ℕ
decimal_value value [] = value
decimal_value value (c ∷ s) = decimal_value (value * 10 + (c - 48)) s

-- `/^(0|[1-9][0-9]*)$/`
unfoldable pub is_decimal : Text → Bool
is_decimal [] = false
is_decimal (c ∷ []) = is_digit c
is_decimal (c ∷ d ∷ s) = (is_digit c && not (c == 48)) && all is_digit (d ∷ s)

-- `contentLength`
unfoldable pub content_length : Option Text → ℕ → Result ℕ
unfolding is_decimal decimal_value
content_length none maximum = err (protocol_error 409 (js "content-length-required"))
content_length (some header) maximum = do
  reject (not (is_decimal header)) (protocol_error 409 (js "content-length-required"))
  parse_integer 0 maximum (num (decimal_value 0 header))

-- The loop of `envelope` over the chunks that arrive.
unfoldable pub read_chunks : ℕ → ℕ → List (List ℕ) → List ℕ → Result (List ℕ)
read_chunks maximum declared [] bytes = ok bytes
read_chunks maximum declared (chunk ∷ chunks) bytes = do
  reject (ltb maximum (length bytes + length chunk) || ltb declared (length bytes + length chunk))
      (protocol_error 413 (js "envelope-limit"))
  read_chunks maximum declared chunks (bytes ++ chunk)

abbrev pub is_type : Text → Option Text → Bool
is_type type none = false
is_type type (some s) = text_eq s type

-- What `PUT` declares of its body: its length if it has the type of bytes.
unfoldable pub declared_size : Head → ℕ → Result (Option ℕ)
unfolding content_length
declared_size head maximum =
    if is_type (js "application/octet-stream") head.content_type
    then (do size ← content_length head.content_length maximum; ok (some size))
    else ok none

-- `envelope`, but for the decoding of its bytes.
unfoldable pub envelope : Head → ℕ → List (List ℕ) → Result (List ℕ)
unfolding content_length read_chunks
envelope head maximum chunks = do
  reject (not (is_type (js "application/json") head.content_type))
      (protocol_error 409 (js "invalid-envelope"))
  declared ← content_length head.content_length maximum
  bytes ← read_chunks maximum declared chunks []
  reject (not (length bytes == declared)) (protocol_error 409 (js "truncated-envelope"))
  ok bytes

-- `exactQuery` on the keys of the query, with repetitions.
unfoldable pub exact_query : List Text → List Text → Result (Unit {0})
exact_query entries keys =
    reject
      (not (length entries == length keys) || any (λ key. not (any (text_eq key) entries)) keys)
      unauthorized

-- The endpoint `holdings`: every identity is of an origin that the route grants.
unfoldable pub check_holdings : SyncRoute → List (Text × Text) → Result (Unit {0})
unfolding route_origin_grant
check_holdings route [] = ok tt
check_holdings route ((inbox_id, document_id) ∷ identities) = do
  reject (has_none (route_origin_grant route inbox_id none)) unauthorized
  check_holdings route identities

-- What `startCommunication` tells of this inbox.
pub record Local : Type 0 where
  pub inbox_id : Text
  pub storage_incarnation : Text
  pub runtime_revision : Option ℕ

abbrev pub revision_changed : Option ℕ → Option ℕ → Bool
revision_changed none now = false
revision_changed (some expected) none = true
revision_changed (some expected) (some now) = not (expected == now)

abbrev pub authorization_of : RequestBinding → RouteAuthorization
authorization_of binding = record {
  route_id = binding.route_id;
  revision = binding.revision;
  peer_id = binding.caller_peer_id;
  source_inbox_id = binding.source_inbox_id;
  destination_inbox_id = binding.destination_inbox_id;
}

module _ ⦃p : Platform⦄ where
  -- `credentialsMatch`
  unfoldable pub credentials_match : Text → Text → Bool
  credentials_match received expected = text_eq (p.digest received) (p.digest expected)

  -- The header `authorization`: what stands after `Bearer `.
  unfoldable pub bearer_token : Option Text → Result Text
  unfolding starts_with parse_token
  bearer_token none = err unauthorized
  bearer_token (some credential) = do
    reject (not (starts_with (js "Bearer ") credential)) unauthorized
    parse_token (str (drop 7 credential))

  -- The callback of `authenticate` under the store's lock, with the route and this inbox.
  unfoldable pub verify_caller :
      Text
      → Option ℕ
      → (SyncRoute → Json)
      → Endpoint
      → Head
      → RequestBinding
      → Text
      → SyncRoute
      → Local
      → Result Verified
  unfolding credentials_match is_allowed parse_token
  verify_caller peer_id runtime_revision credentials endpoint head binding token route local = do
    reject (revision_changed runtime_revision local.runtime_revision) unauthorized
    reject head.destroyed unauthorized
    expected ← parse_token (credentials route)
    reject (not (text_eq binding.target_peer_id peer_id) || not (credentials_match token expected))
        unauthorized
    reject (not (is_allowed endpoint route.direction head.method)) unauthorized
    ok (record {
      auth = authorization_of binding;
      binding = binding;
      route = route;
      local_inbox_id = local.inbox_id;
      local_incarnation = local.storage_incarnation;
    })

abbrev pub as_unauthorized {ℓ} : {A : Type ℓ} → Result A → Result A
as_unauthorized (ok a) = ok a
as_unauthorized (err thrown) = err unauthorized

module _ ⦃p : Platform⦄ where
  -- `authenticate`: `admit` is `startCommunication`, which finds the route of an authorization or throws.
  -- Whatever goes wrong is one answer.
  unfoldable pub authenticate :
      Text
      → Option ℕ
      → (SyncRoute → Json)
      → (Text → Option Json)
      → (RouteAuthorization → Result (SyncRoute × Local))
      → Endpoint
      → Head
      → Result Verified
  unfolding verify_caller bearer_token parse_binding
  authenticate peer_id runtime_revision credentials decoded admit endpoint head =
      as_unauthorized (do
        binding ← parse_binding decoded head.binding
        token ← bearer_token head.authorization
        found ← admit (authorization_of binding)
        verify_caller peer_id runtime_revision credentials endpoint head binding token found.0
            found.1)
