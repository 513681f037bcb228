-- ===== src/Runtime.antt =====
-- packages/cli/src/sync-runtime-config.ts, and `validateSyncListenHost` of sync-http-server.ts: the
-- configuration of the worker that the ledger carries.
use html_inbox.Common.{
  ℕ, ◌/◌, ◌%◌, Bool, true, false, not, ◌&&◌, ◌||◌, List, [], ◌∷◌, Option, none, some, Text, js,
  text_eq, includes, length, any, leb, ltb, ◌==◌, if◌then◌else◌, Dict, keys, Result, ok, err, ◌>>=◌,
  ◌>>◌, reject, invalid_schema, invalid_listener, invalid_path, too_many_references,
}
use html_inbox.Json.{Json, get, entries}
use html_inbox.Model.{Platform}
use html_inbox.Model.Fields.{
  parse_object, assert_exact_keys, parse_string, parse_uuid, parse_reference, parse_integer, is_one,
  parse_nullable,
}

pub record SyncTarget : Type 0 where
  pub peer_id : Text
  pub destination_inbox_id : Text

pub record Listener : Type 0 where
  pub host : Text
  pub port : ℕ
  pub tls_ref : Text

pub record Timings : Type 0 where
  pub foreground_ms : ℕ
  pub request_ms : ℕ
  pub reconcile_ms : ℕ
  pub pass_ms : ℕ

pub record TlsFiles : Type 0 where
  pub key : Text
  pub cert : Text

pub record RuntimeConfig : Type 0 where
  pub intended_target : Option SyncTarget
  pub listener : Option Listener
  pub timings : Timings
  pub credentials : Dict Text
  pub trust : Dict (Option Text)
  pub tls : Dict TlsFiles

unfoldable pub default_runtime_config : RuntimeConfig
default_runtime_config = record {
  intended_target = none;
  listener = none;
  timings = record {
    foreground_ms = 30000;
    request_ms = 5000;
    reconcile_ms = 30000;
    pass_ms = 60000;
  };
  credentials = [];
  trust = [];
  tls = [];
}

unfoldable pub parse_sync_target : Json → Result SyncTarget
parse_sync_target value = do
  target ← parse_object value
  assert_exact_keys target (js "peerId" ∷ js "destinationInboxId" ∷ [])
  peer_id ← parse_uuid (get (js "peerId") target)
  destination_inbox_id ← parse_uuid (get (js "destinationInboxId") target)
  ok (record { peer_id = peer_id; destination_inbox_id = destination_inbox_id })

-- The segments of a path after its first slash, none of which may be empty, "." or "..": on POSIX
-- `path.resolve` then changes nothing. `cur` holds the segment read so far, backwards.
is_plain : Text → Bool
is_plain [] = false
is_plain (a ∷ []) = not (a == 46)
is_plain (a ∷ b ∷ []) = not ((a == 46) && (b == 46))
is_plain (_ ∷ _ ∷ _ ∷ _) = true

has_plain_segments : Text → Text → Bool
has_plain_segments cur [] = is_plain cur
has_plain_segments cur (c ∷ s) =
    if c == 47 then is_plain cur && has_plain_segments [] s else has_plain_segments (c ∷ cur) s

-- `path.isAbsolute(file) && path.resolve(file) === file`
unfoldable pub is_canonical_path : Text → Bool
unfolding is_plain has_plain_segments
is_canonical_path [] = false
is_canonical_path (c ∷ []) = c == 47
is_canonical_path (c ∷ d ∷ s) = (c == 47) && has_plain_segments [] (d ∷ s)

unfoldable pub parse_canonical_file_path : Json → Result Text
parse_canonical_file_path value = do
  file ← parse_string 4096 value
  reject (not (is_canonical_path file) || includes 0 file) invalid_path
  ok file

starts_with : Text → Text → Bool
starts_with [] s = true
starts_with (_ ∷ _) [] = false
starts_with (p ∷ ps) (c ∷ s) = (p == c) && starts_with ps s

first_octet : List ℕ → ℕ
first_octet [] = 0
first_octet (n ∷ _) = n

-- An IPv4 address that a listener may bind, by its octets.
is_unicast_v4 : List ℕ → Bool
unfolding first_octet
is_unicast_v4 octets = not ((first_octet octets == 0) || leb 224 (first_octet octets))

mapped_is_unicast : List ℕ → Bool
unfolding is_unicast_v4
mapped_is_unicast (a ∷ b ∷ []) = is_unicast_v4 (a / 256 ∷ a % 256 ∷ b / 256 ∷ b % 256 ∷ [])
mapped_is_unicast _ = false

parse_reference_entries {ℓ} :
    {T : Type ℓ} → (Json → Result T) → List (Text × Json) → Result (Dict T)
parse_reference_entries parse [] = ok []
parse_reference_entries parse ((key, entry) ∷ more) = do
  name ← parse_reference (Json.str key)
  value ← parse entry
  rest ← parse_reference_entries parse more
  ok ((name, value) ∷ rest)

unfoldable pub parse_references {ℓ} : {T : Type ℓ} → (Json → Result T) → Json → Result (Dict T)
unfolding parse_reference_entries
parse_references parse value = do
  fields ← parse_object value
  reject (ltb 128 (length (entries fields))) too_many_references
  parse_reference_entries parse (entries fields)

unfoldable pub parse_tls_files : Json → Result TlsFiles
parse_tls_files entry = do
  files ← parse_object entry
  assert_exact_keys files (js "key" ∷ js "cert" ∷ [])
  key ← parse_canonical_file_path (get (js "key") files)
  cert ← parse_canonical_file_path (get (js "cert") files)
  ok (record { key = key; cert = cert })

unfoldable pub parse_timings : Json → Result Timings
parse_timings value = do
  timings ← parse_object value
  assert_exact_keys timings
      (js "foregroundMs" ∷ js "requestMs" ∷ js "reconcileMs" ∷ js "passMs" ∷ [])
  foreground_ms ← parse_integer 100 300000 (get (js "foregroundMs") timings)
  request_ms ← parse_integer 100 30000 (get (js "requestMs") timings)
  reconcile_ms ← parse_integer 1000 300000 (get (js "reconcileMs") timings)
  pass_ms ← parse_integer 100 60000 (get (js "passMs") timings)
  ok (record {
    foreground_ms = foreground_ms;
    request_ms = request_ms;
    reconcile_ms = reconcile_ms;
    pass_ms = pass_ms;
  })

listener_is_served : Option Listener → Dict TlsFiles → Bool
listener_is_served none tls = true
listener_is_served (some l) tls = any (text_eq l.tls_ref) (keys tls)

module _ ⦃p : Platform⦄ where
  unfoldable pub validate_sync_listen_host : Text → Result Text
  unfolding is_unicast_v4 mapped_is_unicast starts_with
  validate_sync_listen_host host =
      let normalized = p.ipv6_hostname host in
      if p.ip_family host == 4
      then (if is_unicast_v4 (p.octets host) then ok host else err invalid_listener)
      else if not (p.ip_family host == 6) || includes 37 host
      then err invalid_listener
      else if not (
          text_eq normalized (js "::")
          || (starts_with (js "ff") normalized || starts_with (js "::ffff:") normalized))
      then ok normalized
      else if starts_with (js "::ffff:") normalized && mapped_is_unicast (p.mapped_words normalized)
      then ok normalized
      else err invalid_listener

  unfoldable pub parse_listener : Json → Result Listener
  parse_listener value = do
    listener ← parse_object value
    assert_exact_keys listener (js "host" ∷ js "port" ∷ js "tlsRef" ∷ [])
    given ← parse_string 4096 (get (js "host") listener)
    host ← validate_sync_listen_host given
    port ← parse_integer 1 65535 (get (js "port") listener)
    tls_ref ← parse_reference (get (js "tlsRef") listener)
    ok (record { host = host; port = port; tls_ref = tls_ref })

  unfoldable pub parse_runtime_config : Json → Result RuntimeConfig
  unfolding listener_is_served
  parse_runtime_config value = do
    config ← parse_object value
    assert_exact_keys config (
        js "schemaVersion"
        ∷ js "intendedTarget"
        ∷ js "listener"
        ∷ js "timings"
        ∷ js "credentials"
        ∷ js "trust"
        ∷ js "tls"
        ∷ [])
    reject (not (is_one (get (js "schemaVersion") config))) invalid_schema
    timings ← parse_timings (get (js "timings") config)
    credentials ← parse_references parse_canonical_file_path (get (js "credentials") config)
    trust ← parse_references (parse_nullable parse_canonical_file_path) (get (js "trust") config)
    tls ← parse_references parse_tls_files (get (js "tls") config)
    listener ← parse_nullable parse_listener (get (js "listener") config)
    reject (not (listener_is_served listener tls)) invalid_listener
    intended_target ← parse_nullable parse_sync_target (get (js "intendedTarget") config)
    ok (record {
      intended_target = intended_target;
      listener = listener;
      timings = timings;
      credentials = credentials;
      trust = trust;
      tls = tls;
    })
