-- ===== src/Ledger/Load.antt =====
-- packages/cli/src/sync-ledger.ts, `parseLedger`. Where several fields are invalid, the fault that is
-- reported may be that of another of them than in the code.
use html_inbox.Common.{
  ℕ, Bool, true, false, not, List, [], ◌∷◌, ◌++◌, Option, none, some, Text, js, map, if◌then◌else◌,
  Result, ok, err, ◌>>=◌, ◌>>◌, reject, invalid_schema,
}
use html_inbox.Json.{Json, null, obj, Fields, fields, entries, get, has_own}
use html_inbox.Model.{Platform, max_records}
use html_inbox.Model.Fields.{
  parse_object, assert_exact_keys, parse_string, parse_uuid, parse_safe_id, parse_integer_from,
  parse_boolean, parse_nullable_string, parse_choice, parse_array, parse_nullable, is_one,
}
use html_inbox.Model.Routes.{parse_origin_grant, parse_route, parse_complete_inventory}
use html_inbox.Runtime.{parse_sync_target, parse_runtime_config}
use html_inbox.Ledger.{
  OwnerAnchor, Runtime, Phase, Migration, Worker, SyncLedger, intent, barrier, enrolling, forking,
  complete,
}
use html_inbox.Ledger.Parse.{
  dictionary, parse_route_retry, parse_outbox, parse_receipt, parse_managed_record,
}
use html_inbox.Ledger.Bindings.{check_bindings}

-- Properties that ledgers of earlier versions lack.
abbrev with_field : Text → Json → Fields → Fields
with_field k v f = fields (entries f ++ (k, v) ∷ [])

abbrev without : Text → Fields → Fields
without k f = fields (html_inbox.Common.remove k (entries f))

split_checkpoints : Fields → Fields
split_checkpoints f =
    if has_own (js "historyCheckpoints") f
    then f
    else with_field (js "checkpoints") (obj (fields [])) (
        with_field (js "historyCheckpoints") (get (js "checkpoints") f)
          (without (js "checkpoints") f))

add_runtime : Fields → Fields
add_runtime f =
    if has_own (js "runtime") f
    then f
    else with_field (js "publicationIntents") (obj (fields []))
        (with_field (js "runtime") null (without (js "publicationIntents") f))

add_retries : Fields → Fields
add_retries f =
    if has_own (js "routeRetries") f then f else with_field (js "routeRetries") (obj (fields [])) f

unfoldable pub upgrade : Fields → Fields
unfolding split_checkpoints add_runtime add_retries has_own get html_inbox.Common.remove
upgrade f = add_retries (add_runtime (split_checkpoints f))

parse_anchor : Json → Result OwnerAnchor
parse_anchor value = do
  anchor ← parse_object value
  assert_exact_keys anchor (js "home" ∷ js "dev" ∷ js "ino" ∷ [])
  home ← parse_string 4096 (get (js "home") anchor)
  dev ← parse_integer_from 0 (get (js "dev") anchor)
  ino ← parse_integer_from 0 (get (js "ino") anchor)
  ok (record { home = home; dev = dev; ino = ino })

abbrev phase_choices : List (Text × Phase)
phase_choices =
    (js "intent", intent)
    ∷ (js "barrier", barrier)
    ∷ (js "enrolling", enrolling)
    ∷ (js "forking", forking)
    ∷ (js "complete", complete)
    ∷ []

parse_migration : Json → Result Migration
parse_migration value = do
  migration ← parse_object value
  assert_exact_keys migration (js "phase" ∷ js "enrolledIds" ∷ [])
  phase ← parse_choice phase_choices (get (js "phase") migration)
  enrolled_ids ← parse_array parse_safe_id max_records (get (js "enrolledIds") migration)
  ok (record { phase = phase; enrolled_ids = enrolled_ids })

parse_worker : Json → Result Worker
parse_worker value = do
  worker ← parse_object value
  assert_exact_keys worker (
      js "enabled"
      ∷ js "retryPaused"
      ∷ js "ownerQuarantined"
      ∷ js "bootSupervised"
      ∷ js "lastRunAt"
      ∷ js "lastError"
      ∷ [])
  enabled ← parse_boolean (get (js "enabled") worker)
  retry_paused ← parse_boolean (get (js "retryPaused") worker)
  owner_quarantined ← parse_boolean (get (js "ownerQuarantined") worker)
  boot_supervised ← parse_boolean (get (js "bootSupervised") worker)
  last_run_at ← parse_nullable (parse_integer_from 0) (get (js "lastRunAt") worker)
  last_error ← parse_nullable_string (get (js "lastError") worker)
  ok (record {
    enabled = enabled;
    retry_paused = retry_paused;
    owner_quarantined = owner_quarantined;
    boot_supervised = boot_supervised;
    last_run_at = last_run_at;
    last_error = last_error;
  })

module _ ⦃p : Platform⦄ where
  parse_runtime : Json → Result Runtime
  parse_runtime value = do
    runtime ← parse_object value
    assert_exact_keys runtime (js "revision" ∷ js "config" ∷ [])
    revision ← parse_integer_from 1 (get (js "revision") runtime)
    config ← parse_runtime_config (get (js "config") runtime)
    ok (record { revision = revision; config = config })

  unfoldable pub parse_ledger : Json → Result SyncLedger
  unfolding upgrade parse_anchor parse_migration parse_worker parse_runtime
  parse_ledger value = do
    given ← parse_object value
    let f = upgrade given
    assert_exact_keys f (
        js "routeRetries"
        ∷ js "runtime"
        ∷ js "publicationIntents"
        ∷ js "schemaVersion"
        ∷ js "inboxId"
        ∷ js "historyEpoch"
        ∷ js "storageIncarnation"
        ∷ js "ownerAnchor"
        ∷ js "generation"
        ∷ js "nextOriginVersion"
        ∷ js "originKeys"
        ∷ js "records"
        ∷ js "routes"
        ∷ js "outbox"
        ∷ js "receipts"
        ∷ js "checkpoints"
        ∷ js "historyCheckpoints"
        ∷ js "migration"
        ∷ js "worker"
        ∷ [])
    reject (not (is_one (get (js "schemaVersion") f))) invalid_schema
    route_retries ← dictionary parse_route_retry 128 (get (js "routeRetries") f)
    runtime ← parse_nullable parse_runtime (get (js "runtime") f)
    publication_intents ←
        dictionary (parse_nullable parse_sync_target) max_records (get (js "publicationIntents") f)
    inbox_id ← parse_uuid (get (js "inboxId") f)
    history_epoch ← parse_uuid (get (js "historyEpoch") f)
    storage_incarnation ← parse_uuid (get (js "storageIncarnation") f)
    owner_anchor ← parse_anchor (get (js "ownerAnchor") f)
    generation ← parse_integer_from 0 (get (js "generation") f)
    next_origin_version ← parse_integer_from 1 (get (js "nextOriginVersion") f)
    origin_keys ← parse_array parse_origin_grant max_records (get (js "originKeys") f)
    records ← dictionary parse_managed_record max_records (get (js "records") f)
    routes ← dictionary parse_route max_records (get (js "routes") f)
    outbox ← dictionary parse_outbox 1000000 (get (js "outbox") f)
    receipts ← dictionary parse_receipt 1000000 (get (js "receipts") f)
    checkpoints ← dictionary parse_complete_inventory 1000000 (get (js "checkpoints") f)
    history_checkpoints ←
        dictionary parse_complete_inventory 1000000 (get (js "historyCheckpoints") f)
    migration ← parse_migration (get (js "migration") f)
    worker ← parse_worker (get (js "worker") f)
    let ledger : SyncLedger = record {
      route_retries = route_retries;
      runtime = runtime;
      publication_intents = publication_intents;
      inbox_id = inbox_id;
      history_epoch = history_epoch;
      storage_incarnation = storage_incarnation;
      owner_anchor = owner_anchor;
      generation = generation;
      next_origin_version = next_origin_version;
      origin_keys = origin_keys;
      records = records;
      routes = routes;
      outbox = outbox;
      receipts = receipts;
      checkpoints = checkpoints;
      history_checkpoints = history_checkpoints;
      migration = migration;
      worker = worker;
    }
    check_bindings ledger
    ok ledger
