-- ===== src/Store/Worker.antt =====
-- packages/cli/src/sync-store.ts: `configureRuntime`, `setIntendedTarget`, `setWorkerEnabled`,
-- `setRetryPaused`, `recordWorkerError`, `recordWorkerRun`, `setWorkerState` and `audit`.
use html_inbox.Common.{
  ℕ, ◌+◌, Bool, true, false, not, ◌&&◌, List, [], ◌∷◌, Option, none, some, Text, js, Dict, lookup,
  length, text_eq, leb, ◌==◌, if◌then◌else◌, ok, invalid_run, invalid_integer,
}
use html_inbox.Json.{Json, num}
use html_inbox.Model.{Platform, RouteState, is_live, max_html_bytes, max_safe_integer}
use html_inbox.Model.Fields.{parse_integer_from, parse_nullable}
use html_inbox.Runtime.{
  RuntimeConfig, parse_runtime_config, parse_sync_target, default_runtime_config,
}
use html_inbox.Ledger.{ManagedRecord, Runtime, SyncLedger}
use html_inbox.Policy.Fence.{fence_all_routes}
use html_inbox.Store.Monad.{M, pure, lift, ◌>>=◌, ◌>>◌, deny}
use html_inbox.Store.Commit.{mutate, commit}
use html_inbox.Store.Access.{assert_owner_writable}

-- `(ledger.runtime?.revision ?? 0) + 1`
next_revision : Option Runtime → ℕ
next_revision none = 1
next_revision (some r) = r.revision + 1

current_config : Option Runtime → RuntimeConfig
unfolding default_runtime_config
current_config none = default_runtime_config
current_config (some r) = r.config

is_short_text : Text → Bool
is_short_text error = leb 1 (length error) && leb (length error) 2048

is_short_error : Option Text → Bool
is_short_error none = true
is_short_error (some error) = leb (length error) 2048

is_run_time : Option ℕ → Bool
is_run_time none = true
is_run_time (some n) = leb n max_safe_integer

abbrev pub drift_error : Text
drift_error = js "Immutable body drift detected; origin descriptors retained in quarantine"

-- What `audit` finds of one record: its file is gone, or it cannot be read or its bytes are not those that were
-- signed.
pub data Finding : Type 0 where
  sound missing conflict : Finding

-- `readHtml`: no bytes where it throws. The file system says whether the file of this name can be opened as a
-- regular file of the account with one link.
unfoldable pub read_html : (Text → Bool) → Text → List ℕ → Option (List ℕ)
read_html opens name bytes =
    if opens name && leb (length bytes) max_html_bytes then some bytes else none

-- `hash` is the digest of a file's bytes.
unfoldable pub inspect : (List ℕ → Text) → (Text → Bool) → Dict (List ℕ) → ManagedRecord → Finding
unfolding read_html
inspect hash opens bodies r = if not (is_live r.origin.state) then sound else elim r.body_file [
  | none ↦ sound
  | some name ↦ elim (lookup name bodies) [
    | none ↦ missing
    | some found ↦ elim (read_html opens name found) [
      | none ↦ conflict
      | some bytes ↦
          if (length bytes == r.origin.byte_length) && text_eq (hash bytes) r.origin.sha256
          then sound
          else conflict
    ]
  ]
]

pub record Audit : Type 0 where
  pub missing_keys : List Text
  pub conflicts : List Text

note_finding : Finding → Text → Audit → Audit
note_finding sound key report = report
note_finding missing key report = record report { missing_keys = key ∷ report.missing_keys }
note_finding conflict key report = record report { conflicts = key ∷ report.conflicts }

unfoldable pub audit_records :
    (List ℕ → Text) → (Text → Bool) → Dict (List ℕ) → Dict ManagedRecord → Audit
unfolding inspect note_finding
audit_records hash opens bodies [] = record { missing_keys = []; conflicts = [] }
audit_records hash opens bodies ((key, r) ∷ more) =
    note_finding (inspect hash opens bodies r) key (audit_records hash opens bodies more)

-- The ledger once drift has been found.
unfoldable pub quarantined : SyncLedger → SyncLedger
quarantined ledger =
    let worker = record ledger.worker {
      owner_quarantined = true;
      enabled = false;
      last_error = some drift_error;
    } in
    fence_all_routes (record ledger { worker = worker }) RouteState.blocked (some drift_error)

abbrev pub is_nil : List Text → Bool
is_nil [] = true
is_nil (_ ∷ _) = false

module _ ⦃p : Platform⦄ where
  -- A change of the worker's part of the ledger, by its owner.
  owner_change : (SyncLedger → SyncLedger) → M SyncLedger
  owner_change change = mutate (λ ledger. do assert_owner_writable ledger; commit (change ledger))

  unfoldable pub configure_runtime : Json → M SyncLedger
  unfolding owner_change next_revision
  configure_runtime value = do
    config ← lift (parse_runtime_config value)
    owner_change (λ ledger. record ledger {
      runtime = some (record { revision = next_revision ledger.runtime; config = config });
    })

  unfoldable pub set_intended_target : Json → M SyncLedger
  unfolding owner_change next_revision current_config
  set_intended_target value = do
    target ← lift (parse_nullable parse_sync_target value)
    owner_change (λ ledger. record ledger {
      runtime = some (record {
        revision = next_revision ledger.runtime;
        config = record (current_config ledger.runtime) { intended_target = target };
      });
    })

  unfoldable pub set_worker_enabled : Bool → M SyncLedger
  unfolding owner_change
  set_worker_enabled enabled =
      owner_change (λ ledger. record ledger { worker = record ledger.worker { enabled = enabled } })

  unfoldable pub set_retry_paused : Bool → M SyncLedger
  unfolding owner_change
  set_retry_paused paused =
      owner_change
        (λ ledger. record ledger { worker = record ledger.worker { retry_paused = paused } })

  -- `recordWorkerError` keeps the error of a quarantine.
  unfoldable pub record_worker_error : Text → M SyncLedger
  unfolding is_short_text
  record_worker_error last_error = do
    deny (not (is_short_text last_error)) invalid_run
    mutate (λ ledger.
        if ledger.worker.owner_quarantined
        then pure ledger
        else commit
            (record ledger { worker = record ledger.worker { last_error = some last_error } }))

  unfoldable pub record_worker_run : ℕ → Option Text → M SyncLedger
  unfolding is_short_error
  record_worker_run last_run_at last_error = do
    _ ← lift (parse_integer_from 0 (num last_run_at))
    deny (not (is_short_error last_error)) invalid_run
    mutate (λ ledger. commit (record ledger {
      worker = record ledger.worker { last_run_at = some last_run_at; last_error = last_error };
    }))

  -- `setWorkerState`
  unfoldable pub set_worker_state : Bool → Bool → Bool → Option ℕ → Option Text → M SyncLedger
  unfolding is_short_error is_run_time owner_change
  set_worker_state enabled retry_paused boot_supervised last_run_at last_error = do
    deny (not (is_short_error last_error)) invalid_run
    deny (not (is_run_time last_run_at)) invalid_integer
    owner_change (λ ledger. record ledger {
      worker = record ledger.worker {
        enabled = enabled;
        retry_paused = retry_paused;
        boot_supervised = boot_supervised;
        last_run_at = last_run_at;
        last_error = last_error;
      };
    })

  -- `audit`
  unfoldable pub audit_in : (List ℕ → Text) → (Text → Bool) → SyncLedger → M Audit
  unfolding audit_records
  audit_in hash opens ledger = do
    store ← λ s. (ok s, s)
    let report = audit_records hash opens store.bodies ledger.records
    if is_nil report.conflicts
        then pure report
        else (do _ ← commit (quarantined ledger); pure report)

  unfoldable pub audit : (List ℕ → Text) → (Text → Bool) → M Audit
  audit hash opens = mutate (audit_in hash opens)
