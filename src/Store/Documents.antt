-- ===== src/Store/Documents.antt =====
-- packages/cli/src/sync-store.ts, the owner's own documents: the mutation of `publishWithIntent` once
-- the body has been validated and staged, `deleteDocument` and `setSuppressed`.
use html_inbox.Common.{
  ℕ, Bool, true, false, not, ◌||◌, [], Option, none, some, Text, lookup, put, values, find, length,
  text_eq, if◌then◌else◌, Result, ok, err, document_exists, missing_key, not_imported,
}
use html_inbox.Json.{str}
use html_inbox.Json.Keys.{canonical_key}
use html_inbox.Model.{
  OriginalMetadata, UnsignedState, OriginState, live, deleted, Platform, is_deleted,
}
use html_inbox.Model.Fields.{parse_safe_id}
use html_inbox.Model.Codec.{metadata_encoding, state_key, sign_origin_state}
use html_inbox.Runtime.{SyncTarget}
use html_inbox.Ledger.{ManagedRecord, SyncLedger}
use html_inbox.Policy.Grants.{is_some}
use html_inbox.Policy.Queue.{queue_ledger_state}
use html_inbox.Store.{StagedBody}
use html_inbox.Store.Monad.{M, pure, lift, ◌>>=◌, ◌>>◌, deny, demand}
use html_inbox.Store.Commit.{mutate, commit}
use html_inbox.Store.Access.{
  assert_owner_writable, assert_capacity, allocate_version, allocate_local_id,
}

-- `ownerKey`
unfoldable pub owner_key : SyncLedger → M Text
owner_key ledger store = (require_key (lookup ledger.inbox_id store.owner_keys), store)
  where
    require_key : Option Text → Result Text
    require_key none = err missing_key
    require_key (some key) = ok key

-- A record by its local identity.
unfoldable pub by_local_id : SyncLedger → Text → Option ManagedRecord
by_local_id ledger local_id = find (λ r. text_eq r.local_id local_id) (values ledger.records)

-- `explicitTarget === undefined ? ledger.runtime?.config.intendedTarget ?? null : explicitTarget`
unfoldable pub chosen_target : SyncLedger → Option (Option SyncTarget) → Option SyncTarget
chosen_target ledger (some target) = target
chosen_target ledger none = elim ledger.runtime [ none ↦ none | some r ↦ r.config.intended_target ]

-- The staged body becomes a file of the body directory.
unfoldable pub place_body : StagedBody → M (Unit {0})
place_body b store = (ok tt, record store { bodies = put b.file_name b.bytes store.bodies })

-- The state that the owner signs for a new document.
unfoldable pub published_state : SyncLedger → OriginalMetadata → Text → Text → ℕ → ℕ → UnsignedState
published_state ledger metadata body_hash metadata_hash size version = record {
  origin_inbox_id = ledger.inbox_id;
  origin_document_id = metadata.id;
  history_epoch = ledger.history_epoch;
  version = version;
  state = live;
  metadata = metadata;
  sha256 = body_hash;
  byte_length = size;
  metadata_sha256 = metadata_hash;
}

-- The record of a new document.
abbrev pub published_record : OriginState → Text → Text → ManagedRecord
published_record state local_id file_name = record {
  origin = state;
  local_id = local_id;
  body_file = some file_name;
  contributions = [];
  suppressed = false;
  provenance = [];
}

-- The terminal state that the owner signs over a live one.
unfoldable pub terminal_state : OriginState → ℕ → UnsignedState
terminal_state state version = record state.unsigned { version = version; state = deleted }

module _ ⦃p : Platform⦄ where
  -- The ledger with the new document, queued on the routes.
  unfoldable pub published_ledger :
      SyncLedger → OriginState → Text → Option SyncTarget → Text → SyncLedger
  published_ledger counted state file_name target fresh_id =
      let key = state_key state.unsigned in
      let r =
        published_record state (allocate_local_id counted (some state.origin_document_id) fresh_id)
          file_name in
      let placed = record counted {
        records = put key r counted.records;
        publication_intents = put key target counted.publication_intents;
      } in
      queue_ledger_state placed key none false

  -- The mutation of `publishWithIntent`.
  unfoldable pub publish_in :
      OriginalMetadata
      → Text
      → StagedBody
      → Option (Option SyncTarget)
      → Text
      → SyncLedger
      → M SyncLedger
  unfolding owner_key place_body published_ledger
  publish_in metadata body_hash staged target fresh_id ledger = do
    assert_owner_writable ledger
    let key = canonical_key ledger.inbox_id metadata.id
    deny (is_some (lookup key ledger.records)) document_exists
    assert_capacity ledger
    (version, counted) ← allocate_version ledger
    private_key ← owner_key ledger
    let state =
        sign_origin_state
          (published_state ledger metadata body_hash (p.digest (metadata_encoding metadata))
            (length staged.bytes) version)
          private_key
    place_body staged
    commit (published_ledger counted state staged.file_name (chosen_target ledger target) fresh_id)

  -- The ledger in which an own document has ended with a signed terminal state.
  unfoldable pub ended_ledger : SyncLedger → ManagedRecord → ℕ → Text → SyncLedger
  ended_ledger counted r version private_key =
      let key = state_key r.origin.unsigned in
      let ended = record r {
        origin = sign_origin_state (terminal_state r.origin version) private_key;
      } in
      let placed = record counted { records = put key ended counted.records } in
      queue_ledger_state placed key none false

  unfoldable pub delete_owned : SyncLedger → ManagedRecord → M SyncLedger
  unfolding owner_key ended_ledger
  delete_owned ledger r = do
    assert_owner_writable ledger
    (version, counted) ← allocate_version ledger
    private_key ← owner_key ledger
    commit (ended_ledger counted r version private_key)

  -- The body of `deleteDocument`: an own document ends with a signed terminal state, an imported one
  -- is only suppressed here. The answer says whether there was a document to delete.
  unfoldable pub delete_record : SyncLedger → ManagedRecord → M SyncLedger
  unfolding delete_owned
  delete_record ledger r =
      if not (text_eq r.origin.origin_inbox_id ledger.inbox_id)
      then commit (record ledger {
        records = put (state_key r.origin.unsigned) (record r { suppressed = true }) ledger.records;
      })
      else delete_owned ledger r

  unfoldable pub delete_in : Text → SyncLedger → M Bool
  unfolding delete_record
  delete_in local_id ledger = elim (by_local_id ledger local_id) [
    | none ↦ pure false
    | some r ↦
        if is_deleted r.origin.state || r.suppressed
        then pure false
        else (do _ ← delete_record ledger r; pure true)
  ]

  -- `deleteDocument`, with no captured identity.
  unfoldable pub delete_document : Text → M Bool
  delete_document local_id = do _ ← lift (parse_safe_id (str local_id)); mutate (delete_in local_id)

  unfoldable pub suppress_in : Text → Bool → SyncLedger → M SyncLedger
  suppress_in local_id suppressed ledger = do
    r ← demand (by_local_id ledger local_id) not_imported
    deny (text_eq r.origin.origin_inbox_id ledger.inbox_id) not_imported
    let key = state_key r.origin.unsigned
    let placed = record ledger {
      records = put key (record r { suppressed = suppressed }) ledger.records;
    }
    commit (queue_ledger_state placed key none false)

  -- `setSuppressed`
  unfoldable pub set_suppressed : Text → Bool → M SyncLedger
  set_suppressed local_id suppressed = do
    _ ← lift (parse_safe_id (str local_id))
    mutate (suppress_in local_id suppressed)
