-- ===== src/Store/Restore.antt =====
-- packages/cli/src/sync-store.ts: `quarantineRestore`, `retireCopiedOwnerKeys`, `createOwnerKey` and
-- `fork`. `recovered = false` only makes the next operation recover first; the anchor is what
-- `currentAnchor` finds. `replaceIdentity` writes the reader's identity. The identities that are
-- passed to `fork` are UUIDs that have been parsed.
use html_inbox.Common.{
  Bool, true, false, not, ◌&&◌, List, [], ◌∷◌, ◌++◌, Option, none, some, Text, Dict, js, lookup,
  put, remove, map_values, text_eq, if◌then◌else◌, ok, err, not_quarantined, fork_source,
  missing_key,
}
use html_inbox.Model.{OriginGrant, RouteState, Platform}
use html_inbox.Ledger.{Contribution, ManagedRecord, OwnerAnchor, SyncLedger, Phase}
use html_inbox.Policy.Fence.{fence_all_routes}
use html_inbox.Store.Monad.{M, ◌>>=◌, ◌>>◌, deny}
use html_inbox.Store.Commit.{read_ledger, commit}

abbrev pub restore_error : Text
restore_error =
    js
      "Restore quarantine requires trusted terminal history and fenced owner recovery, or an explicit fresh fork"

-- The ledger of a copy that has been put back.
unfoldable pub restored : SyncLedger → OwnerAnchor → Text → SyncLedger
restored ledger anchor incarnation =
    let worker = record ledger.worker { owner_quarantined = true; enabled = false } in
    fence_all_routes
      (record ledger {
        owner_anchor = anchor;
        storage_incarnation = incarnation;
        receipts = [];
        checkpoints = [];
        history_checkpoints = [];
        worker = worker;
        runtime = none;
        publication_intents = [];
        route_retries = [];
      })
      RouteState.blocked (some restore_error)

-- The owner's key stays unless the owner is quarantined.
unfoldable pub keeps_key : SyncLedger → OriginGrant → Bool
keeps_key ledger grant =
    text_eq grant.inbox_id ledger.inbox_id && not ledger.worker.owner_quarantined

unfoldable pub retire_keys : SyncLedger → List OriginGrant → Dict Text → Dict Text
unfolding keeps_key
retire_keys ledger [] owner_keys = owner_keys
retire_keys ledger (grant ∷ grants) owner_keys =
    retire_keys ledger grants
      (if keeps_key ledger grant then owner_keys else remove grant.inbox_id owner_keys)

-- `retireCopiedOwnerKeys`
unfoldable pub retire_copied_keys : SyncLedger → M SyncLedger
unfolding retire_keys
retire_copied_keys ledger store = (
  ok ledger,
  record store { owner_keys = retire_keys ledger ledger.origin_keys store.owner_keys },
)

abbrev pub has_none : List Contribution → Bool
has_none [] = true
has_none (_ ∷ _) = false

-- An own document that came from no route is shown again, as an inherited copy.
unfoldable pub inherited : Text → ManagedRecord → ManagedRecord
inherited inbox_id r =
    let alone = text_eq r.origin.origin_inbox_id inbox_id && has_none r.contributions in
    record r { suppressed = not alone && r.suppressed; contributions = [] }

-- The ledger of a fork, before its identity is in place.
unfoldable pub forked : SyncLedger → OwnerAnchor → OriginGrant → Text → SyncLedger
unfolding inherited
forked ledger anchor grant incarnation = record ledger {
  route_retries = [];
  runtime = none;
  publication_intents = [];
  inbox_id = grant.inbox_id;
  history_epoch = grant.history_epoch;
  storage_incarnation = incarnation;
  owner_anchor = anchor;
  next_origin_version = 1;
  origin_keys = ledger.origin_keys ++ grant ∷ [];
  records = map_values (inherited ledger.inbox_id) ledger.records;
  routes = [];
  outbox = [];
  receipts = [];
  checkpoints = [];
  history_checkpoints = [];
  migration = record ledger.migration { phase = Phase.forking };
  worker = record ledger.worker { owner_quarantined = false };
}

-- `replaceIdentity`
unfoldable pub replace_identity : Text → M (Unit {0})
replace_identity inbox_id store = (ok tt, record store { reader_identity = some inbox_id })

-- The key file that is there, or the new one.
abbrev pub key_in_use : Text → Option Text → Text
key_in_use private_key none = private_key
key_in_use private_key (some key) = key

source_differs : Option Text → Text → Bool
source_differs none inbox_id = false
source_differs (some old) inbox_id = not (text_eq inbox_id old)

module _ ⦃p : Platform⦄ where
  -- `quarantineRestore`
  unfoldable pub quarantine_restore : OwnerAnchor → Text → M SyncLedger
  quarantine_restore anchor incarnation = do
    ledger ← read_ledger
    result ← commit (restored ledger anchor incarnation)
    retire_copied_keys result

  -- `createOwnerKey` where no key file is there; a file that is there must be private and is used.
  grant_of_key : (Text → Text) → Text → Text → Text → M OriginGrant
  grant_of_key public_of inbox_id history_epoch private_key store =
      let used = key_in_use private_key (lookup inbox_id store.owner_keys) in
      if p.is_ed25519 (public_of used)
      then (
        ok (record {
          inbox_id = inbox_id;
          history_epoch = history_epoch;
          public_key = public_of used;
          complete_history = true;
          redistribute = true;
        }),
        record store { owner_keys = put inbox_id used store.owner_keys },
      )
      else (err missing_key, store)

  -- `fork`: the new identity is committed, put in place, and committed as complete. `public_of` is the
  -- public half of a private key.
  unfoldable pub fork :
      OwnerAnchor → (Text → Text) → Option Text → Text → Text → Text → Text → M SyncLedger
  unfolding grant_of_key source_differs
  fork anchor public_of expected inbox_id history_epoch incarnation private_key = do
    ledger ← read_ledger
    deny (not ledger.worker.owner_quarantined) not_quarantined
    deny (source_differs expected ledger.inbox_id) fork_source
    grant ← grant_of_key public_of inbox_id history_epoch private_key
    started ← commit (forked ledger anchor grant incarnation)
    _ ← retire_copied_keys started
    replace_identity inbox_id
    commit (record started { migration = record started.migration { phase = Phase.complete } })
