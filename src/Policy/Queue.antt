-- ===== src/Policy/Queue.antt =====
-- packages/cli/src/sync-ledger-policy.ts, `queueLedgerState`.
use html_inbox.Common.{
  Bool, false, not, ◌&&◌, ◌||◌, List, [], ◌∷◌, Option, none, some, Text, js, lookup, put, values,
  keys, text_eq, if◌then◌else◌,
}
use html_inbox.Json.Keys.{outbox_key}
use html_inbox.Model.{SyncRoute, Platform, is_active, is_reconnecting, is_outbound}
use html_inbox.Model.Codec.{state_fingerprint}
use html_inbox.Ledger.{
  ManagedRecord, OutboxEntry, Disposition, SyncLedger, pending, retired, is_confirmed,
}
use html_inbox.Policy.Grants.{pinned_state_grant, can_forward_record, is_some, option_text_is}

abbrev pub history_required : Text
history_required = js "Trusted terminal history is required"

-- `allowed`: the route may carry the record, in its present state.
unfoldable pub may_queue : SyncLedger → SyncRoute → ManagedRecord → Bool
may_queue ledger route r =
    is_outbound route.direction
    && ((is_active route.state || is_reconnecting route.state)
        && is_some (pinned_state_grant ledger route r.origin))

unfoldable pub queue_disposition : Bool → Disposition
queue_disposition can_forward = if can_forward then pending else Disposition.blocked

-- An entry whose fingerprint is current, on the branch that keeps it.
unfoldable pub keep_entry : Bool → Bool → OutboxEntry → OutboxEntry
unfolding queue_disposition
keep_entry force can_forward entry =
    let forced : OutboxEntry =
      if force && is_confirmed entry.disposition
      then record entry { disposition = queue_disposition can_forward }
      else entry in
    if not can_forward && not (is_confirmed forced.disposition)
    then record forced { disposition = Disposition.blocked; last_error = some history_required }
    else forced

abbrev known_incarnation : Option OutboxEntry → Option Text
known_incarnation none = none
known_incarnation (some entry) = entry.receiver_storage_incarnation

-- A new obligation.
unfoldable pub fresh_entry : SyncRoute → Text → Text → Option OutboxEntry → Bool → OutboxEntry
unfolding queue_disposition
fresh_entry route key fingerprint existing can_forward = record {
  route_id = route.id;
  revision = route.revision;
  canonical_key = key;
  fingerprint = fingerprint;
  receiver_storage_incarnation = known_incarnation existing;
  receipt_disposition = none;
  attempts = 0;
  next_attempt_at = 0;
  last_error = if can_forward then none else some history_required;
  disposition = queue_disposition can_forward;
}

-- `existing?.fingerprint === fingerprint && !(waitingForHistory && canForward)`
unfoldable pub is_current : Text → Bool → OutboxEntry → Bool
is_current fingerprint can_forward entry =
    text_eq entry.fingerprint fingerprint
    && not (option_text_is entry.last_error history_required && can_forward)

unfoldable pub queued_entry :
    SyncRoute → Text → Text → Bool → Bool → Option OutboxEntry → OutboxEntry
unfolding is_current keep_entry fresh_entry
queued_entry route key fingerprint force can_forward none =
    fresh_entry route key fingerprint none can_forward
queued_entry route key fingerprint force can_forward (some entry) =
    if is_current fingerprint can_forward entry
    then keep_entry force can_forward entry
    else fresh_entry route key fingerprint (some entry) can_forward

-- `if (existing) existing.disposition = "retired"`
unfoldable pub retire_existing : SyncLedger → Text → Option OutboxEntry → SyncLedger
retire_existing ledger entry_key none = ledger
retire_existing ledger entry_key (some entry) = record ledger {
  outbox = put entry_key (record entry { disposition = retired }) ledger.outbox;
}

abbrev pub is_other : Option Text → SyncRoute → Bool
is_other none route = false
is_other (some id) route = not (text_eq route.id id)

module _ ⦃p : Platform⦄ where
  -- One round of the loop over the routes.
  unfoldable pub queue_on_route : SyncLedger → Text → ManagedRecord → Bool → SyncRoute → SyncLedger
  unfolding may_queue queued_entry retire_existing
  queue_on_route ledger key r force route =
      let entry_key = outbox_key route.id route.revision key in
      let existing = lookup entry_key ledger.outbox in
      if not (may_queue ledger route r)
      then retire_existing ledger entry_key existing
      else record ledger {
        outbox =
            put entry_key
              (queued_entry route key (state_fingerprint r.origin) force
                (can_forward_record ledger route r false) existing)
              ledger.outbox;
      }

  unfoldable pub queue_on_routes :
      SyncLedger → Text → ManagedRecord → Option Text → Bool → List SyncRoute → SyncLedger
  queue_on_routes ledger key r route_id force [] = ledger
  queue_on_routes ledger key r route_id force (route ∷ routes) =
      queue_on_routes
        (if is_other route_id route then ledger else queue_on_route ledger key r force route) key r
        route_id force routes

  -- `queueLedgerState`; its callers pass the key of a record.
  unfoldable pub queue_ledger_state : SyncLedger → Text → Option Text → Bool → SyncLedger
  unfolding queue_on_routes queue_on_route
  queue_ledger_state ledger key route_id force = elim (lookup key ledger.records) [
    | none ↦ ledger
    | some r ↦ queue_on_routes ledger key r route_id force (values ledger.routes)
  ]

  -- `for (const key of Object.keys(ledger.records)) queueLedgerState(ledger, key, routeId)`
  unfoldable pub queue_keys : SyncLedger → Option Text → List Text → SyncLedger
  unfolding queue_ledger_state
  queue_keys ledger route_id [] = ledger
  queue_keys ledger route_id (key ∷ more) =
      queue_keys (queue_ledger_state ledger key route_id false) route_id more

  unfoldable pub queue_all : SyncLedger → Option Text → SyncLedger
  unfolding queue_keys
  queue_all ledger route_id = queue_keys ledger route_id (keys ledger.records)
