-- ===== src/Store/Outbox.antt =====
-- packages/cli/src/sync-store.ts, the obligations of a route: `pendingTerminalStates`, `acknowledge`
-- and `updateAttempt`.
use html_inbox.Common.{
  ℕ, ◌+◌, Bool, true, false, not, ◌&&◌, ◌||◌, List, [], ◌∷◌, Option, none, some, Text, lookup, put,
  values, length, text_eq, leb, ◌==◌, if◌then◌else◌, invalid_receipt_binding, live_superseded,
  not_current_state, replaced_incarnation, no_obligation, invalid_update,
}
use html_inbox.Json.{Json, num}
use html_inbox.Json.Keys.{outbox_key}
use html_inbox.Model.{OriginState, SyncRoute, RouteAuthorization, outbound, Platform, is_deleted}
use html_inbox.Model.Fields.{parse_integer, parse_integer_from}
use html_inbox.Model.Routes.{parse_authorization}
use html_inbox.Model.Codec.{state_key, state_fingerprint}
use html_inbox.Ledger.{
  ManagedRecord, OutboxEntry, DurableReceipt, Disposition, pending, confirmed, Custody, SyncLedger,
  is_pending, is_confirmed, is_retired, same_custody,
}
use html_inbox.Ledger.Encode.{receipt_key}
use html_inbox.Ledger.Parse.{parse_receipt}
use html_inbox.Policy.Grants.{can_forward_record}
use html_inbox.Store.Monad.{M, pure, lift, ◌>>=◌, ◌>>◌, deny, demand}
use html_inbox.Store.Commit.{mutate, commit}
use html_inbox.Store.Access.{authorize_route, authorize}

-- The receipt names the receiver and the route of the obligation.
unfoldable pub receipt_is_bound : SyncRoute → DurableReceipt → Bool
receipt_is_bound route receipt =
    text_eq receipt.receiver_inbox_id route.destination_inbox_id
    && (text_eq receipt.destination_inbox_id route.destination_inbox_id
        && (text_eq receipt.route_id route.id && (receipt.revision == route.revision)))

abbrev pub incarnation_differs : Option Text → Text → Bool
incarnation_differs none incarnation = false
incarnation_differs (some known) incarnation = not (text_eq known incarnation)

abbrev pub is_superseded : Custody → Bool
is_superseded c = same_custody c Custody.superseded

-- An entry after a failed attempt.
unfoldable pub attempted_entry : OutboxEntry → ℕ → Option Text → Bool → ℕ → OutboxEntry
attempted_entry entry next_attempt_at last_error blocked maximum =
    let attempts = entry.attempts + 1 in
    record entry {
      attempts = attempts;
      next_attempt_at = next_attempt_at;
      last_error = last_error;
      disposition = if blocked || leb maximum attempts then Disposition.blocked else pending;
    }

abbrev is_short : Option Text → Bool
is_short none = true
is_short (some error) = leb (length error) 2048

module _ ⦃p : Platform⦄ where
  unfoldable pub is_due_terminal : SyncLedger → SyncRoute → ℕ → OutboxEntry → ManagedRecord → Bool
  is_due_terminal ledger route now entry r =
      text_eq entry.route_id route.id
      && ((entry.revision == route.revision)
          && (is_pending entry.disposition
              && (leb entry.next_attempt_at now
                  && (is_deleted r.origin.state
                      && (text_eq entry.fingerprint (state_fingerprint r.origin)
                          && can_forward_record ledger route r false)))))

  terminal_states :
      SyncLedger → RouteAuthorization → SyncRoute → ℕ → List OutboxEntry → M (List OriginState)
  unfolding is_due_terminal
  terminal_states ledger auth route now [] = pure []
  terminal_states ledger auth route now (entry ∷ more) =
      elim (lookup entry.canonical_key ledger.records) [
        | none ↦ terminal_states ledger auth route now more
        | some r ↦
            if is_due_terminal ledger route now entry r
            then (do
              _ ← authorize ledger auth r.origin outbound
              rest ← terminal_states ledger auth route now more
              pure (r.origin ∷ rest))
            else terminal_states ledger auth route now more
      ]

  -- `pendingTerminalStates`
  unfoldable pub pending_terminal_states : Json → ℕ → M (List OriginState)
  unfolding terminal_states
  pending_terminal_states authorization now = do
    auth ← lift (parse_authorization authorization)
    mutate (λ ledger. do
      route ← authorize_route ledger auth (some outbound)
      terminal_states ledger auth route now (values ledger.outbox))

  -- The end of `acknowledge`: two commits, the first with the receipt and the obligation still open.
  unfoldable pub settle_obligation : SyncLedger → Text → OutboxEntry → DurableReceipt → M SyncLedger
  settle_obligation ledger entry_key entry receipt = do
    let known = record entry { receiver_storage_incarnation = some receipt.storage_incarnation }
    held ← commit (record ledger {
      outbox = put entry_key known ledger.outbox;
      receipts = put (receipt_key receipt) receipt ledger.receipts;
    })
    let settled_entry = record known {
      disposition = confirmed;
      receipt_disposition = some receipt.disposition;
      last_error = none;
    }
    commit (record held { outbox = put entry_key settled_entry held.outbox })

  -- `acknowledge` on the route that was authorized.
  unfoldable pub acknowledge_on : SyncRoute → DurableReceipt → SyncLedger → M SyncLedger
  unfolding settle_obligation
  acknowledge_on route receipt ledger = do
    deny (not (receipt_is_bound route receipt)) invalid_receipt_binding
    deny (is_superseded receipt.disposition && not (is_deleted receipt.origin_state.state))
        live_superseded
    let entry_key = outbox_key route.id route.revision (state_key receipt.origin_state.unsigned)
    entry ← demand (lookup entry_key ledger.outbox) not_current_state
    deny (not (text_eq entry.fingerprint receipt.fingerprint)) not_current_state
    deny (incarnation_differs entry.receiver_storage_incarnation receipt.storage_incarnation)
        replaced_incarnation
    settle_obligation ledger entry_key entry receipt

  -- The body of `acknowledge`: the receipt is committed before its obligation is retired.
  unfoldable pub acknowledge_in : RouteAuthorization → DurableReceipt → SyncLedger → M SyncLedger
  unfolding acknowledge_on
  acknowledge_in auth receipt ledger = do
    route ← authorize ledger auth receipt.origin_state outbound
    acknowledge_on route receipt ledger

  -- `acknowledge`
  unfoldable pub acknowledge : Json → Json → M SyncLedger
  acknowledge authorization value = do
    auth ← lift (parse_authorization authorization)
    receipt ← lift (parse_receipt value)
    mutate (acknowledge_in auth receipt)

  unfoldable pub update_in :
      RouteAuthorization → Text → ℕ → Option Text → Bool → ℕ → SyncLedger → M SyncLedger
  update_in auth key next_attempt_at last_error blocked maximum ledger = do
    route ← authorize_route ledger auth (some outbound)
    let entry_key = outbox_key route.id route.revision key
    entry ← demand (lookup entry_key ledger.outbox) no_obligation
    deny (is_retired entry.disposition || is_confirmed entry.disposition) no_obligation
    commit (record ledger {
      outbox =
          put entry_key (attempted_entry entry next_attempt_at last_error blocked maximum)
            ledger.outbox;
    })

  -- `updateAttempt`
  unfoldable pub update_attempt : Json → Text → ℕ → Option Text → Bool → ℕ → M SyncLedger
  update_attempt authorization key next_attempt_at last_error blocked maximum = do
    auth ← lift (parse_authorization authorization)
    _ ← lift (parse_integer_from 0 (num next_attempt_at))
    _ ← lift (parse_integer 1 1000 (num maximum))
    deny (not (is_short last_error)) invalid_update
    mutate (update_in auth key next_attempt_at last_error blocked maximum)
