-- ===== src/Store/Holdings.antt =====
-- packages/cli/src/sync-store.ts, what a peer says it holds: `reconcileHoldings`.
use html_inbox.Common.{
  Bool, true, false, not, ◌&&◌, ◌||◌, List, [], ◌∷◌, Option, none, some, Text, lookup, values, any,
  length, ltb, text_eq, ◌==◌, if◌then◌else◌, adjust, Result, ok, reject, require, page_limit,
  holding_out_of_scope, invalid_current_holding, Result, ◌>>=◌ as ◌>>=ᵣ◌, ◌>>◌ as ◌>>ᵣ◌,
}
use html_inbox.Json.{Json, str}
use html_inbox.Json.Keys.{canonical_key, outbox_key}
use html_inbox.Model.{SyncRoute, RouteAuthorization, Platform, is_live, manifest_page, outbound}
use html_inbox.Model.Fields.{is_digest, parse_safe_id, parse_uuid}
use html_inbox.Model.Routes.{parse_authorization}
use html_inbox.Model.Codec.{state_fingerprint}
use html_inbox.Ledger.{
  DurableReceipt, ManagedRecord, OutboxEntry, SyncLedger, same_custody, suppressed,
}
use html_inbox.Policy.Grants.{can_forward_record, option_text_is}
use html_inbox.Policy.Queue.{queue_ledger_state}
use html_inbox.Store.Monad.{M, lift, ◌>>=◌, ◌>>◌, deny}
use html_inbox.Store.Access.{authorize_route}
use html_inbox.Store.Commit.{commit, mutate}
use html_inbox.Store.Outbox.{incarnation_differs}

-- What a peer says of one record; `suppressed` is false where it is left out.
pub record Holding : Type 0 where
  pub origin_inbox_id : Text
  pub origin_document_id : Text
  pub fingerprint : Option Text
  pub available : Bool
  pub suppressed : Bool
  pub storage_incarnation : Text

abbrev is_malformed : Option Text → Bool
is_malformed none = false
is_malformed (some fingerprint) = not (is_digest fingerprint)

unfoldable pub check_holdings_of : List Holding → Result (Unit {0})
unfolding is_digest
check_holdings_of [] = ok tt
check_holdings_of (h ∷ more) =
    reject (is_malformed h.fingerprint) invalid_current_holding
    >>ᵣ (parse_uuid (str h.origin_inbox_id) >>=ᵣ (λ inbox.
        parse_safe_id (str h.origin_document_id) >>=ᵣ (λ document.
          parse_uuid (str h.storage_incarnation) >>=ᵣ (λ incarnation. check_holdings_of more))))

-- `existing` names another incarnation of the receiver.
abbrev pub has_moved : Option OutboxEntry → Holding → Bool
has_moved none h = false
has_moved (some entry) h =
    incarnation_differs entry.receiver_storage_incarnation h.storage_incarnation

abbrev is_absent : Option OutboxEntry → Bool
is_absent none = true
is_absent (some entry) = false

abbrev pub with_incarnation : Text → OutboxEntry → OutboxEntry
with_incarnation incarnation entry = record entry {
  receiver_storage_incarnation = some incarnation;
}

module _ ⦃p : Platform⦄ where
  abbrev pub shows_suppression : SyncRoute → ManagedRecord → Holding → DurableReceipt → Bool
  shows_suppression route r h receipt =
      text_eq receipt.route_id route.id
      && ((receipt.revision == route.revision)
          && (text_eq receipt.fingerprint (state_fingerprint r.origin)
              && (text_eq receipt.storage_incarnation h.storage_incarnation
                  && same_custody receipt.disposition suppressed)))

  -- The peer does not hold the record's current state, or not its body.
  unfoldable pub is_missing : SyncLedger → SyncRoute → ManagedRecord → Holding → Bool
  is_missing ledger route r h =
      not (option_text_is h.fingerprint (state_fingerprint r.origin))
      || (is_live r.origin.state
          && ((not h.available && not h.suppressed)
              || (h.suppressed
                  && not (any (shows_suppression route r h) (values ledger.receipts)))))

  unfoldable pub needs_repair : SyncLedger → SyncRoute → Text → ManagedRecord → Holding → Bool
  unfolding is_missing
  needs_repair ledger route entry_key r h =
      let existing = lookup entry_key ledger.outbox in
      is_missing ledger route r h || (has_moved existing h || is_absent existing)

  -- The obligation is opened again, for the incarnation that answered.
  unfoldable pub repair : SyncLedger → SyncRoute → Text → Text → Holding → SyncLedger
  unfolding queue_ledger_state adjust
  repair ledger route key entry_key h =
      let queued = queue_ledger_state ledger key (some route.id) true in
      record queued {
        outbox = adjust entry_key (with_incarnation h.storage_incarnation) queued.outbox;
      }

  -- One turn of the loop over the holdings.
  unfoldable pub reconcile_holding : SyncRoute → Holding → SyncLedger → Result SyncLedger
  unfolding needs_repair repair
  reconcile_holding route h ledger =
      let key = canonical_key h.origin_inbox_id h.origin_document_id in
      let entry_key = outbox_key route.id route.revision key in
      require (lookup key ledger.records) holding_out_of_scope >>=ᵣ (λ r.
        reject (not (can_forward_record ledger route r true)) holding_out_of_scope
        >>ᵣ ok (
            if needs_repair ledger route entry_key r h
            then repair ledger route key entry_key h
            else ledger))

  unfoldable pub reconcile_each : SyncRoute → List Holding → SyncLedger → Result SyncLedger
  unfolding reconcile_holding
  reconcile_each route [] ledger = ok ledger
  reconcile_each route (h ∷ more) ledger =
      reconcile_holding route h ledger >>=ᵣ (λ next. reconcile_each route more next)

  unfoldable pub holdings_in : RouteAuthorization → List Holding → SyncLedger → M SyncLedger
  unfolding reconcile_each
  holdings_in auth holdings ledger = do
    route ← authorize_route ledger auth (some outbound)
    next ← lift (reconcile_each route holdings ledger)
    commit next

  -- `reconcileHoldings`
  unfoldable pub reconcile_holdings : Json → List Holding → M SyncLedger
  unfolding holdings_in check_holdings_of
  reconcile_holdings authorization holdings = do
    auth ← lift (parse_authorization authorization)
    deny (ltb manifest_page (length holdings)) page_limit
    _ ← lift (check_holdings_of holdings)
    mutate (holdings_in auth holdings)
