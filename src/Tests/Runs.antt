-- ===== src/Tests/Runs.antt =====
-- Runs of the store's operations on the small inbox.
use html_inbox.Common.{
  ◌≡◌, ◌≢◌, ◌↔◌, refl, true, false, [], ◌∷◌, none, some, Text, js, Result, ok, err, lookup,
}
use html_inbox.Json.Keys.{outbox_key}
use html_inbox.Model.{SyncRoute, RouteState, inbound, outbound, deleted, OriginState}
use html_inbox.Ledger.{SyncLedger, DurableReceipt, Custody, OutboxEntry}
use html_inbox.Policy.Fence.{fence_all_routes}
use html_inbox.Store.{Store, ApplyResult, settled, StagedBody}
use html_inbox.Store.Commit.{commit}
use html_inbox.Store.Committed.{IsCommitted, commit-IsCommitted}
use html_inbox.Store.Access.{authorize_route}
use html_inbox.Store.Authority.{
  IsAuthorized, IsTrusted, authorize_route_iff, authorize_sound, authorize_route-fence_all_routes,
}
use html_inbox.Store.Apply.{apply_locked, Fresh}
use html_inbox.Store.Applied.{IsSettled, apply_locked-IsSettled}
use html_inbox.Store.Routes.{revoke_in}
use html_inbox.Store.Revoked.{IsRevoked, revoke_in-IsRevoked}
use html_inbox.Store.Outbox.{acknowledge_in, update_in}
use html_inbox.Store.Outgoing.{
  IsAcknowledged, IsAttempted, acknowledge_in-IsAcknowledged, update_in-IsAttempted,
}
use html_inbox.Store.Documents.{delete_owned, publish_in}
use html_inbox.Store.Owned.{IsEnded, IsPublished, delete_owned-IsEnded, publish_in-IsPublished}
use html_inbox.Store.Inbound.{apply_in}
use html_inbox.Store.Received.{IsReceived, apply_in-IsReceived}
use html_inbox.Store.Worker.{Audit, audit_in}
use html_inbox.Store.Admitted.{IsAdmitted, admit_in-IsAdmitted}
use html_inbox.Store.Restore.{quarantine_restore}
use html_inbox.Store.Restored.{IsRestored, quarantine_restore-IsRestored}
use html_inbox.Tests.Opened.{opened}
use html_inbox.Tests.Data.{
  anchor, peer, own_state, host, ledger, store, outgoing, incoming, authorization_of, peer_state,
  state_of, own_record, record_of, peer_key, own_key, receipt, route_out, other_inbox, metadata_of,
  digest_text,
}

-- The result of an operation that succeeds.
abbrev result_of : Result SyncLedger × Store → SyncLedger
result_of (ok l, s) = l
result_of (err e, s) = ledger

commit_test : (commit ledger store).0 ≡ ok (record ledger { generation = 8 })
unfolding opened
commit_test = refl

commit-IsCommitted_example :
    IsCommitted ledger (record ledger { generation = 8 }) (commit ledger store).1
unfolding opened
commit-IsCommitted_example =
    commit-IsCommitted ledger (record ledger { generation = 8 }) store (commit ledger store).1 refl

authorize-sound_example :
    IsAuthorized ledger (authorization_of incoming) (some inbound) incoming
    × IsTrusted ledger incoming peer_state
    × (store ≡ store)
unfolding opened
authorize-sound_example =
    authorize_sound ledger (authorization_of incoming) peer_state inbound incoming store store refl

authorize_route_iff_example :
    (authorize_route ledger (authorization_of outgoing) (some outbound) store
      ≡ (ok outgoing, store))
    ↔ IsAuthorized ledger (authorization_of outgoing) (some outbound) outgoing
authorize_route_iff_example =
    authorize_route_iff ledger (authorization_of outgoing) (some outbound) outgoing store

authorize_route-fence_all_routes_example :
    authorize_route
      (fence_all_routes ledger RouteState.blocked none)
      (authorization_of outgoing)
      none
      store
    ≢ (ok outgoing, store)
authorize_route-fence_all_routes_example =
    authorize_route-fence_all_routes ledger none (authorization_of outgoing) none outgoing store
      store (refl, (refl, tt))

abbrev fresh : Fresh
fresh = record { local_id = js "fresh"; received_at = js "2025-01-01T00:00:00.000Z" }

-- The peer's document, deleted here.
abbrev ended_state : OriginState
ended_state = state_of other_inbox (js "theirs") 9 deleted

abbrev ended_ledger : SyncLedger
ended_ledger = record ledger {
  records = (own_key, own_record) ∷ (peer_key, record_of ended_state (js "theirs")) ∷ [];
}

abbrev settled_ledger : Result (ApplyResult × SyncLedger) × Store → SyncLedger
settled_ledger (ok (a, l), s) = l
settled_ledger (err e, s) = ledger

abbrev settled_receipt : Result (ApplyResult × SyncLedger) × Store → DurableReceipt
settled_receipt (ok (settled c r, l), s) = r
settled_receipt _ = receipt

abbrev taken : Result (ApplyResult × SyncLedger) × Store
taken = apply_locked ledger incoming ended_state fresh none store

apply_locked-IsSettled_example :
    IsSettled
      (some (record_of peer_state (js "theirs")))
      ended_state
      Custody.removed
      (settled_receipt taken)
      (settled_ledger taken)
unfolding opened
apply_locked-IsSettled_example =
    apply_locked-IsSettled ledger incoming ended_state fresh none store store Custody.removed
      (settled_receipt taken) (settled_ledger taken) refl

abbrev refused : Result (ApplyResult × SyncLedger) × Store
refused = apply_locked ended_ledger incoming peer_state fresh none store

abbrev revoked : Result SyncLedger × Store
revoked = revoke_in route_out 1 ledger store

revoke_in-IsRevoked_example : IsRevoked route_out (result_of revoked) revoked.1
unfolding opened
revoke_in-IsRevoked_example =
    revoke_in-IsRevoked route_out 1 ledger (result_of revoked) store revoked.1 outgoing refl refl
      refl

abbrev acknowledged : Result SyncLedger × Store
acknowledged = acknowledge_in (authorization_of outgoing) receipt ledger store

acknowledge_in-IsAcknowledged_example :
    (route : SyncRoute) × IsAuthorized ledger (authorization_of outgoing) (some outbound) route
    × IsAcknowledged
        (outbox_key route.id route.revision own_key)
        receipt
        (result_of acknowledged)
        acknowledged.1
unfolding opened
acknowledge_in-IsAcknowledged_example =
    acknowledge_in-IsAcknowledged (authorization_of outgoing) receipt ledger
      (result_of acknowledged) store acknowledged.1 refl

abbrev attempted : Result SyncLedger × Store
attempted = update_in (authorization_of outgoing) own_key 5 none false 3 ledger store

update_in-IsAttempted_example :
    (route : SyncRoute) × (entry : OutboxEntry) × IsAuthorized ledger
      (authorization_of outgoing)
      (some outbound)
      route
    × (lookup (outbox_key route.id route.revision own_key) ledger.outbox ≡ some entry)
    × IsAttempted entry (outbox_key route.id route.revision own_key) false 3 (result_of attempted)
unfolding opened
update_in-IsAttempted_example =
    update_in-IsAttempted (authorization_of outgoing) own_key 5 none false 3 ledger
      (result_of attempted) store attempted.1 refl

abbrev ended : Result SyncLedger × Store
ended = delete_owned ledger own_record store

delete_owned-IsEnded_example : IsEnded ledger own_record (result_of ended) ended.1
unfolding opened
delete_owned-IsEnded_example =
    delete_owned-IsEnded ledger own_record (result_of ended) store ended.1 refl

abbrev body : StagedBody
body = record { file_name = js "12345678-1234-4234-8234-123456789abc.html"; bytes = 1 ∷ 2 ∷ 3 ∷ [] }

abbrev published : Result SyncLedger × Store
published = publish_in (metadata_of (js "new")) digest_text body none (js "fresh") ledger store

publish_in-IsPublished_example :
    IsPublished ledger (metadata_of (js "new")) (result_of published) published.1
unfolding opened
publish_in-IsPublished_example =
    publish_in-IsPublished (metadata_of (js "new")) digest_text body none (js "fresh") ledger
      (result_of published) store published.1 refl

abbrev answered : Result ApplyResult × Store
answered = apply_in (authorization_of incoming) ended_state fresh none ledger store

abbrev answer_of : Result ApplyResult × Store → DurableReceipt
answer_of (ok (settled c r), s) = r
answer_of _ = receipt

apply_in-IsReceived_example :
    IsReceived ledger
      (authorization_of incoming)
      ended_state
      Custody.removed
      (answer_of answered)
      answered.1
unfolding opened
apply_in-IsReceived_example =
    apply_in-IsReceived (authorization_of incoming) ended_state fresh none ledger store answered.1
      Custody.removed (answer_of answered) refl

abbrev drift_file : Text
drift_file = js "12345678-1234-4234-8234-123456789abc.html"

abbrev drifted_ledger : SyncLedger
drifted_ledger = record ledger {
  records = (own_key, record own_record { body_file = some drift_file }) ∷ [];
}

-- The file has one byte, the state that was signed three.
abbrev drifted_store : Store
drifted_store = record store { disk = drifted_ledger; bodies = (drift_file, 1 ∷ []) ∷ [] }

abbrev audited : Result Audit × Store
audited = audit_in (λ bytes. digest_text) (λ name. true) drifted_ledger drifted_store

abbrev drift : Audit
drift = record { missing_keys = []; conflicts = own_key ∷ [] }

admit_in-IsAdmitted_example :
    IsAdmitted ledger (authorization_of outgoing) (some own_state) true outgoing
unfolding opened
admit_in-IsAdmitted_example =
    admit_in-IsAdmitted ledger (authorization_of outgoing) (some own_state) true outgoing store
      store refl

abbrev put_back : Result SyncLedger × Store
put_back = quarantine_restore anchor peer store

quarantine_restore-IsRestored_example : IsRestored (result_of put_back) put_back.1
unfolding opened
quarantine_restore-IsRestored_example =
    quarantine_restore-IsRestored anchor peer (result_of put_back) store put_back.1 refl
