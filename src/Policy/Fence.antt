-- ===== src/Policy/Fence.antt =====
-- packages/cli/src/sync-ledger-policy.ts, `detachLedgerRoute` and `fenceLedgerRoute`.
use html_inbox.Common.{
  ℕ, ◌+◌, Bool, true, false, List, [], ◌∷◌, Option, none, some, Text, Dict, lookup, put, remove,
  map, map_values, text_eq, if◌then◌else◌,
}
use html_inbox.Model.{SyncRoute, RouteState}
use html_inbox.Ledger.{Attachment, Contribution, ManagedRecord, OutboxEntry, retired, SyncLedger}

unfoldable pub detach_contribution : Text → Contribution → Contribution
detach_contribution route_id c =
    if text_eq c.route_id route_id then record c { state = Attachment.detached } else c

unfoldable pub detach_record : Text → ManagedRecord → ManagedRecord
detach_record route_id r = record r {
  contributions = map (detach_contribution route_id) r.contributions;
}

unfoldable pub retire_entry : Text → OutboxEntry → OutboxEntry
retire_entry route_id e =
    if text_eq e.route_id route_id then record e { disposition = retired } else e

-- `detachLedgerRoute`
unfoldable pub detach_ledger_route : SyncLedger → Text → SyncLedger
detach_ledger_route ledger route_id = record ledger {
  records = map_values (detach_record route_id) ledger.records;
  outbox = map_values (retire_entry route_id) ledger.outbox;
}

-- The route as the fence leaves it.
unfoldable pub fenced_route : SyncRoute → RouteState → Option Text → SyncRoute
fenced_route route state error = record route {
  revision = route.revision + 1;
  state = state;
  last_error = error;
}

-- `fenceLedgerRoute`: the route object is the ledger's own, under its identity.
unfoldable pub fence_ledger_route : SyncLedger → SyncRoute → RouteState → Option Text → SyncLedger
unfolding detach_ledger_route fenced_route
fence_ledger_route ledger route state error =
    let detached_ledger = detach_ledger_route ledger route.id in
    record detached_ledger {
      routes = put route.id (fenced_route route state error) ledger.routes;
      route_retries = remove route.id ledger.route_retries;
    }

-- `for (const route of Object.values(ledger.routes)) fenceLedgerRoute(ledger, route, state, error)`
unfoldable pub fence_each : SyncLedger → List SyncRoute → RouteState → Option Text → SyncLedger
fence_each ledger [] state error = ledger
fence_each ledger (route ∷ routes) state error =
    fence_each (fence_ledger_route ledger route state error) routes state error

unfoldable pub fence_all_routes : SyncLedger → RouteState → Option Text → SyncLedger
unfolding fence_each
fence_all_routes ledger state error =
    fence_each ledger (html_inbox.Common.values ledger.routes) state error
