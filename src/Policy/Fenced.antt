-- ===== src/Policy/Fenced.antt =====
-- What a fence leaves behind.
use html_inbox.Common.{
  ◌+◌, ◌≡◌, ◌≢◌, Option, none, some, Text, lookup, values, All, text_eq_iff, text_eq_refl,
  lookup-put, lookup-put_self, lookup-remove, lookup-map_values-some, map_values-All, map-All,
  arith,
}
use html_inbox.Model.{SyncRoute, RouteState}
use html_inbox.Ledger.{Attachment, ManagedRecord, OutboxEntry, retired, SyncLedger}
use html_inbox.Policy.Fence.{
  detach_contribution, detach_record, retire_entry, fenced_route, fence_ledger_route,
}

-- No obligation of the route is left open.
abbrev pub IsRetired : Text → OutboxEntry → Type 0
IsRetired route_id e = e.route_id ≡ route_id → e.disposition ≡ retired

-- No record is attached through the route.
abbrev pub IsDetached : Text → ManagedRecord → Type 0
IsDetached route_id r =
    All (λ c. c.route_id ≡ route_id → c.state ≡ Attachment.detached) r.contributions

retire_entry-IsRetired : (id : Text) (e : OutboxEntry) → IsRetired id (retire_entry id e)
unfolding retire_entry
retire_entry-IsRetired id e h = ground (arith, text_eq_iff e.route_id id)

detach_record-IsDetached : (id : Text) (r : ManagedRecord) → IsDetached id (detach_record id r)
unfolding detach_record detach_contribution
detach_record-IsDetached id r =
    map-All (λ c. c.route_id ≡ id → c.state ≡ Attachment.detached) (detach_contribution id)
      r.contributions (λ c h. ground (arith, text_eq_iff c.route_id id))

retire_entry_other : (id : Text) (e : OutboxEntry) → e.route_id ≢ id → retire_entry id e ≡ e
unfolding retire_entry
retire_entry_other id e h = ground (arith, text_eq_iff e.route_id id)

-- A fenced ledger: what depended on the route is closed, the route is in its next revision without a
-- schedule, and the other routes and their obligations are as they were.
pub record IsFenced (before : SyncLedger) (route : SyncRoute) (state : RouteState)
    (error : Option Text) (after : SyncLedger) : Type 0 where
  pub obligations : All (IsRetired route.id) (values after.outbox)
  pub attachments : All (IsDetached route.id) (values after.records)
  pub advanced :
      lookup route.id after.routes
      ≡ some (record route { revision = route.revision + 1; state = state; last_error = error })
  pub unscheduled : lookup route.id after.route_retries ≡ none
  pub other_routes : (k : Text) → k ≢ route.id → lookup k after.routes ≡ lookup k before.routes
  pub other_entries :
      (k : Text) (e : OutboxEntry)
      → lookup k before.outbox ≡ some e
      → e.route_id ≢ route.id
      → lookup k after.outbox ≡ some e

-- Fencing a route retires its obligations, detaches what came through it, advances its revision and
-- drops its schedule, and leaves the other routes and their obligations as they were.
pub fence_ledger_route-IsFenced :
    (ledger : SyncLedger) (route : SyncRoute) (state : RouteState) (error : Option Text)
    → IsFenced ledger route state error (fence_ledger_route ledger route state error)
unfolding fence_ledger_route
fence_ledger_route-IsFenced ledger route state error = record {
  obligations =
      map_values-All (IsRetired route.id) (retire_entry route.id) ledger.outbox
        (retire_entry-IsRetired route.id);
  attachments =
      map_values-All (IsDetached route.id) (detach_record route.id) ledger.records
        (detach_record-IsDetached route.id);
  advanced = lookup-put_self route.id (fenced_route route state error) ledger.routes;
  unscheduled =
      ground (arith, lookup-remove route.id route.id ledger.route_retries, text_eq_refl route.id);
  other_routes = λ k h. ground (
    arith,
    lookup-put route.id k (fenced_route route state error) ledger.routes,
    text_eq_iff route.id k,
  );
  other_entries = λ k e found other. ground (
    arith,
    lookup-map_values-some (retire_entry route.id) k ledger.outbox e found,
    retire_entry_other route.id e other,
  );
}
