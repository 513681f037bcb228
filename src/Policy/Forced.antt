-- ===== src/Policy/Forced.antt =====
-- What `queueLedgerState` does when it is forced: the obligation of one route is there, and open again.
use html_inbox.Common.{
  ◌≡◌, ◌≢◌, refl, sym, subst, ap, ◌∙◌, arith, Bool, true, false, List, [], ◌∷◌, ◌++◌, Option, none,
  some, Text, text_eq, text_eq_iff, text_eq_refl, lookup, lookup-put_self, values, if◌then◌else◌,
  inl, inr, Bool-cases,
}
use html_inbox.Json.Keys.{outbox_key}
use html_inbox.Model.{Platform, SyncRoute}
use html_inbox.Model.Codec.{state_fingerprint}
use html_inbox.Ledger.{ManagedRecord, OutboxEntry, SyncLedger, confirmed, retired}
use html_inbox.Policy.Grants.{
  can_forward_record, pinned_key, pinned_origin_grant, pinned_state_grant, route_may_carry,
}
use html_inbox.Policy.Queue.{
  fresh_entry, is_current, is_other, keep_entry, may_queue, queue_disposition, queue_ledger_state,
  queue_on_route, queue_on_routes, queued_entry, retire_existing,
}
use html_inbox.Policy.Queued.{
  SameButOutbox, queue_on_route-QueuesOnRoute, queue_on_route_refused, queued_entry-IsQueued,
}

-- There is an obligation of the state under the key, and it is not confirmed.
pub record IsOpenAgain (fingerprint entry_key : Text) (ledger : SyncLedger) : Type 0 where
  pub entry : OutboxEntry
  pub found : lookup entry_key ledger.outbox ≡ some entry
  pub current : entry.fingerprint ≡ fingerprint
  pub unconfirmed : entry.disposition ≢ confirmed

queued_entry-unconfirmed :
    (route : SyncRoute) (key fingerprint : Text) (can_forward : Bool)
    (existing : Option OutboxEntry)
    → (queued_entry route key fingerprint true can_forward existing).disposition ≢ confirmed
unfolding queued_entry keep_entry fresh_entry is_current queue_disposition
queued_entry-unconfirmed route key fingerprint can_forward none = λ h. ground arith
queued_entry-unconfirmed route key fingerprint can_forward (some e) = λ h. ground arith

retire_existing-IsOpenAgain :
    (ledger : SyncLedger) (fingerprint k : Text)
    → IsOpenAgain fingerprint k ledger
    → IsOpenAgain fingerprint k (retire_existing ledger k (lookup k ledger.outbox))
unfolding retire_existing
retire_existing-IsOpenAgain ledger fingerprint k before = rw before.found (record {
  entry = record before.entry { disposition = retired };
  found = lookup-put_self k (record before.entry { disposition = retired }) ledger.outbox;
  current = before.current;
  unconfirmed = λ e. cc;
})

module _ ⦃p : Platform⦄ (key : Text) (r : ManagedRecord) where
  -- A route that may carry the record opens its obligation.
  opened_on :
      (ledger : SyncLedger) (route : SyncRoute)
      → may_queue ledger route r ≡ true
      → IsOpenAgain
          (state_fingerprint r.origin)
          (outbox_key route.id route.revision key)
          (queue_on_route ledger key r true route)
  unfolding queue_on_route
  opened_on ledger route may =
      let k = outbox_key route.id route.revision key in
      let can = can_forward_record ledger route r false in
      let made =
        queued_entry route key (state_fingerprint r.origin) true can (lookup k ledger.outbox) in
      let good =
        queued_entry-IsQueued route key (state_fingerprint r.origin) true can
          (lookup k ledger.outbox) in
      rw may (record {
        entry = made;
        found = lookup-put_self k made ledger.outbox;
        current = good.current;
        unconfirmed =
            queued_entry-unconfirmed route key (state_fingerprint r.origin) can
              (lookup k ledger.outbox);
      })

  -- Another route does not confirm it.
  kept_on :
      (ledger : SyncLedger) (route : SyncRoute) (k : Text)
      → IsOpenAgain (state_fingerprint r.origin) k ledger
      → IsOpenAgain (state_fingerprint r.origin) k (queue_on_route ledger key r true route)
  kept_on ledger route k before =
      let own = outbox_key route.id route.revision key in
      elim (Bool-cases (text_eq k own)) [
        | inl same ↦
            let it : own ≡ k = sym ((text_eq_iff k own).0 same) in
            elim (Bool-cases (may_queue ledger route r)) [
              | inl may ↦
                  subst
                    (λ x.
                      IsOpenAgain (state_fingerprint r.origin) x
                        (queue_on_route ledger key r true route))
                    it (opened_on ledger route may)
              | inr may_not ↦
                  subst (λ l. IsOpenAgain (state_fingerprint r.origin) k l)
                    (sym (queue_on_route_refused ledger key r true route may_not))
                    (subst
                      (λ x.
                        IsOpenAgain (state_fingerprint r.origin) k
                          (retire_existing ledger x (lookup x ledger.outbox)))
                      (sym it)
                      (retire_existing-IsOpenAgain ledger (state_fingerprint r.origin) k before))
            ]
        | inr other ↦
            let frame = (queue_on_route-QueuesOnRoute ledger key r true route).other_entries k in
            record {
              entry = before.entry;
              found = frame (λ e. ground (arith, text_eq_iff k own)) ∙ before.found;
              current = before.current;
              unconfirmed = before.unconfirmed;
            }
      ]

  kept_step :
      (ledger : SyncLedger) (q : SyncRoute) (k : Text) (other : Bool)
      → IsOpenAgain (state_fingerprint r.origin) k ledger
      → IsOpenAgain
          (state_fingerprint r.origin)
          k
          (if other then ledger else queue_on_route ledger key r true q)
  kept_step ledger q k true before = before
  kept_step ledger q k false before = kept_on ledger q k before

  kept_on_routes :
      (ledger : SyncLedger) (id : Option Text) (routes : List SyncRoute) (k : Text)
      → IsOpenAgain (state_fingerprint r.origin) k ledger
      → IsOpenAgain (state_fingerprint r.origin) k (queue_on_routes ledger key r id true routes)
  unfolding queue_on_routes
  kept_on_routes ledger id [] k before = before
  kept_on_routes ledger id (q ∷ routes) k before =
      kept_on_routes (if is_other id q then ledger else queue_on_route ledger key r true q) id
        routes k (kept_step ledger q k (is_other id q) before)

  -- Whether a route may carry the record does not depend on the outbox.
  may_queue-SameButOutbox :
      (before after : SyncLedger) (route : SyncRoute)
      → SameButOutbox before after
      → may_queue before route r ≡ may_queue after route r
  unfolding may_queue pinned_state_grant pinned_origin_grant pinned_key
  may_queue-SameButOutbox before after route same = sym (ap (λ l. may_queue l route r) same)

  step_same :
      (ledger : SyncLedger) (q : SyncRoute) (other : Bool)
      → SameButOutbox ledger (if other then ledger else queue_on_route ledger key r true q)
  step_same ledger q true = refl
  step_same ledger q false =
      let queued = queue_on_route-QueuesOnRoute ledger key r true q in queued.rest

  opened_on_routes :
      (ledger : SyncLedger) (route : SyncRoute) (front back : List SyncRoute)
      → may_queue ledger route r ≡ true
      → IsOpenAgain
          (state_fingerprint r.origin)
          (outbox_key route.id route.revision key)
          (queue_on_routes ledger key r (some route.id) true (front ++ route ∷ back))
  unfolding queue_on_routes
  opened_on_routes ledger route [] back may =
      let own : is_other (some route.id) route ≡ false = ground (arith, text_eq_refl route.id) in
      rw (own, queue_on_routes)
        (kept_on_routes (queue_on_route ledger key r true route) (some route.id) back
          (outbox_key route.id route.revision key) (opened_on ledger route may))
  opened_on_routes ledger route (q ∷ front) back may =
      let next =
        if is_other (some route.id) q then ledger else queue_on_route ledger key r true q in
      opened_on_routes next route front back (
        sym (
          may_queue-SameButOutbox ledger next route
            (step_same ledger q (is_other (some route.id) q)))
        ∙ may)

  -- Where a route of the ledger may carry a record, forced queueing leaves an unconfirmed obligation of the
  -- record's current state on it.
  pub queue_ledger_state-IsOpenAgain :
      (ledger : SyncLedger) (route : SyncRoute) (front back : List SyncRoute)
      → lookup key ledger.records ≡ some r
      → values ledger.routes ≡ front ++ route ∷ back
      → may_queue ledger route r ≡ true
      → IsOpenAgain
          (state_fingerprint r.origin)
          (outbox_key route.id route.revision key)
          (queue_ledger_state ledger key (some route.id) true)
  unfolding queue_ledger_state
  queue_ledger_state-IsOpenAgain ledger route front back known listed may =
      rw (known, listed, queue_ledger_state) (opened_on_routes ledger route front back may)

-- What may be sent as part of a complete inventory may be queued.
pub can_forward_record-may_queue :
    ⦃p : Platform⦄ (ledger : SyncLedger) (route : SyncRoute) (r : ManagedRecord)
    → can_forward_record ledger route r true ≡ true
    → may_queue ledger route r ≡ true
unfolding can_forward_record route_may_carry may_queue
can_forward_record-may_queue ledger route r h = ground arith
