-- ===== src/Policy/Queued.antt =====
-- Queueing a record on a route: what the obligation says afterwards.
use html_inbox.Common.{
  ◌≡◌, ◌≢◌, ◌⊎◌, inl, inr, refl, sym, ap, ◌∙◌, Bool, true, false, List, [], ◌∷◌, Option, none, some,
  Text, lookup, values, keys, Option-cases, text_eq_iff, if◌then◌else◌, lookup-put_self,
  lookup-put_other, Bool-cases, arith,
}
use html_inbox.Json.Keys.{outbox_key}
use html_inbox.Model.{SyncRoute, Platform}
use html_inbox.Model.Codec.{state_fingerprint}
use html_inbox.Ledger.{ManagedRecord, OutboxEntry, SyncLedger, pending, retired, confirmed}
use html_inbox.Policy.Grants.{can_forward_record}
use html_inbox.Policy.Queue.{
  may_queue, queued_entry, keep_entry, fresh_entry, is_current, queue_on_route, retire_existing,
  queue_on_routes, queue_ledger_state, queue_keys, queue_all, is_other, history_required,
}

-- An obligation that the route may meet: it is of the present state, and open or done; without the
-- history that a receiver would ask for it is not open.
pub record IsQueued (fingerprint : Text) (can_forward : Bool) (entry : OutboxEntry) : Type 0 where
  pub current : entry.fingerprint ≡ fingerprint
  pub held_back : can_forward ≡ false → entry.disposition ≢ pending
  pub explained :
      can_forward ≡ false
      → (entry.disposition ≡ confirmed) ⊎ (entry.last_error ≡ some history_required)

pub queued_entry-IsQueued :
    (route : SyncRoute) (key fingerprint : Text) (force can_forward : Bool)
    (existing : Option OutboxEntry)
    → IsQueued fingerprint can_forward
        (queued_entry route key fingerprint force can_forward existing)
unfolding queued_entry keep_entry fresh_entry is_current
queued_entry-IsQueued route key fingerprint force can_forward none = record {
  current = refl;
  held_back = λ h. ground arith;
  explained = λ h. ground arith;
}
queued_entry-IsQueued route key fingerprint force can_forward (some e) = record {
  current = ground (arith, text_eq_iff e.fingerprint fingerprint);
  held_back = λ h. ground arith;
  explained = λ h. ground arith;
}

-- Queueing only ever changes the outbox.
abbrev pub SameButOutbox : SyncLedger → SyncLedger → Type 0
SameButOutbox before after = record after { outbox = before.outbox } ≡ before

retire_existing-retired :
    (ledger : SyncLedger) (k : Text) (existing : Option OutboxEntry) (e : OutboxEntry)
    → lookup k ledger.outbox ≡ existing
    → lookup k (retire_existing ledger k existing).outbox ≡ some e
    → e.disposition ≡ retired
unfolding retire_existing
retire_existing-retired ledger k none e h f = cc
retire_existing-retired ledger k (some x) e h f =
    ground (arith, lookup-put_self k (record x { disposition = retired }) ledger.outbox)

retire_existing_others :
    (ledger : SyncLedger) (k : Text) (existing : Option OutboxEntry)
    → ((j : Text)
        → j ≢ k
        → lookup j (retire_existing ledger k existing).outbox ≡ lookup j ledger.outbox)
      × SameButOutbox ledger (retire_existing ledger k existing)
unfolding retire_existing
retire_existing_others ledger k none = ((λ j h. refl), refl)
retire_existing_others ledger k (some x) =
    (lookup-put_other k (record x { disposition = retired }) ledger.outbox, refl)

module _ ⦃p : Platform⦄ where
  pub record QueuesOnRoute (before : SyncLedger) (key : Text) (r : ManagedRecord)
      (route : SyncRoute) (after : SyncLedger) : Type 0 where
    -- A route that may carry the record has an obligation for it.
    pub carried :
        may_queue before route r ≡ true
        → (entry : OutboxEntry) × (lookup (outbox_key route.id route.revision key) after.outbox
            ≡ some entry)
          × IsQueued (state_fingerprint r.origin) (can_forward_record before route r false) entry
    -- A route that may not has none that is open.
    pub refused :
        (entry : OutboxEntry)
        → may_queue before route r ≡ false
        → lookup (outbox_key route.id route.revision key) after.outbox ≡ some entry
        → entry.disposition ≡ retired
    pub other_entries :
        (k : Text)
        → k ≢ outbox_key route.id route.revision key
        → lookup k after.outbox ≡ lookup k before.outbox
    pub rest : SameButOutbox before after

  pub queue_on_route_refused :
      (ledger : SyncLedger) (key : Text) (r : ManagedRecord) (force : Bool) (route : SyncRoute)
      → may_queue ledger route r ≡ false
      → queue_on_route ledger key r force route
        ≡ retire_existing ledger
            (outbox_key route.id route.revision key)
            (lookup (outbox_key route.id route.revision key) ledger.outbox)
  unfolding queue_on_route
  queue_on_route_refused ledger key r force route h = rw h refl

  -- Queueing a record on a route that may carry it leaves an obligation of the record's present
  -- state, which is open only if the route may forward the record; on a route that may not, no
  -- obligation stays open. Other obligations and the rest of the ledger do not change.
  pub queue_on_route-QueuesOnRoute :
      (ledger : SyncLedger) (key : Text) (r : ManagedRecord) (force : Bool) (route : SyncRoute)
      → QueuesOnRoute ledger key r route (queue_on_route ledger key r force route)
  unfolding queue_on_route
  queue_on_route-QueuesOnRoute ledger key r force route =
      let k = outbox_key route.id route.revision key in
      let can_forward = can_forward_record ledger route r false in
      let existing = lookup k ledger.outbox in
      let entry = queued_entry route key (state_fingerprint r.origin) force can_forward existing in
      let good =
        queued_entry-IsQueued route key (state_fingerprint r.origin) force can_forward existing in
      record {
        carried = λ h. rw h (entry, lookup-put_self k entry ledger.outbox, good);
        refused = λ e h f. retire_existing-retired ledger k existing e refl (
            ap (λ l. lookup k l.outbox) (sym (queue_on_route_refused ledger key r force route h))
            ∙ f);
        other_entries = λ j h. elim (Bool-cases (may_queue ledger route r)) [
          | inl allowed ↦ rw allowed (lookup-put_other k entry ledger.outbox j h)
          | inr stopped ↦ rw stopped ((retire_existing_others ledger k existing).0 j h)
        ];
        rest = elim (Bool-cases (may_queue ledger route r)) [
          | inl allowed ↦ rw allowed refl
          | inr stopped ↦ rw stopped ((retire_existing_others ledger k existing).1)
        ];
      }

  pub SameButOutbox-trans :
      (a b c : SyncLedger) → SameButOutbox a b → SameButOutbox b c → SameButOutbox a c
  SameButOutbox-trans a b c h k =
      let close : SyncLedger → SyncLedger = λ l. record l { outbox = a.outbox } in ap close k ∙ h

  step-SameButOutbox :
      (ledger : SyncLedger) (key : Text) (r : ManagedRecord) (force : Bool) (route : SyncRoute)
      (other : Bool)
      → SameButOutbox ledger (if other then ledger else queue_on_route ledger key r force route)
  step-SameButOutbox ledger key r force route true = refl
  step-SameButOutbox ledger key r force route false =
      let queued = queue_on_route-QueuesOnRoute ledger key r force route in queued.rest

  queue_on_routes-SameButOutbox :
      (ledger : SyncLedger) (key : Text) (r : ManagedRecord) (route_id : Option Text) (force : Bool)
      (routes : List SyncRoute)
      → SameButOutbox ledger (queue_on_routes ledger key r route_id force routes)
  unfolding queue_on_routes
  queue_on_routes-SameButOutbox ledger key r route_id force [] = refl
  queue_on_routes-SameButOutbox ledger key r route_id force (route ∷ routes) =
      let next =
        if is_other route_id route then ledger else queue_on_route ledger key r force route in
      SameButOutbox-trans ledger next (queue_on_routes next key r route_id force routes)
        (step-SameButOutbox ledger key r force route (is_other route_id route))
        (queue_on_routes-SameButOutbox next key r route_id force routes)

  pub queue_ledger_state-SameButOutbox :
      (ledger : SyncLedger) (key : Text) (route_id : Option Text) (force : Bool)
      → SameButOutbox ledger (queue_ledger_state ledger key route_id force)
  unfolding queue_ledger_state
  queue_ledger_state-SameButOutbox ledger key route_id force =
      elim (Option-cases (lookup key ledger.records)) [
        | inl absent ↦ rw (absent, queue_ledger_state) refl
        | inr (r, found) ↦
            rw (found, queue_ledger_state)
              (queue_on_routes-SameButOutbox ledger key r route_id force (values ledger.routes))
      ]

  queue_keys-SameButOutbox :
      (ledger : SyncLedger) (route_id : Option Text) (ks : List Text)
      → SameButOutbox ledger (queue_keys ledger route_id ks)
  unfolding queue_keys
  queue_keys-SameButOutbox ledger route_id [] = refl
  queue_keys-SameButOutbox ledger route_id (key ∷ more) =
      let next = queue_ledger_state ledger key route_id false in
      SameButOutbox-trans ledger next (queue_keys next route_id more)
        (queue_ledger_state-SameButOutbox ledger key route_id false)
        (queue_keys-SameButOutbox next route_id more)

  pub queue_all-SameButOutbox :
      (ledger : SyncLedger) (route_id : Option Text)
      → SameButOutbox ledger (queue_all ledger route_id)
  unfolding queue_all
  queue_all-SameButOutbox ledger route_id =
      queue_keys-SameButOutbox ledger route_id (keys ledger.records)
