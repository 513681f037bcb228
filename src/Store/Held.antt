-- ===== src/Store/Held.antt =====
-- What `reconcileHoldings` makes of what a peer says it holds.
use html_inbox.Common.{
  ◌≡◌, ◌≢◌, ◌⊎◌, refl, ap, ◌∙◌, subst, arith, Bool, true, false, not, List, ◌∷◌, ◌++◌, Option, none,
  some, Text, text_eq_iff, text_eq_refl, any, any_split, any_member, lookup, lookup-split,
  lookup-put_self, values, adjust-some, if◌then◌else◌, adjust, ok, ok-injective, unrefused, reject,
  require, require-eq-ok, reject-eq-ok, holding_out_of_scope, Bool-cases, Option-cases, inl, inr,
  >>=-eq-ok as >>=ᵣ-eq-ok,
}
use html_inbox.Json.Keys.{canonical_key, outbox_key}
use html_inbox.Model.{SyncRoute, Platform, live, is_live}
use html_inbox.Model.Codec.{state_fingerprint}
use html_inbox.Ledger.{
  DurableReceipt, ManagedRecord, OutboxEntry, SyncLedger, confirmed, suppressed,
}
use html_inbox.Policy.Grants.{can_forward_record, option_text_is}
use html_inbox.Policy.Queue.{queue_ledger_state}
use html_inbox.Policy.Queued.{SameButOutbox, queue_ledger_state-SameButOutbox}
use html_inbox.Policy.Forced.{
  IsOpenAgain, can_forward_record-may_queue, queue_ledger_state-IsOpenAgain,
}
use html_inbox.Store.Holdings.{
  Holding, is_missing, needs_repair, reconcile_holding, repair, shows_suppression, with_incarnation,
}

abbrev pub key_of : Holding → Text
key_of h = canonical_key h.origin_inbox_id h.origin_document_id

abbrev pub entry_key_of : SyncRoute → Holding → Text
entry_key_of route h = outbox_key route.id route.revision (key_of h)

module _ ⦃p : Platform⦄ where
  -- The ledger holds a receipt that the peer suppresses the record's current state.
  pub record IsSuppressed (ledger : SyncLedger) (route : SyncRoute) (r : ManagedRecord)
      (h : Holding) : Type 0 where
    pub receipt : DurableReceipt
    pub front : List DurableReceipt
    pub back : List DurableReceipt
    pub kept : values ledger.receipts ≡ front ++ receipt ∷ back
    pub same_route : receipt.route_id ≡ route.id
    pub same_revision : receipt.revision ≡ route.revision
    pub same_state : receipt.fingerprint ≡ state_fingerprint r.origin
    pub same_incarnation : receipt.storage_incarnation ≡ h.storage_incarnation
    pub custody : receipt.disposition ≡ suppressed

  -- The peer holds what it should: the record's current state, and where the document is live its body or a suppression
  -- that it has confirmed; and an obligation is kept, of no other incarnation of the peer.
  pub record DoesHold (ledger : SyncLedger) (route : SyncRoute) (r : ManagedRecord) (h : Holding)
      : Type 0 where
    pub same_state : h.fingerprint ≡ some (state_fingerprint r.origin)
    pub body :
        r.origin.state ≡ live
        → ((h.available ≡ true) × (h.suppressed ≡ false))
          ⊎ ((h.suppressed ≡ true) × IsSuppressed ledger route r h)
    pub owed : OutboxEntry
    pub found : lookup (entry_key_of route h) ledger.outbox ≡ some owed
    pub same_receiver :
        (known : Text)
        → owed.receiver_storage_incarnation ≡ some known
        → known ≡ h.storage_incarnation

  -- The obligation is open again, of the current state and for the incarnation that answered.
  pub record IsReopened (route : SyncRoute) (r : ManagedRecord) (h : Holding) (after : SyncLedger)
      : Type 0 where
    pub entry : OutboxEntry
    pub found : lookup (entry_key_of route h) after.outbox ≡ some entry
    pub current : entry.fingerprint ≡ state_fingerprint r.origin
    pub unconfirmed : entry.disposition ≢ confirmed
    pub named : entry.receiver_storage_incarnation ≡ some h.storage_incarnation

  pub record IsReconciled (before : SyncLedger) (route : SyncRoute) (h : Holding)
      (after : SyncLedger) : Type 0 where
    pub managed : ManagedRecord
    pub known : lookup (key_of h) before.records ≡ some managed
    pub sendable : can_forward_record before route managed true ≡ true
    pub rest : SameButOutbox before after
    pub outcome :
        (DoesHold before route managed h × (after ≡ before))
        ⊎ ((¬ DoesHold before route managed h) × IsReopened route managed h after)

  -- The test of the receipts finds such a receipt, or there is none.
  shown-IsSuppressed :
      (ledger : SyncLedger) (route : SyncRoute) (r : ManagedRecord) (h : Holding)
      → any (shows_suppression route r h) (values ledger.receipts) ≡ true
      → IsSuppressed ledger route r h
  shown-IsSuppressed ledger route r h shown =
      let (receipt, front, back, parts, test) =
        any_split (shows_suppression route r h) (values ledger.receipts) shown in
      record {
        receipt = receipt;
        front = front;
        back = back;
        kept = parts;
        same_route = ground (arith, text_eq_iff receipt.route_id route.id);
        same_revision = ground arith;
        same_state = ground (arith, text_eq_iff receipt.fingerprint (state_fingerprint r.origin));
        same_incarnation =
            ground (arith, text_eq_iff receipt.storage_incarnation h.storage_incarnation);
        custody = ground arith;
      }

  suppressed-shown :
      (ledger : SyncLedger) (route : SyncRoute) (r : ManagedRecord) (h : Holding)
      → IsSuppressed ledger route r h
      → any (shows_suppression route r h) (values ledger.receipts) ≡ true
  suppressed-shown ledger route r h s = rw s.kept (
      any_member (shows_suppression route r h) s.front s.back s.receipt (
        let a = s.same_route in
        let b = s.same_revision in
        let c = s.same_state in
        let d = s.same_incarnation in
        let e = s.custody in
        ground (
          arith,
          text_eq_iff s.receipt.route_id route.id,
          text_eq_iff s.receipt.fingerprint (state_fingerprint r.origin),
          text_eq_iff s.receipt.storage_incarnation h.storage_incarnation,
        )))

  option_text_is-some : (o : Option Text) (t : Text) → option_text_is o t ≡ true → o ≡ some t
  option_text_is-some none t h = cc
  option_text_is-some (some u) t h = ground (arith, text_eq_iff u t)

  body_of :
      (ledger : SyncLedger) (route : SyncRoute) (r : ManagedRecord) (h : Holding)
      → is_missing ledger route r h ≡ false
      → r.origin.state ≡ live
      → ((h.available ≡ true) × (h.suppressed ≡ false))
        ⊎ ((h.suppressed ≡ true) × IsSuppressed ledger route r h)
  unfolding is_missing
  body_of ledger route r h there alive = elim (Bool-cases h.suppressed) [
    | inl hidden ↦ inr (hidden, shown-IsSuppressed ledger route r h (ground arith))
    | inr shown ↦ inl (ground arith, shown)
  ]

  settled-DoesHold :
      (ledger : SyncLedger) (route : SyncRoute) (r : ManagedRecord) (h : Holding)
      → needs_repair ledger route (entry_key_of route h) r h ≡ false
      → DoesHold ledger route r h
  unfolding needs_repair is_missing
  settled-DoesHold ledger route r h settled =
      elim (Option-cases (lookup (entry_key_of route h) ledger.outbox)) [
        | inl absent ↦ absurd (ground arith)
        | inr (owed, found) ↦
            let there : is_missing ledger route r h ≡ false = ground arith in
            record {
              same_state =
                  option_text_is-some h.fingerprint (state_fingerprint r.origin) (ground arith);
              body = body_of ledger route r h there;
              owed = owed;
              found = found;
              same_receiver = λ known e. ground (arith, text_eq_iff known h.storage_incarnation);
            }
      ]

  DoesHold-there :
      (ledger : SyncLedger) (route : SyncRoute) (r : ManagedRecord) (h : Holding)
      → DoesHold ledger route r h
      → is_missing ledger route r h ≡ false
  unfolding is_missing
  DoesHold-there ledger route r h holds =
      let same = holds.same_state in
      elim (Bool-cases (is_live r.origin.state)) [
        | inr over ↦ ground (arith, text_eq_refl (state_fingerprint r.origin))
        | inl alive ↦ elim (holds.body (ground arith)) [
          | inl (available, shown) ↦ ground (arith, text_eq_refl (state_fingerprint r.origin))
          | inr (hidden, receipt) ↦ ground (
            arith,
            text_eq_refl (state_fingerprint r.origin),
            suppressed-shown ledger route r h receipt,
          )
        ]
      ]

  DoesHold-settled :
      (ledger : SyncLedger) (route : SyncRoute) (r : ManagedRecord) (h : Holding)
      → DoesHold ledger route r h
      → needs_repair ledger route (entry_key_of route h) r h ≡ false
  unfolding needs_repair
  DoesHold-settled ledger route r h holds =
      let found = holds.found in
      let owed = holds.owed in
      let there = DoesHold-there ledger route r h holds in
      elim (Option-cases owed.receiver_storage_incarnation) [
        | inl unknown ↦ ground arith
        | inr (known, named) ↦
            let same = holds.same_receiver known named in
            ground (arith, text_eq_iff known h.storage_incarnation)
      ]

  repair-SameButOutbox :
      (ledger : SyncLedger) (route : SyncRoute) (key entry_key : Text) (h : Holding)
      → SameButOutbox ledger (repair ledger route key entry_key h)
  unfolding repair
  repair-SameButOutbox ledger route key entry_key h =
      queue_ledger_state-SameButOutbox ledger key (some route.id) true

  reopened :
      (queued : SyncLedger) (route : SyncRoute) (r : ManagedRecord) (h : Holding)
      → IsOpenAgain (state_fingerprint r.origin) (entry_key_of route h) queued
      → IsReopened route r h (record queued {
        outbox =
            adjust (entry_key_of route h) (with_incarnation h.storage_incarnation) queued.outbox;
      })
  reopened queued route r h again =
      let entry = with_incarnation h.storage_incarnation again.entry in
      record {
        entry = entry;
        found =
            ap (λ d. lookup (entry_key_of route h) d)
              (adjust-some (entry_key_of route h) (with_incarnation h.storage_incarnation)
                queued.outbox again.entry again.found)
            ∙ lookup-put_self (entry_key_of route h) entry queued.outbox;
        current = again.current;
        unconfirmed = again.unconfirmed;
        named = refl;
      }

  repair-IsReopened :
      (ledger : SyncLedger) (route : SyncRoute) (r : ManagedRecord) (h : Holding)
      → lookup route.id ledger.routes ≡ some route
      → lookup (key_of h) ledger.records ≡ some r
      → can_forward_record ledger route r true ≡ true
      → IsReopened route r h (repair ledger route (key_of h) (entry_key_of route h) h)
  unfolding repair
  repair-IsReopened ledger route r h own known sendable =
      let (front, back, listed) = lookup-split route.id ledger.routes route own in
      reopened (queue_ledger_state ledger (key_of h) (some route.id) true) route r h (
        queue_ledger_state-IsOpenAgain (key_of h) r ledger route front back known listed
          (can_forward_record-may_queue ledger route r sendable))

  turned-IsReconciled :
      (route : SyncRoute) (h : Holding) (ledger : SyncLedger) (r : ManagedRecord) (need : Bool)
      → lookup route.id ledger.routes ≡ some route
      → lookup (key_of h) ledger.records ≡ some r
      → can_forward_record ledger route r true ≡ true
      → needs_repair ledger route (entry_key_of route h) r h ≡ need
      → IsReconciled ledger route h
          (if need then repair ledger route (key_of h) (entry_key_of route h) h else ledger)
  turned-IsReconciled route h ledger r true own known sendable need = record {
    managed = r;
    known = known;
    sendable = sendable;
    rest = repair-SameButOutbox ledger route (key_of h) (entry_key_of route h) h;
    outcome = inr (
      (λ holds. ground (arith, need, DoesHold-settled ledger route r h holds)),
      repair-IsReopened ledger route r h own known sendable,
    );
  }
  turned-IsReconciled route h ledger r false own known sendable need = record {
    managed = r;
    known = known;
    sendable = sendable;
    rest = refl;
    outcome = inl (settled-DoesHold ledger route r h need, refl);
  }

  -- Where what a peer says of a record is taken, for a route of the ledger, the record is managed here and may be
  -- sent whole on the route, and nothing but the outbox changes. If the peer holds the record's current state
  -- (and of a live one its body, or a suppression that a receipt shows) under an obligation of no other
  -- incarnation, nothing changes at all. Otherwise there is an obligation of the current state that is
  -- not confirmed and names the incarnation that answered.
  pub reconcile_holding-IsReconciled :
      (route : SyncRoute) (h : Holding) (ledger next : SyncLedger)
      → lookup route.id ledger.routes ≡ some route
      → reconcile_holding route h ledger ≡ ok next
      → IsReconciled ledger route h next
  unfolding reconcile_holding
  reconcile_holding-IsReconciled route h ledger next own e =
      let (r, found, rest) =
        >>=ᵣ-eq-ok (require (lookup (key_of h) ledger.records) holding_out_of_scope) _ e in
      let (_, allowed, same) =
        >>=ᵣ-eq-ok (reject (not (can_forward_record ledger route r true)) holding_out_of_scope) _
          rest in
      subst (λ after. IsReconciled ledger route h after) (ok-injective same)
        (turned-IsReconciled route h ledger r _ own (require-eq-ok _ _ found)
          (unrefused (reject-eq-ok _ _ allowed)) refl)
