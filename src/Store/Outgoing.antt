-- ===== src/Store/Outgoing.antt =====
-- What leaves on an outbound route, and what its answers do to the obligations.
use html_inbox.Common.{
  ℕ, ◌+◌, ◌≡◌, ◌↔◌, inl, inr, Fault, no_obligation, refl, ap, ◌∙◌, Bool, true, not, List, [], ◌∷◌,
  map, Option, none, some, Text, lookup, put, keep, All, lookup-put_self, ok,
  >>=-eq-ok as >>=ᵣ-eq-ok, ◌>>=◌ as ◌>>=ᵣ◌, Bool-cases, arith, leb, ◌||◌, ◌&&◌, text_eq,
  text_eq_iff, invalid_receipt_binding, live_superseded, not_current_state, replaced_incarnation,
}
use html_inbox.Json.Keys.{outbox_key}
use html_inbox.Model.{Platform, SyncRoute, OriginState, RouteAuthorization, outbound, is_deleted}
use html_inbox.Model.Codec.{state_key}
use html_inbox.Ledger.{
  ManagedRecord, OutboxEntry, Disposition, DurableReceipt, SyncLedger, confirmed, is_retired,
  is_confirmed,
}
use html_inbox.Ledger.Encode.{receipt_key}
use html_inbox.Policy.Grants.{can_forward_record}
use html_inbox.Store.{Store}
use html_inbox.Store.Monad.{>>=-eq-ok, deny, demand}
use html_inbox.Store.Commit.{commit}
use html_inbox.Store.Access.{authorize, authorize_route}
use html_inbox.Store.Authority.{IsAuthorized, authorize_sound, authorize_route_sound}
use html_inbox.Store.Committed.{commit-IsCommitted}
use html_inbox.Store.Outbound.{inventory_states, has_grant}
use html_inbox.Store.Outbox.{
  settle_obligation, acknowledge_on, acknowledge_in, incarnation_differs, is_superseded,
  receipt_is_bound, attempted_entry, update_in,
}

-- Every record that the route's scope covers may be sent on it.
abbrev pub IsComplete : SyncLedger → SyncRoute → List ManagedRecord → Type 0
IsComplete ledger route rs =
    All (λ r. has_grant route r ≡ true → can_forward_record ledger route r true ≡ true) rs

-- The states of the records in the route's scope.
abbrev pub states_in_scope : SyncRoute → List ManagedRecord → List OriginState
states_in_scope route rs = map (λ r. r.origin) (keep (has_grant route) rs)

pub inventory_states_sound :
    (ledger : SyncLedger) (route : SyncRoute) (rs : List ManagedRecord) (states : List OriginState)
    → inventory_states ledger route rs ≡ ok states
    → IsComplete ledger route rs × (states ≡ states_in_scope route rs)
unfolding inventory_states
inventory_states_sound ledger route [] states h = (tt, ground arith)
inventory_states_sound ledger route (r ∷ rs) states h = elim (Bool-cases (has_grant route r)) [
  | inl granted ↦ elim (Bool-cases (can_forward_record ledger route r true)) [
    | inl sendable ↦
        let bound : (inventory_states ledger route rs >>=ᵣ λ more. ok (r.origin ∷ more))
            ≡ ok states =
          ground arith in
        let (rest, e, k) =
          >>=ᵣ-eq-ok (inventory_states ledger route rs) (λ more. ok (r.origin ∷ more)) bound in
        let (all_sent, same) = inventory_states_sound ledger route rs rest e in
        (((λ _. sendable), all_sent), ground arith)
    | inr kept ↦ absurd (ground arith)
  ]
  | inr outside ↦
      let others : inventory_states ledger route rs ≡ ok states = ground arith in
      let (all_sent, same) = inventory_states_sound ledger route rs states others in
      (((λ g. absurd (ground arith)), all_sent), ground arith)
]

pub inventory_states_complete :
    (ledger : SyncLedger) (route : SyncRoute) (rs : List ManagedRecord)
    → IsComplete ledger route rs
    → inventory_states ledger route rs ≡ ok (states_in_scope route rs)
unfolding inventory_states
inventory_states_complete ledger route [] h = refl
inventory_states_complete ledger route (r ∷ rs) (sent, h) =
    let rest = inventory_states_complete ledger route rs h in
    elim (Bool-cases (has_grant route r)) [
      | inl granted ↦ let sendable = sent granted in ground arith
      | inr outside ↦ ground arith
    ]

deny_differs :
    (a b : Text) (e : Fault) (s t : Store) {u : Unit {0}}
    → deny (not (text_eq a b)) e s ≡ (ok u, t)
    → a ≡ b
deny_differs a b e s t h = ground (arith, text_eq_iff a b)

module _ ⦃p : Platform⦄ where
  -- The obligation is done, and the receipt that ends it is kept.
  pub record IsAcknowledged (key : Text) (receipt : DurableReceipt) (result : SyncLedger)
      (after : Store) : Type 0 where
    pub entry : OutboxEntry
    pub found : lookup key result.outbox ≡ some entry
    pub done : entry.disposition ≡ confirmed
    pub covers : entry.fingerprint ≡ receipt.fingerprint
    pub custody : entry.receipt_disposition ≡ some receipt.disposition
    pub incarnation : entry.receiver_storage_incarnation ≡ some receipt.storage_incarnation
    pub kept : lookup (receipt_key receipt) result.receipts ≡ some receipt
    pub on_disk : after.disk ≡ result

  -- An attempt that fails counts once, and blocks the obligation if the failure is permanent or the
  -- attempts have reached the maximum.
  pub record IsAttempted (before : OutboxEntry) (key : Text) (blocked : Bool) (maximum : ℕ)
      (result : SyncLedger) : Type 0 where
    pub entry : OutboxEntry
    pub found : lookup key result.outbox ≡ some entry
    pub counted : entry.attempts ≡ before.attempts + 1
    pub same : entry.fingerprint ≡ before.fingerprint
    pub stops :
        (entry.disposition ≡ Disposition.blocked) ↔ ((blocked || leb maximum entry.attempts) ≡ true)

  settle_obligation-IsAcknowledged :
      (ledger : SyncLedger) (key : Text) (entry : OutboxEntry) (receipt : DurableReceipt)
      (result : SyncLedger) (before after : Store)
      → entry.fingerprint ≡ receipt.fingerprint
      → settle_obligation ledger key entry receipt before ≡ (ok result, after)
      → IsAcknowledged key receipt result after
  unfolding settle_obligation
  settle_obligation-IsAcknowledged ledger key entry receipt result before after same h =
      let known = record entry {
        receiver_storage_incarnation = some receipt.storage_incarnation;
      } in
      let first = record ledger {
        outbox = put key known ledger.outbox;
        receipts = put (receipt_key receipt) receipt ledger.receipts;
      } in
      let (held, s1, e1, h1) = >>=-eq-ok (commit first) _ before after h in
      let one = commit-IsCommitted first held before s1 e1 in
      let closed = record known {
        disposition = confirmed;
        receipt_disposition = some receipt.disposition;
        last_error = none;
      } in
      let second = record held { outbox = put key closed held.outbox } in
      let two = commit-IsCommitted second result s1 after h1 in
      record {
        entry = closed;
        found = ap (λ l. lookup key l.outbox) two.next ∙ lookup-put_self key closed held.outbox;
        done = refl;
        covers = same;
        custody = refl;
        incarnation = refl;
        kept =
            ap (λ l. lookup (receipt_key receipt) l.receipts) two.next
            ∙ ap (λ l. lookup (receipt_key receipt) l.receipts) one.next
            ∙ lookup-put_self (receipt_key receipt) receipt ledger.receipts;
        on_disk = two.on_disk;
      }

  acknowledge_on-IsAcknowledged :
      (route : SyncRoute) (receipt : DurableReceipt) (ledger result : SyncLedger)
      (before after : Store)
      → acknowledge_on route receipt ledger before ≡ (ok result, after)
      → IsAcknowledged
          (outbox_key route.id route.revision (state_key receipt.origin_state.unsigned))
          receipt
          result
          after
  unfolding acknowledge_on
  acknowledge_on-IsAcknowledged route receipt ledger result before after h =
      let (_, s2, _, h2) =
        >>=-eq-ok (deny (not (receipt_is_bound route receipt)) invalid_receipt_binding) _ before
          after h in
      let (_, s3, _, h3) =
        >>=-eq-ok
          (deny (is_superseded receipt.disposition && not (is_deleted receipt.origin_state.state))
            live_superseded)
          _ s2 after h2 in
      let key = outbox_key route.id route.revision (state_key receipt.origin_state.unsigned) in
      let (entry, s4, e4, h4) =
        >>=-eq-ok (demand (lookup key ledger.outbox) not_current_state) _ s3 after h3 in
      let (_, s5, e5, h5) =
        >>=-eq-ok (deny (not (text_eq entry.fingerprint receipt.fingerprint)) not_current_state) _
          s4 after h4 in
      let (_, s6, e6, h6) =
        >>=-eq-ok
          (deny (incarnation_differs entry.receiver_storage_incarnation receipt.storage_incarnation)
            replaced_incarnation)
          _ s5 after h5 in
      settle_obligation-IsAcknowledged ledger key entry receipt result s6 after
        (deny_differs entry.fingerprint receipt.fingerprint not_current_state s4 s5 e5) h6

  -- A receipt that is accepted confirms the obligation of the same state on the authorized route; the
  -- obligation and the receipt are on disk.
  pub acknowledge_in-IsAcknowledged :
      (auth : RouteAuthorization) (receipt : DurableReceipt) (ledger result : SyncLedger)
      (before after : Store)
      → acknowledge_in auth receipt ledger before ≡ (ok result, after)
      → (route : SyncRoute) × IsAuthorized ledger auth (some outbound) route
        × IsAcknowledged
            (outbox_key route.id route.revision (state_key receipt.origin_state.unsigned))
            receipt
            result
            after
  unfolding acknowledge_in
  acknowledge_in-IsAcknowledged auth receipt ledger result before after h =
      let (route, s1, e1, h1) =
        >>=-eq-ok (authorize ledger auth receipt.origin_state outbound) _ before after h in
      let (granted, _, _) =
        authorize_sound ledger auth receipt.origin_state outbound route before s1 e1 in
      (route, granted, acknowledge_on-IsAcknowledged route receipt ledger result s1 after h1)

  -- A failed attempt that is recorded counts once on the authorized route's obligation.
  pub update_in-IsAttempted :
      (auth : RouteAuthorization) (key : Text) (next_attempt_at : ℕ) (last_error : Option Text)
      (blocked : Bool) (maximum : ℕ) (ledger result : SyncLedger) (before after : Store)
      → update_in auth key next_attempt_at last_error blocked maximum ledger before
        ≡ (ok result, after)
      → (route : SyncRoute) × (entry : OutboxEntry) × IsAuthorized ledger auth (some outbound) route
        × (lookup (outbox_key route.id route.revision key) ledger.outbox ≡ some entry)
        × IsAttempted entry (outbox_key route.id route.revision key) blocked maximum result
  unfolding update_in attempted_entry
  update_in-IsAttempted auth key next_attempt_at last_error blocked maximum ledger result before
        after h =
      let (route, s1, e1, h1) =
        >>=-eq-ok (authorize_route ledger auth (some outbound)) _ before after h in
      let (granted, _) = authorize_route_sound ledger auth (some outbound) route before s1 e1 in
      let entry_key = outbox_key route.id route.revision key in
      let (entry, s2, e2, h2) =
        >>=-eq-ok (demand (lookup entry_key ledger.outbox) no_obligation) _ s1 after h1 in
      let (_, s3, _, h3) =
        >>=-eq-ok
          (deny (is_retired entry.disposition || is_confirmed entry.disposition) no_obligation) _ s2
          after h2 in
      let tried = attempted_entry entry next_attempt_at last_error blocked maximum in
      let counted = record ledger { outbox = put entry_key tried ledger.outbox } in
      let done = commit-IsCommitted counted result s3 after h3 in
      (
        route,
        entry,
        granted,
        ground arith,
        record {
          entry = tried;
          found =
              ap (λ l. lookup entry_key l.outbox) done.next
              ∙ lookup-put_self entry_key tried ledger.outbox;
          counted = refl;
          same = refl;
          stops = ground arith;
        },
      )
