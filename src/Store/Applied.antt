-- ===== src/Store/Applied.antt =====
-- What `applyLocked` makes of a state that a peer sends: the record and the receipt it leaves.
use html_inbox.Common.{
  ◌≡◌, inl, inr, refl, sym, ap, subst, leb, text_eq, ◌∙◌, false, not, ◌&&◌, inventory_required,
  Option, none, some, Text, lookup, put, Result, ok, lookup-put_self, arith,
}
use html_inbox.Model.{OriginState, SyncRoute, Platform, is_live, is_active}
use html_inbox.Model.Codec.{state_key, state_fingerprint}
use html_inbox.Ledger.{ManagedRecord, Custody, DurableReceipt, SyncLedger}
use html_inbox.Policy.Queue.{queue_ledger_state}
use html_inbox.Policy.Queued.{queue_ledger_state-SameButOutbox}
use html_inbox.Merge.{Verdict, verdict, merge}
use html_inbox.Ledger.Encode.{receipt_key}
use html_inbox.Store.{Store, settled, StagedBody}
use html_inbox.Store.Monad.{>>=-eq-ok, branch-eq-ok, deny, lift}
use html_inbox.Store.Apply.{
  Fresh, apply_locked, apply_existing, apply_verdict, accept_state, take_state, kept_state,
  custody_of, ahead_record, is_staged, taken_record, install_body, contribute, record_receipt,
  receipt_for, lacks_body, absent_capacity,
}

-- The state that a record, if there is one, holds once it has met another.
abbrev pub merged : Option ManagedRecord → OriginState → Result OriginState
merged none state = ok state
merged (some r) state = merge r.origin state

contribute-origin :
    (route : SyncRoute) (at : Text) (r : ManagedRecord) → (contribute route at r).origin ≡ r.origin
unfolding contribute
contribute-origin route at r = ground arith

taken_record-origin :
    (ledger : SyncLedger) (fresh : Fresh) (state : OriginState) (existing : Option ManagedRecord)
    → (taken_record ledger fresh state existing).origin ≡ state
unfolding taken_record
taken_record-origin ledger fresh state none = refl
taken_record-origin ledger fresh state (some r) = refl

install_body-origin :
    (staged : Option StagedBody) (r installed : ManagedRecord) (before after : Store)
    → install_body staged r before ≡ (ok installed, after)
    → installed.origin ≡ r.origin
unfolding install_body
install_body-origin none r installed before after h = ground arith
install_body-origin (some b) r installed before after h = ground arith

module _ ⦃p : Platform⦄ where
  -- The record under the state's key, and the receipt that names what it holds.
  pub record IsSettled (existing : Option ManagedRecord) (state : OriginState) (custody : Custody)
      (receipt : DurableReceipt) (after : SyncLedger) : Type 0 where
    pub held : ManagedRecord
    pub stored : lookup (state_key state.unsigned) after.records ≡ some held
    pub merges : merged existing state ≡ ok held.origin
    pub names : receipt.origin_state ≡ held.origin
    pub fingerprint : receipt.fingerprint ≡ state_fingerprint held.origin
    pub disposition : receipt.disposition ≡ custody
    pub filed : lookup (receipt_key receipt) after.receipts ≡ some receipt

  record_receipt_filed :
      (ledger : SyncLedger) (route : SyncRoute) (r : ManagedRecord) (given custody : Custody)
      (receipt : DurableReceipt) (result : SyncLedger)
      → record_receipt ledger route r given ≡ (settled custody receipt, result)
      → lookup (receipt_key receipt) result.receipts ≡ some receipt
  unfolding record_receipt
  record_receipt_filed ledger route r given custody receipt result h =
      let made = receipt_for ledger route r given in
      let same : made ≡ receipt = ground arith in
      subst (λ q. lookup (receipt_key q) result.receipts ≡ some q) same
        (ap (λ z. lookup (receipt_key made) z.1.receipts) (sym h)
          ∙ lookup-put_self (receipt_key made) made ledger.receipts)

  kept_state-IsSettled :
      (ledger : SyncLedger) (route : SyncRoute) (state : OriginState) (fresh : Fresh)
      (existing : Option ManagedRecord) (installed : ManagedRecord) (custody : Custody)
      (receipt : DurableReceipt) (result : SyncLedger)
      → merged existing state ≡ ok state
      → installed.origin ≡ state
      → kept_state ledger route state fresh installed ≡ (settled custody receipt, result)
      → IsSettled existing state custody receipt result
  unfolding kept_state record_receipt receipt_for
  kept_state-IsSettled ledger route state fresh existing installed custody receipt result m o h =
      let r = contribute route fresh.received_at installed in
      let origin : r.origin ≡ state = contribute-origin route fresh.received_at installed ∙ o in
      let key = state_key state.unsigned in
      let kept = record ledger { records = put key r ledger.records } in
      let same = queue_ledger_state-SameButOutbox kept key none false in
      record {
        held = r;
        stored =
            ap (λ z. lookup key z.1.records) (sym h)
            ∙ ap (λ l. lookup key l.records) same
            ∙ lookup-put_self key r ledger.records;
        merges = m ∙ ap ok (sym origin);
        names = ground arith;
        fingerprint = ground arith;
        disposition = ground arith;
        filed =
            let c = custody_of state r in
            record_receipt_filed (queue_ledger_state kept key none false) route r c custody receipt
              result h;
      }

  take_state-IsSettled :
      (ledger : SyncLedger) (route : SyncRoute) (state : OriginState) (fresh : Fresh)
      (staged : Option StagedBody) (existing : Option ManagedRecord) (before after : Store)
      (custody : Custody) (receipt : DurableReceipt) (result : SyncLedger)
      → merged existing state ≡ ok state
      → take_state ledger route state fresh staged existing before
        ≡ (ok (settled custody receipt, result), after)
      → IsSettled existing state custody receipt result
  unfolding take_state
  take_state-IsSettled ledger route state fresh staged existing before after custody receipt result
        m h =
      let taken = taken_record ledger fresh state existing in
      let (_, s1, _, h1) =
        >>=-eq-ok (deny (is_live state.state && not (is_active route.state)) inventory_required) _
          before after h in
      let (_, s2, _, h2) = >>=-eq-ok (absent_capacity ledger existing) _ s1 after h1 in
      elim (branch-eq-ok (lacks_body s2.bodies state existing && not (is_staged staged)) _ _ s2
        after h2) [
          | inl (_, h3) ↦ absurd (ground arith)
          | inr (_, h3) ↦
              let (installed, s3, e, h4) = >>=-eq-ok (install_body staged taken) _ s2 after h3 in
              kept_state-IsSettled ledger route state fresh existing installed custody receipt
                result m
                (install_body-origin staged taken installed s2 s3 e
                  ∙ taken_record-origin ledger fresh state existing)
                (ground arith)
        ]

  accept_state-IsSettled :
      (ledger : SyncLedger) (route : SyncRoute) (state : OriginState) (fresh : Fresh)
      (staged : Option StagedBody) (existing : Option ManagedRecord) (before after : Store)
      (custody : Custody) (receipt : DurableReceipt) (result : SyncLedger)
      → merged existing state ≡ ok state
      → accept_state ledger route state fresh staged existing before
        ≡ (ok (settled custody receipt, result), after)
      → IsSettled existing state custody receipt result
  unfolding accept_state
  accept_state-IsSettled ledger route state fresh staged existing before after custody receipt
        result m h =
      elim (branch-eq-ok
        (text_eq state.origin_inbox_id ledger.inbox_id
          && leb ledger.next_origin_version state.version)
        _ _ before after h) [
          | inl (_, h1) ↦
              let (marked, s1, _, h2) =
                >>=-eq-ok (ahead_record ledger fresh state existing) _ before after h1 in
              absurd (ground arith)
          | inr (_, h1) ↦
              take_state-IsSettled ledger route state fresh staged existing before after custody
                receipt result m h1
        ]

  apply_verdict-IsSettled :
      (ledger : SyncLedger) (route : SyncRoute) (state : OriginState) (fresh : Fresh)
      (staged : Option StagedBody) (r : ManagedRecord) (v : Verdict) (before after : Store)
      (custody : Custody) (receipt : DurableReceipt) (result : SyncLedger)
      → lookup (state_key state.unsigned) ledger.records ≡ some r
      → verdict r.origin state ≡ ok v
      → apply_verdict ledger route state fresh staged r v before
        ≡ (ok (settled custody receipt, result), after)
      → IsSettled (some r) state custody receipt result
  unfolding apply_verdict record_receipt receipt_for merge
  apply_verdict-IsSettled ledger route state fresh staged r Verdict.superseded before after custody
        receipt result f v h =
      record {
        held = r;
        stored = ground arith;
        merges = rw v refl;
        names = ground arith;
        fingerprint = ground arith;
        disposition = ground arith;
        filed =
            record_receipt_filed ledger route r Custody.superseded custody receipt result
              (ground arith);
      }
  apply_verdict-IsSettled ledger route state fresh staged r Verdict.accepted before after custody
        receipt result f v h =
      accept_state-IsSettled ledger route state fresh staged (some r) before after custody receipt
        result (rw v refl) h

  apply_existing-IsSettled :
      (ledger : SyncLedger) (route : SyncRoute) (state : OriginState) (fresh : Fresh)
      (staged : Option StagedBody) (existing : Option ManagedRecord) (before after : Store)
      (custody : Custody) (receipt : DurableReceipt) (result : SyncLedger)
      → lookup (state_key state.unsigned) ledger.records ≡ existing
      → apply_existing ledger route state fresh staged existing before
        ≡ (ok (settled custody receipt, result), after)
      → IsSettled existing state custody receipt result
  unfolding apply_existing
  apply_existing-IsSettled ledger route state fresh staged none before after custody receipt result
        f h =
      accept_state-IsSettled ledger route state fresh staged none before after custody receipt
        result refl h
  apply_existing-IsSettled ledger route state fresh staged (some r) before after custody receipt
        result f h =
      let (v, s1, e, h1) = >>=-eq-ok (lift (verdict r.origin state)) _ before after h in
      apply_verdict-IsSettled ledger route state fresh staged r v s1 after custody receipt result f
        (ap (λ z. z.0) e) h1

  -- A state that is settled with a receipt leaves the record that the merge of the held state with it
  -- decides, and the receipt, which is kept, names the state that the record then holds, with its
  -- fingerprint.
  pub apply_locked-IsSettled :
      (ledger : SyncLedger) (route : SyncRoute) (state : OriginState) (fresh : Fresh)
      (staged : Option StagedBody) (before after : Store) (custody : Custody)
      (receipt : DurableReceipt) (result : SyncLedger)
      → apply_locked ledger route state fresh staged before
        ≡ (ok (settled custody receipt, result), after)
      → IsSettled (lookup (state_key state.unsigned) ledger.records) state custody receipt result
  unfolding apply_locked
  apply_locked-IsSettled ledger route state fresh staged before after custody receipt result h =
      apply_existing-IsSettled ledger route state fresh staged
        (lookup (state_key state.unsigned) ledger.records) before after custody receipt result refl
        h
