-- ===== src/Store/Received.antt =====
-- A state that a peer sends, from its authorization to the disk.
use html_inbox.Common.{◌≡◌, sym, ap, subst, ◌∙◌, Option, some, lookup, ok, arith, inl, inr}
use html_inbox.Model.{OriginState, SyncRoute, RouteAuthorization, Platform, inbound}
use html_inbox.Model.Codec.{state_key}
use html_inbox.Ledger.{SyncLedger, Custody, DurableReceipt}
use html_inbox.Store.{Store, ApplyResult, needs_body, settled, StagedBody}
use html_inbox.Store.Monad.{>>=-eq-ok, branch-eq-ok}
use html_inbox.Store.Commit.{commit, advance}
use html_inbox.Store.Committed.{commit-IsCommitted}
use html_inbox.Store.Access.{authorize}
use html_inbox.Store.Authority.{IsAuthorized, IsTrusted, authorize_sound}
use html_inbox.Store.Apply.{Fresh, apply_locked}
use html_inbox.Store.Applied.{IsSettled, apply_locked-IsSettled}
use html_inbox.Store.Inbound.{apply_in, settle, finish}

module _ ⦃p : Platform⦄ where
  -- The state was authorized and signed, and what it made of the ledger is on disk.
  pub record IsReceived (ledger : SyncLedger) (auth : RouteAuthorization) (state : OriginState)
      (custody : Custody) (receipt : DurableReceipt) (after : Store) : Type 0 where
    pub route : SyncRoute
    pub authorized : IsAuthorized ledger auth (some inbound) route
    pub trusted : IsTrusted ledger route state
    pub settled_in :
        IsSettled
          (lookup (state_key state.unsigned) ledger.records)
          state
          custody
          receipt
          after.disk

  settle-eq-settled :
      (outcome : ApplyResult × SyncLedger) (before after : Store) (custody : Custody)
      (receipt : DurableReceipt)
      → settle outcome before ≡ (ok (settled custody receipt), after)
      → (outcome ≡ (settled custody receipt, outcome.1)) × (after.disk ≡ advance outcome.1)
  unfolding settle
  settle-eq-settled (needs_body, l) before after custody receipt h = absurd (ground arith)
  settle-eq-settled (settled c r, l) before after custody receipt h =
      let (result, s1, e, k) = >>=-eq-ok (commit l) _ before after h in
      let done = commit-IsCommitted l result before s1 e in
      let last : s1 ≡ after = ground arith in
      (ground arith, ap (λ s. s.disk) (sym last) ∙ done.on_disk ∙ done.next)

  IsSettled-advance :
      (ledger result : SyncLedger) (state : OriginState) (custody : Custody)
      (receipt : DurableReceipt) (disk : SyncLedger)
      → disk ≡ advance result
      → IsSettled (lookup (state_key state.unsigned) ledger.records) state custody receipt result
      → IsSettled (lookup (state_key state.unsigned) ledger.records) state custody receipt disk
  IsSettled-advance ledger result state custody receipt disk e h =
      subst
        (λ d. IsSettled (lookup (state_key state.unsigned) ledger.records) state custody receipt d)
        (sym e)
        (record {
          held = h.held;
          stored = h.stored;
          merges = h.merges;
          names = h.names;
          fingerprint = h.fingerprint;
          disposition = h.disposition;
          filed = h.filed;
        })

  finish-eq-settled :
      (outcome : ApplyResult × SyncLedger) (before after : Store) (custody : Custody)
      (receipt : DurableReceipt)
      → finish outcome before ≡ (ok (settled custody receipt), after)
      → (outcome ≡ (settled custody receipt, outcome.1)) × (after.disk ≡ advance outcome.1)
  unfolding finish
  finish-eq-settled outcome before after custody receipt h =
      elim (branch-eq-ok outcome.1.worker.owner_quarantined _ _ before after h) [
        | inl (_, k) ↦
            let (l, s1, _, k1) = >>=-eq-ok (commit outcome.1) _ before after k in
            absurd (ground arith)
        | inr (_, k) ↦ settle-eq-settled outcome before after custody receipt k
      ]

  received-IsSettled :
      (ledger : SyncLedger) (route : SyncRoute) (state : OriginState) (fresh : Fresh)
      (staged : Option StagedBody) (outcome : ApplyResult × SyncLedger)
      (before middle after : Store) (custody : Custody) (receipt : DurableReceipt)
      → apply_locked ledger route state fresh staged before ≡ (ok outcome, middle)
      → finish outcome middle ≡ (ok (settled custody receipt), after)
      → IsSettled
          (lookup (state_key state.unsigned) ledger.records)
          state
          custody
          receipt
          after.disk
  received-IsSettled ledger route state fresh staged outcome before middle after custody receipt e
        h =
      let (same, disk) = finish-eq-settled outcome middle after custody receipt h in
      let given : apply_locked ledger route state fresh staged before
          ≡ (ok (settled custody receipt, outcome.1), middle) =
        subst (λ o. apply_locked ledger route state fresh staged before ≡ (ok o, middle)) same e in
      IsSettled-advance ledger outcome.1 state custody receipt after.disk disk (
        apply_locked-IsSettled ledger route state fresh staged before middle custody receipt
          outcome.1 given)

  -- A state that is answered with a receipt came under an authorization of an inbound route, signed
  -- with a key that is pinned for it, and the ledger on disk holds what the merge decided, with the
  -- receipt.
  pub apply_in-IsReceived :
      (auth : RouteAuthorization) (state : OriginState) (fresh : Fresh) (staged : Option StagedBody)
      (ledger : SyncLedger) (before after : Store) (custody : Custody) (receipt : DurableReceipt)
      → apply_in auth state fresh staged ledger before ≡ (ok (settled custody receipt), after)
      → IsReceived ledger auth state custody receipt after
  unfolding apply_in
  apply_in-IsReceived auth state fresh staged ledger before after custody receipt h =
      let (route, s1, e1, h1) = >>=-eq-ok (authorize ledger auth state inbound) _ before after h in
      let (granted, signed, _) = authorize_sound ledger auth state inbound route before s1 e1 in
      let (outcome, s2, e2, h2) =
        >>=-eq-ok (apply_locked ledger route state fresh staged) _ s1 after h1 in
      record {
        route = route;
        authorized = granted;
        trusted = signed;
        settled_in =
            received-IsSettled ledger route state fresh staged outcome s1 s2 after custody receipt
              e2 h2;
      }
