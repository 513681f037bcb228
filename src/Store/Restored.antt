-- ===== src/Store/Restored.antt =====
-- What a restored copy may still do.
use html_inbox.Common.{
  ◌≡◌, ◌≢◌, sym, ap, subst, ◌∙◌, Bool, true, false, List, [], ◌∷◌, Option, none, some, Text, Dict,
  lookup, values, All, text_eq_refl, lookup-remove, ok, arith,
}
use html_inbox.Model.{OriginGrant, SyncRoute, RouteAuthorization, Direction, RouteState, Platform}
use html_inbox.Ledger.{OwnerAnchor, SyncLedger}
use html_inbox.Policy.Fence.{fence_all_routes}
use html_inbox.Store.{Store}
use html_inbox.Store.Monad.{>>=-eq-ok}
use html_inbox.Store.Commit.{read_ledger, commit}
use html_inbox.Store.Committed.{commit-IsCommitted}
use html_inbox.Store.Access.{authorize_route}
use html_inbox.Store.Authority.{authorize_route_sound}
use html_inbox.Store.Audited.{fence_each-worker}
use html_inbox.Store.Restore.{
  restored, keeps_key, retire_keys, retire_copied_keys, quarantine_restore, restore_error,
}

restored-quarantined :
    (ledger : SyncLedger) (anchor : OwnerAnchor) (incarnation : Text)
    → (restored ledger anchor incarnation).worker.owner_quarantined ≡ true
unfolding restored fence_all_routes
restored-quarantined ledger anchor incarnation =
    let worker = record ledger.worker { owner_quarantined = true; enabled = false } in
    ap (λ w. w.owner_quarantined)
      (fence_each-worker
        (record ledger {
          owner_anchor = anchor;
          storage_incarnation = incarnation;
          receipts = [];
          checkpoints = [];
          history_checkpoints = [];
          worker = worker;
          runtime = none;
          publication_intents = [];
          route_retries = [];
        })
        (values ledger.routes) RouteState.blocked (some restore_error))

true_differs : (b : Bool) → b ≡ true → ¬ (b ≡ false)
true_differs b h k = cc

-- A key that is gone does not come back.
retire_keys_keeps :
    (ledger : SyncLedger) (grants : List OriginGrant) (owner_keys : Dict Text) (k : Text)
    → lookup k owner_keys ≡ none
    → lookup k (retire_keys ledger grants owner_keys) ≡ none
unfolding retire_keys
retire_keys_keeps ledger [] owner_keys k h = h
retire_keys_keeps ledger (g ∷ grants) owner_keys k h =
    retire_keys_keeps ledger grants _ k (ground (arith, lookup-remove g.inbox_id k owner_keys))

retire_keys-All :
    (ledger : SyncLedger) (grants : List OriginGrant) (owner_keys : Dict Text)
    → ledger.worker.owner_quarantined ≡ true
    → All (λ g. lookup g.inbox_id (retire_keys ledger grants owner_keys) ≡ none) grants
unfolding retire_keys keeps_key
retire_keys-All ledger [] owner_keys h = tt
retire_keys-All ledger (g ∷ grants) owner_keys h = (
  retire_keys_keeps ledger grants _ g.inbox_id
      (ground (arith, lookup-remove g.inbox_id g.inbox_id owner_keys, text_eq_refl g.inbox_id)),
  retire_keys-All ledger grants _ h,
)

module _ ⦃p : Platform⦄ where
  pub record IsRestored (result : SyncLedger) (after : Store) : Type 0 where
    pub on_disk : after.disk ≡ result
    pub quarantined : result.worker.owner_quarantined ≡ true
    pub keyless : All (λ g. lookup g.inbox_id after.owner_keys ≡ none) result.origin_keys
    pub refused :
        (auth : RouteAuthorization) (direction : Option Direction) (route : SyncRoute)
        (store later : Store)
        → authorize_route after.disk auth direction store ≢ (ok route, later)

  retired-IsRestored :
      (ledger result : SyncLedger) (middle after : Store)
      → ledger.worker.owner_quarantined ≡ true
      → middle.disk ≡ ledger
      → retire_copied_keys ledger middle ≡ (ok result, after)
      → IsRestored result after
  unfolding retire_copied_keys
  retired-IsRestored ledger result middle after q d h =
      let kept : ledger ≡ result = ground arith in
      let left : retire_keys ledger ledger.origin_keys middle.owner_keys ≡ after.owner_keys =
        ground arith in
      let disk : after.disk ≡ ledger = ground arith in
      record {
        on_disk = disk ∙ kept;
        quarantined = ap (λ l. l.worker.owner_quarantined) (sym kept) ∙ q;
        keyless =
            subst (λ l. All (λ g. lookup g.inbox_id after.owner_keys ≡ none) l.origin_keys) kept
              (subst (λ d. All (λ g. lookup g.inbox_id d ≡ none) ledger.origin_keys) left
                (retire_keys-All ledger ledger.origin_keys middle.owner_keys q));
        refused = λ auth direction route store later k.
            let (granted, _) =
              authorize_route_sound after.disk auth direction route store later k in
            true_differs _ (ap (λ l. l.worker.owner_quarantined) disk ∙ q) granted.trusted;
      }

  -- A copy that is restored holds the signing key of no origin that it knows, and under the ledger on
  -- disk no authorization is accepted.
  pub quarantine_restore-IsRestored :
      (anchor : OwnerAnchor) (incarnation : Text) (result : SyncLedger) (before after : Store)
      → quarantine_restore anchor incarnation before ≡ (ok result, after)
      → IsRestored result after
  unfolding quarantine_restore
  quarantine_restore-IsRestored anchor incarnation result before after h =
      let (ledger, s1, _, h1) = >>=-eq-ok read_ledger _ before after h in
      let (made, s2, e2, h2) =
        >>=-eq-ok (commit (restored ledger anchor incarnation)) _ s1 after h1 in
      let done = commit-IsCommitted (restored ledger anchor incarnation) made s1 s2 e2 in
      retired-IsRestored made result s2 after
        (ap (λ l. l.worker.owner_quarantined) done.next
          ∙ restored-quarantined ledger anchor incarnation)
        done.on_disk h2
