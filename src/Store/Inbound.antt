-- ===== src/Store/Inbound.antt =====
-- packages/cli/src/sync-store.ts: `applyStaged`, the last part of `apply` and `applyStream`.
use html_inbox.Common.{Option, none, Text, js, if◌then◌else◌, ok, err, owner_quarantined}
use html_inbox.Json.{Json}
use html_inbox.Json.Keys.{outbox_key}
use html_inbox.Model.{OriginState, SyncRoute, RouteAuthorization, inbound, Platform}
use html_inbox.Model.Parse.{parse_origin_state}
use html_inbox.Model.Routes.{parse_authorization}
use html_inbox.Ledger.{SyncLedger}
use html_inbox.Store.{Store, ApplyResult, needs_body, settled, StagedBody}
use html_inbox.Store.Monad.{M, pure, lift, ◌>>=◌}
use html_inbox.Store.Commit.{commit, mutate}
use html_inbox.Store.Access.{authorize}
use html_inbox.Store.Apply.{Fresh, apply_locked}

abbrev pub read_store : M Store
read_store store = (ok store, store)

abbrev pub inventory_key : SyncRoute → Text
inventory_key route = outbox_key route.id route.revision (js "inventory")

module _ ⦃p : Platform⦄ where
  unfoldable pub settle : ApplyResult × SyncLedger → M ApplyResult
  settle (needs_body, ledger) = pure needs_body
  settle (settled custody receipt, ledger) = do _ ← commit ledger; pure (settled custody receipt)

  -- A quarantine is committed before it is reported.
  unfoldable pub finish : ApplyResult × SyncLedger → M ApplyResult
  unfolding settle
  finish outcome =
      if outcome.1.worker.owner_quarantined
      then (do _ ← commit outcome.1; lift (err owner_quarantined))
      else settle outcome

  -- `applyStaged`
  unfoldable pub apply_in :
      RouteAuthorization → OriginState → Fresh → Option StagedBody → SyncLedger → M ApplyResult
  unfolding finish
  apply_in auth state fresh staged ledger = do
    route ← authorize ledger auth state inbound
    outcome ← apply_locked ledger route state fresh staged
    finish outcome

  -- `apply` without a body: that of a deleted state.
  unfoldable pub apply : Json → Json → Fresh → M ApplyResult
  unfolding apply_in
  apply authorization descriptor fresh = do
    auth ← lift (parse_authorization authorization)
    state ← lift (parse_origin_state descriptor)
    mutate (apply_in auth state fresh none)
