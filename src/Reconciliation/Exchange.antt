-- ===== src/Reconciliation/Exchange.antt =====
-- packages/cli/src/sync-reconciliation.ts and sync-http-server.ts together: the loop of `pull` at the
-- client over the pages that the server cuts for a session.
use html_inbox.Common.{ℕ, zero, suc, none, some, Text, js, err, protocol_error}
use html_inbox.Model.{SyncRoute, Platform}
use html_inbox.Store.Monad.{M, pure, lift, ◌>>=◌, ◌>>◌}
use html_inbox.Server.{Session}
use html_inbox.Server.Manifest.{pull_page}
use html_inbox.Reconciliation.{Pass, Pulling}
use html_inbox.Reconciliation.Checks.{check_session}
use html_inbox.Reconciliation.Pull.{of_page, receive_page}

module _ ⦃p : Platform⦄ where
  -- The loop of `pull` against one session: at most so many rounds. `tokens` are what `opaqueToken`
  -- returns for each page. The store is the client's.
  unfoldable pub exchange :
      ℕ → Pass → SyncRoute → Text → (ℕ → Text) → Session → Pulling → M (Session × Pulling)
  unfolding check_session pull_page receive_page of_page
  exchange zero pass route nonce tokens session pulling =
      lift (err (protocol_error 503 (js "pass-deadline")))
  exchange (suc rounds) pass route nonce tokens session pulling = do
    lift (check_session pass.lease_deadline (pass.clock pulling.page_number))
    answer ← lift (pull_page session pulling.cursor (tokens session.page_number))
    next ← receive_page pass route nonce (of_page answer.0) pulling
    elim next.cursor [
      | none ↦ pure (answer.1, next)
      | some cursor ↦ exchange rounds pass route nonce tokens answer.1 next
    ]
