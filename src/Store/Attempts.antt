-- ===== src/Store/Attempts.antt =====
-- packages/cli/src/sync-store.ts, the life of an attempt: `startCommunication`, `openRouteAttempt` with
-- its watcher, and the abort of `quiesceRoute`. `baseline` reads the file system and is left out.
use html_inbox.Common.{
  Bool, true, false, not, ◌&&◌, [], ◌∷◌, ◌++◌, Option, none, some, Text, map, lookup, text_eq,
  if◌then◌else◌, ok, err, paused, fingerprint_changed,
}
use html_inbox.Model.{OriginState, SyncRoute, RouteAuthorization, Platform, outbound}
use html_inbox.Model.Codec.{state_key, state_fingerprint}
use html_inbox.Ledger.{SyncLedger}
use html_inbox.Policy.Grants.{can_forward_record}
use html_inbox.Store.{Store, Attempt}
use html_inbox.Store.Monad.{M, pure, ◌>>=◌, ◌>>◌, deny}
use html_inbox.Store.Access.{authorize_route, authorize}
use html_inbox.Store.Commit.{invalidate_attempts}

unfoldable pub abort_local : Attempt → Attempt
abort_local a = if a.locally_initiated then record a { aborted = true } else a

-- A pause that is seen on admission ends every attempt of this inbox's own.
unfoldable pub refuse_paused : {A : Type 0} → M A
unfolding abort_local
refuse_paused store = (err paused, record store { attempts = map abort_local store.attempts })

module _ ⦃p : Platform⦄ where
  -- The record is still in the state that the caller saw, and may be sent.
  unfoldable pub is_expected : SyncLedger → SyncRoute → OriginState → Bool
  is_expected ledger route state = elim (lookup (state_key state.unsigned) ledger.records) [
    | none ↦ false
    | some r ↦
        text_eq (state_fingerprint r.origin) (state_fingerprint state)
        && can_forward_record ledger route r false
  ]

  unfoldable pub check_expected :
      SyncLedger → RouteAuthorization → SyncRoute → Option OriginState → M (Unit {0})
  unfolding is_expected
  check_expected ledger auth route none = pure tt
  check_expected ledger auth route (some state) = do
    _ ← authorize ledger auth state outbound
    deny (not (is_expected ledger route state)) fingerprint_changed

  -- The admission in `startCommunication`, on the route that was authorized.
  unfoldable pub admit_on :
      RouteAuthorization → Option OriginState → Bool → SyncLedger → SyncRoute → M SyncRoute
  unfolding refuse_paused check_expected
  admit_on auth expected locally_initiated ledger route =
      if locally_initiated && ledger.worker.retry_paused
      then refuse_paused
      else (do check_expected ledger auth route expected; pure route)

  unfoldable pub admit_in :
      RouteAuthorization → Option OriginState → Bool → SyncLedger → M SyncRoute
  unfolding admit_on
  admit_in auth expected locally_initiated ledger = do
    route ← authorize_route ledger auth none
    admit_on auth expected locally_initiated ledger route

  -- `openRouteAttempt`: the attempt is there once it has been admitted.
  unfoldable pub open_in : RouteAuthorization → Bool → SyncLedger → M Attempt
  unfolding admit_in
  open_in auth locally_initiated ledger = do
    _ ← admit_in auth none locally_initiated ledger
    let attempt : Attempt = record {
      route_id = auth.route_id;
      revision = auth.revision;
      locally_initiated = locally_initiated;
      aborted = false;
    }
    λ store. (ok attempt, record store { attempts = store.attempts ++ attempt ∷ [] })

  -- One check of the watcher; an error aborts the attempt.
  unfoldable pub watch_in : RouteAuthorization → Bool → SyncLedger → M (Unit {0})
  watch_in auth locally_initiated ledger = do
    _ ← authorize_route ledger auth none
    deny (locally_initiated && ledger.worker.retry_paused) paused

-- `quiesceRoute` first aborts every attempt of the route.
unfoldable pub quiesce : Text → Store → Store
unfolding invalidate_attempts
quiesce route_id store = invalidate_attempts route_id none store
