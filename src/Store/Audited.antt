-- ===== src/Store/Audited.antt =====
-- What an audit does once it has found drift.
use html_inbox.Common.{◌≡◌, refl, List, [], ◌∷◌, Option, Text}
use html_inbox.Model.{SyncRoute, RouteState}
use html_inbox.Ledger.{SyncLedger}
use html_inbox.Policy.Fence.{fence_each, fence_ledger_route}
use html_inbox.Store.{Store}

pub fence_each-worker :
    (ledger : SyncLedger) (routes : List SyncRoute) (state : RouteState) (error : Option Text)
    → (fence_each ledger routes state error).worker ≡ ledger.worker
unfolding fence_each fence_ledger_route
fence_each-worker ledger [] state error = refl
fence_each-worker ledger (route ∷ routes) state error =
    fence_each-worker (fence_ledger_route ledger route state error) routes state error
