-- ===== src/Tests/Rules.antt =====
-- The rules of the ledger on the small inbox.
use html_inbox.Common.{
  ◌*◌, ◌≡◌, refl, false, List, [], ◌∷◌, Option, none, some, Text, js, All, arith,
}
use html_inbox.Model.{RouteState, OriginGrant}
use html_inbox.Ledger.{SyncLedger, RouteRetryState}
use html_inbox.Policy.Fence.{fence_ledger_route}
use html_inbox.Policy.Fenced.{IsFenced, fence_ledger_route-IsFenced}
use html_inbox.Policy.Queue.{queue_on_route}
use html_inbox.Policy.Queued.{QueuesOnRoute, queue_on_route-QueuesOnRoute}
use html_inbox.Policy.Retry.{Fraction, next_route_retry, is_route_due}
use html_inbox.Policy.Schedule.{
  IsBackedOff, next_route_retry-IsBackedOff, after_failures, is_route_due-after_failures,
}
use html_inbox.Store.Pinned.{IsPinned, pinned_grant, pin_origins-IsPinned}
use html_inbox.Tests.Opened.{opened}
use html_inbox.Tests.Data.{host, ledger, outgoing, own_record, own_key, grant_of, inbox}

fence_ledger_route-IsFenced_example :
    IsFenced ledger outgoing RouteState.blocked none
      (fence_ledger_route ledger outgoing RouteState.blocked none)
fence_ledger_route-IsFenced_example =
    fence_ledger_route-IsFenced ledger outgoing RouteState.blocked none

queue_on_route-QueuesOnRoute_example :
    QueuesOnRoute ledger own_key own_record outgoing
      (queue_on_route ledger own_key own_record false outgoing)
queue_on_route-QueuesOnRoute_example =
    queue_on_route-QueuesOnRoute ledger own_key own_record false outgoing

abbrev half : Fraction
half = record { num = 1; den = 2 }

abbrev offline : Text
offline = js "offline"

next_route_retry-IsBackedOff_example :
    IsBackedOff outgoing none offline false 1000
      (next_route_retry outgoing none (some offline) false 1000 30000 half)
unfolding opened
next_route_retry-IsBackedOff_example =
    next_route_retry-IsBackedOff outgoing none offline false 1000 30000 half refl
      (omega arith, omega arith)

-- The schedule after twenty failures, one a second.
abbrev schedule : Option RouteRetryState
schedule = after_failures outgoing (λ n. offline) (λ n. false) (λ n. 1000 * n) 30000 (λ n. half) 20

abbrev retries : Option RouteRetryState → List (Text × RouteRetryState)
retries none = []
retries (some r) = (outgoing.id, r) ∷ []

abbrev failed_ledger : SyncLedger
failed_ledger = record ledger { route_retries = retries schedule }

is_route_due-after_failures_example : is_route_due failed_ledger outgoing 1000000000 ≡ false
unfolding opened after_failures
is_route_due-after_failures_example =
    is_route_due-after_failures outgoing (λ n. offline) (λ n. false) (λ n. 1000 * n) 30000
      (λ n. half) (λ i. refl) failed_ledger 20 1000000000 (omega arith) refl

abbrev first_pin : OriginGrant
first_pin = record (grant_of inbox) { complete_history = false; redistribute = false }

pin_origins-IsPinned_example :
    ((inbox_id : Text) (key : OriginGrant)
      → pinned_grant inbox_id [] ≡ some key
      → pinned_grant inbox_id (first_pin ∷ []) ≡ some key)
    × All (IsPinned (first_pin ∷ [])) (grant_of inbox ∷ [])
unfolding opened
pin_origins-IsPinned_example = pin_origins-IsPinned [] (grant_of inbox ∷ []) (first_pin ∷ []) refl
