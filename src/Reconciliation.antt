-- ===== src/Reconciliation.antt =====
-- packages/cli/src/sync-reconciliation.ts: one pass over the routes of this inbox, as the client of
-- its peers.
pub mod Checks
pub mod Pull
pub mod Sizes
pub mod Exchange
pub mod Cut
pub mod Accepted
pub mod Pages
pub mod Round
pub mod Whole
pub mod Vouched
use html_inbox.Common.{ℕ, List, Option, Text}
use html_inbox.Model.{OriginState, CompleteInventory, RouteAuthorization}
use html_inbox.Store.Apply.{Fresh}

-- The variables of the loop of `pull`.
pub record Pulling : Type 0 where
  pub states : List OriginState
  pub evidence : Option CompleteInventory
  pub cursor : Option Text
  pub bytes : ℕ
  pub page_number : ℕ

-- What a pull has to do with but the peer: its authorization, the end of its session's lease and the monotonic
-- clock at each page, and what the store takes for a new record.
pub record Pass : Type 0 where
  pub authorization : RouteAuthorization
  pub lease_deadline : ℕ
  pub clock : ℕ → ℕ
  pub fresh : OriginState → Fresh
