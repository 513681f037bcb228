-- ===== src/Server.antt =====
-- packages/cli/src/sync-http-server.ts: the server that answers the peers of an inbox. Its state changes
-- between two awaits of a handler, so an operation here is one such piece; what a handler waits for
-- is an argument of the next piece, and `handlers` holds the handlers that wait, by their session.
pub mod Sessions
pub mod Manifest
pub mod Bodies
pub mod Events
pub mod Failures
pub mod Requests
pub mod Answered
pub mod Authenticated
pub mod Counts
pub mod Sound
pub mod Kept
pub mod Held
pub mod Served
pub mod Resumed
pub mod Reached
use html_inbox.Common.{ℕ, Bool, Option, List, Text, Dict, Result}
use html_inbox.Model.{OriginState, SyncRoute, RouteAuthorization, Direction, CompleteInventory}
use html_inbox.Store.{ApplyResult}
use html_inbox.Store.Outbound.{InventoryReadiness}
use html_inbox.Store.Reconcile.{Holding}
use html_inbox.Wire.{RequestBinding, IdentityResponse, ManifestPage}

pub record Session : Type 0 where
  pub id : Text
  pub auth : RouteAuthorization
  pub binding : RequestBinding
  pub local_incarnation : Text
  pub request_nonce : Text
  pub challenge_nonce : Text
  pub expires_at : ℕ
  pub direction : Direction
  pub states : List OriginState
  pub evidence : Option CompleteInventory
  pub cursor : Option Text
  pub page_number : ℕ
  pub bytes : ℕ
  pub ready : Bool
  pub activated : Bool
  pub busy : Bool

pub record Transfer : Type 0 where
  pub auth : RouteAuthorization
  pub binding : RequestBinding
  pub local_incarnation : Text
  pub state : OriginState
  pub expires_at : ℕ

-- What `authenticate` returns.
pub record Verified : Type 0 where
  pub auth : RouteAuthorization
  pub binding : RequestBinding
  pub route : SyncRoute
  pub local_inbox_id : Text
  pub local_incarnation : Text

-- What a handler that waits goes on with.
pub data Stage : Type 0 where
  opening : Verified → Stage
  pushing : Verified → ManifestPage → Stage
  completing : Verified → ManifestPage → Stage
  activating : Stage
  sending : Stage

-- A handler that waits, with the session as it left it.
pub record Handler : Type 0 where
  pub session : Session
  pub stage : Stage

pub record Server : Type 0 where
  pub peer_id : Text
  pub lease_ms : ℕ
  pub sessions : Dict Session
  pub transfers : Dict Transfer
  pub handlers : Dict Handler
  pub active_transfers : ℕ
  pub closed : Bool

-- What is written into a response.
pub data Reply : Type 0 where
  waiting : Reply
  identity : IdentityResponse → Reply
  page : ManifestPage → Reply
  continued : Reply
  ready : InventoryReadiness → Reply
  active : Reply
  completed : Reply
  needs_body : Text → ℕ → Reply
  applied : ApplyResult → Reply
  body : List ℕ → Reply
