-- ===== src/Server/Events.antt =====
-- packages/cli/src/sync-http-server.ts: the pieces of `handle` in the order in which they happen to run.
-- A request that has been authenticated begins one, and an answer of the store lets the handler that
-- waits for it go on.
use html_inbox.Common.{ℕ, ◌≡◌, List, Option, none, some, Text, Bool, lookup, Result, ok, err}
use html_inbox.Model.{OriginState, Platform}
use html_inbox.Store.{ApplyResult}
use html_inbox.Store.Outbound.{Inventory}
use html_inbox.Wire.{ManifestPage}
use html_inbox.Server.{
  Session, Verified, Stage, opening, pushing, completing, activating, sending, Server,
}
use html_inbox.Server.Sessions.{open_session, purge_expired, reserve, session_for}
use html_inbox.Server.Manifest.{
  complete_in, pull_in, push_completed, push_in, push_taken, ready_answered, ready_in,
}
use html_inbox.Server.Bodies.{
  close, get_answered, get_in, invalidate_route, offer_answered, put_answered, put_in,
}

-- What arrives for a session, once `sessionFor` has found it.
pub data Request : Type 0 where
  pull : Option Text → Text → Request
  push : ManifestPage → Request
  ready : Request
  complete : Request
  fetch : Text → Text → Text → Request

-- What the store, or the response, lets a waiting handler go on with.
pub data Answer : Type 0 where
  inventoried : Result Inventory → Answer
  done : Result (Unit {0}) → Answer
  sent : Result (Option (List ℕ)) → Bool → Answer

pub data Event : Type 0 where
  purge : ℕ → Event
  identify : Verified → Text → Text → Text → ℕ → Event
  request : Text → Verified → ℕ → Request → Event
  answer : Text → Answer → Event
  offered : Verified → OriginState → Text → ℕ → Result ApplyResult → Event
  upload : Text → Verified → Result (Option ℕ) → ℕ → Event
  uploaded : Result ApplyResult → Event
  invalidate : Text → Event
  closing : Event

module _ ⦃p : Platform⦄ where
  unfoldable pub serve : Verified → Session → Request → Server → Server
  unfolding pull_in push_in ready_in complete_in get_in
  serve verified session (pull cursor token) server = (pull_in session cursor token server).1
  serve verified session (push page) server = (push_in session verified page server).1
  serve verified session ready server = (ready_in session server).1
  serve verified session complete server = (complete_in session server).1
  serve verified session (fetch inbox document fingerprint) server =
      (get_in session inbox document fingerprint server).1

  -- The answer for a stage that does not wait for it never comes.
  unfoldable pub resume : Text → Session → Stage → Answer → Server → Server
  unfolding open_session push_taken push_completed ready_answered get_answered
  resume id session (opening verified) (inventoried outcome) server =
      (open_session id verified session outcome server).1
  resume id session (pushing verified page) (done outcome) server =
      (push_taken id verified page session outcome server).1
  resume id session (completing verified page) (done outcome) server =
      (push_completed id verified session page.evidence outcome server).1
  resume id session activating (done outcome) server = (ready_answered id outcome server).1
  resume id session sending (sent outcome finished) server =
      (get_answered id outcome finished server).1
  resume id session _ _ server = server

  unfoldable pub step : Event → Server → Server
  unfolding serve resume purge_expired reserve session_for offer_answered put_in put_answered
      invalidate_route close
  step (purge now) server = purge_expired now server
  step (identify verified nonce id challenge now) server =
      (reserve verified nonce id challenge now server).1
  step (request id verified now asked) server = elim (session_for id verified now server) [
    | err thrown ↦ server
    | ok session ↦ serve verified session asked server
  ]
  step (answer id given) server = elim (lookup id server.handlers) [
    | none ↦ server
    | some handler ↦ resume id handler.session handler.stage given server
  ]
  step (offered verified state id now outcome) server =
      (offer_answered verified state id now outcome server).1
  step (upload id verified declared now) server = (put_in id verified declared now server).1
  step (uploaded outcome) server = (put_answered outcome server).1
  step (invalidate route_id) server = invalidate_route route_id server
  step closing server = close server

-- `opaqueToken` never returns the name of a session that is or was waited for.
abbrev pub IsFresh : Event → Server → Type 0
IsFresh (identify verified nonce id challenge now) server =
    (lookup id server.sessions ≡ none) × (lookup id server.handlers ≡ none)
IsFresh _ server = Unit

-- The servers that events lead to.
pub data Reach ⦃p : Platform⦄ (start : Server) : Server → Type 0 where
  here : Reach start start
  next :
      {server : Server}
      → Reach start server
      → (e : Event) → IsFresh e server
      → Reach start (step e server)
