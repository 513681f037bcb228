-- ===== src/Server/Sound.antt =====
-- The invariant of the server, and the changes of its maps that keep it.
use html_inbox.Common.{◌+◌, ◌≤◌, ◌≡◌, true, false, some, Text, lookup, length, ok}
use html_inbox.Model.{is_inbound, is_outbound, max_records}
use html_inbox.Wire.{max_sessions, max_transfers, max_cached_bytes, max_body_transfers}
use html_inbox.Wire.Progress.{validate_page_progress}
use html_inbox.Wire.Ordered.{IsAscending}
use html_inbox.Server.{
  Session, Stage, Handler, opening, pushing, completing, activating, sending, Server,
}
use html_inbox.Server.Sessions.{cached_bytes}

-- What a peer has pushed is an ascending inventory within the limit, and only a session whose whole
-- inventory was pulled serves bodies.
abbrev pub IsOrderly : Session → Type 0
IsOrderly s =
    (is_inbound s.direction ≡ true → IsAscending s.states × (length s.states ≤ max_records))
    × (s.activated ≡ true → (s.ready ≡ true) × (is_outbound s.direction ≡ true))

-- What a handler relies on when it goes on.
abbrev pub Fits : Stage → Session → Type 0
Fits (opening verified) s =
    (s.bytes ≡ 0) × (s.activated ≡ false) × (s.direction ≡ verified.route.direction)
Fits (pushing verified page) s =
    (is_inbound s.direction ≡ true)
    × (validate_page_progress page s.states s.page_number s.evidence ≡ ok tt)
Fits (completing verified page) s = is_inbound s.direction ≡ true
Fits activating s = (is_outbound s.direction ≡ true) × (s.ready ≡ true)
Fits sending s = Unit

pub record IsSound (server : Server) : Type 0 where
  pub sessions_fit : length server.sessions ≤ max_sessions
  pub transfers_fit : length server.transfers ≤ max_transfers
  pub cache_fits : cached_bytes server.sessions ≤ max_cached_bytes
  pub uploads_fit : server.active_transfers ≤ max_body_transfers
  pub named : (id : Text) (s : Session) → lookup id server.sessions ≡ some s → s.id ≡ id
  pub orderly : (id : Text) (s : Session) → lookup id server.sessions ≡ some s → IsOrderly s
  -- No request changes the session of a handler that waits.
  pub held :
      (id : Text) (h : Handler) (s : Session)
      → lookup id server.handlers ≡ some h
      → lookup id server.sessions ≡ some s
      → s ≡ h.session
  pub fitting :
      (id : Text) (h : Handler)
      → lookup id server.handlers ≡ some h
      → (h.session.busy ≡ true) × Fits h.stage h.session
  -- A busy session has a handler that will release it.
  pub awaited :
      (id : Text) (s : Session)
      → lookup id server.sessions ≡ some s
      → s.busy ≡ true
      → (h : Handler) × (lookup id server.handlers ≡ some h)

-- A change of a session's fields that the invariant allows.
pub record IsAllowed (server : Server) (id : Text) (change : Session → Session) (session : Session)
    : Type 0 where
  pub same_id : (s : Session) → (change s).id ≡ s.id
  pub keeps : IsOrderly session → IsOrderly (change session)
  pub room :
      cached_bytes server.sessions + (change session).bytes ≤ max_cached_bytes + session.bytes
  pub seen : (s : Session) → lookup id server.sessions ≡ some s → s ≡ session
