-- ===== src/Server/Reached.antt =====
-- packages/cli/src/sync-http-server.ts: whatever arrives, in whatever order, the server stays sound.
use html_inbox.Common.{
  delete_where, length-delete_where, length-put, length-remove, lookup-delete_where, ℕ, ◌+◌, ◌-◌,
  ◌≤◌, ◌<◌, ◌≡◌, refl, sym, subst, arith, Bool, true, false, [], Option, none, some, Text, Dict,
  lookup, put, remove, length, length, leb, ◌==◌, Result, ok, err, Result-cases, Bool-cases,
  Option-cases, inl, inr,
}
use html_inbox.Model.{Platform, OriginState}
use html_inbox.Store.{ApplyResult, settled}
use html_inbox.Wire.{max_sessions, max_transfers, max_body_transfers}
use html_inbox.Server.{Session, Transfer, Verified, Server}
use html_inbox.Server.Sessions.{new_session, purge_expired, reserve, session_for}
use html_inbox.Server.Bodies.{
  close, invalidate_route, new_transfer, offer_answered, put_answered, put_in, transfer_for,
  use_transfer,
}
use html_inbox.Server.Events.{
  Event, Request, Answer, IsFresh, Reach, here, next, purge, identify, request, answer, offered,
  upload, uploaded, invalidate, closing, pull, push, ready, complete, fetch, serve, step,
}
use html_inbox.Server.Counts.{cached-delete_where}
use html_inbox.Server.Served.{
  complete_in-IsSound, get_in-IsSound, pull_in-IsSound, push_in-IsSound, ready_in-IsSound,
  session_for-eq-ok,
}
use html_inbox.Server.Resumed.{resume-IsSound}
use html_inbox.Server.Sound.{IsSound}
use html_inbox.Server.Kept.{fewer-IsSound, reserved-IsSound}

module _ (server : Server) (sound : IsSound server) where
  deleted-IsSound :
      (over : Session → Bool) (spent : Transfer → Bool)
      → IsSound (record server {
        sessions = delete_where over server.sessions server.sessions;
        transfers = delete_where spent server.transfers server.transfers;
      })
  deleted-IsSound over spent =
      fewer-IsSound server sound (delete_where over server.sessions server.sessions)
        (delete_where spent server.transfers server.transfers) server.active_transfers server.closed
        (λ id s e. lookup-delete_where over server.sessions server.sessions id s e)
        (length-delete_where over server.sessions server.sessions)
        (cached-delete_where over server.sessions server.sessions)
        (ground
          (arith, sound.transfers_fit, length-delete_where spent server.transfers server.transfers))
        sound.uploads_fit

  -- Only the transfers change.
  moved-IsSound :
      (transfers : Dict Transfer) (active : ℕ)
      → length transfers ≤ max_transfers
      → active ≤ max_body_transfers
      → IsSound (record server { transfers = transfers; active_transfers = active })
  moved-IsSound transfers active fit uploads =
      fewer-IsSound server sound server.sessions transfers active server.closed (λ id s e. e)
        (omega arith) (omega arith) fit uploads

  used : (id : Text) → IsSound (record server { transfers = remove id server.transfers })
  used id =
      moved-IsSound (remove id server.transfers) server.active_transfers
        (ground (arith, sound.transfers_fit, length-remove id server.transfers)) sound.uploads_fit

  reserve-IsSound :
      (verified : Verified) (nonce id challenge : Text) (now : ℕ)
      → lookup id server.sessions ≡ none
      → lookup id server.handlers ≡ none
      → IsSound (reserve verified nonce id challenge now server).1
  unfolding reserve new_session
  reserve-IsSound verified nonce id challenge now free unheld =
      elim (Bool-cases (leb max_sessions (length server.sessions))) [
        | inl full ↦ rw (full, reserve) sound
        | inr some_free ↦
            let few : length server.sessions < max_sessions = ground arith in
            rw (some_free, reserve)
              (reserved-IsSound server sound verified
                (new_session verified id nonce challenge (now + server.lease_ms)) few free unheld
                refl (refl, refl, refl) (λ i. (tt, omega arith), λ a. cc))
      ]

  offer_answered-IsSound :
      (verified : Verified) (state : OriginState) (id : Text) (now : ℕ)
      (outcome : Result ApplyResult)
      → IsSound (offer_answered verified state id now outcome server).1
  unfolding offer_answered
  offer_answered-IsSound verified state id now (err thrown) = sound
  offer_answered-IsSound verified state id now (ok (settled custody receipt)) = sound
  offer_answered-IsSound verified state id now (ok ApplyResult.needs_body) =
      elim (Bool-cases (leb max_transfers (length server.transfers))) [
        | inl full ↦ rw (full, offer_answered) sound
        | inr some_free ↦
            let taken = new_transfer verified state (now + server.lease_ms) in
            rw (some_free, offer_answered)
              (moved-IsSound (put id taken server.transfers) server.active_transfers
                (ground (arith, length-put id taken server.transfers)) sound.uploads_fit)
      ]

  serve-IsSound :
      ⦃p : Platform⦄ (verified : Verified) (session : Session) (asked : Request)
      → lookup session.id server.sessions ≡ some session
      → session.busy ≡ false
      → IsSound (serve verified session asked server)
  unfolding serve
  serve-IsSound verified session (pull cursor token) there idle =
      pull_in-IsSound server sound session there idle cursor token
  serve-IsSound verified session (push page) there idle =
      push_in-IsSound server sound session there idle verified page
  serve-IsSound verified session ready there idle = ready_in-IsSound server sound session there idle
  serve-IsSound verified session complete there idle =
      complete_in-IsSound server sound session there idle
  serve-IsSound verified session (fetch inbox document fingerprint) there idle =
      get_in-IsSound server sound session there idle inbox document fingerprint

  use_transfer-IsSound :
      (id : Text) (transfer : Transfer) (declared : Result (Option ℕ))
      → IsSound (use_transfer id transfer declared server).1
  unfolding use_transfer
  use_transfer-IsSound id transfer (err thrown) = used id
  use_transfer-IsSound id transfer (ok none) = used id
  use_transfer-IsSound id transfer (ok (some size)) =
      elim (Bool-cases (size == transfer.state.byte_length)) [
        | inr wrong ↦ rw (wrong, use_transfer) (used id)
        | inl right ↦ elim (Bool-cases (leb max_body_transfers server.active_transfers)) [
          | inl full ↦ rw (right, full, use_transfer) (used id)
          | inr some_free ↦
              rw (right, some_free, use_transfer)
                (moved-IsSound (remove id server.transfers) (server.active_transfers + 1)
                  (ground (arith, sound.transfers_fit, length-remove id server.transfers))
                  (ground arith))
        ]
      ]

  put_in-IsSound :
      (id : Text) (verified : Verified) (declared : Result (Option ℕ)) (now : ℕ)
      → IsSound (put_in id verified declared now server).1
  unfolding put_in
  put_in-IsSound id verified declared now =
      elim (Result-cases (transfer_for id verified now server)) [
        | inr (thrown, e) ↦ rw (e, put_in) sound
        | inl (transfer, e) ↦ rw (e, put_in) (use_transfer-IsSound id transfer declared)
      ]

  request-IsSound :
      ⦃p : Platform⦄ (id : Text) (verified : Verified) (now : ℕ) (asked : Request)
      → IsSound (step (request id verified now asked) server)
  unfolding step
  request-IsSound id verified now asked = elim (Result-cases (session_for id verified now server)) [
    | inr (thrown, e) ↦ rw (e, step) sound
    | inl (session, e) ↦
        let (there, idle) = session_for-eq-ok id verified now server e in
        let kept : lookup session.id server.sessions ≡ some session =
          subst (λ k. lookup k server.sessions ≡ some session) (sym (sound.named id session there))
            there in
        rw (e, step) (serve-IsSound verified session asked kept idle)
  ]

  answer-IsSound :
      ⦃p : Platform⦄ (id : Text) (given : Answer) → IsSound (step (answer id given) server)
  unfolding step
  answer-IsSound id given = elim (Option-cases (lookup id server.handlers)) [
    | inl missing ↦ rw (missing, step) sound
    | inr (handler, waits) ↦ rw (waits, step) (resume-IsSound server sound id handler waits given)
  ]

  close-IsSound : IsSound (close server)
  unfolding close lookup
  close-IsSound =
      fewer-IsSound server sound [] [] server.active_transfers true (λ id s e. cc) (omega arith)
        (omega arith) (omega arith) sound.uploads_fit

  step-IsSound : ⦃p : Platform⦄ (e : Event) → IsFresh e server → IsSound (step e server)
  unfolding step purge_expired invalidate_route put_answered
  step-IsSound (purge now) fresh = deleted-IsSound _ _
  step-IsSound (identify verified nonce id challenge now) (free, unheld) =
      reserve-IsSound verified nonce id challenge now free unheld
  step-IsSound (request id verified now asked) fresh = request-IsSound id verified now asked
  step-IsSound (answer id given) fresh = answer-IsSound id given
  step-IsSound (offered verified state id now outcome) fresh =
      offer_answered-IsSound verified state id now outcome
  step-IsSound (upload id verified declared now) fresh = put_in-IsSound id verified declared now
  step-IsSound (uploaded outcome) fresh =
      moved-IsSound server.transfers (server.active_transfers - 1) sound.transfers_fit
        (ground (arith, sound.uploads_fit))
  step-IsSound (invalidate route_id) fresh = deleted-IsSound _ _
  step-IsSound closing fresh = close-IsSound

-- Whatever arrives in whatever order, the server keeps at most 8 sessions, 16 transfers, 4 uploads and
-- the bytes it may cache; no request changes the session of a handler that waits, and every busy
-- session has such a handler; what a peer has pushed is an ascending inventory within the limit.
pub Reach-IsSound :
    ⦃p : Platform⦄ {start server : Server} → IsSound start → Reach start server → IsSound server
Reach-IsSound sound here = sound
Reach-IsSound sound (next {server} r e fresh) = step-IsSound server (Reach-IsSound sound r) e fresh
