-- ===== src/Server/Resumed.antt =====
-- packages/cli/src/sync-http-server.ts: each piece with which a handler goes on keeps the server sound.
use html_inbox.Common.{
  ℕ, ◌+◌, ◌≤◌, ◌≡◌, refl, arith, Bool, true, false, List, ◌++◌, Option, some, Text, lookup, length,
  Result, ok, err, Result-cases, Bool-cases, inl, inr,
}
use html_inbox.Model.{
  Platform, CompleteInventory, Direction, max_records, inbound, outbound, is_inbound, is_outbound,
}
use html_inbox.Store.Outbound.{Inventory}
use html_inbox.Wire.{ManifestPage, max_cached_bytes}
use html_inbox.Wire.Progress.{validate_page_progress}
use html_inbox.Wire.Ordered.{IsAscending, length-append, validate_page_progress-IsAscending}
use html_inbox.Server.{
  Session, Verified, Stage, Handler, Server, opening, pushing, completing, activating, sending,
}
use html_inbox.Server.Sessions.{
  cached_bytes, check_cache, fill, filled, open_session, release, states_size,
}
use html_inbox.Server.Manifest.{has_none, push_completed, push_taken, ready_answered, taken}
use html_inbox.Server.Bodies.{get_answered}
use html_inbox.Server.Events.{Answer, inventoried, done, sent, resume}
use html_inbox.Server.Served.{check_cache-eq-ok}
use html_inbox.Server.Sound.{Fits, IsAllowed, IsOrderly, IsSound}
use html_inbox.Server.Kept.{drop_session-IsSound}
use html_inbox.Server.Held.{suspend-IsSound, release-IsSound}

outbound-inbound : (d : Direction) → is_outbound d ≡ true → is_inbound d ≡ false
outbound-inbound inbound e = cc
outbound-inbound outbound e = refl

-- The states that a session has after a page that continues them.
longer :
    (session : Session) (page : ManifestPage)
    → IsAscending session.states × (length session.states ≤ max_records)
    → validate_page_progress page session.states session.page_number session.evidence ≡ ok tt
    → IsAscending (session.states ++ page.descriptors)
      × (length (session.states ++ page.descriptors) ≤ max_records)
longer session page (ascending, few) valid =
    let (whole, bounded) =
      validate_page_progress-IsAscending page session.states session.page_number session.evidence
        ascending valid in
    (whole, ground (arith, length-append session.states page.descriptors))

module _ (server : Server) (sound : IsSound server) (id : Text) (handler : Handler)
    (waits : lookup id server.handlers ≡ some handler) where
  change-IsAllowed :
      (change : Session → Session)
      → ((s : Session) → (change s).id ≡ s.id)
      → (IsOrderly handler.session → IsOrderly (change handler.session))
      → cached_bytes server.sessions + (change handler.session).bytes
        ≤ max_cached_bytes + handler.session.bytes
      → IsAllowed server id change handler.session
  change-IsAllowed change name keeps room = record {
    same_id = name;
    keeps = keeps;
    room = room;
    seen = λ s e. sound.held id handler s waits e;
  }

  same_size :
      cached_bytes server.sessions + handler.session.bytes
      ≤ max_cached_bytes + handler.session.bytes
  same_size = ground (arith, sound.cache_fits)

  unchanged : IsAllowed server id (λ s. s) handler.session
  unchanged = change-IsAllowed (λ s. s) (λ s. refl) (λ h. h) same_size

  released : IsSound (release id (λ s. s) server)
  released = release-IsSound server sound id (λ s. s) handler.session unchanged

  fill-IsSound :
      ⦃p : Platform⦄ (verified : Verified) (outcome : Result Inventory)
      → is_outbound verified.route.direction ≡ true
      → Fits (opening verified) handler.session
      → IsSound (fill id verified handler.session outcome server).1
  unfolding fill filled
  fill-IsSound verified (err thrown) way fit = drop_session-IsSound server sound id
  fill-IsSound verified (ok cut) way (empty, passive, along) =
      elim (Result-cases (check_cache (states_size cut.states) server.sessions)) [
        | inr (thrown, e) ↦ rw (e, fill) (drop_session-IsSound server sound id)
        | inl (u, e) ↦
            rw (e, fill)
              (release-IsSound server sound id (filled verified server.peer_id cut) handler.session
                (change-IsAllowed (filled verified server.peer_id cut) (λ s. refl)
                  (λ tidy. (
                    λ inward. ground (arith, outbound-inbound verified.route.direction way),
                    tidy.1,
                  ))
                  (ground (arith, check_cache-eq-ok (states_size cut.states) server.sessions e))))
      ]

  open_session-IsSound :
      ⦃p : Platform⦄ (verified : Verified) (outcome : Result Inventory)
      → Fits (opening verified) handler.session
      → IsSound (open_session id verified handler.session outcome server).1
  unfolding open_session
  open_session-IsSound verified outcome fit =
      elim (Bool-cases (is_outbound verified.route.direction)) [
        | inl way ↦ rw (way, open_session) (fill-IsSound verified outcome way fit)
        | inr way ↦ rw (way, open_session) released
      ]

  taken-IsAllowed :
      (verified : Verified) (page : ManifestPage)
      → Fits (pushing verified page) handler.session
      → IsAllowed server id (taken page) handler.session
  unfolding taken
  taken-IsAllowed verified page (inward, valid) =
      change-IsAllowed (taken page) (λ s. refl)
        (λ tidy. (λ i. longer handler.session page (tidy.0 i) valid, tidy.1)) same_size

  push_taken-IsSound :
      (verified : Verified) (page : ManifestPage) (outcome : Result (Unit {0}))
      → Fits (pushing verified page) handler.session
      → IsSound (push_taken id verified page handler.session outcome server).1
  unfolding push_taken taken
  push_taken-IsSound verified page (err thrown) fit = released
  push_taken-IsSound verified page (ok u) fit = elim (Bool-cases (has_none page.next_cursor)) [
    | inl last ↦
        rw (last, push_taken)
          (suspend-IsSound server sound id (taken page) handler.session
            (taken-IsAllowed verified page fit) (completing verified page) fit.0)
    | inr more ↦
        rw (more, push_taken)
          (release-IsSound server sound id (taken page) handler.session
            (taken-IsAllowed verified page fit))
  ]

  push_completed-IsSound :
      (verified : Verified) (evidence : CompleteInventory) (outcome : Result (Unit {0}))
      → IsSound (push_completed id verified handler.session evidence outcome server).1
  unfolding push_completed
  push_completed-IsSound verified evidence (err thrown) = released
  push_completed-IsSound verified evidence (ok u) =
      release-IsSound server sound id (λ s. record s { ready = true }) handler.session
        (change-IsAllowed (λ s. record s { ready = true }) (λ s. refl)
          (λ tidy. (tidy.0, λ a. (refl, (tidy.1 a).1))) same_size)

  ready_answered-IsSound :
      (outcome : Result (Unit {0}))
      → Fits activating handler.session
      → IsSound (ready_answered id outcome server).1
  unfolding ready_answered
  ready_answered-IsSound (err thrown) fit = released
  ready_answered-IsSound (ok u) (way, whole) =
      release-IsSound server sound id (λ s. record s { activated = true }) handler.session
        (change-IsAllowed (λ s. record s { activated = true }) (λ s. refl)
          (λ tidy. (tidy.0, λ a. (whole, way))) same_size)

  get_answered-IsSound :
      ⦃p : Platform⦄ (outcome : Result (Option (List ℕ))) (finished : Bool)
      → IsSound (get_answered id outcome finished server).1
  unfolding get_answered
  get_answered-IsSound outcome true = released
  get_answered-IsSound outcome false = drop_session-IsSound server sound id

  resume_at :
      ⦃p : Platform⦄ (stage : Stage) (given : Answer)
      → Fits stage handler.session
      → IsSound (resume id handler.session stage given server)
  unfolding resume
  resume_at (opening verified) (inventoried outcome) fit = open_session-IsSound verified outcome fit
  resume_at (opening verified) (done outcome) fit = sound
  resume_at (opening verified) (sent outcome finished) fit = sound
  resume_at (pushing verified page) (inventoried outcome) fit = sound
  resume_at (pushing verified page) (done outcome) fit =
      push_taken-IsSound verified page outcome fit
  resume_at (pushing verified page) (sent outcome finished) fit = sound
  resume_at (completing verified page) (inventoried outcome) fit = sound
  resume_at (completing verified page) (done outcome) fit =
      push_completed-IsSound verified page.evidence outcome
  resume_at (completing verified page) (sent outcome finished) fit = sound
  resume_at activating (inventoried outcome) fit = sound
  resume_at activating (done outcome) fit = ready_answered-IsSound outcome fit
  resume_at activating (sent outcome finished) fit = sound
  resume_at sending (inventoried outcome) fit = sound
  resume_at sending (done outcome) fit = sound
  resume_at sending (sent outcome finished) fit = get_answered-IsSound outcome finished

  pub resume-IsSound :
      ⦃p : Platform⦄ (given : Answer)
      → IsSound (resume id handler.session handler.stage given server)
  resume-IsSound given = resume_at handler.stage given (sound.fitting id handler waits).1
