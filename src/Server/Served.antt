-- ===== src/Server/Served.antt =====
-- packages/cli/src/sync-http-server.ts: each piece that a request begins keeps the server sound.
use html_inbox.Common.{
  length-remove, ℕ, ◌+◌, ◌≤◌, ◌≡◌, refl, ap, arith, true, false, not, ◌&&◌, ◌||◌, Option, some,
  Text, Dict, lookup, remove, lookup-remove, ltb, leb, ok, >>=-eq-ok, reject, reject-eq-ok, require,
  require-eq-ok, Result-cases, Bool-cases, inl, inr,
}
use html_inbox.Model.{Platform, CompleteInventory, is_inbound, is_outbound, max_ledger_bytes}
use html_inbox.Wire.{ManifestPage, max_cached_bytes}
use html_inbox.Wire.Progress.{validate_page_progress}
use html_inbox.Server.{Session, Verified, Server, pushing, activating, sending}
use html_inbox.Server.Sessions.{cached_bytes, check_cache, session_for, states_size, is_bound_to}
use html_inbox.Server.Manifest.{
  answers_challenge, check_push, complete_in, has_none, page_of, pull_in, pull_page, pulled,
  push_in, ready_in, same_cursor,
}
use html_inbox.Server.Bodies.{get_in, offers}
use html_inbox.Server.Counts.{cached-remove}
use html_inbox.Server.Sound.{IsAllowed, IsSound}
use html_inbox.Server.Kept.{adjust-IsSound, fewer-IsSound}
use html_inbox.Server.Held.{suspend-IsSound}

-- What `sessionFor` lets through is in the map and idle.
pub session_for-eq-ok :
    (id : Text) (verified : Verified) (now : ℕ) (server : Server) {session : Session}
    → session_for id verified now server ≡ ok session
    → (lookup id server.sessions ≡ some session) × (session.busy ≡ false)
unfolding session_for
session_for-eq-ok id verified now server e =
    let (found, there, e1) = >>=-eq-ok (require (lookup id server.sessions) _) _ e in
    let (u, alive, e2) = >>=-eq-ok (reject (leb found.expires_at now) _) _ e1 in
    let (v, bound, e3) =
      >>=-eq-ok
        (reject
          (not (
              is_bound_to found.auth found.binding found.local_incarnation verified.auth
                verified.binding verified.local_incarnation)
            || found.busy)
          _)
        _ e2 in
    (ground (arith, require-eq-ok _ _ there), ground (arith, reject-eq-ok _ _ bound))

pub pull_page-eq-ok :
    (session : Session) (cursor : Option Text) (token : Text) {answer : ManifestPage × Session}
    → pull_page session cursor token ≡ ok answer
    → (evidence : CompleteInventory) × (session.evidence ≡ some evidence)
      × (session.ready ≡ false)
      × (answer ≡ (page_of session evidence token, pulled (page_of session evidence token) session))
unfolding pull_page
pull_page-eq-ok session cursor token e =
    let (u, way, e1) =
      >>=-eq-ok (reject (not (is_outbound session.direction) || session.ready) _) _ e in
    let (evidence, known, e2) = >>=-eq-ok (require session.evidence _) _ e1 in
    let (v, right, e3) = >>=-eq-ok (reject (not (same_cursor cursor session.cursor)) _) _ e2 in
    (evidence, require-eq-ok _ _ known, ground (arith, reject-eq-ok _ _ way), ground arith)

pub check_cache-eq-ok :
    (additional : ℕ) (sessions : Dict Session) {u : Unit {0}}
    → check_cache additional sessions ≡ ok u
    → cached_bytes sessions + additional ≤ max_cached_bytes
unfolding check_cache
check_cache-eq-ok additional sessions e =
    let (u, one, e1) = >>=-eq-ok (reject (ltb max_cached_bytes additional) _) _ e in
    ground (arith, reject-eq-ok _ _ e1)

check_push-eq-ok :
    (session : Session) (verified : Verified) (sent : ManifestPage) (server : Server) {bytes : ℕ}
    → check_push session verified sent server ≡ ok bytes
    → (is_inbound session.direction ≡ true)
      × (validate_page_progress sent session.states session.page_number session.evidence ≡ ok tt)
      × (cached_bytes server.sessions + bytes ≤ max_cached_bytes + session.bytes)
unfolding check_push
check_push-eq-ok session verified sent server e =
    let (u, way, e1) =
      >>=-eq-ok (reject (not (is_inbound session.direction) || session.ready) _) _ e in
    let (v, valid, e2) =
      >>=-eq-ok (validate_page_progress sent session.states session.page_number session.evidence) _
        e1 in
    let (w, right, e3) =
      >>=-eq-ok (reject (not (answers_challenge session verified sent.evidence)) _) _ e2 in
    let (x, small, e4) =
      >>=-eq-ok (check_cache (states_size sent.descriptors) server.sessions) _ e3 in
    let (y, few, e5) =
      >>=-eq-ok (reject (ltb max_ledger_bytes (session.bytes + states_size sent.descriptors)) _) _
        e4 in
    (
      ground (arith, reject-eq-ok _ _ way),
      valid,
      ground (arith, check_cache-eq-ok _ server.sessions small),
    )

module _ (server : Server) (sound : IsSound server) (session : Session)
    (there : lookup session.id server.sessions ≡ some session) (idle : session.busy ≡ false) where
  only : (s : Session) → lookup session.id server.sessions ≡ some s → s ≡ session
  only s e = ground arith

  unchanged : IsAllowed server session.id (λ s. s) session
  unchanged = record {
    same_id = λ s. refl;
    keeps = λ h. h;
    room = ground (arith, sound.cache_fits);
    seen = only;
  }

  pub pull_in-IsSound :
      (cursor : Option Text) (token : Text) → IsSound (pull_in session cursor token server).1
  unfolding pull_in pulled
  pull_in-IsSound cursor token = elim (Result-cases (pull_page session cursor token)) [
    | inr (thrown, e) ↦ rw (e, pull_in) sound
    | inl (answer, e) ↦
        let (evidence, known, unread, same) = pull_page-eq-ok session cursor token e in
        let after = pulled (page_of session evidence token) session in
        let given : answer.1 ≡ after = ap (λ a. a.1) same in
        rw (e, pull_in, given)
          (adjust-IsSound server sound session.id session after there idle refl idle refl
            (λ tidy. (tidy.0, λ b. ground (arith, tidy.1 b))))
  ]

  pub push_in-IsSound :
      (verified : Verified) (sent : ManifestPage) → IsSound (push_in session verified sent server).1
  unfolding push_in
  push_in-IsSound verified sent = elim (Result-cases (check_push session verified sent server)) [
    | inr (thrown, e) ↦ rw (e, push_in) sound
    | inl (bytes, e) ↦
        let (inward, valid, room) = check_push-eq-ok session verified sent server e in
        rw (e, push_in)
          (suspend-IsSound server sound session.id (λ s. record s { bytes = bytes }) session
            (record { same_id = λ s. refl; keeps = λ h. h; room = room; seen = only })
            (pushing verified sent) (inward, valid))
  ]

  pub ready_in-IsSound : IsSound (ready_in session server).1
  unfolding ready_in
  ready_in-IsSound =
      elim (Bool-cases (
        is_outbound session.direction
        && (session.ready && (not session.activated && not (has_none session.evidence))))) [
          | inl e ↦ rw e (
              suspend-IsSound server sound session.id (λ s. s) session unchanged activating
                (ground arith, ground arith))
          | inr e ↦ rw e sound
        ]

  pub complete_in-IsSound : IsSound (complete_in session server).1
  unfolding complete_in
  complete_in-IsSound =
      fewer-IsSound server sound (remove session.id server.sessions) server.transfers
        server.active_transfers server.closed
        (λ id s e. ground (arith, lookup-remove session.id id server.sessions))
        (length-remove session.id server.sessions) (cached-remove session.id server.sessions)
        sound.transfers_fit sound.uploads_fit

  pub get_in-IsSound :
      ⦃p : Platform⦄ (inbox document fingerprint : Text)
      → IsSound (get_in session inbox document fingerprint server).1
  unfolding get_in
  get_in-IsSound inbox document fingerprint =
      elim (Bool-cases (
        is_outbound session.direction
        && (session.activated && offers session inbox document fingerprint))) [
          | inl e ↦
              rw e (suspend-IsSound server sound session.id (λ s. s) session unchanged sending tt)
          | inr e ↦ rw e sound
        ]
