-- ===== src/Server/Kept.antt =====
-- The changes of the server's maps that keep its invariant: sessions that go or come, and those that no
-- handler holds.
use html_inbox.Common.{
  adjust, length-adjust, length-put, length-remove, lookup-adjust, ℕ, ◌≤◌, ◌<◌, ◌≡◌, sym, subst,
  arith, Bool, true, false, none, some, Text, text_eq, text_eq_iff, Dict, lookup, put, lookup-put,
  lookup-remove, length, Bool-cases, inl, inr,
}
use html_inbox.Wire.{max_sessions, max_transfers, max_cached_bytes, max_body_transfers}
use html_inbox.Server.{Session, Transfer, Verified, Handler, opening, Server}
use html_inbox.Server.Sessions.{cached_bytes, drop_session, reserved}
use html_inbox.Server.Counts.{cached-adjust, cached-put, cached-remove}
use html_inbox.Server.Sound.{Fits, IsOrderly, IsSound}

module _ (server : Server) (sound : IsSound server) where
  -- Sessions that go, and what else changes of the rest.
  pub fewer-IsSound :
      (sessions : Dict Session) (transfers : Dict Transfer) (active : ℕ) (is_closed : Bool)
      → ((id : Text) (s : Session)
          → lookup id sessions ≡ some s
          → lookup id server.sessions ≡ some s)
      → length sessions ≤ length server.sessions
      → cached_bytes sessions ≤ cached_bytes server.sessions
      → length transfers ≤ max_transfers
      → active ≤ max_body_transfers
      → IsSound (record server {
        sessions = sessions;
        transfers = transfers;
        active_transfers = active;
        closed = is_closed;
      })
  fewer-IsSound sessions transfers active is_closed kept fewer less fit uploads = record {
    sessions_fit = ground (arith, sound.sessions_fit);
    transfers_fit = fit;
    cache_fits = ground (arith, sound.cache_fits);
    uploads_fit = uploads;
    named = λ id s e. sound.named id s (kept id s e);
    orderly = λ id s e. sound.orderly id s (kept id s e);
    held = λ id h s e k. sound.held id h s e (kept id s k);
    fitting = sound.fitting;
    awaited = λ id s e b. sound.awaited id s (kept id s e) b;
  }

  pub drop_session-IsSound : (id : Text) → IsSound (drop_session id server)
  unfolding drop_session
  drop_session-IsSound id = record {
    sessions_fit = ground (arith, sound.sessions_fit, length-remove id server.sessions);
    transfers_fit = sound.transfers_fit;
    cache_fits = ground (arith, sound.cache_fits, cached-remove id server.sessions);
    uploads_fit = sound.uploads_fit;
    named = λ j s e. ground (arith, lookup-remove id j server.sessions, sound.named j s);
    orderly = λ j s e. sound.orderly j s (ground (arith, lookup-remove id j server.sessions));
    held = λ j h s e k.
        sound.held j h s (ground (arith, lookup-remove id j server.handlers))
          (ground (arith, lookup-remove id j server.sessions));
    fitting = λ j h e. sound.fitting j h (ground (arith, lookup-remove id j server.handlers));
    awaited = λ j s e b.
        let (h, found) = sound.awaited j s (ground (arith, lookup-remove id j server.sessions)) b in
        (h, ground (arith, lookup-remove id j server.handlers, lookup-remove id j server.sessions));
  }

  abbrev opener : Verified → Session → Handler
  opener verified session = record { session = session; stage = opening verified }

  reserved-held :
      (verified : Verified) (session : Session)
      → lookup session.id server.handlers ≡ none
      → (j : Text) (h : Handler) (s : Session)
      → lookup j (put session.id (opener verified session) server.handlers) ≡ some h
      → lookup j (put session.id session server.sessions) ≡ some s
      → s ≡ h.session
  reserved-held verified session unheld j h s e k = elim (Bool-cases (text_eq session.id j)) [
    | inl here ↦ ground (
      arith,
      lookup-put session.id j (opener verified session) server.handlers,
      lookup-put session.id j session server.sessions,
    )
    | inr other ↦
        sound.held j h s
          (ground (arith, lookup-put session.id j (opener verified session) server.handlers))
          (ground (arith, lookup-put session.id j session server.sessions))
  ]

  reserved-awaited :
      (verified : Verified) (session : Session) (j : Text) (s : Session)
      → lookup j (put session.id session server.sessions) ≡ some s
      → s.busy ≡ true
      → (h : Handler) × (lookup j (put session.id (opener verified session) server.handlers)
          ≡ some h)
  reserved-awaited verified session j s e b = elim (Bool-cases (text_eq session.id j)) [
    | inl here ↦ (
      opener verified session,
      ground (arith, lookup-put session.id j (opener verified session) server.handlers),
    )
    | inr other ↦
        let (h, waits) =
          sound.awaited j s (ground (arith, lookup-put session.id j session server.sessions)) b in
        (h, ground (arith, lookup-put session.id j (opener verified session) server.handlers))
  ]

  -- A change by a request that waits for nothing, on a session that no handler holds.
  pub adjust-IsSound :
      (id : Text) (session after : Session)
      → lookup id server.sessions ≡ some session
      → session.busy ≡ false
      → after.id ≡ session.id
      → after.busy ≡ false
      → after.bytes ≡ session.bytes
      → (IsOrderly session → IsOrderly after)
      → IsSound (record server { sessions = adjust id (λ s. after) server.sessions })
  adjust-IsSound id session after there idle name still size keeps = record {
    sessions_fit =
        ground (arith, sound.sessions_fit, length-adjust id (λ s. after) server.sessions);
    transfers_fit = sound.transfers_fit;
    cache_fits =
        cached-adjust id (λ s. after) server.sessions max_cached_bytes sound.cache_fits
          (λ old found. ground (arith, sound.cache_fits));
    uploads_fit = sound.uploads_fit;
    named = λ j s e.
        let (old, found, same) = lookup-adjust id j (λ s. after) server.sessions s e in
        ground (arith, sound.named j old found, text_eq_iff id j);
    orderly = λ j s e.
        let (old, found, same) = lookup-adjust id j (λ s. after) server.sessions s e in
        elim (Bool-cases (text_eq id j)) [
          | inl here ↦
              let known : s ≡ after = ground arith in
              subst (λ t. IsOrderly t) (sym known) (keeps (sound.orderly id session there))
          | inr other ↦
              let known : s ≡ old = ground arith in
              subst (λ t. IsOrderly t) (sym known) (sound.orderly j old found)
        ];
    held = λ j h s e k.
        let (old, found, same) = lookup-adjust id j (λ s. after) server.sessions s k in
        ground (arith, sound.held j h old e found, sound.fitting j h e, text_eq_iff id j);
    fitting = sound.fitting;
    awaited = λ j s e b.
        let (old, found, same) = lookup-adjust id j (λ s. after) server.sessions s e in
        sound.awaited j old found (ground (arith, text_eq_iff id j));
  }

  -- The slot that a new session takes.
  pub reserved-IsSound :
      (verified : Verified) (session : Session)
      → length server.sessions < max_sessions
      → lookup session.id server.sessions ≡ none
      → lookup session.id server.handlers ≡ none
      → session.busy ≡ true
      → Fits (opening verified) session
      → IsOrderly session
      → IsSound (reserved verified session server)
  unfolding reserved
  reserved-IsSound verified session few free unheld busy fit tidy = record {
    sessions_fit = ground (arith, length-put session.id session server.sessions);
    transfers_fit = sound.transfers_fit;
    cache_fits =
        ground (arith, sound.cache_fits, cached-put session.id session server.sessions free);
    uploads_fit = sound.uploads_fit;
    named = λ j s e. ground (
      arith,
      lookup-put session.id j session server.sessions,
      sound.named j s,
      text_eq_iff session.id j,
    );
    orderly = λ j s e. elim (Bool-cases (text_eq session.id j)) [
      | inl here ↦
          let same : session ≡ s =
            ground (arith, lookup-put session.id j session server.sessions) in
          subst (λ t. IsOrderly t) same tidy
      | inr other ↦
          sound.orderly j s (ground (arith, lookup-put session.id j session server.sessions))
    ];
    held = λ j h s e k. reserved-held verified session unheld j h s e k;
    fitting = λ j h e. elim (Bool-cases (text_eq session.id j)) [
      | inl here ↦
          let same : opener verified session ≡ h =
            ground (arith, lookup-put session.id j (opener verified session) server.handlers) in
          subst (λ g. (g.session.busy ≡ true) × Fits g.stage g.session) same (busy, fit)
      | inr other ↦
          sound.fitting j h
            (ground (arith, lookup-put session.id j (opener verified session) server.handlers))
    ];
    awaited = λ j s e b. reserved-awaited verified session j s e b;
  }
