-- ===== src/Server/Held.antt =====
-- The changes of a session by the handler that holds it keep the server's invariant.
use html_inbox.Common.{
  adjust, length-adjust, lookup-adjust, ◌≤◌, ◌≡◌, refl, sym, subst, arith, Bool, true, false, some,
  Text, text_eq, text_eq_iff, lookup, put, lookup-put, lookup-remove, Bool-cases, inl, inr,
}
use html_inbox.Wire.{max_cached_bytes}
use html_inbox.Server.{Session, Stage, Handler, Server}
use html_inbox.Server.Sessions.{cached_bytes, release, suspend, with_busy}
use html_inbox.Server.Counts.{cached-adjust}
use html_inbox.Server.Sound.{Fits, IsAllowed, IsOrderly, IsSound}

module _ (server : Server) (sound : IsSound server) where
  module _ (id : Text) (change : Session → Session) (session : Session)
      (allowed : IsAllowed server id change session) where
    adjusted-named :
        (busy : Bool) (j : Text) (s : Session)
        → lookup j (adjust id (λ t. with_busy busy (change t)) server.sessions) ≡ some s
        → s.id ≡ j
    adjusted-named busy j s e =
        let (old, found, same) =
          lookup-adjust id j (λ t. with_busy busy (change t)) server.sessions s e in
        ground (arith, sound.named j old found, allowed.same_id old, same)

    adjusted-IsOrderly :
        (busy : Bool) (j : Text) (s : Session)
        → lookup j (adjust id (λ t. with_busy busy (change t)) server.sessions) ≡ some s
        → IsOrderly s
    adjusted-IsOrderly busy j s e =
        let (old, found, same) =
          lookup-adjust id j (λ t. with_busy busy (change t)) server.sessions s e in
        elim (Bool-cases (text_eq id j)) [
          | inl here ↦
              let there : lookup id server.sessions ≡ some old = ground (arith, text_eq_iff id j) in
              let known : s ≡ with_busy busy (change session) =
                ground (arith, allowed.seen old there) in
              let before : IsOrderly session =
                subst (λ t. IsOrderly t) (allowed.seen old there) (sound.orderly id old there) in
              subst (λ t. IsOrderly t) (sym known) (allowed.keeps before)
          | inr other ↦
              let known : s ≡ old = ground arith in
              subst (λ t. IsOrderly t) (sym known) (sound.orderly j old found)
        ]

    adjusted-cached :
        (busy : Bool)
        → cached_bytes (adjust id (λ t. with_busy busy (change t)) server.sessions)
          ≤ max_cached_bytes
    adjusted-cached busy =
        cached-adjust id (λ t. with_busy busy (change t)) server.sessions max_cached_bytes
          sound.cache_fits (λ old there. let same = allowed.seen old there in rw same allowed.room)

    -- The handler of the session ends.
    pub release-IsSound : IsSound (release id change server)
    unfolding release
    release-IsSound = record {
      sessions_fit = ground (
        arith,
        sound.sessions_fit,
        length-adjust id (λ t. with_busy false (change t)) server.sessions,
      );
      transfers_fit = sound.transfers_fit;
      cache_fits = adjusted-cached false;
      uploads_fit = sound.uploads_fit;
      named = adjusted-named false;
      orderly = adjusted-IsOrderly false;
      held = λ j h s e k.
          let (old, found, same) =
            lookup-adjust id j (λ t. with_busy false (change t)) server.sessions s k in
          let waits : lookup j server.handlers ≡ some h =
            ground (arith, lookup-remove id j server.handlers) in
          let other : text_eq id j ≡ false = ground (arith, lookup-remove id j server.handlers) in
          ground (arith, sound.held j h old waits found);
      fitting = λ j h e. sound.fitting j h (ground (arith, lookup-remove id j server.handlers));
      awaited = λ j s e b.
          let (old, found, same) =
            lookup-adjust id j (λ t. with_busy false (change t)) server.sessions s e in
          let other : text_eq id j ≡ false = ground arith in
          let (h, waits) = sound.awaited j old found (ground arith) in
          (h, ground (arith, lookup-remove id j server.handlers));
    }

    abbrev waiter : Stage → Handler
    waiter stage = record { session = with_busy true (change session); stage = stage }

    suspended-held :
        (stage : Stage) (j : Text) (h : Handler) (s : Session)
        → lookup j (put id (waiter stage) server.handlers) ≡ some h
        → lookup j (adjust id (λ t. with_busy true (change t)) server.sessions) ≡ some s
        → s ≡ h.session
    suspended-held stage j h s e k =
        let (old, found, same) =
          lookup-adjust id j (λ t. with_busy true (change t)) server.sessions s k in
        elim (Bool-cases (text_eq id j)) [
          | inl here ↦
              let there : lookup id server.sessions ≡ some old = ground (arith, text_eq_iff id j) in
              ground (arith, lookup-put id j (waiter stage) server.handlers, allowed.seen old there)
          | inr other ↦
              let waits : lookup j server.handlers ≡ some h =
                ground (arith, lookup-put id j (waiter stage) server.handlers) in
              ground (arith, sound.held j h old waits found)
        ]

    suspended-fitting :
        (stage : Stage)
        → Fits stage (with_busy true (change session))
        → (j : Text) (h : Handler) → lookup j (put id (waiter stage) server.handlers) ≡ some h
        → (h.session.busy ≡ true) × Fits h.stage h.session
    suspended-fitting stage fit j h e = elim (Bool-cases (text_eq id j)) [
      | inl here ↦
          let same : waiter stage ≡ h =
            ground (arith, lookup-put id j (waiter stage) server.handlers) in
          subst (λ g. (g.session.busy ≡ true) × Fits g.stage g.session) same (refl, fit)
      | inr other ↦
          sound.fitting j h (ground (arith, lookup-put id j (waiter stage) server.handlers))
    ]

    suspended-awaited :
        (stage : Stage) (j : Text) (s : Session)
        → lookup j (adjust id (λ t. with_busy true (change t)) server.sessions) ≡ some s
        → s.busy ≡ true
        → (h : Handler) × (lookup j (put id (waiter stage) server.handlers) ≡ some h)
    suspended-awaited stage j s e b =
        let (old, found, same) =
          lookup-adjust id j (λ t. with_busy true (change t)) server.sessions s e in
        elim (Bool-cases (text_eq id j)) [
          | inl here ↦
              (waiter stage, ground (arith, lookup-put id j (waiter stage) server.handlers))
          | inr other ↦
              let (h, waits) = sound.awaited j old found (ground arith) in
              (h, ground (arith, lookup-put id j (waiter stage) server.handlers))
        ]

    -- A handler waits for the session.
    pub suspend-IsSound :
        (stage : Stage)
        → Fits stage (with_busy true (change session))
        → IsSound (suspend id stage change session server)
    unfolding suspend
    suspend-IsSound stage fit = record {
      sessions_fit = ground (
        arith,
        sound.sessions_fit,
        length-adjust id (λ t. with_busy true (change t)) server.sessions,
      );
      transfers_fit = sound.transfers_fit;
      cache_fits = adjusted-cached true;
      uploads_fit = sound.uploads_fit;
      named = adjusted-named true;
      orderly = adjusted-IsOrderly true;
      held = suspended-held stage;
      fitting = suspended-fitting stage fit;
      awaited = suspended-awaited stage;
    }
