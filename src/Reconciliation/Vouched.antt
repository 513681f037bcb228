-- ===== src/Reconciliation/Vouched.antt =====
-- packages/cli/src/sync-wire.ts, sync-http-server.ts, sync-reconciliation.ts and sync-store.ts together:
-- what a server vouches for when it opens a session is what the client's store asks for.
use html_inbox.Common.{
  ℕ, ◌+◌, ◌*◌, ◌≤◌, ◌<◌, ◌≡◌, refl, arith, true, ◌&&◌, List, [], ◌∷◌, none, some, Text, text_eq,
  text_eq_refl, length, map, any, all, ok,
}
use html_inbox.Model.{
  OriginState, OriginGrant, Scope, SyncRoute, CompleteInventory, Platform, is_outbound,
  manifest_page, max_records, max_ledger_bytes,
}
use html_inbox.Model.Codec.{inventory_digest}
use html_inbox.Store.Outbound.{Inventory}
use html_inbox.Store.Inventory.{evidence_is_bound, is_evidence_for, scope_agrees}
use html_inbox.Wire.Evidence.{create_evidence}
use html_inbox.Wire.Ordered.{AscendsFrom-all_distinct, IsAscending}
use html_inbox.Store.{Store}
use html_inbox.Server.{Session, Verified}
use html_inbox.Server.Sessions.{filled, new_session}
use html_inbox.Reconciliation.{Pass, Pulling}
use html_inbox.Reconciliation.Checks.{route_authorization}
use html_inbox.Reconciliation.Pull.{is_challenge_answered, receive_states, start_pulling}
use html_inbox.Reconciliation.Sizes.{total_size}
use html_inbox.Reconciliation.Exchange.{exchange}
use html_inbox.Reconciliation.Pages.{CanBeSent}
use html_inbox.Reconciliation.Whole.{IsInTime, exchange-IsWhole}

abbrev scope_of : OriginGrant → Scope
scope_of grant = record { inbox_id = grant.inbox_id; history_epoch = grant.history_epoch }

length-map : (grants : List OriginGrant) → length (map scope_of grants) ≡ length grants
length-map [] = refl
length-map (g ∷ grants) = ground (arith, length-map grants)

-- The scope of a grant of the route is among those of all its grants.
covered :
    (grants more : List OriginGrant)
    → ((g : OriginGrant)
        → any
            (λ s. text_eq s.inbox_id g.inbox_id && text_eq s.history_epoch g.history_epoch)
            (map scope_of grants)
          ≡ true
        → any
            (λ s. text_eq s.inbox_id g.inbox_id && text_eq s.history_epoch g.history_epoch)
            (map scope_of more)
          ≡ true)
    → all
        (λ g.
          any
            (λ s. text_eq s.inbox_id g.inbox_id && text_eq s.history_epoch g.history_epoch)
            (map scope_of more))
        grants
      ≡ true
covered [] more inside = refl
covered (g ∷ grants) more inside = ground (
  arith,
  inside g (ground (arith, text_eq_refl g.inbox_id, text_eq_refl g.history_epoch)),
  covered grants more (λ h e. inside h (ground arith)),
)

scope_agrees_refl :
    (route : SyncRoute) (evidence : CompleteInventory)
    → evidence.scope ≡ map scope_of route.allowed_origins
    → scope_agrees route evidence ≡ true
unfolding scope_agrees
scope_agrees_refl route evidence e = rw e (
    ground (
      arith,
      length-map route.allowed_origins,
      covered route.allowed_origins route.allowed_origins (λ g h. h),
    ))

module _ ⦃p : Platform⦄ where
  -- The two ends of a route: the server's outbound one and the client's inbound one.
  pub record IsMatched (server client : SyncRoute) (peer_id : Text) : Type 0 where
    pub same_id : client.id ≡ server.id
    pub same_revision : client.revision ≡ server.revision
    pub same_scope : client.allowed_origins ≡ server.allowed_origins
    pub same_peer : client.peer_id ≡ peer_id

  create_evidence-is_challenge_answered :
      (server client : SyncRoute) (peer_id nonce : Text) (cut : Inventory)
      → IsMatched server client peer_id
      → is_challenge_answered client nonce (create_evidence server peer_id nonce cut) ≡ true
  unfolding is_challenge_answered create_evidence
  create_evidence-is_challenge_answered server client peer_id nonce cut matched =
      rw (matched.same_id, matched.same_revision, matched.same_peer)
        (ground (arith, text_eq_refl nonce, text_eq_refl peer_id, text_eq_refl server.id))

  create_evidence-is_evidence_for :
      (server : SyncRoute) (peer_id nonce : Text) (cut : Inventory)
      → IsAscending cut.states
      → is_evidence_for (create_evidence server peer_id nonce cut) cut.states nonce ≡ true
  unfolding is_evidence_for create_evidence
  create_evidence-is_evidence_for server peer_id nonce cut ascending = ground (
    arith,
    text_eq_refl nonce,
    text_eq_refl (inventory_digest cut.states),
    AscendsFrom-all_distinct none cut.states ascending,
  )

  create_evidence-is_bound :
      (server client : SyncRoute) (peer_id nonce : Text) (cut : Inventory)
      → IsMatched server client peer_id
      → evidence_is_bound
          (route_authorization client)
          client
          (create_evidence server peer_id nonce cut)
        ≡ true
  unfolding evidence_is_bound create_evidence route_authorization
  create_evidence-is_bound server client peer_id nonce cut matched = ground (
    arith,
    matched.same_id,
    matched.same_revision,
    matched.same_peer,
    text_eq_refl peer_id,
    text_eq_refl server.id,
    scope_agrees_refl client (create_evidence server peer_id nonce cut)
        (rw matched.same_scope refl),
  )

  -- What `completeInventory` asks of a pulled inventory before it reads the ledger.
  pub record IsVouched (client : SyncRoute) (nonce : Text) (states : List OriginState)
      (pulling : Pulling) : Type 0 where
    pub got : pulling.states ≡ states
    pub evidence : CompleteInventory
    pub known : pulling.evidence ≡ some evidence
    pub fits : is_evidence_for evidence pulling.states nonce ≡ true
    pub is_bound : evidence_is_bound (route_authorization client) client evidence ≡ true

  -- A peer that pulls a session which the server has just opened on the other end of its route gets,
  -- after one round for each page, all of its states and the evidence that its store asks for before it reads the
  -- ledger, where the lease lasts at the head of each round, each token is read as it was
  -- sent, the evidence and the states are what the protocol allows, of at most 64 KiB for a state, the states ascend
  -- and are within the limits, and the peer can receive the states one after another: each can
  -- be verified and its store accepts each that is deleted.
  pub pull-IsVouched :
      (pass : Pass) (verified : Verified) (client : SyncRoute) (peer_id id nonce challenge : Text)
      (expires_at : ℕ) (tokens : ℕ → Text) (cut : Inventory) (rounds : ℕ) (before after : Store)
      → is_outbound verified.route.direction ≡ true
      → IsMatched verified.route client peer_id
      → IsInTime pass cut.states
      → CanBeSent (create_evidence verified.route peer_id nonce cut) tokens cut.states
      → IsAscending cut.states
      → length cut.states ≤ max_records
      → receive_states pass client cut.states before ≡ (ok tt, after)
      → 2 + total_size cut.states ≤ max_ledger_bytes
      → 0 < rounds
      → length cut.states ≤ rounds * manifest_page
      → (s : Session) × (q : Pulling) × (exchange rounds pass client nonce tokens
            (filled verified peer_id cut (new_session verified id nonce challenge expires_at))
            start_pulling
            before
          ≡ (ok (s, q), after))
        × IsVouched client nonce cut.states q
  unfolding filled new_session
  pull-IsVouched pass verified client peer_id id nonce challenge expires_at tokens cut rounds before
        after way matched in_time sent ascending few received room positive enough =
      let evidence = create_evidence verified.route peer_id nonce cut in
      let session =
        filled verified peer_id cut (new_session verified id nonce challenge expires_at) in
      let (s, q, goes, pulled) =
        exchange-IsWhole pass client nonce tokens evidence session rounds before after
          (record { way = way; unread = refl; known = refl; first = refl; unasked = refl }) in_time
          sent
          (create_evidence-is_challenge_answered verified.route client peer_id nonce cut matched)
          ascending few received room positive enough in
      (
        s,
        q,
        goes,
        record {
          got = pulled.got;
          evidence = evidence;
          known = pulled.known;
          fits =
              rw pulled.got
                (create_evidence-is_evidence_for verified.route peer_id nonce cut ascending);
          is_bound = create_evidence-is_bound verified.route client peer_id nonce cut matched;
        },
      )
