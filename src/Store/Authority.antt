-- ===== src/Store/Authority.antt =====
-- What an authorization of a route rests on, and what a fence takes from it.
use html_inbox.Common.{
  find, find_sound, find_split, ◌++◌, ◌≡◌, ◌≢◌, ◌↔◌, ◌⊎◌, inl, inr, refl, sym, subst, ◌∙◌,
  Result-cases, true, false, List, [], ◌∷◌, Option, none, some, Text, Dict, lookup, values, All,
  text_eq, text_eq_iff, lookup-put, ok, arith, Bool-cases, Option-cases, origin_out_of_scope,
}
use html_inbox.Model.{
  SyncRoute, RouteAuthorization, Platform, OriginState, OriginGrant, RouteState, Direction,
}
use html_inbox.Ledger.{SyncLedger, is_complete}
use html_inbox.Policy.Fence.{fence_ledger_route, fenced_route, fence_each, fence_all_routes}
use html_inbox.Store.{Store}
use html_inbox.Policy.Grants.{
  grant_fits, is_pinned_by, pinned_key, pinned_origin_grant, pinned_state_grant, route_origin_grant,
}
use html_inbox.Model.Codec.{state_encoding, verify_origin_state}
use html_inbox.Store.Monad.{>>=-eq-ok, demand, lift, pure, ◌>>=◌, ◌>>◌}
use html_inbox.Store.Access.{
  authorize_route, authorize, select_route, refuse, is_current_route, is_bound,
}

-- The ledger's own route is the one that was authorized: live, in the same revision, between the same
-- parties, and in a store that communicates.
pub record IsAuthorized (ledger : SyncLedger) (auth : RouteAuthorization)
    (direction : Option Direction) (route : SyncRoute) : Type 0 where
  pub known : lookup auth.route_id ledger.routes ≡ some route
  pub revision : route.revision ≡ auth.revision
  pub not_blocked : route.state ≢ RouteState.blocked
  pub not_detached : route.state ≢ RouteState.detached
  pub peer : route.peer_id ≡ auth.peer_id
  pub source : route.source_inbox_id ≡ auth.source_inbox_id
  pub destination : route.destination_inbox_id ≡ auth.destination_inbox_id
  pub towards : (d : Direction) → direction ≡ some d → route.direction ≡ d
  pub trusted : ledger.worker.owner_quarantined ≡ false
  pub enrolled : is_complete ledger.migration.phase ≡ true

pub authorize_route_sound :
    (ledger : SyncLedger) (auth : RouteAuthorization) (direction : Option Direction)
    (route : SyncRoute) (before after : Store)
    → authorize_route ledger auth direction before ≡ (ok route, after)
    → IsAuthorized ledger auth direction route × (after ≡ before)
unfolding authorize_route select_route refuse is_current_route is_bound
authorize_route_sound ledger auth direction route before after h = (
  record {
    known = ground (arith);
    revision = ground (arith);
    not_blocked = λ e. ground (arith);
    not_detached = λ e. ground (arith);
    peer = ground (arith, text_eq_iff route.peer_id auth.peer_id);
    source = ground (arith, text_eq_iff route.source_inbox_id auth.source_inbox_id);
    destination = ground (arith, text_eq_iff route.destination_inbox_id auth.destination_inbox_id);
    towards = λ d e. ground arith;
    trusted = ground arith;
    enrolled = ground arith;
  },
  ground arith,
)

authorize_route_complete :
    (ledger : SyncLedger) (auth : RouteAuthorization) (direction : Option Direction)
    (route : SyncRoute) (store : Store)
    → IsAuthorized ledger auth direction route
    → authorize_route ledger auth direction store ≡ (ok route, store)
unfolding authorize_route select_route refuse is_current_route is_bound
authorize_route_complete ledger auth none route store h =
    let known = h.known in
    let revision = h.revision in
    let a = h.not_blocked in
    let b = h.not_detached in
    let c = h.peer in
    let d = h.source in
    let e = h.destination in
    let f = h.trusted in
    let g = h.enrolled in
    ground (
      arith,
      text_eq_iff route.peer_id auth.peer_id,
      text_eq_iff route.source_inbox_id auth.source_inbox_id,
      text_eq_iff route.destination_inbox_id auth.destination_inbox_id,
    )
authorize_route_complete ledger auth (some direction) route store h =
    let known = h.known in
    let revision = h.revision in
    let a = h.not_blocked in
    let b = h.not_detached in
    let c = h.peer in
    let d = h.source in
    let e = h.destination in
    let f = h.trusted in
    let g = h.enrolled in
    let i = h.towards direction refl in
    ground (
      arith,
      text_eq_iff route.peer_id auth.peer_id,
      text_eq_iff route.source_inbox_id auth.source_inbox_id,
      text_eq_iff route.destination_inbox_id auth.destination_inbox_id,
    )

-- An authorization is accepted exactly when the migration is complete, the owner's history is not in
-- quarantine, and the ledger holds the route, neither blocked nor detached, in the revision and between the
-- parties that are authorized and in the direction that is asked for, if one is; accepting it changes
-- nothing.
pub authorize_route_iff :
    (ledger : SyncLedger) (auth : RouteAuthorization) (direction : Option Direction)
    (route : SyncRoute) (store : Store)
    → (authorize_route ledger auth direction store ≡ (ok route, store))
      ↔ IsAuthorized ledger auth direction route
authorize_route_iff ledger auth direction route store = (
  (λ h. (authorize_route_sound ledger auth direction route store store h).0),
  authorize_route_complete ledger auth direction route store,
)

-- Every route is kept under its own identity, as `assertBindings` has it.
abbrev pub IsKeyed : Dict SyncRoute → Type 0
IsKeyed [] = Unit
IsKeyed ((k, route) ∷ d) = (route.id ≡ k) × IsKeyed d

keyed_value :
    (k : Text) (d : Dict SyncRoute) (route : SyncRoute)
    → IsKeyed d
    → lookup k d ≡ some route
    → ¬ All (λ q. q.id ≢ k) (values d)
unfolding lookup
keyed_value k [] route h e = cc
keyed_value k ((j, q) ∷ d) route (i, h) e =
    let rest = keyed_value k d route h in λ (x, y). ground (arith, text_eq_iff j k)

-- A route of a ledger whose listed routes were fenced is fenced, or it was not listed.
fence_each-lookup :
    (ledger : SyncLedger) (routes : List SyncRoute) (state : RouteState) (error : Option Text)
    (k : Text) (route : SyncRoute)
    → lookup k (fence_each ledger routes state error).routes ≡ some route
    → (route.state ≡ state) ⊎ ((lookup k ledger.routes ≡ some route) × All (λ q. q.id ≢ k) routes)
unfolding fence_each fence_ledger_route fenced_route
fence_each-lookup ledger [] state error k route h = inr (h, tt)
fence_each-lookup ledger (q ∷ routes) state error k route h =
    elim (fence_each-lookup (fence_ledger_route ledger q state error) routes state error k route
      h) [
        | inl done ↦ inl done
        | inr (found, others) ↦ elim (Bool-cases (text_eq q.id k)) [
          | inl same ↦
              inl (ground (arith, lookup-put q.id k (fenced_route q state error) ledger.routes))
          | inr differs ↦ inr (
            ground (arith, lookup-put q.id k (fenced_route q state error) ledger.routes),
            ((λ e. ground (arith, text_eq_iff q.id k)), others),
          )
        ]
      ]

fence_all_routes-state :
    (ledger : SyncLedger) (state : RouteState) (error : Option Text) (k : Text) (route : SyncRoute)
    → IsKeyed ledger.routes
    → lookup k (fence_all_routes ledger state error).routes ≡ some route
    → route.state ≡ state
unfolding fence_all_routes
fence_all_routes-state ledger state error k route keyed h =
    elim (fence_each-lookup ledger (values ledger.routes) state error k route h) [
      | inl done ↦ done
      | inr (found, others) ↦ absurd (keyed_value k ledger.routes route keyed found others)
    ]

-- When every route has been blocked, as it is when the owner's history is in doubt, no authorization is
-- accepted any more, whichever it is.
pub authorize_route-fence_all_routes :
    (ledger : SyncLedger) (error : Option Text) (auth : RouteAuthorization)
    (direction : Option Direction) (route : SyncRoute) (before after : Store)
    → IsKeyed ledger.routes
    → authorize_route (fence_all_routes ledger RouteState.blocked error) auth direction before
      ≢ (ok route, after)
authorize_route-fence_all_routes ledger error auth direction route before after keyed h =
    let fenced = fence_all_routes ledger RouteState.blocked error in
    let (granted, _) = authorize_route_sound fenced auth direction route before after h in
    granted.not_blocked (
      fence_all_routes-state ledger RouteState.blocked error auth.route_id route keyed
        granted.known)

module _ ⦃p : Platform⦄ where
  -- The route grants the state's origin in the state's history, as an origin of its own or one that may be passed on, with a
  -- key that this inbox has pinned for that origin and history, and the state is signed with it.
  pub record IsTrusted (ledger : SyncLedger) (route : SyncRoute) (state : OriginState)
      : Type 0 where
    pub grant : OriginGrant
    pub front : List OriginGrant
    pub back : List OriginGrant
    pub granted : route.allowed_origins ≡ front ++ grant ∷ back
    pub same_origin : grant.inbox_id ≡ state.origin_inbox_id
    pub same_history : grant.history_epoch ≡ state.history_epoch
    pub may_pass : (state.origin_inbox_id ≡ route.source_inbox_id) ⊎ (grant.redistribute ≡ true)
    pub pin : OriginGrant
    pub pinned :
        find (λ key. text_eq key.inbox_id state.origin_inbox_id) ledger.origin_keys ≡ some pin
    pub pinned_history : pin.history_epoch ≡ grant.history_epoch
    pub pinned_key : pin.public_key ≡ grant.public_key
    pub signed : p.verifies grant.public_key (state_encoding state.unsigned) state.signature ≡ true

  pinned_state_grant-parts :
      (ledger : SyncLedger) (route : SyncRoute) (state : OriginState) (grant : OriginGrant)
      → pinned_state_grant ledger route state ≡ some grant
      → (route_origin_grant route state.origin_inbox_id (some state.history_epoch) ≡ some grant)
        × (is_pinned_by (pinned_key ledger state.origin_inbox_id) grant ≡ true)
  unfolding pinned_state_grant pinned_origin_grant
  pinned_state_grant-parts ledger route state grant h =
      elim (Option-cases
        (route_origin_grant route state.origin_inbox_id (some state.history_epoch))) [
          | inl unknown ↦ absurd (ground arith)
          | inr (found, granted) ↦
              let same : found ≡ grant = ground arith in (ground arith, ground arith)
        ]

  is_pinned_by-parts :
      (pinned : Option OriginGrant) (grant : OriginGrant)
      → is_pinned_by pinned grant ≡ true
      → (pin : OriginGrant) × (pinned ≡ some pin)
        × (pin.history_epoch ≡ grant.history_epoch)
        × (pin.public_key ≡ grant.public_key)
  unfolding is_pinned_by
  is_pinned_by-parts none grant h = cc
  is_pinned_by-parts (some pin) grant h = (
    pin,
    refl,
    ground (arith, text_eq_iff pin.history_epoch grant.history_epoch),
    ground (arith, text_eq_iff pin.public_key grant.public_key),
  )

  may_pass_from :
      (route : SyncRoute) (origin epoch : Text) (grant : OriginGrant)
      → grant_fits route origin (some epoch) grant ≡ true
      → (grant.inbox_id ≡ origin)
        × (grant.history_epoch ≡ epoch)
        × ((origin ≡ route.source_inbox_id) ⊎ (grant.redistribute ≡ true))
  unfolding grant_fits
  may_pass_from route origin epoch grant h = (
    ground (arith, text_eq_iff grant.inbox_id origin),
    ground (arith, text_eq_iff grant.history_epoch epoch),
    elim (Bool-cases grant.redistribute) [
      | inl passes ↦ inr passes
      | inr own ↦ inl (ground (arith, text_eq_iff origin route.source_inbox_id))
    ],
  )

  verified-signed :
      (state : OriginState) (key : Text)
      → verify_origin_state state key ≡ ok tt
      → p.verifies key (state_encoding state.unsigned) state.signature ≡ true
  unfolding verify_origin_state
  verified-signed state key h = ground arith

  pinned-IsTrusted :
      (ledger : SyncLedger) (route : SyncRoute) (state : OriginState) (grant : OriginGrant)
      → pinned_state_grant ledger route state ≡ some grant
      → verify_origin_state state grant.public_key ≡ ok tt
      → IsTrusted ledger route state
  unfolding route_origin_grant pinned_key
  pinned-IsTrusted ledger route state grant pinned verified =
      let (found, by) = pinned_state_grant-parts ledger route state grant pinned in
      let (front, back, granted) = find_split _ route.allowed_origins grant found in
      let (pin, known, history, key) =
        is_pinned_by-parts (pinned_key ledger state.origin_inbox_id) grant by in
      let (origin, epoch, passes) =
        may_pass_from route state.origin_inbox_id state.history_epoch grant
          (find_sound _ route.allowed_origins grant found) in
      record {
        grant = grant;
        front = front;
        back = back;
        granted = granted;
        same_origin = origin;
        same_history = epoch;
        may_pass = passes;
        pin = pin;
        pinned = known;
        pinned_history = history;
        pinned_key = key;
        signed = verified-signed state grant.public_key verified;
      }

  signed-IsTrusted :
      (ledger : SyncLedger) (state : OriginState) (route given : SyncRoute) (before after : Store)
      → (do
        grant ← demand (pinned_state_grant ledger route state) origin_out_of_scope
        lift (verify_origin_state state grant.public_key)
        pure route)
          before
        ≡ (ok given, after)
      → (given ≡ route) × IsTrusted ledger route state × (after ≡ before)
  signed-IsTrusted ledger state route given before after h =
      elim (Option-cases (pinned_state_grant ledger route state)) [
        | inl unknown ↦ absurd (ground arith)
        | inr (grant, pinned) ↦ elim (Result-cases (verify_origin_state state grant.public_key)) [
          | inl (u, verified) ↦ (
            ground arith,
            pinned-IsTrusted ledger route state grant pinned (ground arith),
            ground arith,
          )
          | inr (e, forged) ↦ absurd (ground arith)
        ]
      ]

  -- A state comes in or goes out only under an authorization of the ledger's own route, which grants the state's
  -- origin in the state's history as the route's own source or one that may be passed on, and with a signature
  -- of the granted key, which is the one that this inbox has pinned for that origin and history.
  pub authorize_sound :
      (ledger : SyncLedger) (auth : RouteAuthorization) (state : OriginState)
      (direction : Direction) (route : SyncRoute) (before after : Store)
      → authorize ledger auth state direction before ≡ (ok route, after)
      → IsAuthorized ledger auth (some direction) route
        × IsTrusted ledger route state
        × (after ≡ before)
  unfolding authorize
  authorize_sound ledger auth state direction route before after h =
      let (r, s1, e1, h1) =
        >>=-eq-ok (authorize_route ledger auth (some direction)) _ before after h in
      let (granted, unchanged) =
        authorize_route_sound ledger auth (some direction) r before s1 e1 in
      let (same, trusted, kept) = signed-IsTrusted ledger state r route s1 after h1 in
      (
        subst (λ q. IsAuthorized ledger auth (some direction) q) (sym same) granted,
        subst (λ q. IsTrusted ledger q state) (sym same) trusted,
        kept ∙ unchanged,
      )
