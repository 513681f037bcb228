-- ===== src/Store/Offered.antt =====
-- When a complete inventory is offered, and what it holds.
use html_inbox.Common.{
  ◌≡◌, ◌↔◌, ◌⊎◌, refl, sym, subst, ap, ◌∙◌, Result, Fault, ok-injective, arith, Bool, true, false,
  ◌||◌, List, [], ◌∷◌, any, some, text_eq_iff, values, All, ok, Bool-cases, inl, inr,
  inventory_unavailable, history_unavailable,
}
use html_inbox.Model.{
  OriginGrant, Platform, RouteAuthorization, SyncRoute, is_active, is_reconnecting, outbound,
}
use html_inbox.Model.Codec.{sort_by_key}
use html_inbox.Ledger.{SyncLedger}
use html_inbox.Policy.Grants.{has_trusted_origin_history}
use html_inbox.Store.{Store}
use html_inbox.Store.Monad.{>>=-eq-ok, deny, lift}
use html_inbox.Store.Access.{authorize_route}
use html_inbox.Store.Authority.{IsAuthorized, authorize_route_iff, authorize_route_sound}
use html_inbox.Store.Outbound.{
  Inventory, inventory_in, inventory_is_blocked, inventory_states, lacks_history,
}
use html_inbox.Store.Outgoing.{
  IsComplete, inventory_states_complete, inventory_states_sound, states_in_scope,
}

-- The origin is this inbox, or one whose history an active route has established.
abbrev pub IsVouchable : SyncLedger → OriginGrant → Type 0
IsVouchable ledger grant =
    (grant.inbox_id ≡ ledger.inbox_id)
    ⊎ (has_trusted_origin_history ledger grant.inbox_id grant.history_epoch ≡ true)

deny-passed :
    (test : Bool) (e : Fault) (s t : Store) {u : Unit {0}}
    → deny test e s ≡ (ok u, t)
    → (test ≡ false) × (s ≡ t)
deny-passed true e s t h = cc
deny-passed false e s t h = (refl, ap (λ r. r.1) h)

offered_result :
    {A : Type 0} (a b : A) (s t : Store)
    → a ≡ b
    → t ≡ s
    → Path (Result A × Store) (ok a, s) (ok b, t)
offered_result a b s t e f = rw (e, f) refl

module _ (ledger : SyncLedger) where
  known_origins :
      (grants : List OriginGrant)
      → any (lacks_history ledger) grants ≡ false
      → All (IsVouchable ledger) grants
  unfolding lacks_history
  known_origins [] h = tt
  known_origins (g ∷ grants) h = (
    elim (Bool-cases (has_trusted_origin_history ledger g.inbox_id g.history_epoch)) [
      | inl established ↦ inr established
      | inr unknown ↦ inl (ground (arith, text_eq_iff g.inbox_id ledger.inbox_id))
    ],
    known_origins grants (ground arith),
  )

  origins_known :
      (grants : List OriginGrant)
      → All (IsVouchable ledger) grants
      → any (lacks_history ledger) grants ≡ false
  unfolding lacks_history
  origins_known [] h = refl
  origins_known (g ∷ grants) (inl own, h) =
      ground (arith, own, text_eq_iff g.inbox_id ledger.inbox_id, origins_known grants h)
  origins_known (g ∷ grants) (inr established, h) =
      ground (arith, established, origins_known grants h)

module _ ⦃p : Platform⦄ where
  -- The states of all the records in the route's scope and of no other, by their keys.
  abbrev pub whole_inventory : SyncLedger → SyncRoute → Inventory
  whole_inventory ledger route = record {
    generation = ledger.generation;
    states = sort_by_key (states_in_scope route (values ledger.records));
    scope = route.allowed_origins;
  }

  -- The inventory that a route is offered.
  pub record IsOffered (ledger : SyncLedger) (auth : RouteAuthorization) (cut : Inventory)
      (before after : Store) : Type 0 where
    pub route : SyncRoute
    pub authorized : IsAuthorized ledger auth (some outbound) route
    pub ready : (is_active route.state || is_reconnecting route.state) ≡ true
    pub vouchable : All (IsVouchable ledger) route.allowed_origins
    pub complete : IsComplete ledger route (values ledger.records)
    pub made : whole_inventory ledger route ≡ cut
    pub unchanged : after ≡ before

  inventory_in_sound :
      (ledger : SyncLedger) (auth : RouteAuthorization) (cut : Inventory) (before after : Store)
      → inventory_in auth ledger before ≡ (ok cut, after)
      → IsOffered ledger auth cut before after
  unfolding inventory_in inventory_is_blocked
  inventory_in_sound ledger auth cut before after h =
      let (route, s1, e1, h1) =
        >>=-eq-ok (authorize_route ledger auth (some outbound)) _ before after h in
      let (granted, same1) = authorize_route_sound ledger auth (some outbound) route before s1 e1 in
      let (_, s2, e2, h2) =
        >>=-eq-ok (deny (inventory_is_blocked ledger route) inventory_unavailable) _ s1 after h1 in
      let (open_for, same2) = deny-passed (inventory_is_blocked ledger route) _ s1 s2 e2 in
      let (_, s3, e3, h3) =
        >>=-eq-ok (deny (any (lacks_history ledger) route.allowed_origins) history_unavailable) _ s2
          after h2 in
      let (known, same3) =
        deny-passed (any (lacks_history ledger) route.allowed_origins) _ s2 s3 e3 in
      let (states, s4, e4, h4) =
        >>=-eq-ok (lift (inventory_states ledger route (values ledger.records))) _ s3 after h3 in
      let (whole, same) =
        inventory_states_sound ledger route (values ledger.records) states (ap (λ r. r.0) e4) in
      record {
        route = route;
        authorized = granted;
        ready = ground (arith, open_for);
        vouchable = known_origins ledger route.allowed_origins known;
        complete = whole;
        made =
            subst
              (λ xs.
                record {
                  generation = ledger.generation;
                  states = sort_by_key xs;
                  scope = route.allowed_origins;
                }
                ≡ cut)
              same (ok-injective (ap (λ r. r.0) h4));
        unchanged = sym (ap (λ r. r.1) h4) ∙ sym (ap (λ r. r.1) e4) ∙ sym same3 ∙ sym same2 ∙ same1;
      }

  inventory_in_complete :
      (ledger : SyncLedger) (auth : RouteAuthorization) (cut : Inventory) (before after : Store)
      → IsOffered ledger auth cut before after
      → inventory_in auth ledger before ≡ (ok cut, after)
  unfolding inventory_in inventory_is_blocked
  inventory_in_complete ledger auth cut before after offered =
      let route = offered.route in
      let blocked : inventory_is_blocked ledger route ≡ false =
        let a = offered.authorized.trusted in
        let b = offered.authorized.enrolled in let c = offered.ready in ground arith in
      rw
        (
          (authorize_route_iff ledger auth (some outbound) route before).1 offered.authorized,
          blocked,
          origins_known ledger route.allowed_origins offered.vouchable,
          inventory_states_complete ledger route (values ledger.records) offered.complete,
        )
        (offered_result (whole_inventory ledger route) cut before after offered.made
          offered.unchanged)

  -- `inventory` succeeds exactly when the route is authorized, goes out and is active or reconnecting, each of the origins that it
  -- grants is this inbox or one whose history is established, and every record in its scope may be sent
  -- whole; what it makes holds the states of all the records in scope and no other, by their keys,
  -- and the store does not change.
  pub inventory_in_iff :
      (ledger : SyncLedger) (auth : RouteAuthorization) (cut : Inventory) (before after : Store)
      → (inventory_in auth ledger before ≡ (ok cut, after)) ↔ IsOffered ledger auth cut before after
  inventory_in_iff ledger auth cut before after = (
    inventory_in_sound ledger auth cut before after,
    inventory_in_complete ledger auth cut before after,
  )
