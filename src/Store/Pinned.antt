-- ===== src/Store/Pinned.antt =====
-- The keys of origins, which are pinned when a route is configured.
use html_inbox.Common.{
  ◌≡◌, refl, subst, Bool, true, false, List, [], ◌∷◌, ◌++◌, Option, none, some, Text, find, All,
  text_eq, text_eq_iff, text_eq_refl, ok, >>=-eq-ok, arith,
}
use html_inbox.Model.{OriginGrant}
use html_inbox.Store.Routes.{pin_origins, pin_known}

-- `ledger.originKeys.find(key => key.inboxId === inboxId)`
abbrev pub pinned_grant : Text → List OriginGrant → Option OriginGrant
pinned_grant inbox_id pinned = find (λ key. text_eq key.inbox_id inbox_id) pinned

find-append :
    (p : OriginGrant → Bool) (xs ys : List OriginGrant) (g : OriginGrant)
    → find p xs ≡ some g
    → find p (xs ++ ys) ≡ some g
find-append p [] ys g h = cc
find-append p (x ∷ xs) ys g h = ground (arith, find-append p xs ys g)

find_fresh :
    (p : OriginGrant → Bool) (xs : List OriginGrant) (g : OriginGrant)
    → find p xs ≡ none
    → p g ≡ true
    → find p (xs ++ g ∷ []) ≡ some g
find_fresh p [] g h k = ground arith
find_fresh p (x ∷ xs) g h k = ground (arith, find_fresh p xs g)

-- The key under which an origin is pinned is that of the grant.
abbrev pub IsPinned : List OriginGrant → OriginGrant → Type 0
IsPinned pinned grant =
    (key : OriginGrant) × (pinned_grant grant.inbox_id pinned ≡ some key)
    × (key.history_epoch ≡ grant.history_epoch)
    × (key.public_key ≡ grant.public_key)

-- Pins that are there stay.
abbrev Keeps : List OriginGrant → List OriginGrant → Type 0
Keeps before after =
    (inbox_id : Text) (key : OriginGrant)
    → pinned_grant inbox_id before ≡ some key
    → pinned_grant inbox_id after ≡ some key

pin_known-Keeps :
    (pinned : List OriginGrant) (grant : OriginGrant) (known : Option OriginGrant)
    (result : List OriginGrant)
    → pinned_grant grant.inbox_id pinned ≡ known
    → pin_known pinned grant known ≡ ok result
    → Keeps pinned result × IsPinned result grant
unfolding pin_known
pin_known-Keeps pinned grant none result f h =
    let fresh = record grant { complete_history = false; redistribute = false } in
    let keeps : Keeps pinned (pinned ++ fresh ∷ []) =
      λ id key e. find-append (λ k. text_eq k.inbox_id id) pinned (fresh ∷ []) key e in
    let found =
      find_fresh (λ k. text_eq k.inbox_id grant.inbox_id) pinned fresh f
        (text_eq_refl grant.inbox_id) in
    let grown : pinned ++ fresh ∷ [] ≡ result = ground arith in
    subst (λ r. Keeps pinned r × IsPinned r grant) grown (keeps, (fresh, found, refl, refl))
pin_known-Keeps pinned grant (some known) result f h =
    let same : pinned ≡ result = ground arith in
    subst (λ r. Keeps pinned r × IsPinned r grant) same
      (
        (λ id key e. e),
        (
          known,
          f,
          ground (arith, text_eq_iff known.history_epoch grant.history_epoch),
          ground (arith, text_eq_iff known.public_key grant.public_key),
        ),
      )

IsPinned-Keeps :
    (before after : List OriginGrant) (grant : OriginGrant)
    → Keeps before after
    → IsPinned before grant
    → IsPinned after grant
IsPinned-Keeps before after grant keeps (key, found, epoch, same) =
    (key, keeps grant.inbox_id key found, epoch, same)

-- Configuring a route never changes a pinned key: a pin that was there stays, and every origin that
-- the route allows ends pinned under the epoch and the key that the route names.
pub pin_origins-IsPinned :
    (pinned grants result : List OriginGrant)
    → pin_origins pinned grants ≡ ok result
    → ((inbox_id : Text) (key : OriginGrant)
        → pinned_grant inbox_id pinned ≡ some key
        → pinned_grant inbox_id result ≡ some key)
      × All (IsPinned result) grants
unfolding pin_origins
pin_origins-IsPinned pinned [] result h =
    let same : pinned ≡ result = ground arith in
    ((λ id key e. subst (λ r. pinned_grant id r ≡ some key) same e), tt)
pin_origins-IsPinned pinned (grant ∷ grants) result h =
    let (next, one, rest) =
      >>=-eq-ok (pin_known pinned grant (pinned_grant grant.inbox_id pinned)) _ h in
    let (keeps, here) =
      pin_known-Keeps pinned grant (pinned_grant grant.inbox_id pinned) next refl one in
    let (later, others) = pin_origins-IsPinned next grants result rest in
    (
      (λ id key e. later id key (keeps id key e)),
      (IsPinned-Keeps next result grant later here, others),
    )
