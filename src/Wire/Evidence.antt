-- ===== src/Wire/Evidence.antt =====
-- packages/cli/src/sync-wire.ts: what a sender vouches for, and the digest of a route's scope.
use html_inbox.Common.{List, [], ◌∷◌, Text, text_lt, map, length, if◌then◌else◌}
use html_inbox.Json.{Json, str, bool, arr, items, stringify}
use html_inbox.Model.{OriginGrant, SyncRoute, CompleteInventory, Platform}
use html_inbox.Model.Codec.{inventory_digest}
use html_inbox.Store.Outbound.{Inventory}

abbrev pub grant_array : OriginGrant → Json
grant_array grant = arr (
    items (
      str grant.inbox_id
      ∷ str grant.history_epoch
      ∷ str grant.public_key
      ∷ bool grant.complete_history
      ∷ bool grant.redistribute
      ∷ []))

-- The values sorted by what `JSON.stringify` prints of them.
unfoldable pub insert_printed : Json → List Json → List Json
insert_printed v [] = v ∷ []
insert_printed v (w ∷ ws) =
    if text_lt (stringify v) (stringify w) then v ∷ w ∷ ws else w ∷ insert_printed v ws

unfoldable pub sort_printed : List Json → List Json
unfolding insert_printed
sort_printed [] = []
sort_printed (v ∷ vs) = insert_printed v (sort_printed vs)

module _ ⦃p : Platform⦄ where
  -- `scopeDigest`
  unfoldable pub scope_digest : List OriginGrant → Text
  unfolding sort_printed stringify
  scope_digest allowed_origins =
      p.digest (stringify (arr (items (sort_printed (map grant_array allowed_origins)))))

  -- `createEvidence`
  unfoldable pub create_evidence : SyncRoute → Text → Text → Inventory → CompleteInventory
  unfolding inventory_digest
  create_evidence route peer_id nonce cut = record {
    peer_id = peer_id;
    route_id = route.id;
    revision = route.revision;
    scope =
        map (λ grant. record { inbox_id = grant.inbox_id; history_epoch = grant.history_epoch })
          route.allowed_origins;
    generation = cut.generation;
    count = length cut.states;
    descriptor_digest = inventory_digest cut.states;
    nonce = nonce;
  }
