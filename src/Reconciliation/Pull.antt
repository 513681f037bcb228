-- ===== src/Reconciliation/Pull.antt =====
-- packages/cli/src/sync-reconciliation.ts, `pull`: the client's loop over the pages of an inventory.
use html_inbox.Common.{
  ◌+◌, Bool, not, ◌&&◌, List, [], ◌∷◌, ◌++◌, Option, none, some, Text, js, text_eq, ltb, ◌==◌, map,
  if◌then◌else◌, protocol_error,
}
use html_inbox.Json.{Json, null, num, str, arr, obj, fields, items}
use html_inbox.Ledger.Encode.{of_inventory, of_state}
use html_inbox.Store.Monad.{M, pure, lift, ◌>>=◌, ◌>>◌, deny}
use html_inbox.Store.Inbound.{apply}
use html_inbox.Wire.Parse.{parse_manifest_page}
use html_inbox.Model.{
  RouteAuthorization, is_deleted, OriginState, SyncRoute, CompleteInventory, Platform,
  max_ledger_bytes,
}
use html_inbox.Wire.{ManifestPage}
use html_inbox.Wire.Progress.{validate_page_progress}
use html_inbox.Server.Sessions.{states_size}
use html_inbox.Reconciliation.{Pass, Pulling}
use html_inbox.Reconciliation.Checks.{verify_remote_state}

-- Before the first page.
abbrev pub start_pulling : Pulling
start_pulling = record { states = []; evidence = none; cursor = none; bytes = 0; page_number = 0 }

-- The evidence answers the challenge on this route.
unfoldable pub is_challenge_answered : SyncRoute → Text → CompleteInventory → Bool
is_challenge_answered route nonce evidence =
    text_eq evidence.nonce nonce
    && (text_eq evidence.peer_id route.peer_id
        && (text_eq evidence.route_id route.id && (evidence.revision == route.revision)))

unfoldable pub taken_page : ManifestPage → Pulling → Pulling
unfolding states_size
taken_page page pulling = record {
  states = pulling.states ++ page.descriptors;
  evidence = some page.evidence;
  cursor = page.next_cursor;
  bytes = pulling.bytes + states_size page.descriptors;
  page_number = pulling.page_number + 1;
}

-- The authorization as it is given to the store.
unfoldable pub of_authorization : RouteAuthorization → Json
of_authorization auth = obj (
    fields (
      (js "routeId", str auth.route_id)
      ∷ (js "revision", num auth.revision)
      ∷ (js "peerId", str auth.peer_id)
      ∷ (js "sourceInboxId", str auth.source_inbox_id)
      ∷ (js "destinationInboxId", str auth.destination_inbox_id)
      ∷ []))

abbrev pub of_cursor : Option Text → Json
of_cursor none = null
of_cursor (some cursor) = str cursor

-- A page as the server sends it.
unfoldable pub of_page : ManifestPage → Json
of_page page = obj (
    fields (
      (js "evidence", of_inventory page.evidence)
      ∷ (js "pageNumber", num page.page_number)
      ∷ (js "descriptors", arr (items (map of_state page.descriptors)))
      ∷ (js "nextCursor", of_cursor page.next_cursor)
      ∷ []))

module _ ⦃p : Platform⦄ where
  -- The body of `for (const state of page.descriptors)`: a deleted state is given to the store at once.
  unfoldable pub receive_state : Pass → SyncRoute → OriginState → M (Unit {0})
  unfolding of_authorization apply
  receive_state pass route state = do
    lift (verify_remote_state route state none)
    if is_deleted state.state
        then (do
          _ ← apply (of_authorization pass.authorization) (of_state state) (pass.fresh state)
          pure tt)
        else pure tt

  unfoldable pub receive_states : Pass → SyncRoute → List OriginState → M (Unit {0})
  unfolding receive_state
  receive_states pass route [] = pure tt
  receive_states pass route (state ∷ states) = do
    receive_state pass route state
    receive_states pass route states

  -- One round of the loop, from the answer of the peer on.
  unfoldable pub receive_page : Pass → SyncRoute → Text → Json → Pulling → M Pulling
  unfolding validate_page_progress is_challenge_answered receive_states taken_page states_size
  receive_page pass route nonce answer pulling = do
    page ← lift (parse_manifest_page answer)
    lift (validate_page_progress page pulling.states pulling.page_number pulling.evidence)
    deny (not (is_challenge_answered route nonce page.evidence))
        (protocol_error 409 (js "challenge-conflict"))
    deny (ltb max_ledger_bytes (pulling.bytes + states_size page.descriptors))
        (protocol_error 413 (js "inventory-limit"))
    receive_states pass route page.descriptors
    pure (taken_page page pulling)
