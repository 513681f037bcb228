-- ===== src/Wire/Parse.antt =====
-- packages/cli/src/sync-wire.ts: the parsers of the other messages.
use html_inbox.Common.{
  ℕ, not, List, [], ◌∷◌, Text, js, map, if◌then◌else◌, Result, ok, ◌>>=◌, ◌>>◌, reject,
  duplicate_identities, receipt_status_conflict,
}
use html_inbox.Json.{Json, get}
use html_inbox.Json.Keys.{canonical_key}
use html_inbox.Model.{OriginState, Platform, manifest_page}
use html_inbox.Model.Fields.{
  parse_object, assert_exact_keys, parse_uuid, parse_safe_id, parse_integer, parse_integer_from,
  parse_boolean, parse_choice, parse_nullable, parse_array, is_text,
}
use html_inbox.Model.Parse.{parse_origin_state}
use html_inbox.Model.Routes.{parse_complete_inventory, all_distinct}
use html_inbox.Ledger.{Custody, committed, removed, suppressed, superseded, same_custody}
use html_inbox.Ledger.Parse.{parse_receipt}
use html_inbox.Store.Reconcile.{Holding}
use html_inbox.Wire.{
  ManifestPage, OfferResponse, ManifestRequest, needs_body, settled, pull, push, ready, complete,
}
use html_inbox.Wire.Tokens.{parse_token, parse_readiness}

-- `Math.ceil(SYNC_LIMITS.records / SYNC_LIMITS.manifestPage)`
abbrev pub last_page : ℕ
last_page = 79

parse_identity : Json → Result (Text × Text)
parse_identity value = do
  identity ← parse_object value
  assert_exact_keys identity (js "originInboxId" ∷ js "originDocumentId" ∷ [])
  origin_inbox_id ← parse_uuid (get (js "originInboxId") identity)
  origin_document_id ← parse_safe_id (get (js "originDocumentId") identity)
  ok (origin_inbox_id, origin_document_id)

unfoldable pub parse_identities : Json → Result (List (Text × Text))
unfolding parse_identity
parse_identities value = do
  fields ← parse_object value
  assert_exact_keys fields (js "identities" ∷ [])
  identities ← parse_array parse_identity manifest_page (get (js "identities") fields)
  reject (not (all_distinct (map (λ i. canonical_key i.0 i.1) identities))) duplicate_identities
  ok identities

abbrev settled_choices : List (Text × Custody)
settled_choices =
    (js "committed", committed)
    ∷ (js "deleted", removed)
    ∷ (js "suppressed", suppressed)
    ∷ (js "superseded", superseded)
    ∷ []

parse_needs_body : Json → Result OfferResponse
unfolding parse_token
parse_needs_body value = do
  fields ← parse_object value
  assert_exact_keys fields (js "status" ∷ js "transferId" ∷ js "expiresAt" ∷ [])
  transfer_id ← parse_token (get (js "transferId") fields)
  expires_at ← parse_integer_from 0 (get (js "expiresAt") fields)
  ok (needs_body transfer_id expires_at)

module _ ⦃p : Platform⦄ where
  unfoldable pub parse_manifest_page : Json → Result ManifestPage
  unfolding parse_token
  parse_manifest_page value = do
    fields ← parse_object value
    assert_exact_keys fields
        (js "evidence" ∷ js "pageNumber" ∷ js "descriptors" ∷ js "nextCursor" ∷ [])
    evidence ← parse_complete_inventory (get (js "evidence") fields)
    page_number ← parse_integer 0 last_page (get (js "pageNumber") fields)
    descriptors ← parse_array parse_origin_state manifest_page (get (js "descriptors") fields)
    next_cursor ← parse_nullable parse_token (get (js "nextCursor") fields)
    ok (record {
      evidence = evidence;
      page_number = page_number;
      descriptors = descriptors;
      next_cursor = next_cursor;
    })

  -- The branch of `parseManifestRequest` for what is none of the three other operations.
  parse_ready_request : Text → Json → Result ManifestRequest
  unfolding parse_readiness
  parse_ready_request session_id value = do
    fields ← parse_object value
    assert_exact_keys fields (js "op" ∷ js "sessionId" ∷ js "ready" ∷ [])
    _ ← parse_choice ((js "ready", js "ready") ∷ []) (get (js "op") fields)
    readiness ← parse_readiness (get (js "ready") fields)
    ok (ready session_id readiness)

  unfoldable pub parse_manifest_request : Json → Result ManifestRequest
  unfolding parse_token parse_manifest_page parse_ready_request
  parse_manifest_request value = do
    fields ← parse_object value
    session_id ← parse_token (get (js "sessionId") fields)
    if is_text (js "complete") (get (js "op") fields)
        then (do assert_exact_keys fields (js "op" ∷ js "sessionId" ∷ []); ok (complete session_id))
        else if is_text (js "pull") (get (js "op") fields)
        then (do
          assert_exact_keys fields (js "op" ∷ js "sessionId" ∷ js "cursor" ∷ [])
          cursor ← parse_nullable parse_token (get (js "cursor") fields)
          ok (pull session_id cursor))
        else if is_text (js "push") (get (js "op") fields)
        then (do
          assert_exact_keys fields (js "op" ∷ js "sessionId" ∷ js "page" ∷ [])
          page ← parse_manifest_page (get (js "page") fields)
          ok (push session_id page))
        else parse_ready_request session_id value

  parse_holding : Json → Result Holding
  parse_holding value = do
    holding ← parse_object value
    assert_exact_keys holding (js "state" ∷ js "available" ∷ js "suppressed" ∷ js "receipts" ∷ [])
    state ← parse_nullable parse_origin_state (get (js "state") holding)
    available ← parse_boolean (get (js "available") holding)
    is_suppressed ← parse_boolean (get (js "suppressed") holding)
    receipts ← parse_array parse_receipt 1 (get (js "receipts") holding)
    ok (record {
      state = state;
      available = available;
      suppressed = is_suppressed;
      receipts = receipts;
    })

  unfoldable pub parse_holdings_response : Json → Result (Text × List Holding)
  unfolding parse_holding
  parse_holdings_response value = do
    fields ← parse_object value
    assert_exact_keys fields (js "storageIncarnation" ∷ js "holdings" ∷ [])
    storage_incarnation ← parse_uuid (get (js "storageIncarnation") fields)
    holdings ← parse_array parse_holding manifest_page (get (js "holdings") fields)
    ok (storage_incarnation, holdings)

  unfoldable pub parse_offer : Json → Result OriginState
  parse_offer value = do
    fields ← parse_object value
    assert_exact_keys fields (js "descriptor" ∷ [])
    parse_origin_state (get (js "descriptor") fields)

  parse_settled : Json → Result OfferResponse
  parse_settled value = do
    fields ← parse_object value
    assert_exact_keys fields (js "status" ∷ js "receipt" ∷ [])
    receipt ← parse_receipt (get (js "receipt") fields)
    status ← parse_choice settled_choices (get (js "status") fields)
    reject (not (same_custody receipt.disposition status)) receipt_status_conflict
    ok (settled status receipt)

  unfoldable pub parse_offer_response : Json → Result OfferResponse
  unfolding parse_needs_body parse_settled
  parse_offer_response value = do
    fields ← parse_object value
    if is_text (js "needs-body") (get (js "status") fields)
        then parse_needs_body value
        else parse_settled value
