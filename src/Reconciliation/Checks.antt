-- ===== src/Reconciliation/Checks.antt =====
-- packages/cli/src/sync-reconciliation.ts: what is checked of a peer's answers, and what a failure means.
use html_inbox.Common.{
  ℕ, ◌+◌, ◌*◌, ◌^◌, min, max, Bool, true, false, not, ◌||◌, [], ◌∷◌, Option, none, some, Text, js,
  text_eq, leb, ◌==◌, if◌then◌else◌, Result, err, ◌>>=◌, ◌>>◌, reject, Fault, protocol_error,
}
use html_inbox.Json.{Json, get}
use html_inbox.Model.{OriginState, SyncRoute, RouteAuthorization, Platform, is_outbound}
use html_inbox.Model.Fields.{parse_object, assert_exact_keys, parse_choice}
use html_inbox.Model.Codec.{same_immutable_descriptor, verify_origin_state}
use html_inbox.Ledger.{DurableReceipt, OutboxEntry, is_pending}
use html_inbox.Policy.Grants.{route_origin_grant}
use html_inbox.Policy.Retry.{Fraction, jittered}
use html_inbox.Wire.{IdentityResponse}
use html_inbox.Wire.Evidence.{scope_digest}
use html_inbox.Wire.Failure.{FailureKind, history, retry, blocked, classify_sync_failure}

-- `routeAuthorization`
unfoldable pub route_authorization : SyncRoute → RouteAuthorization
route_authorization route = record {
  route_id = route.id;
  revision = route.revision;
  peer_id = route.peer_id;
  source_inbox_id = route.source_inbox_id;
  destination_inbox_id = route.destination_inbox_id;
}

-- The state is not one of the document that was expected.
unfoldable pub is_unexpected : Option OriginState → OriginState → Bool
unfolding same_immutable_descriptor
is_unexpected none state = false
is_unexpected (some expected) state =
    not (text_eq state.origin_inbox_id expected.origin_inbox_id)
    || (not (text_eq state.origin_document_id expected.origin_document_id)
        || not (same_immutable_descriptor state.unsigned expected.unsigned))

-- `checkSession`: the lease by the local clock.
unfoldable pub check_session : ℕ → ℕ → Result (Unit {0})
check_session local_lease_deadline now =
    reject (leb local_lease_deadline now) (protocol_error 410 (js "session-expired"))

-- `parseContinue`, `parseActive` and `parseComplete`
unfoldable pub parse_kind : Text → Json → Result Text
parse_kind kind value = do
  fields ← parse_object value
  assert_exact_keys fields (js "kind" ∷ [])
  parse_choice ((kind, kind) ∷ []) (get (js "kind") fields)

abbrev pub parse_continue : Json → Result Text
parse_continue value = parse_kind (js "continue") value

abbrev pub parse_active : Json → Result Text
parse_active value = parse_kind (js "active") value

abbrev pub parse_complete : Json → Result Text
parse_complete value = parse_kind (js "complete") value

is_blocked_kind : FailureKind → Bool
is_blocked_kind blocked = true
is_blocked_kind history = false
is_blocked_kind retry = false

is_history_kind : FailureKind → Bool
is_history_kind history = true
is_history_kind blocked = false
is_history_kind retry = false

-- `isPermanent`
unfoldable pub is_permanent : Fault → Bool
unfolding is_blocked_kind
is_permanent error = is_blocked_kind (classify_sync_failure error).0

-- `safeError`
unfoldable pub safe_error : Fault → Text
safe_error error = (classify_sync_failure error).1

-- `isHistoryUnavailable`
unfoldable pub is_history_unavailable : Fault → Bool
unfolding is_history_kind
is_history_unavailable error = is_history_kind (classify_sync_failure error).0

-- The options of a pass that the retries use.
pub record Retries : Type 0 where
  pub retry_min_ms : ℕ
  pub retry_max_ms : ℕ
  pub max_attempts : ℕ

-- What `recordFailure` writes into the obligation.
pub record AttemptUpdate : Type 0 where
  pub next_attempt_at : ℕ
  pub last_error : Text
  pub blocked : Bool

-- `Math.min(retryMaxMs, retryMinMs * 2 ** Math.min(attempts, 30))`
unfoldable pub attempt_delay : Retries → ℕ → ℕ
attempt_delay retries attempts =
    min retries.retry_max_ms (retries.retry_min_ms * 2 ^ min attempts 30)

abbrev is_open_entry : Option OutboxEntry → Bool
is_open_entry none = false
is_open_entry (some entry) = is_pending entry.disposition

-- `recordFailure`; `is_over` is that the pass was aborted or its deadline is past. The random number is
-- a fraction, as in `nextRouteRetry`.
unfoldable pub record_failure :
    Retries → Bool → ℕ → Fraction → Option OutboxEntry → ℕ → Fault → Option AttemptUpdate
unfolding jittered attempt_delay
record_failure retries is_over now random current attempts error =
    if is_over || (is_history_unavailable error || not (is_open_entry current))
    then none
    else some (record {
      next_attempt_at = now + max 1 (jittered (attempt_delay retries attempts) random);
      last_error = safe_error error;
      blocked = is_permanent error || leb retries.max_attempts (attempts + 1);
    })

module _ ⦃p : Platform⦄ where
  -- `verifyRemoteState`
  unfoldable pub verify_remote_state :
      SyncRoute → OriginState → Option OriginState → Result (Unit {0})
  unfolding route_origin_grant is_unexpected
  verify_remote_state route state expected =
      elim (route_origin_grant route state.origin_inbox_id (some state.history_epoch)) [
        | none ↦ err (protocol_error 403 (js "origin-scope-conflict"))
        | some grant ↦ do
          reject (is_unexpected expected state) (protocol_error 403 (js "origin-scope-conflict"))
          verify_origin_state state grant.public_key
      ]

  -- `validateReceipt`
  unfoldable pub validate_receipt : SyncRoute → DurableReceipt → Text → Result (Unit {0})
  unfolding verify_remote_state
  validate_receipt route receipt storage_incarnation = do
    verify_remote_state route receipt.origin_state none
    reject
        (not (text_eq receipt.receiver_inbox_id route.destination_inbox_id)
          || (not (text_eq receipt.destination_inbox_id route.destination_inbox_id)
              || (not (text_eq receipt.route_id route.id)
                  || (not (receipt.revision == route.revision)
                      || not (text_eq receipt.storage_incarnation storage_incarnation)))))
        (protocol_error 409 (js "receipt-binding-conflict"))

  -- The check of `identity` on what the peer says of itself.
  unfoldable pub check_identity : SyncRoute → Text → IdentityResponse → Result (Unit {0})
  unfolding scope_digest
  check_identity route nonce response =
      reject
        (not (text_eq response.request_nonce nonce)
          || (not (text_eq response.peer_id route.peer_id)
              || (not (
                    text_eq response.inbox_id (
                      if is_outbound route.direction
                      then route.destination_inbox_id
                      else route.source_inbox_id))
                  || not (text_eq response.scope_digest (scope_digest route.allowed_origins)))))
        (protocol_error 409 (js "peer-identity-conflict"))
