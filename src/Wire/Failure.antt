-- ===== src/Wire/Failure.antt =====
-- packages/cli/src/sync-failure.ts: what a failure of the peer means for the route.
use html_inbox.Common.{
  ℕ, Bool, false, ◌&&◌, List, [], ◌∷◌, Option, none, some, Text, js, text_eq, any, ◌==◌,
  if◌then◌else◌, Dict, lookup, Result, ok, err, ◌>>=◌, ◌>>◌, Fault, protocol_error,
  history_unavailable, unrecognized_failure,
}
use html_inbox.Json.{Json, str, get}
use html_inbox.Policy.Retry.{history_unavailable_code}
use html_inbox.Model.Fields.{parse_object, assert_exact_keys}

-- The codes that are bound to one status.
abbrev pub codes_of : ℕ → List Text → Dict ℕ → Dict ℕ
codes_of status [] more = more
codes_of status (code ∷ codes) more = (code, status) ∷ codes_of status codes more

-- `remoteFailures`
unfoldable pub remote_failures : Dict ℕ
remote_failures =
    (history_unavailable_code, 409)
    ∷ (js "unauthorized", 403)
    ∷ (js "session-expired", 410)
    ∷ (js "transfer-expired", 410)
    ∷ codes_of 503
        (js "session-capacity"
          ∷ js "request-capacity"
          ∷ js "transfer-capacity"
          ∷ js "storage-unavailable"
          ∷ js "body-unavailable"
          ∷ [])
        (codes_of 413
          (js "session-quota"
            ∷ js "transfer-quota"
            ∷ js "inventory-limit"
            ∷ js "resource-limit"
            ∷ js "envelope-limit"
            ∷ [])
          (codes_of 409
            (js "state-or-envelope-conflict"
              ∷ js "invalid-envelope"
              ∷ js "invalid-bytes"
              ∷ js "content-length-required"
              ∷ js "truncated-envelope"
              ∷ js "compression-or-transfer-encoding-rejected"
              ∷ js "invalid-cursor"
              ∷ js "challenge-conflict"
              ∷ js "invalid-history-transition"
              ∷ js "body-length-conflict"
              ∷ js "incomplete-history"
              ∷ js "unordered-history"
              ∷ [])
            []))

unfoldable pub is_bound_to : Option ℕ → ℕ → Bool
is_bound_to none status = false
is_bound_to (some bound) status = bound == status

unfoldable pub recognize : Json → ℕ → Result Fault
unfolding remote_failures is_bound_to
recognize (str code) status =
    if is_bound_to (lookup code remote_failures) status
    then ok (protocol_error status code)
    else err unrecognized_failure
recognize _ status = err unrecognized_failure

-- `parseRemoteFailure`
unfoldable pub parse_remote_failure : Json → ℕ → Result Fault
unfolding recognize
parse_remote_failure value status = do
  fields ← parse_object value
  assert_exact_keys fields (js "error" ∷ [])
  recognize (get (js "error") fields) status

pub data FailureKind : Type 0 where
  history retry blocked : FailureKind

unfoldable pub is_permanent_status : ℕ → Bool
is_permanent_status status = any (λ s. s == status) (400 ∷ 401 ∷ 403 ∷ 404 ∷ 409 ∷ 413 ∷ 426 ∷ [])

unfoldable pub is_history_failure : ℕ → Text → Bool
is_history_failure status code = (status == 409) && text_eq code history_unavailable_code

-- `classifySyncFailure`; the message of `IncompleteSyncHistoryError` is a fault of its own.
unfoldable pub classify_sync_failure : Fault → FailureKind × Text
unfolding is_permanent_status is_history_failure
classify_sync_failure history_unavailable = (history, history_unavailable_code)
classify_sync_failure (protocol_error status code) =
    if is_history_failure status code
    then (history, history_unavailable_code)
    else if is_permanent_status status
    then (blocked, code)
    else (retry, code)
classify_sync_failure _ = (blocked, js "local-validation-or-storage-failed")

-- `isBlockedRouteFailure`
unfoldable pub is_blocked_route_failure : Option Text → Bool
is_blocked_route_failure none = false
is_blocked_route_failure (some code) = any (text_eq code) (
    js "tls-verification-failed"
    ∷ js "unauthorized"
    ∷ js "peer-identity-conflict"
    ∷ js "origin-scope-conflict"
    ∷ js "local-validation-or-storage-failed"
    ∷ [])
