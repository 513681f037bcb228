-- ===== src/Server/Failures.antt =====
-- packages/cli/src/sync-http-server.ts, `protocolFailure`: what a request that failed is answered with.
use html_inbox.Common.{
  ℕ, Bool, true, false, not, ◌&&◌, ◌||◌, [], ◌∷◌, Text, js, text_eq, any, ◌==◌, if◌then◌else◌,
}
use html_inbox.Policy.Retry.{history_unavailable_code}

-- What a handler may throw: `SyncProtocolError`, `IncompleteSyncHistoryError`, or any other error by
-- its message, which is empty for what is no error.
pub data Thrown : Type 0 where
  protocol : ℕ → Text → Thrown
  incomplete_history : Thrown
  error : Text → Thrown

-- `message.startsWith(pattern)`
unfoldable pub starts_with : Text → Text → Bool
starts_with [] s = true
starts_with (c ∷ pattern) [] = false
starts_with (c ∷ pattern) (d ∷ s) = (c == d) && starts_with pattern s

-- A regular expression that is a plain text, anywhere in the message.
unfoldable pub mentions : Text → Text → Bool
unfolding starts_with
mentions [] pattern = starts_with pattern []
mentions (c ∷ s) pattern = starts_with pattern (c ∷ s) || mentions s pattern

-- `SyncProtocolError`
pub record Failure : Type 0 where
  pub status : ℕ
  pub code : Text

abbrev pub failure : ℕ → Text → Failure
failure status code = record { status = status; code = code }

-- `/Revoked|route authorization|Origin or redistribution|signature/`
unfoldable pub denies : Text → Bool
unfolding mentions
denies message =
    any (mentions message) (
      js "Revoked" ∷ js "route authorization" ∷ js "Origin or redistribution" ∷ js "signature" ∷ [])

-- `/quota|capacity|exceeds|bounded (array|integer)/`
unfoldable pub limits : Text → Bool
unfolding mentions
limits message =
    any (mentions message)
      (js "quota" ∷ js "capacity" ∷ js "exceeds" ∷ js "bounded array" ∷ js "bounded integer" ∷ [])

-- `/fsync|uncertain|recovery|EIO|ENOSPC|lock deadline/`
unfoldable pub is_unsafe : Text → Bool
unfolding mentions
is_unsafe message =
    any (mentions message) (
      js "fsync"
      ∷ js "uncertain"
      ∷ js "recovery"
      ∷ js "EIO"
      ∷ js "ENOSPC"
      ∷ js "lock deadline"
      ∷ [])

-- The status of an error that says nothing of the protocol, by its message.
unfoldable pub message_failure : Text → Failure
unfolding denies limits is_unsafe
message_failure message =
    if denies message
    then failure 403 (js "unauthorized")
    else if limits message
    then failure 413 (js "resource-limit")
    else if is_unsafe message
    then failure 503 (js "storage-unavailable")
    else failure 409 (js "state-or-envelope-conflict")

unfoldable pub is_capacity : Thrown → Bool
is_capacity (protocol status code) = (status == 503) && text_eq code (js "request-capacity")
is_capacity incomplete_history = false
is_capacity (error message) = false

unfoldable pub authorized_failure : Thrown → Failure
unfolding message_failure
authorized_failure (protocol status code) = failure status code
authorized_failure incomplete_history = failure 409 history_unavailable_code
authorized_failure (error message) = message_failure message

-- `protocolFailure`
unfoldable pub protocol_failure : Thrown → Bool → Failure
unfolding is_capacity authorized_failure
protocol_failure thrown authorized =
    if is_capacity thrown
    then failure 503 (js "request-capacity")
    else if not authorized
    then failure 403 (js "unauthorized")
    else authorized_failure thrown
