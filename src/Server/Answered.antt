-- ===== src/Server/Answered.antt =====
-- packages/cli/src/sync-http-server.ts and sync-failure.ts: what the server answers a failure with, the
-- client knows, and what it takes the failure for.
use html_inbox.Common.{
  ◌≡◌, refl, arith, Bool, some, Text, js, text_eq, lookup, ok, protocol_error, Bool-cases, inl, inr,
}
use html_inbox.Json.{str}
use html_inbox.Policy.Retry.{history_unavailable_code}
use html_inbox.Wire.Failure.{is_bound_to, recognize, remote_failures}
use html_inbox.Server.Failures.{
  Failure, Thrown, protocol, incomplete_history, error, authorized_failure, denies, failure,
  is_capacity, is_unsafe, limits, message_failure, protocol_failure,
}

-- The table binds the code of the failure to its status.
unfoldable pub IsListed : Failure → Type 0
IsListed f = lookup f.code remote_failures ≡ some f.status

-- Every protocol error that is thrown is in the table.
abbrev pub IsKnown : Thrown → Type 0
IsKnown (protocol status code) = IsListed (failure status code)
IsKnown incomplete_history = Unit
IsKnown (error message) = Unit

unauthorized-IsListed : IsListed (failure 403 (js "unauthorized"))
unfolding IsListed lookup remote_failures text_eq
unauthorized-IsListed = refl

capacity-IsListed : IsListed (failure 503 (js "request-capacity"))
unfolding IsListed lookup remote_failures text_eq
capacity-IsListed = refl

limit-IsListed : IsListed (failure 413 (js "resource-limit"))
unfolding IsListed lookup remote_failures text_eq
limit-IsListed = refl

storage-IsListed : IsListed (failure 503 (js "storage-unavailable"))
unfolding IsListed lookup remote_failures text_eq
storage-IsListed = refl

conflict-IsListed : IsListed (failure 409 (js "state-or-envelope-conflict"))
unfolding IsListed lookup remote_failures text_eq
conflict-IsListed = refl

history-IsListed : IsListed (failure 409 history_unavailable_code)
unfolding IsListed lookup remote_failures text_eq
history-IsListed = refl

message_failure-IsListed : (message : Text) → IsListed (message_failure message)
unfolding message_failure
message_failure-IsListed message = elim (Bool-cases (denies message)) [
  | inl e ↦ rw e unauthorized-IsListed
  | inr e ↦ elim (Bool-cases (limits message)) [
    | inl f ↦ rw (e, f) limit-IsListed
    | inr f ↦ elim (Bool-cases (is_unsafe message)) [
      | inl g ↦ rw (e, f, g) storage-IsListed
      | inr g ↦ rw (e, f, g) conflict-IsListed
    ]
  ]
]

authorized_failure-IsListed :
    (thrown : Thrown) → IsKnown thrown → IsListed (authorized_failure thrown)
unfolding authorized_failure
authorized_failure-IsListed (protocol status code) known = known
authorized_failure-IsListed incomplete_history known = history-IsListed
authorized_failure-IsListed (error message) known = message_failure-IsListed message

protocol_failure-IsListed :
    (thrown : Thrown) (authorized : Bool)
    → IsKnown thrown
    → IsListed (protocol_failure thrown authorized)
unfolding protocol_failure
protocol_failure-IsListed thrown authorized known = elim (Bool-cases (is_capacity thrown)) [
  | inl e ↦ rw e capacity-IsListed
  | inr e ↦ elim (Bool-cases authorized) [
    | inl a ↦ rw (e, a) (authorized_failure-IsListed thrown known)
    | inr a ↦ rw (e, a) unauthorized-IsListed
  ]
]

-- Whatever a handler throws, the client knows what the server answers with.
pub recognize-protocol_failure :
    (thrown : Thrown) (authorized : Bool)
    → IsKnown thrown
    → recognize
        (str (protocol_failure thrown authorized).code)
        (protocol_failure thrown authorized).status
      ≡ ok (
          protocol_error
            (protocol_failure thrown authorized).status
            (protocol_failure thrown authorized).code)
unfolding recognize is_bound_to IsListed
recognize-protocol_failure thrown authorized known =
    rw (protocol_failure-IsListed thrown authorized known) (ground arith)
