-- ===== src/Wire/Classified.antt =====
-- packages/cli/src/sync-failure.ts: what a failure that a peer reports is taken for.
use html_inbox.Common.{
  ℕ, ◌≡◌, refl, sym, ap, arith, Bool, true, false, not, ◌||◌, [], ◌∷◌, some, Text, text_eq,
  text_eq_iff, all, ◌==◌, if◌then◌else◌, Dict, lookup, values, ok, protocol_error, Bool-cases,
  Option-cases, inl, inr, Fault,
}
use html_inbox.Json.{str}
use html_inbox.Policy.Retry.{history_unavailable_code}
use html_inbox.Wire.Failure.{
  FailureKind, history, retry, blocked, classify_sync_failure, is_bound_to, is_history_failure,
  is_permanent_status, recognize, remote_failures,
}

lookup-all {ℓ} :
    {V : Type ℓ} (test : V → Bool) (k : Text) (d : Dict V) (v : V)
    → all test (values d) ≡ true
    → lookup k d ≡ some v
    → test v ≡ true
unfolding lookup
lookup-all test k [] v h e = cc
lookup-all test k ((j, w) ∷ d) v h e = ground (arith, lookup-all test k d v)

-- The statuses of the table.
unfoldable pub is_remote_status : ℕ → Bool
is_remote_status status =
    (status == 403)
    || ((status == 409) || ((status == 410) || ((status == 413) || (status == 503))))

-- What a reported failure means: a wait for history only under its own code, another try where a lease
-- or room has run out, and a stop otherwise.
unfoldable pub meaning : ℕ → Text → FailureKind
meaning status code =
    if text_eq code history_unavailable_code
    then history
    else if (status == 410) || (status == 503)
    then retry
    else blocked

statuses_are_remote : all is_remote_status (values remote_failures) ≡ true
unfolding is_remote_status remote_failures
statuses_are_remote = refl

history_is_bound : lookup history_unavailable_code remote_failures ≡ some 409
unfolding lookup remote_failures text_eq
history_is_bound = refl

recognize-eq-ok :
    (code : Text) (status : ℕ) (error : Fault)
    → recognize (str code) status ≡ ok error
    → (lookup code remote_failures ≡ some status) × (error ≡ protocol_error status code)
unfolding recognize is_bound_to
recognize-eq-ok code status error e = elim (Option-cases (lookup code remote_failures)) [
  | inl missing ↦ ground (arith, missing)
  | inr (bound, found) ↦ ground (arith, found)
]

permanent_iff :
    (status : ℕ)
    → is_remote_status status ≡ true
    → is_permanent_status status ≡ not ((status == 410) || (status == 503))
unfolding is_remote_status is_permanent_status
permanent_iff status h = ground arith

history_failure :
    (status : ℕ) (code : Text) (same : Bool)
    → text_eq code history_unavailable_code ≡ same
    → (same ≡ true → status ≡ 409)
    → is_history_failure status code ≡ same
unfolding is_history_failure
history_failure status code same e h = ground arith

classify_failure :
    (status : ℕ) (code : Text)
    → lookup code remote_failures ≡ some status
    → classify_sync_failure (protocol_error status code) ≡ (meaning status code, code)
unfolding classify_sync_failure meaning
classify_failure status code bound = elim (Bool-cases (text_eq code history_unavailable_code)) [
  | inl same ↦
      let named = text_eq_iff code history_unavailable_code in
      let equal : code ≡ history_unavailable_code = named.0 same in
      let at : status ≡ 409 = ground (arith, history_is_bound) in
      rw (history_failure status code true same (λ e. at), same)
        (ap (λ c. (history, c)) (sym equal))
  | inr other ↦
      let known =
        lookup-all is_remote_status code remote_failures status statuses_are_remote bound in
      let permanent = permanent_iff status known in
      let unwaited = history_failure status code false other (λ e. cc) in
      elim (Bool-cases ((status == 410) || (status == 503))) [
        | inl again ↦ rw (unwaited, other, permanent, again) refl
        | inr never ↦ rw (unwaited, other, permanent, never) refl
      ]
]

-- A failure that the client recognizes in a peer's answer has a code that the table binds to the status
-- of the answer, and is a wait for history, another try or a stop as its status and code say.
pub recognize-classified :
    (code : Text) (status : ℕ) (error : Fault)
    → recognize (str code) status ≡ ok error
    → (lookup code remote_failures ≡ some status)
      × (classify_sync_failure error ≡ (meaning status code, code))
recognize-classified code status error e =
    let (bound, same) = recognize-eq-ok code status error e in
    (bound, rw same (classify_failure status code bound))
