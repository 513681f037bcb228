-- ===== src/Policy/Retry.antt =====
-- packages/cli/src/sync-ledger-policy.ts, `nextRouteRetry` and `isRouteDue`, and `isHistoryWait` of
-- sync-failure.ts. `random` is a fraction `num / den` of at most one, and the rounded product is
-- computed exactly, where the code rounds a double.
use html_inbox.Common.{
  ℕ, ◌+◌, ◌-◌, ◌*◌, ◌/◌, ◌^◌, Bool, true, false, not, ◌&&◌, ◌||◌, Option, none, some, Text, js,
  lookup, values, any, text_eq, leb, ◌==◌, min, if◌then◌else◌,
}
use html_inbox.Model.{SyncRoute, is_deleted}
use html_inbox.Ledger.{ManagedRecord, OutboxEntry, RouteRetryState, SyncLedger, is_pending}

abbrev pub history_unavailable_code : Text
history_unavailable_code = js "trusted-history-unavailable"

-- `isHistoryWait`
unfoldable pub is_history_wait : Option Text → Bool
is_history_wait none = false
is_history_wait (some code) = text_eq code history_unavailable_code

-- `SYNC_DEFAULTS`
abbrev pub retry_min_ms : ℕ
retry_min_ms = 1000

abbrev pub retry_max_ms : ℕ
retry_max_ms = 300000

abbrev pub max_attempts : ℕ
max_attempts = 20

pub record Fraction : Type 0 where
  pub num : ℕ
  pub den : ℕ

-- `Math.min(retryMaxMs, retryMinMs * 2 ** Math.min(attempts - 1, 30))`, for `attempts` at least 1.
unfoldable pub base_delay : ℕ → ℕ
base_delay attempts = min retry_max_ms (retry_min_ms * 2 ^ min (attempts - 1) 30)

-- `Math.round(delay * (0.5 + random * 0.5))`
unfoldable pub jittered : ℕ → Fraction → ℕ
jittered delay random = (delay * (random.den + random.num) + random.den) / (2 * random.den)

abbrev previous_attempts : Option RouteRetryState → ℕ
previous_attempts none = 0
previous_attempts (some previous) = previous.attempts

-- `nextRouteRetry` once the error is no wait for history.
unfoldable pub counted_retry :
    SyncRoute → Option RouteRetryState → Option Text → Bool → ℕ → Fraction → RouteRetryState
counted_retry route previous none blocked now random = record {
  revision = route.revision;
  attempts = 0;
  next_attempt_at = 0;
  last_error = none;
  blocked = false;
}
counted_retry route previous (some error) blocked now random =
    let attempts = previous_attempts previous + 1 in
    record {
      revision = route.revision;
      attempts = attempts;
      next_attempt_at = now + jittered (base_delay attempts) random;
      last_error = some error;
      blocked = blocked || leb max_attempts attempts;
    }

-- `nextRouteRetry`
unfoldable pub next_route_retry :
    SyncRoute → Option RouteRetryState → Option Text → Bool → ℕ → ℕ → Fraction → RouteRetryState
unfolding counted_retry is_history_wait
next_route_retry route previous error blocked now interval_ms random =
    if is_history_wait error
    then record {
      revision = route.revision;
      attempts = 0;
      next_attempt_at = now + interval_ms;
      last_error = error;
      blocked = false;
    }
    else counted_retry route previous error blocked now random

abbrev deleted_record : Option ManagedRecord → Bool
deleted_record none = false
deleted_record (some r) = is_deleted r.origin.state

-- A deletion of the route is waiting to be sent.
unfoldable pub deletion_is_due : SyncLedger → SyncRoute → ℕ → OutboxEntry → Bool
deletion_is_due ledger route now entry =
    text_eq entry.route_id route.id
    && ((entry.revision == route.revision)
        && (is_pending entry.disposition
            && (leb entry.next_attempt_at now
                && deleted_record (lookup entry.canonical_key ledger.records))))

retry_is_due : SyncLedger → SyncRoute → ℕ → Option RouteRetryState → Bool
retry_is_due ledger route now none = true
retry_is_due ledger route now (some retry) =
    if retry.blocked
    then false
    else if leb retry.next_attempt_at now
    then true
    else if not (is_history_wait retry.last_error)
    then false
    else any (deletion_is_due ledger route now) (values ledger.outbox)

-- `isRouteDue`
unfoldable pub is_route_due : SyncLedger → SyncRoute → ℕ → Bool
unfolding retry_is_due
is_route_due ledger route now = retry_is_due ledger route now (lookup route.id ledger.route_retries)
