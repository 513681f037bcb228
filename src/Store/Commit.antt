-- ===== src/Store/Commit.antt =====
-- packages/cli/src/sync-store.ts: `mutate`, `commit`, `readLedger` and the checks around them.
use html_inbox.Common.{
  ℕ, ◌+◌, ◌*◌, Bool, true, false, not, ◌&&◌, ◌||◌, List, [], ◌∷◌, Option, none, some, Text, Dict,
  lookup, put, values, find, map, text_eq, ltb, ◌==◌, if◌then◌else◌, Result, ok, err, reject,
  require, ledger_too_large, storage_uncertain, moved_store, enrollment_incomplete, reader_identity,
  missing_key, ◌>>=◌ as ◌>>=ᵣ◌,
}
use html_inbox.Json.{stringify, byte_length}
use html_inbox.Model.{
  Platform, OriginGrant, SyncRoute, max_ledger_bytes, is_active, is_reconnecting, is_detached,
  is_blocked, is_inbound, is_live,
}
use html_inbox.Model.Codec.{verify_origin_state}
use html_inbox.Ledger.{SyncLedger, ManagedRecord, is_complete}
use html_inbox.Ledger.Encode.{of_ledger, of_state}
use html_inbox.Ledger.Load.{parse_ledger}
use html_inbox.Ledger.Bindings.{each}
use html_inbox.Policy.Grants.{option_text_is}
use html_inbox.Store.{Store, Attempt}
use html_inbox.Store.Monad.{M, pure, lift, ◌>>=◌, ◌>>◌, deny}

-- `invalidateAttempts`: every attempt of the route but those of its current revision is aborted.
abbrev is_current_revision : Option ℕ → ℕ → Bool
is_current_revision none revision = false
is_current_revision (some current) revision = revision == current

unfoldable pub invalidate_attempt : Text → Option ℕ → Attempt → Attempt
invalidate_attempt route_id current a =
    if text_eq a.route_id route_id && not (is_current_revision current a.revision)
    then record a { aborted = true }
    else a

unfoldable pub invalidate_attempts : Text → Option ℕ → Store → Store
unfolding invalidate_attempt
invalidate_attempts route_id current store = record store {
  attempts = map (invalidate_attempt route_id current) store.attempts;
}

-- The revision under which attempts of the route may go on.
abbrev pub live_revision : SyncRoute → Option ℕ
live_revision route =
    if is_blocked route.state || is_detached route.state then none else some route.revision

unfoldable pub invalidate_routes : List SyncRoute → Store → Store
unfolding invalidate_attempts
invalidate_routes [] store = store
invalidate_routes (route ∷ routes) store =
    invalidate_routes routes (invalidate_attempts route.id (live_revision route) store)

-- `counts.get(inboxId) ?? 0`
abbrev grants_of : Dict ℕ → Text → ℕ
grants_of counts inbox_id = elim (lookup inbox_id counts) [ none ↦ 0 | some n ↦ n ]

-- `reserveTerminalSpace`: the number of inbound routes that may end a record of each origin.
count_grants : Dict ℕ → List OriginGrant → Dict ℕ
count_grants counts [] = counts
count_grants counts (grant ∷ grants) =
    count_grants (put grant.inbox_id (grants_of counts grant.inbox_id + 1) counts) grants

count_inbound : Dict ℕ → List SyncRoute → Dict ℕ
count_inbound counts [] = counts
count_inbound counts (route ∷ routes) =
    count_inbound
      (if is_inbound route.direction && (is_active route.state || is_reconnecting route.state)
        then count_grants counts route.allowed_origins
        else counts)
      routes

record_space : Dict ℕ → ManagedRecord → ℕ
record_space counts r =
    if is_live r.origin.state
    then 64
      + grants_of counts r.origin.origin_inbox_id
        * (byte_length (stringify (of_state r.origin)) + 2048)
    else 0

total_space : Dict ℕ → List ManagedRecord → ℕ
total_space counts [] = 64
total_space counts (r ∷ rs) = record_space counts r + total_space counts rs

unfoldable pub reserve_terminal_space : SyncLedger → ℕ
unfolding count_inbound count_grants total_space record_space
reserve_terminal_space ledger =
    total_space (count_inbound [] (values ledger.routes)) (values ledger.records)

abbrev pub advance : SyncLedger → SyncLedger
advance ledger = record ledger { generation = ledger.generation + 1 }

-- The write itself, and the attempts that it ends.
abbrev pub written : SyncLedger → Store → Store
written ledger store = invalidate_routes (values ledger.routes) (record store { disk = ledger })

key_of : SyncLedger → ManagedRecord → Option OriginGrant
key_of ledger r =
    find
      (λ g.
        text_eq g.inbox_id r.origin.origin_inbox_id
        && text_eq g.history_epoch r.origin.history_epoch)
      ledger.origin_keys

-- `assertAnchor`, `assertBarrier` and `assertReaderIdentity`
unfoldable pub assert_home : SyncLedger → M (Unit {0})
assert_home ledger = do
  store ← λ s. (ok s, s)
  deny
      (not (
        text_eq store.anchor.home ledger.owner_anchor.home
        && ((store.anchor.dev == ledger.owner_anchor.dev)
            && (store.anchor.ino == ledger.owner_anchor.ino))))
      moved_store
  deny (not (is_complete ledger.migration.phase) || not store.has_barrier) enrollment_incomplete
  deny (not (option_text_is store.reader_identity ledger.inbox_id)) reader_identity

module _ ⦃p : Platform⦄ where
  -- What `commit` asks of the ledger that it is about to write.
  unfoldable pub is_committable : SyncLedger → Result (Unit {0})
  unfolding reserve_terminal_space
  is_committable ledger = parse_ledger (of_ledger ledger) >>=ᵣ λ _.
      reject
        (ltb max_ledger_bytes
          (byte_length (stringify (of_ledger ledger)) + reserve_terminal_space ledger))
        ledger_too_large

  -- `commit`: the ledger with its next generation, once it is on disk.
  unfoldable pub commit : SyncLedger → M SyncLedger
  unfolding is_committable
  commit ledger store = elim (is_committable (advance ledger)) [
    | err e ↦ (err e, store)
    | ok _ ↦ (ok (advance ledger), written (advance ledger) store)
  ]

  check_record_key : SyncLedger → ManagedRecord → Result (Unit {0})
  unfolding key_of
  check_record_key ledger r =
      require (key_of ledger r) missing_key >>=ᵣ λ g. verify_origin_state r.origin g.public_key

  -- `readLedger`
  unfoldable pub read_ledger : M SyncLedger
  unfolding check_record_key each
  read_ledger = do
    store ← λ s. (ok s, s)
    ledger ← lift (parse_ledger (of_ledger store.disk))
    lift (each (check_record_key ledger) (values ledger.records))
    pure ledger

  -- `mutate`, under the lock
  unfoldable pub mutate : {A : Type 0} → (SyncLedger → M A) → M A
  unfolding read_ledger assert_home
  mutate operation = do
    store ← λ s. (ok s, s)
    deny store.uncertain storage_uncertain
    ledger ← read_ledger
    assert_home ledger
    operation ledger
