-- ===== src/Store/Owned.antt =====
-- The owner's documents: publishing and deleting.
use html_inbox.Common.{
  ℕ, ◌+◌, ◌≡◌, refl, ap, ◌∙◌, false, Option, none, some, Text, lookup, put, length, lookup-put_self,
  Fault, ok, document_exists, arith,
}
use html_inbox.Json.Keys.{canonical_key}
use html_inbox.Model.{OriginalMetadata, live, deleted, Platform}
use html_inbox.Model.Codec.{metadata_encoding, state_key, sign_origin_state}
use html_inbox.Runtime.{SyncTarget}
use html_inbox.Ledger.{ManagedRecord, SyncLedger}
use html_inbox.Policy.Grants.{is_some}
use html_inbox.Policy.Queued.{queue_ledger_state-SameButOutbox}
use html_inbox.Store.{Store, StagedBody}
use html_inbox.Store.Monad.{>>=-eq-ok, deny}
use html_inbox.Store.Commit.{commit}
use html_inbox.Store.Committed.{commit-IsCommitted}
use html_inbox.Store.Access.{
  assert_owner_writable, assert_capacity, allocate_version, allocate_local_id,
}
use html_inbox.Store.Documents.{
  delete_owned, terminal_state, owner_key, ended_ledger, publish_in, published_ledger,
  published_state, published_record, place_body, chosen_target,
}

-- The next version, and the ledger with its counter advanced.
abbrev IsAllocated : SyncLedger → ℕ × SyncLedger → Type 0
IsAllocated ledger (version, counted) =
    (version ≡ ledger.next_origin_version)
    × (counted.next_origin_version ≡ ledger.next_origin_version + 1)

allocate_version-IsAllocated :
    (ledger : SyncLedger) (x : ℕ × SyncLedger) (before after : Store)
    → allocate_version ledger before ≡ (ok x, after)
    → IsAllocated ledger x
unfolding allocate_version
allocate_version-IsAllocated ledger x before after h = ground arith

deny_found :
    {A : Type 0} (o : Option A) (e : Fault) (s t : Store) {u : Unit {0}}
    → deny (is_some o) e s ≡ (ok u, t)
    → o ≡ none
deny_found none e s t h = refl
deny_found (some a) e s t h = cc

module _ ⦃p : Platform⦄ where
  -- The record under the key is deleted in a new version that no earlier state has.
  pub record IsEnded (ledger : SyncLedger) (r : ManagedRecord) (result : SyncLedger) (after : Store)
      : Type 0 where
    pub ended : ManagedRecord
    pub stored : lookup (state_key r.origin.unsigned) result.records ≡ some ended
    pub dead : ended.origin.state ≡ deleted
    pub version : ended.origin.version ≡ ledger.next_origin_version
    pub counter : result.next_origin_version ≡ ledger.next_origin_version + 1
    pub same_document : state_key ended.origin.unsigned ≡ state_key r.origin.unsigned
    pub on_disk : after.disk ≡ result

  ended_ledger-IsEnded :
      (ledger counted : SyncLedger) (r : ManagedRecord) (version : ℕ) (private_key : Text)
      (result : SyncLedger) (before after : Store)
      → IsAllocated ledger (version, counted)
      → commit (ended_ledger counted r version private_key) before ≡ (ok result, after)
      → IsEnded ledger r result after
  unfolding ended_ledger terminal_state sign_origin_state
  ended_ledger-IsEnded ledger counted r version private_key result before after (v, c) h =
      let key = state_key r.origin.unsigned in
      let ended = record r {
        origin = sign_origin_state (terminal_state r.origin version) private_key;
      } in
      let placed = record counted { records = put key ended counted.records } in
      let same = queue_ledger_state-SameButOutbox placed key none false in
      let done =
        commit-IsCommitted (ended_ledger counted r version private_key) result before after h in
      record {
        ended = ended;
        stored =
            ap (λ l. lookup key l.records) done.next
            ∙ ap (λ l. lookup key l.records) same
            ∙ lookup-put_self key ended counted.records;
        dead = refl;
        version = v;
        counter =
            ap (λ l. l.next_origin_version) done.next ∙ ap (λ l. l.next_origin_version) same ∙ c;
        same_document = refl;
        on_disk = done.on_disk;
      }

  -- When the owner deletes a document of its own, the document's record ends with a deleted state whose
  -- version is the next of the owner's counter, the counter advances, and the result is on disk.
  pub delete_owned-IsEnded :
      (ledger : SyncLedger) (r : ManagedRecord) (result : SyncLedger) (before after : Store)
      → delete_owned ledger r before ≡ (ok result, after)
      → IsEnded ledger r result after
  unfolding delete_owned
  delete_owned-IsEnded ledger r result before after h =
      let (_, s1, _, h1) = >>=-eq-ok (assert_owner_writable ledger) _ before after h in
      let (x, s2, e2, h2) = >>=-eq-ok (allocate_version ledger) _ s1 after h1 in
      let (key, s3, _, h3) = >>=-eq-ok (owner_key ledger) _ s2 after h2 in
      ended_ledger-IsEnded ledger x.1 r x.0 key result s3 after
        (allocate_version-IsAllocated ledger x s1 s2 e2) h3

  -- A new document's record is live under its own key, with the next version of the owner's counter.
  pub record IsPublished (ledger : SyncLedger) (metadata : OriginalMetadata) (result : SyncLedger)
      (after : Store) : Type 0 where
    pub absent : lookup (canonical_key ledger.inbox_id metadata.id) ledger.records ≡ none
    pub published : ManagedRecord
    pub stored : lookup (canonical_key ledger.inbox_id metadata.id) result.records ≡ some published
    pub alive : published.origin.state ≡ live
    pub version : published.origin.version ≡ ledger.next_origin_version
    pub metadata_kept : published.origin.metadata ≡ metadata
    pub counter : result.next_origin_version ≡ ledger.next_origin_version + 1
    pub on_disk : after.disk ≡ result

  published_ledger-IsPublished :
      (ledger counted : SyncLedger) (metadata : OriginalMetadata) (body_hash digest : Text)
      (size version : ℕ) (private_key file_name : Text) (target : Option SyncTarget)
      (fresh_id : Text) (result : SyncLedger) (before after : Store)
      → lookup (canonical_key ledger.inbox_id metadata.id) ledger.records ≡ none
      → IsAllocated ledger (version, counted)
      → commit
          (published_ledger counted
            (sign_origin_state
              (published_state ledger metadata body_hash digest size version)
              private_key)
            file_name
            target
            fresh_id)
          before
        ≡ (ok result, after)
      → IsPublished ledger metadata result after
  unfolding published_ledger published_state sign_origin_state
  published_ledger-IsPublished ledger counted metadata body_hash digest size version private_key
        file_name target fresh_id result before after free (v, c) h =
      let state =
        sign_origin_state (published_state ledger metadata body_hash digest size version)
          private_key in
      let key = canonical_key ledger.inbox_id metadata.id in
      let r =
        published_record state (allocate_local_id counted (some state.origin_document_id) fresh_id)
          file_name in
      let placed = record counted {
        records = put key r counted.records;
        publication_intents = put key target counted.publication_intents;
      } in
      let same = queue_ledger_state-SameButOutbox placed key none false in
      let done =
        commit-IsCommitted (published_ledger counted state file_name target fresh_id) result before
          after h in
      record {
        absent = free;
        published = r;
        stored =
            ap (λ l. lookup key l.records) done.next
            ∙ ap (λ l. lookup key l.records) same
            ∙ lookup-put_self key r counted.records;
        alive = refl;
        version = v;
        metadata_kept = refl;
        counter =
            ap (λ l. l.next_origin_version) done.next ∙ ap (λ l. l.next_origin_version) same ∙ c;
        on_disk = done.on_disk;
      }

  -- Publishing puts a document on disk that was not there before: live, with the metadata given and the
  -- next version of the owner's counter, which advances.
  pub publish_in-IsPublished :
      (metadata : OriginalMetadata) (body_hash : Text) (staged : StagedBody)
      (target : Option (Option SyncTarget)) (fresh_id : Text) (ledger result : SyncLedger)
      (before after : Store)
      → publish_in metadata body_hash staged target fresh_id ledger before ≡ (ok result, after)
      → IsPublished ledger metadata result after
  unfolding publish_in place_body
  publish_in-IsPublished metadata body_hash staged target fresh_id ledger result before after h =
      let key = canonical_key ledger.inbox_id metadata.id in
      let (_, s1, _, h1) = >>=-eq-ok (assert_owner_writable ledger) _ before after h in
      let (_, s2, e2, h2) =
        >>=-eq-ok (deny (is_some (lookup key ledger.records)) document_exists) _ s1 after h1 in
      let (_, s3, _, h3) = >>=-eq-ok (assert_capacity ledger) _ s2 after h2 in
      let (x, s4, e4, h4) = >>=-eq-ok (allocate_version ledger) _ s3 after h3 in
      let (private_key, s5, _, h5) = >>=-eq-ok (owner_key ledger) _ s4 after h4 in
      published_ledger-IsPublished ledger x.1 metadata body_hash
        (p.digest (metadata_encoding metadata)) (length staged.bytes) x.0 private_key
        staged.file_name (chosen_target ledger target) fresh_id result _ after
        (deny_found (lookup key ledger.records) document_exists s1 s2 e2)
        (allocate_version-IsAllocated ledger x s3 s4 e4) h5
