-- ===== src/Common/Results.antt =====
-- Thrown errors as values: one `Fault` for each message of the code.
use mathlib.Core.Path.{◌≡◌, refl, ap}
use mathlib.Core.Logic.{◌⊎◌, inl, inr}
use mathlib.Core.Bool.{Bool, true, false, not}
use mathlib.Core.Option.{Option, none, some}
use mathlib.Core.List.{List, [], ◌∷◌}
use Prim.Native.Nat.{ℕ}
use html_inbox.Common.Strings.{Text}

pub data Fault : Type 0 where
  -- sync-model.ts
  invalid_object invalid_fields invalid_string invalid_uuid uppercase_uuid : Fault
  invalid_document_id invalid_digest invalid_reference invalid_integer invalid_boolean : Fault
  invalid_choice invalid_array descriptor_too_large metadata_conflict : Fault
  invalid_signature_encoding invalid_schema invalid_metadata invalid_public_key : Fault
  invalid_peer_url duplicate_origin invalid_inbox_name invalid_inventory_domain : Fault
  signature_mismatch : Fault
  -- sync-ledger.ts
  receipt_fingerprint_conflict receipt_disposition_conflict capacity_exceeded : Fault
  identity_collision owner_epoch_conflict version_reuse invalid_contribution : Fault
  missing_intent_record invalid_retry_binding route_binding_conflict : Fault
  outbox_binding_conflict receipt_binding_conflict checkpoint_binding_conflict : Fault
  invalid_body_file duplicate_contribution invalid_provenance : Fault
  -- sync-runtime-config.ts
  invalid_listener invalid_path too_many_references : Fault
  -- sync-store.ts
  communication_blocked revoked_authorization origin_out_of_scope owner_mutation_blocked : Fault
  stale_revision revision_not_advanced route_rebound wrong_local_inbox key_transition : Fault
  document_exists immutable_conflict version_conflict inventory_required owner_quarantined : Fault
  not_imported invalid_receipt_binding live_superseded not_current_state : Fault
  replaced_incarnation no_obligation invalid_update page_limit holding_out_of_scope : Fault
  invalid_holding invalid_evidence scope_conflict no_delegation generation_rollback : Fault
  inventory_unavailable history_unavailable readiness_mismatch not_terminal : Fault
  paused fingerprint_changed not_outbound ledger_too_large invalid_body : Fault
  reader_identity storage_uncertain missing_key enrollment_incomplete moved_store : Fault
  missing_cut invalid_run not_quarantined fork_source invalid_fork incomplete_inventory : Fault
  -- document-deletion-protocol.ts
  message_too_long invalid_response invalid_result invalid_worker_error : Fault
  invalid_error_kind identity_mismatch not_a_record : Fault
  -- sync-store.ts, the status of a delivery
  status_deadline invalid_current_holding : Fault
  -- sync-wire.ts and sync-failure.ts; `protocol_error` is `SyncProtocolError` with its status and code
  invalid_json duplicate_identities receipt_status_conflict unrecognized_failure : Fault
  protocol_error : ℕ → Text → Fault

-- What a function returns, or the message of what it throws.
pub data Result {κ} (Value : Type κ) : Type κ where
  err : Fault → Result Value
  ok : Value → Result Value

-- The statement after one that may throw.
abbrev pub ◌>>=◌ {κ ρ} :
    {Value : Type κ} {Next : Type ρ} → Result Value → (Value → Result Next) → Result Next
err thrown >>= next = err thrown
ok value >>= next = next value

abbrev pub ◌>>◌ {ρ} : {Next : Type ρ} → Result (Unit {0}) → Result Next → Result Next
check >> next = check >>= λ _. next

infixl 5 ◌>>=◌ ◌>>◌
-- `if (test) throw`
abbrev pub reject : Bool → Fault → Result (Unit {0})
reject true e = err e
reject false e = ok tt

abbrev pub require {ℓ} : {A : Type ℓ} → Option A → Fault → Result A
require none e = err e
require (some a) e = ok a

-- `list.map(f)` where `f` may throw.
unfoldable pub traverse {ℓ κ} :
    {A : Type ℓ} {B : Type κ} → (A → Result B) → List A → Result (List B)
traverse f [] = ok []
traverse f (x ∷ xs) = do y ← f x; ys ← traverse f xs; ok (y ∷ ys)

-- Statements that all return: what the first returned, and what the others made of it.
pub >>=-eq-ok {κ ρ} :
    {Value : Type κ} {Next : Type ρ} (first : Result Value) (next : Value → Result Next)
    {end : Next}
    → (first >>= next) ≡ ok end
    → (value : Value) × (first ≡ ok value) × (next value ≡ ok end)
>>=-eq-ok (err thrown) next returned = cc
>>=-eq-ok (ok value) next returned = (value, refl, returned)

pub reject-eq-ok : (b : Bool) (e : Fault) {u : Unit {0}} → reject b e ≡ ok u → b ≡ false
reject-eq-ok true e h = cc
reject-eq-ok false e h = refl

pub require-eq-ok {ℓ} :
    {A : Type ℓ} (o : Option A) (e : Fault) {a : A} → require o e ≡ ok a → o ≡ some a
require-eq-ok none e h = cc
require-eq-ok (some x) e h = cc

pub Result-cases {ℓ} :
    {A : Type ℓ} (r : Result A) → ((a : A) × (r ≡ ok a)) ⊎ ((e : Fault) × (r ≡ err e))
Result-cases (ok a) = inl (a, refl)
Result-cases (err e) = inr (e, refl)

pub ok-injective {ℓ} : {A : Type ℓ} {a b : A} → ok a ≡ ok b → a ≡ b
ok-injective {a} e = ap (λ r. elim r [ err thrown ↦ a | ok v ↦ v ]) e

-- What a check of its negation has let through.
pub unrefused : {b : Bool} → not b ≡ false → b ≡ true
unrefused {b = true} e = refl
unrefused {b = false} e = cc
