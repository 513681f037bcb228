-- ===== src/Tests/Opened.antt =====
-- The definitions that the runs compute with.
use html_inbox.Common.{lookup, put, remove}
use html_inbox.Common.{traverse}
use html_inbox.Common.{text_eq, text_lt, includes}
use html_inbox.Json.Keys.{canonical_key, outbox_key}
use html_inbox.Json.{get, has_own, byte_length}
use html_inbox.Ledger.Bindings.{each, check_bindings}
use html_inbox.Ledger.Encode.{
  of_metadata, of_state, of_route, of_inventory, of_receipt, of_target, of_config, of_ledger,
  receipt_key,
}
use html_inbox.Ledger.Load.{upgrade, parse_ledger}
use html_inbox.Ledger.Parse.{
  dictionary, custody_conflicts, parse_route_retry, parse_outbox, parse_receipt,
  parse_managed_record,
}
use html_inbox.Merge.{conflicts, is_older, verdict, merge, merge_all}
use html_inbox.Model.Codec.{
  metadata_encoding, state_encoding, same_immutable_descriptor, state_fingerprint,
  sign_origin_state, verify_origin_state, insert_by_key, sort_by_key, inventory_digest,
}
use html_inbox.Model.Fields.{
  matches, parse_object, assert_exact_keys, is_bounded_string, check_string, parse_string,
  check_matching, is_uuid_v4, has_no_upper, parse_uuid, is_safe_document_id, parse_safe_id,
  is_digest, parse_digest, is_reference, parse_reference, parse_integer, parse_boolean,
  parse_nullable_string, choose, parse_choice, parse_array,
}
use html_inbox.Model.Parse.{
  is_space, assert_metadata_length, text_field, is_schema_one, is_canonical_end, is_signature,
  parse_document_metadata, parse_original_metadata, parse_origin_state,
}
use html_inbox.Model.Routes.{
  all_distinct, parse_authorization, parse_complete_inventory, parse_origin_grant, parse_route,
}
use html_inbox.Policy.Fence.{
  detach_contribution, detach_record, retire_entry, detach_ledger_route, fenced_route,
  fence_ledger_route, fence_each, fence_all_routes,
}
use html_inbox.Policy.Grants.{
  route_origin_grant, pinned_key, pinned_origin_grant, pinned_state_grant, covers_origin,
  has_trusted_origin_history, route_may_carry, can_forward_record, current_custody_receipt,
}
use html_inbox.Policy.Queue.{
  may_queue, queue_disposition, keep_entry, fresh_entry, is_current, queued_entry, retire_existing,
  queue_on_route, queue_on_routes, queue_ledger_state, queue_keys, queue_all,
}
use html_inbox.Policy.Retry.{
  is_history_wait, base_delay, jittered, counted_retry, next_route_retry, deletion_is_due,
  is_route_due,
}
use html_inbox.Store.Access.{
  is_current_route, is_bound, refuse, select_route, authorize_route, assert_owner_writable,
  assert_capacity, allocate_version, allocate_local_id, authorize,
}
use html_inbox.Store.Apply.{
  body_available, fence_owner_history, contribute, lacks_body, taken_record, install_body,
  absent_capacity, ahead_record, custody_of, receipt_for, record_receipt, kept_state, take_state,
  accept_state, apply_verdict, apply_existing, apply_locked,
}
use html_inbox.Store.Commit.{
  invalidate_attempt, invalidate_attempts, invalidate_routes, reserve_terminal_space, assert_home,
  is_committable, commit, read_ledger, mutate,
}
use html_inbox.Store.Documents.{
  owner_key, by_local_id, chosen_target, place_body, published_state, terminal_state,
  published_ledger, publish_in, ended_ledger, delete_owned, delete_record, delete_in,
  delete_document, suppress_in, set_suppressed,
}
use html_inbox.Store.Inbound.{settle, finish, apply_in}
use html_inbox.Store.Attempts.{
  abort_local, refuse_paused, is_expected, check_expected, admit_on, admit_in,
}
use html_inbox.Store.Restore.{
  restored, keeps_key, retire_keys, retire_copied_keys, quarantine_restore,
}
use html_inbox.Store.Worker.{read_html, inspect, audit_records, quarantined, audit_in}
use html_inbox.Store.Inventory.{
  scope_agrees, evidence_is_bound, rolls_back, apply_each, reattach, is_evidence_for, complete_in,
  complete_inventory,
}
use html_inbox.Store.Reconcile.{
  is_established, is_reconciled, reconcile_in, complete_reconciliation, holdings_cut,
}
use html_inbox.Store.Outbound.{
  readiness_fits, has_grant, inventory_states, inventory_is_blocked, activate_in, activate_outbound,
  observe_in, observe_outbound_state, inventory_in, inventory,
}
use html_inbox.Store.Outbox.{
  receipt_is_bound, attempted_entry, is_due_terminal, pending_terminal_states, settle_obligation,
  acknowledge_on, acknowledge_in, acknowledge, update_in, update_attempt,
}
use html_inbox.Store.Routes.{
  revision_advances, keeps_identity, pin_known, pin_origins, retried_entry, is_error_text,
  configure_in, configure_route, revoke_in, revoke_route, retry_in, retry, record_run_in,
  record_route_run, set_route_error,
}
use html_inbox.Tests.Data.{host}

unfoldable pub opened : Unit {0}
unfolding lookup put remove traverse text_eq text_lt includes canonical_key outbox_key get has_own
    byte_length each check_bindings of_metadata of_state of_route of_inventory of_receipt of_target
    of_config of_ledger receipt_key upgrade parse_ledger dictionary custody_conflicts
    parse_route_retry parse_outbox parse_receipt parse_managed_record conflicts is_older verdict
    merge merge_all metadata_encoding state_encoding same_immutable_descriptor state_fingerprint
    sign_origin_state verify_origin_state insert_by_key sort_by_key inventory_digest matches
    parse_object assert_exact_keys is_bounded_string check_string parse_string check_matching
    is_uuid_v4 has_no_upper parse_uuid is_safe_document_id parse_safe_id is_digest parse_digest
    is_reference parse_reference parse_integer parse_boolean parse_nullable_string choose
    parse_choice parse_array is_space assert_metadata_length text_field is_schema_one
    is_canonical_end is_signature parse_document_metadata parse_original_metadata parse_origin_state
    all_distinct parse_authorization parse_complete_inventory parse_origin_grant parse_route
    detach_contribution detach_record retire_entry detach_ledger_route fenced_route
    fence_ledger_route fence_each fence_all_routes route_origin_grant pinned_key pinned_origin_grant
    pinned_state_grant covers_origin has_trusted_origin_history route_may_carry can_forward_record
    current_custody_receipt may_queue queue_disposition keep_entry fresh_entry is_current
    queued_entry retire_existing queue_on_route queue_on_routes queue_ledger_state queue_keys
    queue_all is_history_wait base_delay jittered counted_retry next_route_retry deletion_is_due
    is_route_due is_current_route is_bound refuse select_route authorize_route assert_owner_writable
    assert_capacity allocate_version allocate_local_id authorize body_available fence_owner_history
    contribute lacks_body taken_record install_body absent_capacity ahead_record custody_of
    receipt_for record_receipt kept_state take_state accept_state apply_verdict apply_existing
    apply_locked invalidate_attempt invalidate_attempts invalidate_routes reserve_terminal_space
    assert_home is_committable commit read_ledger mutate owner_key by_local_id chosen_target
    place_body published_state terminal_state published_ledger publish_in ended_ledger delete_owned
    delete_record delete_in delete_document suppress_in set_suppressed scope_agrees
    evidence_is_bound rolls_back is_established is_reconciled settle finish apply_in read_html
    inspect audit_records quarantined audit_in abort_local refuse_paused is_expected check_expected
    admit_on admit_in restored keeps_key retire_keys retire_copied_keys quarantine_restore
    apply_each reattach is_evidence_for complete_in complete_inventory reconcile_in
    complete_reconciliation holdings_cut readiness_fits has_grant inventory_states
    inventory_is_blocked receipt_is_bound attempted_entry activate_in activate_outbound observe_in
    observe_outbound_state is_due_terminal pending_terminal_states inventory_in inventory
    settle_obligation acknowledge_on acknowledge_in acknowledge update_in update_attempt
    revision_advances keeps_identity pin_known pin_origins retried_entry is_error_text configure_in
    configure_route revoke_in revoke_route retry_in retry record_run_in record_route_run
    set_route_error host
opened = tt
