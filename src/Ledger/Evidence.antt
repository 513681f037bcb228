-- ===== src/Ledger/Evidence.antt =====
-- `parseCompleteInventory` on what the encoder writes.
use html_inbox.Common.{
  ℕ, ◌≤◌, ◌≡◌, refl, arith, true, List, [], ◌∷◌, All, length, map, leb, text_eq, Result, ok,
  traverse, invalid_reference,
}
use html_inbox.Json.{Json, arr, items, elements, get, has_own}
use html_inbox.Model.{CompleteInventory, Scope, max_records, max_safe_integer}
use html_inbox.Model.Fields.{
  parse_object, assert_exact_keys, parse_array, is_reference, parse_reference,
}
use html_inbox.Model.Routes.{all_distinct, parse_complete_inventory, parse_scope}
use html_inbox.Model.Checked.{
  IsText, IsUuid, IsDigest, IsWithin, matching_complete, parse_uuid_complete, parse_digest_complete,
  parse_integer_complete,
}
use html_inbox.Ledger.Encode.{of_inventory, of_scope}

-- A list of which each element is read as it was sent.
module _ {A : Type 0} (write : A → Json) (parse : Json → Result A) where
  abbrev pub IsRead : A → Type 0
  IsRead a = parse (write a) ≡ ok a

  length-written : (xs : List A) → length (elements (items (map write xs))) ≡ length xs
  length-written [] = refl
  length-written (x ∷ xs) = ground (arith, length-written xs)

  traverse-written :
      (xs : List A) → All IsRead xs → traverse parse (elements (items (map write xs))) ≡ ok xs
  unfolding traverse
  traverse-written [] h = refl
  traverse-written (x ∷ xs) (e, h) = rw (e, traverse-written xs h) refl

  pub parse_array_complete :
      (maximum : ℕ) (xs : List A)
      → All IsRead xs
      → length xs ≤ maximum
      → parse_array parse maximum (arr (items (map write xs))) ≡ ok xs
  unfolding parse_array
  parse_array_complete maximum xs h few =
      let fits : leb (length (elements (items (map write xs)))) maximum ≡ true =
        ground (arith, length-written xs) in
      rw fits (traverse-written xs h)

-- The evidence that the protocol allows.
pub record IsInventory (i : CompleteInventory) : Type 0 where
  pub peer_id : IsUuid i.peer_id
  pub route_id : IsUuid i.route_id
  pub revision : IsWithin 1 max_safe_integer i.revision
  pub scope : All (λ s. IsUuid s.inbox_id × IsUuid s.history_epoch) i.scope
  pub few : length i.scope ≤ max_records
  pub distinct : all_distinct (map (λ s. s.inbox_id) i.scope) ≡ true
  pub generation : IsWithin 0 max_safe_integer i.generation
  pub count : IsWithin 0 max_records i.count
  pub descriptor_digest : IsDigest i.descriptor_digest
  pub nonce : IsText is_reference 255 i.nonce

scopes-IsRead :
    (scope : List Scope)
    → All (λ s. IsUuid s.inbox_id × IsUuid s.history_epoch) scope
    → All (IsRead of_scope parse_scope) scope
unfolding parse_scope of_scope assert_exact_keys has_own get text_eq parse_object
scopes-IsRead [] h = tt
scopes-IsRead (s ∷ scope) ((a, b), h) = (
  rw (parse_uuid_complete s.inbox_id a, parse_uuid_complete s.history_epoch b) refl,
  scopes-IsRead scope h,
)

-- Evidence that the protocol allows is read back from its encoding.
pub parse_complete_inventory-of_inventory :
    (i : CompleteInventory) → IsInventory i → parse_complete_inventory (of_inventory i) ≡ ok i
unfolding parse_complete_inventory of_inventory assert_exact_keys has_own get text_eq parse_object
    parse_reference
parse_complete_inventory-of_inventory i h =
    rw
      (
        parse_array_complete of_scope parse_scope max_records i.scope
            (scopes-IsRead i.scope h.scope) h.few,
        h.distinct,
        parse_uuid_complete i.peer_id h.peer_id,
        parse_uuid_complete i.route_id h.route_id,
        parse_integer_complete 1 max_safe_integer i.revision h.revision,
        parse_integer_complete 0 max_safe_integer i.generation h.generation,
        parse_integer_complete 0 max_records i.count h.count,
        parse_digest_complete i.descriptor_digest h.descriptor_digest,
        matching_complete is_reference 255 invalid_reference i.nonce h.nonce,
      )
      refl
