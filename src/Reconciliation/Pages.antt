-- ===== src/Reconciliation/Pages.antt =====
-- packages/cli/src/sync-wire.ts, `parseManifestPage`, on the pages that packages/cli/src/sync-http-server.ts cuts.
use html_inbox.Common.{
  ℕ, zero, suc, ◌+◌, ◌*◌, ◌≤◌, ◌≡◌, refl, subst, if◌then◌else◌, ltb, arith, Bool, true, false, List,
  [], ◌∷◌, Option, none, some, Text, All, length, text_eq, ok,
}
use html_inbox.Json.{str, get, has_own, byte_length, stringify}
use html_inbox.Model.{
  OriginState, CompleteInventory, Platform, manifest_page, max_descriptor_bytes, max_records,
}
use html_inbox.Model.Fields.{parse_object, assert_exact_keys, parse_nullable}
use html_inbox.Model.Parse.{parse_origin_state}
use html_inbox.Model.Checked.{parse_integer_complete}
use html_inbox.Ledger.Encode.{of_state}
use html_inbox.Ledger.Origin.{IsState}
use html_inbox.Ledger.Evidence.{
  IsInventory, IsRead, parse_array_complete, parse_complete_inventory-of_inventory,
}
use html_inbox.Ledger.Reread.{parse_origin_state-of_state}
use html_inbox.Wire.{ManifestPage}
use html_inbox.Wire.Parse.{last_page, parse_manifest_page}
use html_inbox.Wire.Tokens.{parse_token}
use html_inbox.Server.{Session}
use html_inbox.Server.Manifest.{drop, page_of, take}
use html_inbox.Reconciliation.Pull.{of_cursor, of_page}

module _ ⦃p : Platform⦄ where
  -- A state that the protocol allows, in no more than 64 KiB.
  abbrev pub IsSendable : OriginState → Type 0
  IsSendable s = IsState s × (byte_length (stringify (of_state s)) ≤ max_descriptor_bytes)

  states-IsRead :
      (states : List OriginState)
      → All IsSendable states
      → All (IsRead of_state parse_origin_state) states
  states-IsRead [] h = tt
  states-IsRead (s ∷ states) ((allowed, small), h) =
      (parse_origin_state-of_state s allowed small, states-IsRead states h)

  parse_nullable-of_cursor :
      (cursor : Option Text)
      → ((token : Text) → cursor ≡ some token → parse_token (str token) ≡ ok token)
      → parse_nullable parse_token (of_cursor cursor) ≡ ok cursor
  parse_nullable-of_cursor none h = refl
  parse_nullable-of_cursor (some token) h = rw (h token refl) refl

  -- The page is read as it was sent.
  parse_manifest_page-of_page :
      (page : ManifestPage)
      → IsInventory page.evidence
      → page.page_number ≤ last_page
      → All IsSendable page.descriptors
      → length page.descriptors ≤ manifest_page
      → ((token : Text) → page.next_cursor ≡ some token → parse_token (str token) ≡ ok token)
      → parse_manifest_page (of_page page) ≡ ok page
  unfolding parse_manifest_page of_page assert_exact_keys has_own get text_eq parse_object
  parse_manifest_page-of_page page evidence number sendable few token =
      rw
        (
          parse_complete_inventory-of_inventory page.evidence evidence,
          parse_integer_complete 0 last_page page.page_number
              (record { at_least = omega arith; at_most = number; exact = omega arith }),
          parse_array_complete of_state parse_origin_state manifest_page page.descriptors
              (states-IsRead page.descriptors sendable) few,
          parse_nullable-of_cursor page.next_cursor token,
        )
        refl

  All-drop :
      (n : ℕ) (states : List OriginState) → All IsSendable states → All IsSendable (drop n states)
  All-drop zero states h = h
  All-drop (suc n) [] h = tt
  All-drop (suc n) (s ∷ states) (_, h) = All-drop n states h

  All-take :
      (n : ℕ) (states : List OriginState) → All IsSendable states → All IsSendable (take n states)
  All-take zero states h = tt
  All-take (suc n) [] h = tt
  All-take (suc n) (s ∷ states) (q, h) = (q, All-take n states h)

  length-taken : (n : ℕ) (states : List OriginState) → length (take n states) ≤ n
  length-taken zero states = omega arith
  length-taken (suc n) [] = omega arith
  length-taken (suc n) (s ∷ states) = let h = length-taken n states in omega arith

  same_value : {a b : Text} → some a ≡ some b → a ≡ b
  same_value e = cc

  cursor_token :
      (more : Bool) (sent token : Text)
      → parse_token (str sent) ≡ ok sent
      → (if more then some sent else none) ≡ some token
      → parse_token (str token) ≡ ok token
  cursor_token true sent token h e = subst (λ t. parse_token (str t) ≡ ok t) (same_value e) h
  cursor_token false sent token h e = cc

  -- An inventory that can be sent: evidence and states that the protocol allows, and tokens that are read as
  -- they are sent.
  pub record CanBeSent (evidence : CompleteInventory) (tokens : ℕ → Text)
      (states : List OriginState) : Type 0 where
    pub evidence_allowed : IsInventory evidence
    pub tokens_read : (n : ℕ) → parse_token (str (tokens n)) ≡ ok (tokens n)
    pub allowed : All IsSendable states

  -- Each page that the server cuts is read as it was sent.
  pub parse_manifest_page-page_of :
      (evidence : CompleteInventory) (tokens : ℕ → Text) (session : Session)
      → CanBeSent evidence tokens session.states
      → length session.states ≤ max_records
      → session.page_number * manifest_page ≤ length session.states
      → parse_manifest_page (of_page (page_of session evidence (tokens session.page_number)))
        ≡ ok (page_of session evidence (tokens session.page_number))
  unfolding page_of
  parse_manifest_page-page_of evidence tokens session sent few inside =
      let offset = session.page_number * manifest_page in
      let rest = drop offset session.states in
      parse_manifest_page-of_page (page_of session evidence (tokens session.page_number))
        sent.evidence_allowed (omega arith)
        (All-take manifest_page rest (All-drop offset session.states sent.allowed))
        (length-taken manifest_page rest)
        (λ token e.
          cursor_token (ltb (offset + length (take manifest_page rest)) (length session.states))
            (tokens session.page_number) token (sent.tokens_read session.page_number) e)
