-- ===== src/Json/Keys.antt =====
-- The keys of the ledger's dictionaries, printed by `JSON.stringify`.
use mathlib.Core.List.{tail}
use html_inbox.Common.{ℕ, ◌≡◌, ap, [], ◌∷◌, Text}
use html_inbox.Json.Value.{str, num, arr, items, stringify}
use html_inbox.Json.Quote.{IsUnits, quote_prefix}
use html_inbox.Json.Number.{decimal_prefix}

-- sync-model.ts, `canonicalKey`: the pair that names a document.
unfoldable pub canonical_key : Text → Text → Text
unfolding stringify
canonical_key inbox_id document_id = stringify (arr (items (str inbox_id ∷ str document_id ∷ [])))

-- sync-ledger.ts, `outboxKey`
unfoldable pub outbox_key : Text → ℕ → Text → Text
unfolding stringify
outbox_key route_id revision key =
    stringify (arr (items (str route_id ∷ num revision ∷ str key ∷ [])))

-- Two documents have one canonical key only if both of their identities agree.
pub canonical_key-injective :
    (a b c d : Text)
    → IsUnits a
    → IsUnits b
    → IsUnits c
    → IsUnits d
    → canonical_key a b ≡ canonical_key c d
    → (a ≡ c) × (b ≡ d)
unfolding canonical_key
canonical_key-injective a b c d ha hb hc hd e =
    let (first, rest) = quote_prefix a c _ _ ha hc (ap tail e) in
    let (second, _) = quote_prefix b d _ _ hb hd (ap tail rest) in (first, second)

-- An outbox key determines the route, the revision and the document key.
pub outbox_key-injective :
    (r s : Text) (m n : ℕ) (a b : Text)
    → IsUnits r
    → IsUnits s
    → IsUnits a
    → IsUnits b
    → outbox_key r m a ≡ outbox_key s n b
    → (r ≡ s) × (m ≡ n) × (a ≡ b)
unfolding outbox_key
outbox_key-injective r s m n a b hr hs ha hb e =
    let (first, rest) = quote_prefix r s _ _ hr hs (ap tail e) in
    let (second, more) = decimal_prefix m n _ _ (ap tail rest) in
    let (third, _) = quote_prefix a b _ _ ha hb more in (first, second, third)
