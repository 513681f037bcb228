-- ===== src/Wire/Progress.antt =====
-- packages/cli/src/sync-wire.ts, `validatePageProgress`: the pages of one inventory come in order, under
-- one evidence, and carry the states in the order of their keys.
use html_inbox.Common.{
  ℕ, ◌+◌, Bool, false, not, ◌||◌, List, [], ◌∷◌, Option, none, some, js, text_eq, text_lt, length,
  ltb, ◌==◌, Result, ok, ◌>>◌, reject, protocol_error,
}
use html_inbox.Json.{stringify}
use html_inbox.Model.{OriginState, CompleteInventory, max_records, manifest_page}
use html_inbox.Model.Codec.{state_key}
use html_inbox.Ledger.Encode.{of_inventory}
use html_inbox.Wire.{ManifestPage}

-- `states.at(-1)`, with what stands for it before the first.
abbrev pub last_from : Option OriginState → List OriginState → Option OriginState
last_from last [] = last
last_from last (state ∷ states) = last_from (some state) states

unfoldable pub is_unordered : Option OriginState → OriginState → Bool
is_unordered none state = false
is_unordered (some last) state = not (text_lt (state_key last.unsigned) (state_key state.unsigned))

-- The loop over `page.descriptors`.
unfoldable pub check_order : Option OriginState → List OriginState → Result (Unit {0})
unfolding is_unordered
check_order last [] = ok tt
check_order last (state ∷ states) = do
  reject (is_unordered last state) (protocol_error 409 (js "unordered-history"))
  check_order (some state) states

-- `evidence && JSON.stringify(evidence) !== JSON.stringify(page.evidence)`
unfoldable pub differs_from : Option CompleteInventory → CompleteInventory → Bool
differs_from none evidence = false
differs_from (some known) evidence =
    not (text_eq (stringify (of_inventory known)) (stringify (of_inventory evidence)))

-- More pages follow one that is not full.
unfoldable pub is_short : ManifestPage → Bool
is_short page = elim page.next_cursor [
  | none ↦ false
  | some cursor ↦ not (length page.descriptors == manifest_page)
]

unfoldable pub is_incomplete : ManifestPage → List OriginState → ℕ → Option CompleteInventory → Bool
unfolding differs_from is_short
is_incomplete page previous expected_page evidence =
    not (page.page_number == expected_page)
    || (differs_from evidence page.evidence
        || (ltb max_records (length previous + length page.descriptors) || is_short page))

-- `validatePageProgress`
unfoldable pub validate_page_progress :
    ManifestPage → List OriginState → ℕ → Option CompleteInventory → Result (Unit {0})
unfolding is_incomplete check_order
validate_page_progress page previous expected_page evidence = do
  reject (is_incomplete page previous expected_page evidence)
      (protocol_error 409 (js "incomplete-history"))
  check_order (last_from none previous) page.descriptors
