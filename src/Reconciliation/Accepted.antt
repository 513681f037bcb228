-- ===== src/Reconciliation/Accepted.antt =====
-- packages/cli/src/sync-reconciliation.ts: when `pull` accepts a page.
use html_inbox.Common.{
  ◌+◌, ◌≤◌, ◌≡◌, refl, arith, true, false, List, [], ◌∷◌, ◌++◌, none, Text, length, ltb, ok,
}
use html_inbox.Model.{OriginState, SyncRoute, Platform, max_records, max_ledger_bytes}
use html_inbox.Store.{Store}
use html_inbox.Store.Monad.{>>=-eq-ok}
use html_inbox.Wire.{ManifestPage}
use html_inbox.Wire.Parse.{parse_manifest_page}
use html_inbox.Wire.Progress.{
  differs_from, is_incomplete, is_short, last_from, validate_page_progress,
}
use html_inbox.Wire.Ordered.{AscendsFrom, check_order_complete}
use html_inbox.Server.Sessions.{states_size}
use html_inbox.Reconciliation.{Pass, Pulling}
use html_inbox.Reconciliation.Pull.{
  is_challenge_answered, of_page, receive_page, receive_state, receive_states, taken_page,
}

-- States that are received one after another, in two parts.
pub receive_states-split :
    ⦃p : Platform⦄ (pass : Pass) (route : SyncRoute) (xs ys : List OriginState)
    (before after : Store)
    → receive_states pass route (xs ++ ys) before ≡ (ok tt, after)
    → (between : Store) × (receive_states pass route xs before ≡ (ok tt, between))
      × (receive_states pass route ys between ≡ (ok tt, after))
unfolding receive_states
receive_states-split pass route [] ys before after h = (before, refl, h)
receive_states-split pass route (x ∷ xs) ys before after h =
    let (u, next, first, rest) =
      >>=-eq-ok (receive_state pass route x) (λ _. receive_states pass route (xs ++ ys)) before
        after h in
    let (between, front, back) = receive_states-split pass route xs ys next after rest in
    (between, rw first front, back)

incomplete_false :
    (page : ManifestPage) (pulling : Pulling)
    → page.page_number ≡ pulling.page_number
    → differs_from pulling.evidence page.evidence ≡ false
    → length pulling.states + length page.descriptors ≤ max_records
    → is_short page ≡ false
    → is_incomplete page pulling.states pulling.page_number pulling.evidence ≡ false
unfolding is_incomplete
incomplete_false page pulling number same few long = ground arith

-- The client's part of a round.
pub receive_page_complete :
    ⦃p : Platform⦄ (pass : Pass) (route : SyncRoute) (nonce : Text) (page : ManifestPage)
    (pulling : Pulling) (before after : Store)
    → parse_manifest_page (of_page page) ≡ ok page
    → page.page_number ≡ pulling.page_number
    → differs_from pulling.evidence page.evidence ≡ false
    → length pulling.states + length page.descriptors ≤ max_records
    → is_short page ≡ false
    → AscendsFrom (last_from none pulling.states) page.descriptors
    → is_challenge_answered route nonce page.evidence ≡ true
    → pulling.bytes + states_size page.descriptors ≤ max_ledger_bytes
    → receive_states pass route page.descriptors before ≡ (ok tt, after)
    → receive_page pass route nonce (of_page page) pulling before
      ≡ (ok (taken_page page pulling), after)
unfolding receive_page validate_page_progress
receive_page_complete pass route nonce page pulling before after arrived number same few long
      ascending answered room taken =
    let complete : is_incomplete page pulling.states pulling.page_number pulling.evidence ≡ false =
      incomplete_false page pulling number same few long in
    let small : ltb max_ledger_bytes (pulling.bytes + states_size page.descriptors) ≡ false =
      ground arith in
    rw
      (
        arrived,
        complete,
        check_order_complete (last_from none pulling.states) page.descriptors ascending,
        answered,
        small,
        taken,
      )
      refl
