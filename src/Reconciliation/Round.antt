-- ===== src/Reconciliation/Round.antt =====
-- packages/cli/src/sync-reconciliation.ts and sync-http-server.ts together: one round of a pull.
use html_inbox.Common.{
  ℕ, ◌+◌, ◌*◌, ◌≤◌, ◌<◌, ◌≡◌, ◌⊎◌, refl, sym, ◌∙◌, ap, subst, arith, true, false, List, [], ◌∷◌,
  ◌++◌, none, some, Text, text_eq_refl, length, ok, append_assoc, inl, inr, Option-cases,
}
use html_inbox.Model.{
  OriginState, SyncRoute, CompleteInventory, Platform, is_outbound, manifest_page, max_records,
  max_ledger_bytes,
}
use html_inbox.Json.{stringify}
use html_inbox.Ledger.Encode.{of_inventory}
use html_inbox.Store.{Store}
use html_inbox.Wire.{ManifestPage}
use html_inbox.Wire.Parse.{parse_manifest_page}
use html_inbox.Wire.Progress.{differs_from, is_short, last_from}
use html_inbox.Wire.Ordered.{AscendsFrom, AscendsFrom-split, IsAscending, length-append}
use html_inbox.Server.{Session}
use html_inbox.Server.Sessions.{states_size}
use html_inbox.Server.Manifest.{drop, page_of, pulled, take}
use html_inbox.Reconciliation.{Pass, Pulling}
use html_inbox.Reconciliation.Pull.{
  is_challenge_answered, of_page, receive_page, receive_states, taken_page,
}
use html_inbox.Reconciliation.Sizes.{
  states_size-cons, states_size-total_size, total_size, total_size-append,
}
use html_inbox.Reconciliation.Cut.{length-take, page_of-descriptors, page_of-next_cursor, take-drop}
use html_inbox.Reconciliation.Accepted.{receive_page_complete, receive_states-split}

-- Both sides have dealt with the states in front, and those at the back are still to come.
pub record IsHalfway (evidence : CompleteInventory) (session : Session) (pulling : Pulling)
    (front back : List OriginState) : Type 0 where
  pub way : is_outbound session.direction ≡ true
  pub unread : session.ready ≡ false
  pub known : session.evidence ≡ some evidence
  pub whole : session.states ≡ front ++ back
  pub start : length front ≡ session.page_number * manifest_page
  pub got : pulling.states ≡ front
  pub number : session.page_number ≡ pulling.page_number
  pub cursor : pulling.cursor ≡ session.cursor
  pub same : differs_from pulling.evidence evidence ≡ false
  pub room : pulling.bytes + (2 + total_size back) ≤ max_ledger_bytes

next_ascend :
    (n : ℕ) (front back : List OriginState)
    → IsAscending (front ++ back)
    → AscendsFrom (last_from none front) (take n back)
next_ascend n front back ascending =
    let after = (AscendsFrom-split none front back ascending).1 in
    (AscendsFrom-split (last_from none front) (take n back) (drop n back)
      (subst (λ xs. AscendsFrom (last_from none front) xs) (sym (take-drop n back)) after)).0

pub next_received :
    ⦃p : Platform⦄ (pass : Pass) (route : SyncRoute) (n : ℕ) (back : List OriginState)
    (before after : Store)
    → receive_states pass route back before ≡ (ok tt, after)
    → (between : Store) × (receive_states pass route (take n back) before ≡ (ok tt, between))
      × (receive_states pass route (drop n back) between ≡ (ok tt, after))
next_received pass route n back before after received =
    receive_states-split pass route (take n back) (drop n back) before after (
      subst (λ xs. receive_states pass route xs before ≡ (ok tt, after)) (sym (take-drop n back))
        received)

pub length-parts :
    (n : ℕ) (xs : List OriginState) → length (take n xs) + length (drop n xs) ≡ length xs
length-parts n xs =
    sym (length-append (take n xs) (drop n xs)) ∙ ap (λ ys. length ys) (take-drop n xs)

size-parts :
    (n : ℕ) (xs : List OriginState)
    → total_size (take n xs) + total_size (drop n xs) ≡ total_size xs
size-parts n xs =
    sym (total_size-append (take n xs) (drop n xs)) ∙ ap (λ ys. total_size ys) (take-drop n xs)

full_size : (states : List OriginState) → 0 < length states → states_size states ≤ total_size states
full_size [] h = absurd (omega arith)
full_size (state ∷ states) h = states_size-cons state states

not_short :
    (page : ManifestPage)
    → ((page.next_cursor ≡ none) ⊎ (length page.descriptors ≡ manifest_page))
    → is_short page ≡ false
unfolding is_short
not_short page (inl e) = rw e refl
not_short page (inr e) = elim (Option-cases page.next_cursor) [
  | inl none_left ↦ rw none_left refl
  | inr (token, more) ↦ rw (more, e) refl
]

module _ ⦃p : Platform⦄ (pass : Pass) (route : SyncRoute) (nonce : Text) (tokens : ℕ → Text)
    (evidence : CompleteInventory)
    (answered : is_challenge_answered route nonce evidence ≡ true) where
  -- The page that comes next is accepted.
  accept_cut :
      (page : ManifestPage) (pulling : Pulling) (n : ℕ) (front back : List OriginState)
      (before after : Store)
      → parse_manifest_page (of_page page) ≡ ok page
      → page.page_number ≡ pulling.page_number
      → page.evidence ≡ evidence
      → page.descriptors ≡ take n back
      → is_short page ≡ false
      → pulling.states ≡ front
      → differs_from pulling.evidence evidence ≡ false
      → pulling.bytes + (2 + total_size back) ≤ max_ledger_bytes
      → IsAscending (front ++ back)
      → length (front ++ back) ≤ max_records
      → receive_states pass route (take n back) before ≡ (ok tt, after)
      → receive_page pass route nonce (of_page page) pulling before
        ≡ (ok (taken_page page pulling), after)
  accept_cut page pulling n front back before after arrived number known cut long got same room
        ascending few received =
      receive_page_complete pass route nonce page pulling before after arrived number
        (rw known same)
        (rw (got, cut) (ground (arith, length-parts n back, length-append front back))) long
        (rw (got, cut) (next_ascend n front back ascending)) (rw known answered)
        (rw cut (ground (arith, size-parts n back, states_size-total_size (take n back))))
        (rw cut received)

  pub round :
      (session : Session) (pulling : Pulling) (front back : List OriginState) (before after : Store)
      → parse_manifest_page (of_page (page_of session evidence (tokens session.page_number)))
        ≡ ok (page_of session evidence (tokens session.page_number))
      → IsHalfway evidence session pulling front back
      → IsAscending (front ++ back)
      → length (front ++ back) ≤ max_records
      → receive_states pass route (take manifest_page back) before ≡ (ok tt, after)
      → receive_page pass route nonce
          (of_page (page_of session evidence (tokens session.page_number)))
          pulling
          before
        ≡ (ok (taken_page (page_of session evidence (tokens session.page_number)) pulling), after)
  unfolding page_of
  round session pulling front back before after arrived halfway ascending few received =
      let token = tokens session.page_number in
      let cut = page_of-descriptors session evidence token front back halfway.whole halfway.start in
      accept_cut (page_of session evidence token) pulling manifest_page front back before after
        arrived halfway.number refl cut
        (not_short (page_of session evidence token)
          (elim (page_of-next_cursor session evidence token front back halfway.whole
            halfway.start) [
              | inl (last, nothing) ↦ inl last
              | inr (more, left) ↦
                  inr (ap (λ xs. length xs) cut ∙ length-take manifest_page back left)
            ]))
        halfway.got halfway.same halfway.room ascending few received

  -- What is left after a round that was not the last.
  pub round-IsHalfway :
      (session : Session) (pulling : Pulling) (front back : List OriginState) (token : Text)
      → IsHalfway evidence session pulling front back
      → (page_of session evidence token).next_cursor ≡ some token
      → 0 < length (drop manifest_page back)
      → IsHalfway evidence
          (pulled (page_of session evidence token) session)
          (taken_page (page_of session evidence token) pulling)
          (front ++ take manifest_page back)
          (drop manifest_page back)
  unfolding page_of pulled taken_page differs_from
  round-IsHalfway session pulling front back token halfway more left =
      let cut = page_of-descriptors session evidence token front back halfway.whole halfway.start in
      let full = length-take manifest_page back left in
      record {
        way = halfway.way;
        unread = rw more halfway.unread;
        known = halfway.known;
        whole =
            halfway.whole
            ∙ ap (λ xs. front ++ xs) (sym (take-drop manifest_page back))
            ∙ sym (append_assoc front (take manifest_page back) (drop manifest_page back));
        start = length-append front (take manifest_page back) ∙ ground (arith, halfway.start, full);
        got = rw (halfway.got, cut) refl;
        number = ground (arith, halfway.number);
        cursor = refl;
        same = rw (text_eq_refl (stringify (of_inventory evidence))) refl;
        room = rw cut (
            ground (
              arith,
              halfway.room,
              size-parts manifest_page back,
              full,
              full_size (take manifest_page back),
            ));
      }
