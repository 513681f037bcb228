-- ===== src/Reconciliation/Whole.antt =====
-- packages/cli/src/sync-reconciliation.ts and sync-http-server.ts together: a pull ends, with the whole
-- inventory of the session.
use html_inbox.Common.{
  ℕ, zero, suc, ◌+◌, ◌*◌, ◌≤◌, ◌<◌, ◌≡◌, refl, sym, ◌∙◌, ap, arith, true, false, List, [], ◌++◌,
  Option, none, some, Text, length, Result, ok, subst, append_assoc, append-nil, inl, inr,
}
use html_inbox.Model.{
  OriginState, SyncRoute, CompleteInventory, Platform, is_outbound, manifest_page, max_records,
  max_ledger_bytes,
}
use html_inbox.Store.{Store}
use html_inbox.Store.Monad.{M, pure}
use html_inbox.Wire.{ManifestPage}
use html_inbox.Wire.Parse.{parse_manifest_page}
use html_inbox.Wire.Progress.{differs_from}
use html_inbox.Wire.Ordered.{IsAscending, length-append}
use html_inbox.Server.{Session}
use html_inbox.Server.Manifest.{drop, page_of, pull_page, pulled, take}
use html_inbox.Reconciliation.{Pass, Pulling}
use html_inbox.Reconciliation.Checks.{check_session}
use html_inbox.Reconciliation.Pull.{
  is_challenge_answered, of_page, receive_page, receive_states, start_pulling, taken_page,
}
use html_inbox.Reconciliation.Sizes.{total_size}
use html_inbox.Reconciliation.Exchange.{exchange}
use html_inbox.Reconciliation.Cut.{
  length-take, page_of-descriptors, page_of-next_cursor, pull_page_complete, take-drop,
}
use html_inbox.Reconciliation.Pages.{CanBeSent, parse_manifest_page-page_of}
use html_inbox.Reconciliation.Round.{IsHalfway, length-parts, next_received, round, round-IsHalfway}

-- What a pull ends with.
pub record IsPulled (evidence : CompleteInventory) (states : List OriginState) (session : Session)
    (pulling : Pulling) : Type 0 where
  pub got : pulling.states ≡ states
  pub known : pulling.evidence ≡ some evidence
  pub ended : pulling.cursor ≡ none
  pub read : session.ready ≡ true

by_none {ℓ} :
    {A : Type ℓ} (o : Option Text) (x : A) (f : Text → A)
    → o ≡ none
    → elim o [ none ↦ x | some t ↦ f t ] ≡ x
by_none o x f e = rw e refl

by_some {ℓ} :
    {A : Type ℓ} (o : Option Text) (x : A) (f : Text → A) (t : Text)
    → o ≡ some t
    → elim o [ none ↦ x | some u ↦ f u ] ≡ f t
by_some o x f t e = rw e refl

in_lease : (deadline now : ℕ) → now < deadline → check_session deadline now ≡ ok tt
unfolding check_session
in_lease deadline now h = ground arith

-- The lease lasts at the head of each round.
abbrev pub IsInTime : Pass → List OriginState → Type 0
IsInTime pass states =
    (n : ℕ) → n * manifest_page ≤ length states → pass.clock n < pass.lease_deadline

-- The client reads each page that the server cuts from these states as it was sent.
abbrev IsReadable : ⦃p : Platform⦄ → CompleteInventory → (ℕ → Text) → List OriginState → Type 0
IsReadable evidence tokens states =
    (session : Session)
    → session.states ≡ states
    → session.page_number * manifest_page ≤ length states
    → parse_manifest_page (of_page (page_of session evidence (tokens session.page_number)))
      ≡ ok (page_of session evidence (tokens session.page_number))

sent-IsReadable :
    ⦃p : Platform⦄ (evidence : CompleteInventory) (tokens : ℕ → Text) (states : List OriginState)
    → CanBeSent evidence tokens states
    → length states ≤ max_records
    → IsReadable evidence tokens states
sent-IsReadable evidence tokens states sent few session same inside =
    parse_manifest_page-page_of evidence tokens session
      (subst (λ xs. CanBeSent evidence tokens xs) (sym same) sent) (rw same few) (rw same inside)

all_taken : (xs : List OriginState) → drop manifest_page xs ≡ [] → take manifest_page xs ≡ xs
all_taken xs nothing =
    sym (append-nil (take manifest_page xs))
    ∙ ap (λ ys. take manifest_page xs ++ ys) (sym nothing)
    ∙ take-drop manifest_page xs

some_rounds :
    (rounds taken left whole : ℕ)
    → taken + left ≡ whole
    → taken ≡ manifest_page
    → 0 < left
    → whole ≤ suc rounds * manifest_page
    → 0 < rounds
some_rounds rounds taken left whole e f h k = omega arith

fewer_rounds :
    (rounds taken left whole : ℕ)
    → taken + left ≡ whole
    → taken ≡ manifest_page
    → whole ≤ suc rounds * manifest_page
    → left ≤ rounds * manifest_page
fewer_rounds rounds taken left whole e f k = omega arith

module _ ⦃p : Platform⦄ (pass : Pass) (route : SyncRoute) (nonce : Text) (tokens : ℕ → Text)
    (evidence : CompleteInventory)
    (answered : is_challenge_answered route nonce evidence ≡ true) where
  -- One round of the loop, and what it leaves.
  exchange-last :
      (rounds : ℕ) (session : Session) (pulling : Pulling) (page : ManifestPage)
      (before after : Store)
      → check_session pass.lease_deadline (pass.clock pulling.page_number) ≡ ok tt
      → pull_page session pulling.cursor (tokens session.page_number)
        ≡ ok (page, pulled page session)
      → receive_page pass route nonce (of_page page) pulling before
        ≡ (ok (taken_page page pulling), after)
      → page.next_cursor ≡ none
      → exchange (suc rounds) pass route nonce tokens session pulling before
        ≡ (ok (pulled page session, taken_page page pulling), after)
  unfolding exchange taken_page
  exchange-last rounds session pulling page before after current sent accepted last =
      rw (current, sent, accepted)
        (ap (λ (m : M (Session × Pulling)). m after)
          (by_none page.next_cursor (pure (pulled page session, taken_page page pulling))
            (λ cursor.
              exchange rounds pass route nonce tokens (pulled page session)
                (taken_page page pulling))
            last))

  exchange-more :
      (rounds : ℕ) (session : Session) (pulling : Pulling) (page : ManifestPage) (token : Text)
      (before after : Store)
      → check_session pass.lease_deadline (pass.clock pulling.page_number) ≡ ok tt
      → pull_page session pulling.cursor (tokens session.page_number)
        ≡ ok (page, pulled page session)
      → receive_page pass route nonce (of_page page) pulling before
        ≡ (ok (taken_page page pulling), after)
      → page.next_cursor ≡ some token
      → exchange (suc rounds) pass route nonce tokens session pulling before
        ≡ exchange rounds pass route nonce tokens
            (pulled page session)
            (taken_page page pulling)
            after
  unfolding exchange taken_page
  exchange-more rounds session pulling page token before after current sent accepted more =
      rw (current, sent, accepted)
        (ap (λ (m : M (Session × Pulling)). m after)
          (by_some page.next_cursor (pure (pulled page session, taken_page page pulling))
            (λ cursor.
              exchange rounds pass route nonce tokens (pulled page session)
                (taken_page page pulling))
            token more))

  -- Nothing is left to receive.
  ended :
      (result : Session × Pulling) (between after : Store)
      → receive_states pass route [] between ≡ (ok tt, after)
      → Path (Result (Session × Pulling) × Store) (ok result, between) (ok result, after)
  unfolding receive_states
  ended result between after h = ap (λ r. (ok result, r.1)) h

  last_round :
      (session : Session) (pulling : Pulling) (states front back : List OriginState) (token : Text)
      → IsHalfway evidence session pulling front back
      → front ++ back ≡ states
      → (page_of session evidence token).next_cursor ≡ none
      → drop manifest_page back ≡ []
      → IsPulled evidence states
          (pulled (page_of session evidence token) session)
          (taken_page (page_of session evidence token) pulling)
  unfolding page_of pulled taken_page
  last_round session pulling states front back token halfway parts last nothing =
      let cut = page_of-descriptors session evidence token front back halfway.whole halfway.start in
      record {
        got = rw (halfway.got, cut) (ap (λ xs. front ++ xs) (all_taken back nothing) ∙ parts);
        known = refl;
        ended = last;
        read = rw last refl;
      }

  -- Where the rounds suffice for what is left, the loop ends with everything.
  exchange-IsPulled :
      (rounds : ℕ) (session : Session) (pulling : Pulling) (states front back : List OriginState)
      (before after : Store)
      → IsInTime pass states
      → IsReadable evidence tokens states
      → IsHalfway evidence session pulling front back
      → front ++ back ≡ states
      → IsAscending states
      → length states ≤ max_records
      → receive_states pass route back before ≡ (ok tt, after)
      → 0 < rounds
      → length back ≤ rounds * manifest_page
      → (s : Session) × (q : Pulling) × (exchange rounds pass route nonce tokens session pulling
            before
          ≡ (ok (s, q), after))
        × IsPulled evidence states s q
  unfolding check_session
  exchange-IsPulled zero session pulling states front back before after in_time readable halfway
        parts ascending few received positive enough =
      absurd (omega arith)
  exchange-IsPulled (suc rounds) session pulling states front back before after in_time readable
        halfway parts ascending few received positive enough =
      let token = tokens session.page_number in
      let page = page_of session evidence token in
      let begun : session.page_number * manifest_page ≤ length states =
        rw (sym halfway.start, sym parts, length-append front back) (omega arith) in
      let (between, first, rest) =
        next_received pass route manifest_page back before after received in
      let current : check_session pass.lease_deadline (pass.clock pulling.page_number) ≡ ok tt =
        in_lease pass.lease_deadline (pass.clock pulling.page_number)
          (in_time pulling.page_number (rw (sym halfway.number) begun)) in
      let sent =
        pull_page_complete session evidence pulling.cursor token halfway.way halfway.unread
          halfway.known halfway.cursor in
      let accepted =
        round pass route nonce tokens evidence answered session pulling front back before between
          (readable session (halfway.whole ∙ parts) begun) halfway (rw parts ascending)
          (rw parts few) first in
      elim (page_of-next_cursor session evidence token front back halfway.whole halfway.start) [
        | inl (last, nothing) ↦ (
          pulled page session,
          taken_page page pulling,
          exchange-last rounds session pulling page before between current sent accepted last
              ∙ ended (pulled page session, taken_page page pulling) between after
                  (subst (λ xs. receive_states pass route xs between ≡ (ok tt, after)) nothing
                    rest),
          last_round session pulling states front back token halfway parts last nothing,
        )
        | inr (more, left) ↦
            let size = length-parts manifest_page back in
            let full = length-take manifest_page back left in
            let (s, q, goes, result) =
              exchange-IsPulled rounds (pulled page session) (taken_page page pulling) states
                (front ++ take manifest_page back) (drop manifest_page back) between after in_time
                readable
                (round-IsHalfway pass route nonce tokens evidence answered session pulling front
                  back token halfway more left)
                (append_assoc front (take manifest_page back) (drop manifest_page back)
                  ∙ ap (λ xs. front ++ xs) (take-drop manifest_page back)
                  ∙ parts)
                ascending few rest (some_rounds rounds _ _ _ size full left enough)
                (fewer_rounds rounds _ _ _ size full enough) in
            (
              s,
              q,
              exchange-more rounds session pulling page token before between current sent accepted
                    more
                  ∙ goes,
              result,
            )
      ]

-- A session that was opened for a pull, and has not been read.
pub record IsOpened (evidence : CompleteInventory) (session : Session) : Type 0 where
  pub way : is_outbound session.direction ≡ true
  pub unread : session.ready ≡ false
  pub known : session.evidence ≡ some evidence
  pub first : session.page_number ≡ 0
  pub unasked : session.cursor ≡ none

-- A pull of an opened session ends after one round for each page, and the client then holds exactly the
-- states of the session under its evidence, where the lease lasts at the head of each round, each
-- token is read as it was sent, the evidence and the states are what the protocol allows, of at most 64 KiB for a
-- state, the states ascend and are within the limits, and the client can receive them one after
-- another: each can be verified and its store accepts each that is deleted.
pub exchange-IsWhole :
    ⦃p : Platform⦄ (pass : Pass) (route : SyncRoute) (nonce : Text) (tokens : ℕ → Text)
    (evidence : CompleteInventory) (session : Session) (rounds : ℕ) (before after : Store)
    → IsOpened evidence session
    → IsInTime pass session.states
    → CanBeSent evidence tokens session.states
    → is_challenge_answered route nonce evidence ≡ true
    → IsAscending session.states
    → length session.states ≤ max_records
    → receive_states pass route session.states before ≡ (ok tt, after)
    → 2 + total_size session.states ≤ max_ledger_bytes
    → 0 < rounds
    → length session.states ≤ rounds * manifest_page
    → (s : Session) × (q : Pulling) × (exchange rounds pass route nonce tokens session start_pulling
          before
        ≡ (ok (s, q), after))
      × IsPulled evidence session.states s q
unfolding differs_from
exchange-IsWhole pass route nonce tokens evidence session rounds before after opened in_time sent
      answered ascending few received room positive enough =
    exchange-IsPulled pass route nonce tokens evidence answered rounds session start_pulling
      session.states [] session.states before after in_time
      (sent-IsReadable evidence tokens session.states sent few)
      (record {
        way = opened.way;
        unread = opened.unread;
        known = opened.known;
        whole = refl;
        start = ground (arith, opened.first);
        got = refl;
        number = opened.first;
        cursor = sym opened.unasked;
        same = refl;
        room = omega arith;
      })
      refl ascending few received positive enough
