-- ===== src/Reconciliation/Cut.antt =====
-- packages/cli/src/sync-http-server.ts: the pages that the server cuts of an inventory.
use html_inbox.Common.{
  ℕ, zero, suc, ◌+◌, ◌*◌, ◌≤◌, ◌<◌, ◌≡◌, ◌⊎◌, refl, sym, ◌∙◌, ap, arith, true, false, List, [], ◌∷◌,
  ◌++◌, Option, none, some, Text, text_eq_refl, length, ltb, ok, inl, inr, Bool-cases,
}
use html_inbox.Model.{OriginState, CompleteInventory, is_outbound, manifest_page}
use html_inbox.Wire.Ordered.{length-append}
use html_inbox.Server.{Session}
use html_inbox.Server.Manifest.{drop, page_of, pull_page, pulled, same_cursor, take}

module _ {ℓ} {A : Type ℓ} where
  pub take-drop : (n : ℕ) (xs : List A) → take n xs ++ drop n xs ≡ xs
  take-drop zero xs = refl
  take-drop (suc n) [] = refl
  take-drop (suc n) (x ∷ xs) = ap (λ ys. x ∷ ys) (take-drop n xs)

  pub drop-append : (xs ys : List A) → drop (length xs) (xs ++ ys) ≡ ys
  drop-append [] ys = refl
  drop-append (x ∷ xs) ys = drop-append xs ys

  pub length-take : (n : ℕ) (xs : List A) → 0 < length (drop n xs) → length (take n xs) ≡ n
  length-take zero xs h = refl
  length-take (suc n) [] h = absurd (omega arith)
  length-take (suc n) (x ∷ xs) h = ap suc (length-take n xs h)

same_cursor_refl : (cursor : Option Text) → same_cursor cursor cursor ≡ true
unfolding same_cursor
same_cursor_refl none = refl
same_cursor_refl (some s) = text_eq_refl s

-- The server's part of a round.
pub pull_page_complete :
    (session : Session) (evidence : CompleteInventory) (cursor : Option Text) (token : Text)
    → is_outbound session.direction ≡ true
    → session.ready ≡ false
    → session.evidence ≡ some evidence
    → cursor ≡ session.cursor
    → pull_page session cursor token
      ≡ ok (page_of session evidence token, pulled (page_of session evidence token) session)
unfolding pull_page
pull_page_complete session evidence cursor token way unread known right =
    rw (way, unread, known, right, same_cursor_refl session.cursor) refl

empty_of_length : (xs : List OriginState) → length xs ≤ 0 → xs ≡ []
empty_of_length [] h = refl
empty_of_length (x ∷ xs) h = absurd (omega arith)

left_over :
    (offset taken left total : ℕ)
    → total ≡ offset + (taken + left)
    → ltb (offset + taken) total ≡ ltb 0 left
left_over offset taken left total e = ground arith

some_left : (left : ℕ) → ltb 0 left ≡ true → 0 < left
some_left left e = ground arith

none_left : (left : ℕ) → ltb 0 left ≡ false → left ≤ 0
none_left left e = ground arith

-- What the server cuts: the next states, and a cursor exactly when some are left.
pub page_of-descriptors :
    (session : Session) (evidence : CompleteInventory) (token : Text)
    (front back : List OriginState)
    → session.states ≡ front ++ back
    → length front ≡ session.page_number * manifest_page
    → (page_of session evidence token).descriptors ≡ take manifest_page back
unfolding page_of
page_of-descriptors session evidence token front back whole start =
    rw (whole, sym start, drop-append front back) refl

pub page_of-next_cursor :
    (session : Session) (evidence : CompleteInventory) (token : Text)
    (front back : List OriginState)
    → session.states ≡ front ++ back
    → length front ≡ session.page_number * manifest_page
    → (((page_of session evidence token).next_cursor ≡ none) × (drop manifest_page back ≡ []))
      ⊎ (((page_of session evidence token).next_cursor ≡ some token)
          × (0 < length (drop manifest_page back)))
unfolding page_of
page_of-next_cursor session evidence token front back whole start =
    let offset = session.page_number * manifest_page in
    let cut : take manifest_page (drop offset session.states) ≡ take manifest_page back =
      page_of-descriptors session evidence token front back whole start in
    let size : length session.states
        ≡ length front + (length (take manifest_page back) + length (drop manifest_page back)) =
      rw (whole, length-append front back)
        (ap (λ n. length front + n)
          (ap (λ xs. length xs) (sym (take-drop manifest_page back))
            ∙ length-append (take manifest_page back) (drop manifest_page back))) in
    let test : ltb (offset + length (take manifest_page (drop offset session.states)))
          (length session.states)
        ≡ ltb 0 (length (drop manifest_page back)) =
      rw cut (
        left_over offset (length (take manifest_page back)) (length (drop manifest_page back))
          (length session.states)
          (size
            ∙ ap (λ n. n + (length (take manifest_page back) + length (drop manifest_page back)))
                start)) in
    elim (Bool-cases (ltb 0 (length (drop manifest_page back)))) [
      | inl more ↦ inr (rw (test ∙ more) refl, some_left _ more)
      | inr last ↦ inl (rw (test ∙ last) refl, empty_of_length _ (none_left _ last))
    ]
