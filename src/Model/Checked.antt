-- ===== src/Model/Checked.antt =====
-- What the checks of single fields (packages/cli/src/sync-model.ts) accept.
use html_inbox.Common.{
  ℕ, ◌≤◌, ◌≡◌, Bool, true, ◌&&◌, Text, ok, Fault, >>=-eq-ok, ◌>>=◌, ◌∙◌, ap, subst, ◌<◌, ◌^◌,
  invalid_uuid, uppercase_uuid, invalid_document_id, invalid_digest, arith,
}
use html_inbox.Json.{Json, undefined, null, bool, num, other_num, str, arr, obj}
use html_inbox.Model.Fields.{
  parse_string, check_string, is_bounded_string, check_matching, parse_uuid, is_uuid_v4,
  has_no_upper, parse_safe_id, is_safe_document_id, parse_digest, is_digest, parse_integer,
}

pub parse_string_sound :
    (maximum : ℕ) (v : Json) (s : Text)
    → parse_string maximum v ≡ ok s
    → (v ≡ str s) × (is_bounded_string maximum s ≡ true)
unfolding parse_string check_string
parse_string_sound maximum (str t) s h = (ground arith, ground arith)
parse_string_sound maximum undefined s h = cc
parse_string_sound maximum null s h = cc
parse_string_sound maximum (bool b) s h = cc
parse_string_sound maximum (num n) s h = cc
parse_string_sound maximum (other_num n) s h = cc
parse_string_sound maximum (arr n) s h = cc
parse_string_sound maximum (obj n) s h = cc

check_matching_sound :
    (test : Text → Bool) (e : Fault) (t s : Text)
    → check_matching test e t ≡ ok s
    → (t ≡ s) × (test s ≡ true)
unfolding check_matching
check_matching_sound test e t s h = (ground arith, ground arith)

-- A bounded string that passes one more test.
pub record IsText (test : Text → Bool) (maximum : ℕ) (s : Text) : Type 0 where
  pub bounded : is_bounded_string maximum s ≡ true
  pub tested : test s ≡ true

pub matching_sound :
    (test : Text → Bool) (maximum : ℕ) (e : Fault) (v : Json) (s : Text)
    → (do result ← parse_string maximum v; check_matching test e result) ≡ ok s
    → (v ≡ str s) × IsText test maximum s
matching_sound test maximum e v s h =
    let (t, p, k) = >>=-eq-ok (parse_string maximum v) (check_matching test e) h in
    let (shape, size) = parse_string_sound maximum v t p in
    let (same, good) = check_matching_sound test e t s k in
    (
      shape ∙ ap str same,
      record { bounded = subst (λ x. is_bounded_string maximum x ≡ true) same size; tested = good },
    )

pub matching_complete :
    (test : Text → Bool) (maximum : ℕ) (e : Fault) (s : Text)
    → IsText test maximum s
    → (do result ← parse_string maximum (str s); check_matching test e result) ≡ ok s
unfolding parse_string check_string check_matching
matching_complete test maximum e s h = let a = h.bounded in let b = h.tested in ground arith

abbrev is_lower_uuid : Text → Bool
is_lower_uuid s = is_uuid_v4 s && has_no_upper s

-- The texts that the parsers give back.
abbrev pub IsUuid : Text → Type 0
IsUuid = IsText is_lower_uuid 36

abbrev pub IsSafeId : Text → Type 0
IsSafeId = IsText is_safe_document_id 255

abbrev pub IsDigest : Text → Type 0
IsDigest = IsText is_digest 64

both : (a b : Bool) → a ≡ true → b ≡ true → (a && b) ≡ true
both a b h k = ground arith

pub parse_uuid_sound : (v : Json) (s : Text) → parse_uuid v ≡ ok s → (v ≡ str s) × IsUuid s
unfolding parse_uuid
parse_uuid_sound v s h =
    let (t, p, k) = >>=-eq-ok (parse_string 36 v) _ h in
    let (u, q, l) =
      >>=-eq-ok (check_matching is_uuid_v4 invalid_uuid t)
        (check_matching has_no_upper uppercase_uuid) k in
    let (shape, size) = parse_string_sound 36 v t p in
    let (one, good) = check_matching_sound is_uuid_v4 invalid_uuid t u q in
    let (two, lower) = check_matching_sound has_no_upper uppercase_uuid u s l in
    (
      shape ∙ ap str (one ∙ two),
      record {
        bounded = subst (λ x. is_bounded_string 36 x ≡ true) (one ∙ two) size;
        tested =
            both (is_uuid_v4 s) (has_no_upper s) (subst (λ x. is_uuid_v4 x ≡ true) two good) lower;
      },
    )

pub parse_uuid_complete : (s : Text) → IsUuid s → parse_uuid (str s) ≡ ok s
unfolding parse_uuid parse_string check_string check_matching
parse_uuid_complete s h = let a = h.bounded in let b = h.tested in ground arith

pub parse_safe_id_sound : (v : Json) (s : Text) → parse_safe_id v ≡ ok s → (v ≡ str s) × IsSafeId s
unfolding parse_safe_id
parse_safe_id_sound v s h = matching_sound is_safe_document_id 255 invalid_document_id v s h

pub parse_safe_id_complete : (s : Text) → IsSafeId s → parse_safe_id (str s) ≡ ok s
unfolding parse_safe_id
parse_safe_id_complete s h = matching_complete is_safe_document_id 255 invalid_document_id s h

pub parse_digest_sound : (v : Json) (s : Text) → parse_digest v ≡ ok s → (v ≡ str s) × IsDigest s
unfolding parse_digest
parse_digest_sound v s h = matching_sound is_digest 64 invalid_digest v s h

pub parse_digest_complete : (s : Text) → IsDigest s → parse_digest (str s) ≡ ok s
unfolding parse_digest
parse_digest_complete s h = matching_complete is_digest 64 invalid_digest s h

-- A number within its bounds, which JavaScript represents exactly.
pub record IsWithin (minimum maximum n : ℕ) : Type 0 where
  pub at_least : minimum ≤ n
  pub at_most : n ≤ maximum
  pub exact : n < 2 ^ 53

pub parse_integer_sound :
    (minimum maximum : ℕ) (v : Json) (n : ℕ)
    → parse_integer minimum maximum v ≡ ok n
    → (v ≡ num n) × IsWithin minimum maximum n
unfolding parse_integer
parse_integer_sound minimum maximum (num m) n h =
    (ground arith, record { at_least = ground arith; at_most = ground arith; exact = ground arith })
parse_integer_sound minimum maximum undefined n h = cc
parse_integer_sound minimum maximum null n h = cc
parse_integer_sound minimum maximum (bool b) n h = cc
parse_integer_sound minimum maximum (other_num t) n h = cc
parse_integer_sound minimum maximum (str t) n h = cc
parse_integer_sound minimum maximum (arr t) n h = cc
parse_integer_sound minimum maximum (obj t) n h = cc

pub parse_integer_complete :
    (minimum maximum n : ℕ)
    → IsWithin minimum maximum n
    → parse_integer minimum maximum (num n) ≡ ok n
unfolding parse_integer
parse_integer_complete minimum maximum n h =
    let a = h.at_least in let b = h.at_most in let c = h.exact in ground arith
