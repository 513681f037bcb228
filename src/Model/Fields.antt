-- ===== src/Model/Fields.antt =====
-- packages/cli/src/sync-model.ts, validation.ts and documents.ts: the checks of single fields.
use html_inbox.Common.{
  ℕ, Bool, true, false, not, ◌&&◌, ◌||◌, List, [], ◌∷◌, ◌++◌, Option, none, some, Text, text_eq,
  includes, length, all, any, leb, ◌==◌, if◌then◌else◌, Result, ok, err, ◌>>=◌, reject, Fault,
  invalid_object, invalid_fields, invalid_string, invalid_uuid, uppercase_uuid, invalid_document_id,
  invalid_digest, invalid_reference, invalid_integer, invalid_boolean, invalid_choice,
  invalid_array, traverse,
}
use html_inbox.Json.{Json, null, bool, num, str, arr, obj, Fields, elements, entries, has_own}
use html_inbox.Model.{max_safe_integer}

-- Character classes.
abbrev between : ℕ → ℕ → ℕ → Bool
between lo hi c = leb lo c && leb c hi

abbrev pub is_digit : ℕ → Bool
is_digit c = between 48 57 c

abbrev pub is_lower : ℕ → Bool
is_lower c = between 97 122 c

abbrev pub is_upper : ℕ → Bool
is_upper c = between 65 90 c

abbrev pub is_lower_hex : ℕ → Bool
is_lower_hex c = is_digit c || between 97 102 c

abbrev is_hex : ℕ → Bool
is_hex c = is_lower_hex c || between 65 70 c

-- `[A-Za-z0-9_-]`
abbrev pub is_base64url : ℕ → Bool
is_base64url c = is_upper c || (is_lower c || (is_digit c || ((c == 95) || (c == 45))))

-- One class for each unit.
unfoldable pub matches : List (ℕ → Bool) → Text → Bool
matches [] [] = true
matches [] (_ ∷ _) = false
matches (_ ∷ _) [] = false
matches (p ∷ ps) (c ∷ s) = p c && matches ps s

abbrev dash : ℕ → Bool
dash c = c == 45

abbrev hex4 : List (ℕ → Bool)
hex4 = is_hex ∷ is_hex ∷ is_hex ∷ is_hex ∷ []

-- `UUID_V4_PATTERN`, which ignores case.
uuid_v4_pattern : List (ℕ → Bool)
uuid_v4_pattern =
    hex4
    ++ (hex4
        ++ (dash
            ∷ (hex4
                ++ (dash
                    ∷ (λ c. c == 52)
                    ∷ is_hex
                    ∷ is_hex
                    ∷ is_hex
                    ∷ dash
                    ∷ (λ c.
                        (c == 56)
                        || ((c == 57) || ((c == 97) || ((c == 98) || ((c == 65) || (c == 66))))))
                    ∷ is_hex
                    ∷ is_hex
                    ∷ is_hex
                    ∷ dash
                    ∷ (hex4 ++ (hex4 ++ hex4))))))

unfoldable pub parse_object : Json → Result Fields
parse_object (obj fs) = ok fs
parse_object _ = err invalid_object

unfoldable pub assert_exact_keys : Fields → List Text → Result (Unit {0})
unfolding has_own
assert_exact_keys value keys =
    reject
      (not (length (entries value) == length keys) || any (λ key. not (has_own key value)) keys)
      invalid_fields

unfoldable pub is_bounded_string : ℕ → Text → Bool
is_bounded_string maximum s = not (length s == 0) && (leb (length s) maximum && not (includes 0 s))

unfoldable pub check_string : ℕ → Text → Result Text
check_string maximum s = if is_bounded_string maximum s then ok s else err invalid_string

unfoldable pub parse_string : ℕ → Json → Result Text
unfolding check_string is_bounded_string includes
parse_string maximum (str s) = check_string maximum s
parse_string maximum _ = err invalid_string

-- `/^[A-Za-z0-9_-]{…}$/` and the like, once the string is known to be bounded.
unfoldable pub check_matching : (Text → Bool) → Fault → Text → Result Text
check_matching test e s = if test s then ok s else err e

unfoldable pub is_uuid_v4 : Text → Bool
unfolding matches uuid_v4_pattern
is_uuid_v4 s = matches uuid_v4_pattern s

unfoldable pub has_no_upper : Text → Bool
has_no_upper s = all (λ c. not (is_upper c)) s

unfoldable pub parse_uuid : Json → Result Text
unfolding parse_string check_matching is_uuid_v4 has_no_upper
parse_uuid v = do
  result ← parse_string 36 v
  checked ← check_matching is_uuid_v4 invalid_uuid result
  check_matching has_no_upper uppercase_uuid checked

-- `isSafeDocumentId`; the pattern asks for at least one unit.
unfoldable pub is_safe_document_id : Text → Bool
is_safe_document_id s = leb (length s) 255 && (not (length s == 0) && all is_base64url s)

unfoldable pub parse_safe_id : Json → Result Text
unfolding parse_string check_matching is_safe_document_id
parse_safe_id v = do
  result ← parse_string 255 v
  check_matching is_safe_document_id invalid_document_id result

unfoldable pub is_digest : Text → Bool
is_digest s = (length s == 64) && all is_lower_hex s

unfoldable pub parse_digest : Json → Result Text
unfolding parse_string check_matching is_digest
parse_digest v = do result ← parse_string 64 v; check_matching is_digest invalid_digest result

unfoldable pub is_reference : Text → Bool
is_reference s = not (length s == 0) && all is_base64url s

unfoldable pub parse_reference : Json → Result Text
unfolding parse_string check_matching is_reference
parse_reference v = do
  result ← parse_string 255 v
  check_matching is_reference invalid_reference result

unfoldable pub parse_integer : ℕ → ℕ → Json → Result ℕ
parse_integer minimum maximum (num n) =
    if leb n max_safe_integer && (leb minimum n && leb n maximum) then ok n else err invalid_integer
parse_integer minimum maximum _ = err invalid_integer

-- `value === 1`
abbrev pub is_one : Json → Bool
is_one (num n) = n == 1
is_one _ = false

-- `value === "…"`
abbrev pub is_text : Text → Json → Bool
is_text t (str s) = text_eq s t
is_text t _ = false

-- `value === null ? null : parse(value)`
abbrev pub parse_nullable {ℓ} : {T : Type ℓ} → (Json → Result T) → Json → Result (Option T)
parse_nullable parse null = ok none
parse_nullable parse v = do t ← parse v; ok (some t)

-- `parseInteger(value, minimum)`
abbrev pub parse_integer_from : ℕ → Json → Result ℕ
parse_integer_from minimum v = parse_integer minimum max_safe_integer v

unfoldable pub parse_boolean : Json → Result Bool
parse_boolean (bool b) = ok b
parse_boolean _ = err invalid_boolean

unfoldable pub parse_nullable_string : Json → Result (Option Text)
unfolding parse_string
parse_nullable_string null = ok none
parse_nullable_string v = do s ← parse_string 2048 v; ok (some s)

unfoldable pub choose {ℓ} : {T : Type ℓ} → List (Text × T) → Text → Result T
choose [] s = err invalid_choice
choose ((allowed, t) ∷ more) s = if text_eq s allowed then ok t else choose more s

unfoldable pub parse_choice {ℓ} : {T : Type ℓ} → List (Text × T) → Json → Result T
unfolding choose
parse_choice values (str s) = choose values s
parse_choice values _ = err invalid_choice

unfoldable pub parse_array {ℓ} : {T : Type ℓ} → (Json → Result T) → ℕ → Json → Result (List T)
unfolding traverse
parse_array parse maximum (arr vs) =
    if leb (length (elements vs)) maximum then traverse parse (elements vs) else err invalid_array
parse_array parse maximum _ = err invalid_array
