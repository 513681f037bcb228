-- ===== src/Json/Quote.antt =====
-- `JSON.stringify` of a string. Quotes, backslashes and control characters are escaped, and so is a
-- surrogate that has no partner.
use html_inbox.Common.{
  ℕ, ◌+◌, ◌-◌, ◌*◌, ◌/◌, ◌%◌, ◌<◌, ◌≡◌, refl, ap, Bool, true, false, ◌&&◌, ◌||◌, [], ◌∷◌, ◌++◌, ◌≢◌,
  sym, ◌∙◌, Option, none, some, append_assoc, Text, leb, ltb, ◌==◌, if◌then◌else◌, All, arith,
}

abbrev pub IsUnits : Text → Type 0
IsUnits s = All (λ c. c < 65536) s

hex_digit : ℕ → ℕ
hex_digit d = if ltb d 10 then 48 + d else 87 + d

abbrev hex_escape : ℕ → Text
hex_escape c =
    92
    ∷ 117
    ∷ hex_digit (c / 4096)
    ∷ hex_digit (c / 256 % 16)
    ∷ hex_digit (c / 16 % 16)
    ∷ hex_digit (c % 16)
    ∷ []

is_high : ℕ → Bool
is_high c = leb 55296 c && ltb c 56320

is_low : ℕ → Bool
is_low c = leb 56320 c && ltb c 57344

-- The two-character escape of a unit, or 0.
short_escape : ℕ → ℕ
short_escape c =
    if c == 34 || c == 92
    then c
    else if c == 8
    then 98
    else if c == 9
    then 116
    else if c == 10
    then 110
    else if c == 12
    then 102
    else if c == 13
    then 114
    else 0

-- One unit; `alone` says that a surrogate has no partner beside it.
escape_unit : ℕ → Bool → Text
escape_unit c alone =
    if 0 == short_escape c
    then (if ltb c 32 || alone then hex_escape c else c ∷ [])
    else 92 ∷ short_escape c ∷ []

starts_low : Text → Bool
starts_low [] = false
starts_low (c ∷ s) = is_low c

-- `paired` says that the unit before was a high surrogate.
escape_from : Bool → Text → Text
escape_from paired [] = []
escape_from paired (c ∷ s) =
    escape_unit c (
      if is_high c
      then (if starts_low s then false else true)
      else (if paired then false else is_low c))
    ++ escape_from (is_high c) s

unfoldable pub quote : Text → Text
unfolding escape_from escape_unit starts_low short_escape hex_digit is_high is_low
quote s = 34 ∷ escape_from false s ++ 34 ∷ []

hex_value : ℕ → ℕ
hex_value d = if ltb d 58 then d - 48 else d - 87

-- The value of a short escape.
short_value : ℕ → ℕ
short_value k =
    if k == 98
    then 8
    else if k == 116
    then 9
    else if k == 110
    then 10
    else if k == 102
    then 12
    else if k == 114
    then 13
    else k

read_hex : Text → Option (ℕ × Text)
read_hex (a ∷ b ∷ c ∷ d ∷ r) =
    some (hex_value a * 4096 + hex_value b * 256 + hex_value c * 16 + hex_value d, r)
read_hex _ = none

read_escape : Text → Option (ℕ × Text)
read_escape [] = none
read_escape (k ∷ r) = if k == 117 then read_hex r else some (short_value k, r)

-- Reads one printed unit back.
read_unit : Text → Option (ℕ × Text)
read_unit [] = none
read_unit (c ∷ r) = if c == 92 then read_escape r else some (c, r)

hex_value-hex_digit : (d : ℕ) → d < 16 → hex_value (hex_digit d) ≡ d
unfolding hex_value hex_digit
hex_value-hex_digit d h = ground arith

read_hex-hex_escape : (c : ℕ) (r : Text) → c < 65536 → read_unit (hex_escape c ++ r) ≡ some (c, r)
unfolding read_unit read_escape read_hex
read_hex-hex_escape c r h =
    ap (λ v. some (v, r))
      (omega (
        arith,
        hex_value-hex_digit (c / 4096) (omega arith),
        hex_value-hex_digit (c / 256 % 16) (omega arith),
        hex_value-hex_digit (c / 16 % 16) (omega arith),
        hex_value-hex_digit (c % 16) (omega arith),
      ))

short_value-short_escape :
    (c : ℕ) (r : Text)
    → (0 == short_escape c) ≡ false
    → read_unit (92 ∷ short_escape c ∷ r) ≡ some (c, r)
unfolding read_unit read_escape short_escape short_value
short_value-short_escape c r h = ground arith

plain_unit : (c : ℕ) (r : Text) → (0 == short_escape c) ≡ true → read_unit (c ∷ r) ≡ some (c, r)
unfolding read_unit short_escape
plain_unit c r h = ground arith

read_unit-escape_unit :
    (c : ℕ) (alone : Bool) (r : Text)
    → c < 65536
    → read_unit (escape_unit c alone ++ r) ≡ some (c, r)
unfolding escape_unit
read_unit-escape_unit c alone r h =
    ground (arith, read_hex-hex_escape c r h, short_value-short_escape c r, plain_unit c r)

escape_unit-ne-quote : (c : ℕ) (alone : Bool) (r s : Text) → escape_unit c alone ++ r ≢ 34 ∷ s
unfolding escape_unit short_escape
escape_unit-ne-quote c alone r s h = ground arith

unit_prefix :
    (c d : ℕ) (m n : Bool) (r s : Text)
    → c < 65536
    → d < 65536
    → escape_unit c m ++ r ≡ escape_unit d n ++ s
    → (c ≡ d) × (r ≡ s)
unit_prefix c d m n r s h k e =
    ground (arith, ap read_unit e, read_unit-escape_unit c m r h, read_unit-escape_unit d n s k)

escape_prefix :
    (f g : Bool) (a b r s : Text)
    → IsUnits a
    → IsUnits b
    → escape_from f a ++ 34 ∷ r ≡ escape_from g b ++ 34 ∷ s
    → (a ≡ b) × (r ≡ s)
unfolding escape_from
escape_prefix f g [] [] r s h k e = (refl, cc)
escape_prefix f g [] (d ∷ b) r s h k e =
    absurd (escape_unit-ne-quote d _ _ r (sym (e ∙ append_assoc (escape_unit d _) _ _)))
escape_prefix f g (c ∷ a) [] r s h k e =
    absurd (escape_unit-ne-quote c _ _ s (sym (append_assoc (escape_unit c _) _ _) ∙ e))
escape_prefix f g (c ∷ a) (d ∷ b) r s (hc, h) (kd, k) e =
    let (same, rest) =
      unit_prefix c d _ _ _ _ hc kd
        (sym (append_assoc (escape_unit c _) _ _) ∙ e ∙ append_assoc (escape_unit d _) _ _) in
    let (tails, after) = escape_prefix (is_high c) (is_high d) a b r s h k rest in (cc, after)

-- A printed string ends where its closing quote says, so what follows it can be told.
pub quote_prefix :
    (a b r s : Text) → IsUnits a → IsUnits b → quote a ++ r ≡ quote b ++ s → (a ≡ b) × (r ≡ s)
unfolding quote
quote_prefix a b r s h k e =
    let after = λ (c t : Text). append_assoc (escape_from false c) (34 ∷ []) t in
    escape_prefix false false a b r s h k (cc (after a r, after b s))
