-- ===== src/Json/Number.antt =====
-- `JSON.stringify` of a natural number below 2^53: its decimal digits.
use html_inbox.Common.{
  ℕ, zero, suc, ◌+◌, ◌-◌, ◌*◌, ◌/◌, ◌%◌, ◌<◌, ◌≡◌, ap, ◌∙◌, Bool, ◌&&◌, [], ◌∷◌, ◌++◌, append_assoc,
  Text, leb, ltb, if◌then◌else◌, arith, Bool-cases, inl, inr,
}

is_digit : ℕ → Bool
is_digit c = leb 48 c && leb c 57

-- The digits of `n`, by fuel above `n`.
digits_from : ℕ → ℕ → Text
digits_from zero n = []
digits_from (suc f) n =
    let front = digits_from f (n / 10) in
    if ltb n 10 then (48 + n) ∷ [] else front ++ (48 + n % 10) ∷ []

unfoldable pub decimal : ℕ → Text
unfolding digits_from
decimal n = digits_from (suc n) n

-- Reads digits off the front.
read_digits : ℕ → Text → ℕ × Text
read_digits acc [] = (acc, [])
read_digits acc (c ∷ s) =
    let more = read_digits (acc * 10 + (c - 48)) s in if is_digit c then more else (acc, c ∷ s)

read_digits-digit :
    (acc d : ℕ) (r : Text) → d < 10 → read_digits acc ((48 + d) ∷ r) ≡ read_digits (acc * 10 + d) r
unfolding read_digits is_digit
read_digits-digit acc d r h =
    let same : acc * 10 + (48 + d - 48) ≡ acc * 10 + d = omega arith in ground (arith, same)

read_digits-digits_from :
    (f n : ℕ) (r : Text) → n < f → read_digits 0 (digits_from f n ++ r) ≡ read_digits n r
unfolding digits_from
read_digits-digits_from zero n r h = absurd (omega arith)
read_digits-digits_from (suc f) n r h = elim (Bool-cases (ltb n 10)) [
  | inl small ↦
      rw small (read_digits-digit 0 n r (ground arith) ∙ ap (λ k. read_digits k r) (omega arith))
  | inr large ↦ rw large (
      ap (read_digits 0) (append_assoc (digits_from f (n / 10)) _ r)
      ∙ read_digits-digits_from f (n / 10) ((48 + n % 10) ∷ r) (ground arith)
      ∙ read_digits-digit (n / 10) (n % 10) r (omega arith)
      ∙ ap (λ k. read_digits k r) (omega arith))
]

-- A printed number ends at the comma behind it.
pub decimal_prefix :
    (m n : ℕ) (r s : Text) → decimal m ++ 44 ∷ r ≡ decimal n ++ 44 ∷ s → (m ≡ n) × (r ≡ s)
unfolding decimal read_digits is_digit
decimal_prefix m n r s e =
    let left = read_digits-digits_from (suc m) m (44 ∷ r) (omega arith) in
    let right = read_digits-digits_from (suc n) n (44 ∷ s) (omega arith) in
    ground (arith, ap (read_digits 0) e, left, right)
