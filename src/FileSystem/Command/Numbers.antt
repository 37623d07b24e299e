-- ===== src/FileSystem/Command/Numbers.antt =====
-- `atoi` reads what `<<` prints of an `int`.
use very_simple_file_system.Base.{
  ℕ, zero, suc, ◌+◌, ◌-◌, ◌*◌, ◌/◌, ◌%◌, ◌^◌, ◌≤◌, ◌<◌, ◌≡◌, refl, ap, ◌∙◌, [], ◌∷◌, ◌++◌, true,
  false, ◌==◌, arith, inl, inr, lt→ltb, le→not_ltb, lt-cases,
}
use very_simple_file_system.Disk.{Bytes}
use very_simple_file_system.Table.{digits_of, show_int}
use very_simple_file_system.FileSystem.Command.{is_digit, digits_value, atoi}

-- A text of digits.
abbrev pub AllDigits : Bytes → Type 0
AllDigits [] = Unit
AllDigits (c ∷ text) = (b'0' ≤ c) × (c ≤ b'9') × AllDigits text

AllDigits-last :
    (text : Bytes) (c : ℕ) → AllDigits text → b'0' ≤ c → c ≤ b'9' → AllDigits (text ++ c ∷ [])
AllDigits-last [] c a l h = (l, h, tt)
AllDigits-last (x ∷ text) c (p, q, a) l h = (p, q, AllDigits-last text c a l h)

digits_value-last :
    (acc : ℕ) (text : Bytes) (c : ℕ)
    → AllDigits text
    → b'0' ≤ c
    → c ≤ b'9'
    → digits_value acc (text ++ c ∷ []) ≡ digits_value acc text * 10 + (c - b'0')
unfolding digits_value
digits_value-last acc [] c a l h = ground arith
digits_value-last acc (x ∷ text) c (p, q, a) l h =
    let digit : is_digit x ≡ true = ground arith in
    rw digit (digits_value-last (acc * 10 + (x - b'0')) text c a l h)

pub digits_of-AllDigits : (fuel n : ℕ) → AllDigits (digits_of fuel n)
unfolding digits_of
digits_of-AllDigits zero n = tt
digits_of-AllDigits (suc fuel) n = elim (lt-cases n 10) [
  | inl small ↦ rw (lt→ltb n 10 small) (omega arith, omega arith, tt)
  | inr large ↦ rw (le→not_ltb n 10 large) (
      AllDigits-last (digits_of fuel (n / 10)) (n % 10 + b'0') (digits_of-AllDigits fuel (n / 10))
        (omega arith) (omega arith))
]

abbrev power : ℕ → ℕ
power zero = 1
power (suc n) = 10 * power n

digits_value-digits_of : (fuel n : ℕ) → n < power fuel → digits_value 0 (digits_of fuel n) ≡ n
unfolding digits_of digits_value
digits_value-digits_of zero n h = omega arith
digits_value-digits_of (suc fuel) n h = elim (lt-cases n 10) [
  | inl small ↦ rw (lt→ltb n 10 small) (ground arith)
  | inr large ↦
      let front = digits_value-digits_of fuel (n / 10) (omega arith) in
      rw (le→not_ltb n 10 large) (
        digits_value-last 0 (digits_of fuel (n / 10)) (n % 10 + b'0')
          (digits_of-AllDigits fuel (n / 10)) (omega arith) (omega arith)
        ∙ rw front (omega arith))
]

-- The first character is a digit and no sign.
atoi-AllDigits :
    (c : ℕ) (text : Bytes)
    → AllDigits (c ∷ text)
    → atoi (c ∷ text) ≡ digits_value 0 (c ∷ text) % 2 ^ 32
unfolding atoi
atoi-AllDigits c text (p, q, a) =
    let no_minus : (c == b'-') ≡ false = ground arith in
    let no_plus : (c == b'+') ≡ false = ground arith in rw (no_minus, no_plus) refl

atoi_digits :
    (text : Bytes) (n : ℕ) → AllDigits text → digits_value 0 text ≡ n → n < 2 ^ 31 → atoi text ≡ n
unfolding atoi digits_value
atoi_digits [] n a e h = e
atoi_digits (c ∷ text) n a e h = atoi-AllDigits c text a ∙ ap (λ k. k % 2 ^ 32) e ∙ (omega arith)

atoi_minus :
    (text : Bytes) (n : ℕ)
    → digits_value 0 text ≡ n
    → atoi (b'-' ∷ text) ≡ (2 ^ 32 - n % 2 ^ 32) % 2 ^ 32
unfolding atoi
atoi_minus text n e = ap (λ k. (2 ^ 32 - k % 2 ^ 32) % 2 ^ 32) e

-- For every 32-bit pattern of an `int`, the minus sign of a negative one included, `atoi` of its
-- decimal text is the pattern.
pub atoi-show_int : (w : ℕ) → w < 2 ^ 32 → atoi (show_int w) ≡ w
unfolding show_int
atoi-show_int w h = elim (lt-cases w (2 ^ 31)) [
  | inl positive ↦ rw (lt→ltb w (2 ^ 31) positive) (
      atoi_digits (digits_of 10 w) w (digits_of-AllDigits 10 w)
        (digits_value-digits_of 10 w (omega arith)) positive)
  | inr negative ↦ rw (le→not_ltb w (2 ^ 31) negative) (
      atoi_minus (digits_of 10 (2 ^ 32 - w)) (2 ^ 32 - w)
        (digits_value-digits_of 10 (2 ^ 32 - w) (omega arith))
      ∙ omega arith)
]
