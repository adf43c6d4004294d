-- ===== src/Workload/Pipeline/Options/Numbers.antt =====
-- Numbers in decimal, and the readers of numbers that the options use.
use scx_slam_fresh.Base.{
  Within, ℕ, zero, suc, ◌+◌, ◌/◌, ◌%◌, ◌^◌, ◌≤◌, ◌<◌, ◌≡◌, refl, ◌∙◌, ap, Bool, true, false, [],
  ◌∷◌, ok, arith, ltb, if◌then◌else◌, Text, ℤ, pos, negsuc, Digits, read_digits, skip_spaces,
  read_sign, read_number, strtoull, strtol, to_unsigned, to_signed, is_digit,
}
use scx_slam_fresh.Workload.Pipeline.Options.{begins_with, parse_integer, parse_u64}

-- The decimal digits of a number, in front of `out`; no number has more digits than it counts.
digits : ℕ → ℕ → Text → Text
digits zero n out = (b'0' + n % 10) ∷ out
digits (suc fuel) n out =
    let more = digits fuel (n / 10) ((b'0' + n % 10) ∷ out) in
    if ltb n 10 then (b'0' + n % 10) ∷ out else more

pub decimal : ℕ → Text
unfolding digits
decimal n = digits n n []

read_digits-digits :
    (fuel n : ℕ) (found : Bool) (out : Text)
    → n ≤ fuel
    → read_digits 0 found (digits fuel n out) ≡ read_digits n true out
unfolding read_digits digits
read_digits-digits zero n found out h = ground arith
read_digits-digits (suc fuel) n found out h =
    ground (arith, read_digits-digits fuel (n / 10) found ((b'0' + n % 10) ∷ out))

abbrev FirstIsDigit : Text → Type 0
FirstIsDigit [] = ⊥
FirstIsDigit (c ∷ s) = is_digit c ≡ true

digits-FirstIsDigit : (fuel n : ℕ) (out : Text) → FirstIsDigit (digits fuel n out)
unfolding digits
digits-FirstIsDigit zero n out = ground arith
digits-FirstIsDigit (suc fuel) n out =
    ground (arith, digits-FirstIsDigit fuel (n / 10) ((b'0' + n % 10) ∷ out))

read_number-first : (t : Text) → FirstIsDigit t → read_number t ≡ (false, read_digits 0 false t)
unfolding read_number
read_number-first [] h = absurd h
read_number-first (c ∷ s) h = ground arith

first_no_minus : (t : Text) → FirstIsDigit t → begins_with b'-' t ≡ false
first_no_minus [] h = refl
first_no_minus (c ∷ s) h = ground arith

read_number-decimal :
    (n : ℕ) → read_number (decimal n) ≡ (false, record { value = n; found = true; rest = [] })
unfolding decimal read_digits
read_number-decimal n =
    read_number-first (digits n n []) (digits-FirstIsDigit n n [])
    ∙ ap (λ d. (false, d)) (read_digits-digits n n false [] (omega arith))

begins-decimal : (n : ℕ) → begins_with b'-' (decimal n) ≡ false
unfolding decimal
begins-decimal n = first_no_minus (digits n n []) (digits-FirstIsDigit n n [])

strtoull-number :
    (text : Text) {negative : Bool} {d : Digits}
    → read_number text ≡ (negative, d)
    → strtoull text ≡ to_unsigned negative d text
unfolding strtoull
strtoull-number text e = ap (λ p. to_unsigned p.0 p.1 text) e

strtol-number :
    (text : Text) {negative : Bool} {d : Digits}
    → read_number text ≡ (negative, d)
    → strtol text ≡ to_signed negative d text
unfolding strtol
strtol-number text e = ap (λ p. to_signed p.0 p.1 text) e

pub parse_u64-decimal : (n : ℕ) → 0 < n → n < 2 ^ 64 → parse_u64 (decimal n) ≡ ok n
unfolding parse_u64 to_unsigned
parse_u64-decimal n positive small =
    rw (begins-decimal n, strtoull-number (decimal n) (read_number-decimal n)) (ground arith)

-- An `int` that an option may hold, as a text.
pub int_text : ℤ → Text
int_text (pos n) = decimal n
int_text (negsuc n) = b'-' ∷ decimal (suc n)

read_number-negative :
    (n : ℕ) → read_number (b'-' ∷ decimal n) ≡ (true, record { value = n; found = true; rest = [] })
unfolding read_number skip_spaces read_sign decimal read_digits
read_number-negative n = ap (λ d. (true, d)) (read_digits-digits n n false [] (omega arith))

pub parse_integer-int_text :
    (v : ℤ) → Within (negsuc 0) (pos 86400) v → parse_integer (int_text v) ≡ ok v
unfolding parse_integer to_signed int_text
parse_integer-int_text (pos n) r =
    rw (strtol-number (decimal n) (read_number-decimal n)) (ground arith)
parse_integer-int_text (negsuc n) r =
    rw (strtol-number (b'-' ∷ decimal (suc n)) (read_number-negative (suc n))) (ground arith)
