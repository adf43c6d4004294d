-- ===== src/Base/Texts.antt =====
-- C texts as lists of byte codes, without the final NUL, and the number readers of the C library that
-- the programs call with base 10: `strtoull`, `strtol` and `atoi` of <cstdlib> in the C locale.
use Prim.Native.Nat.{ℕ, zero, suc, ◌+◌, ◌-◌, ◌*◌, ◌%◌, ◌^◌}
use Prim.Native.Char.{code}
use Prim.Native.String.{String}
use mathlib.Core.Bool.{Bool, true, false, ◌&&◌, ◌||◌}
use mathlib.Core.List.{List, [], ◌∷◌}
use scx_slam_fresh.Base.Tests.{ltb, leb, ◌==◌, if◌then◌else◌}

abbrev pub Text : Type 0
Text = List ℕ

-- The codes of a literal.
abbrev pub codes : String → Text
codes String.[] = []
codes (String.◌∷◌ c s) = code c ∷ codes s

abbrev pub same_text : Text → Text → Bool
same_text [] [] = true
same_text (a ∷ s) (b ∷ t) = a == b && same_text s t
same_text _ _ = false

-- A signed number: `negsuc n` is -(n + 1).
pub data ℤ : Type 0 where
  pos : ℕ → ℤ
  negsuc : ℕ → ℤ

abbrev pub is_digit : ℕ → Bool
is_digit c = leb b'0' c && leb c b'9'

abbrev pub is_space : ℕ → Bool
is_space c = c == 32 || leb 9 c && leb c 13

-- Where reading stopped, whether there was a digit, and the number so far, without a bound.
pub record Digits : Type 0 where
  pub value : ℕ
  pub found : Bool
  pub rest : Text

unfoldable pub read_digits : ℕ → Bool → Text → Digits
read_digits n found [] = record { value = n; found = found; rest = [] }
read_digits n found (c ∷ s) =
    let more = read_digits (n * 10 + (c - b'0')) true s in
    if is_digit c then more else record { value = n; found = found; rest = c ∷ s }

unfoldable pub skip_spaces : Text → Text
skip_spaces [] = []
skip_spaces (c ∷ s) = let more = skip_spaces s in if is_space c then more else c ∷ s

-- The sign and what follows it.
unfoldable pub read_sign : Text → Bool × Text
read_sign [] = (false, [])
read_sign (c ∷ s) =
    if c == b'-' then (true, s) else if c == b'+' then (false, s) else (false, c ∷ s)

-- What a reader leaves: its result, `errno` set to ERANGE, and where it stopped, which is the whole
-- text if there was no number.
pub record Reading (A : Type 0) : Type 0 where
  pub value : A
  pub out_of_range : Bool
  pub stop : Text

unfoldable pub read_number : Text → Bool × Digits
unfolding skip_spaces read_sign read_digits
read_number text =
    let (negative, s) = read_sign (skip_spaces text) in (negative, read_digits 0 false s)

-- A minus sign negates the unsigned result.
unfoldable pub to_unsigned : Bool → Digits → Text → Reading ℕ
to_unsigned negative d text =
    if d.found
    then (if ltb (2 ^ 64 - 1) d.value
        then record { value = 2 ^ 64 - 1; out_of_range = true; stop = d.rest }
        else record {
          value = if negative then (2 ^ 64 - d.value) % 2 ^ 64 else d.value;
          out_of_range = false;
          stop = d.rest;
        })
    else record { value = 0; out_of_range = false; stop = text }

unfoldable pub strtoull : Text → Reading ℕ
unfolding read_number to_unsigned
strtoull text = let (negative, d) = read_number text in to_unsigned negative d text

abbrev pub minus : ℕ → ℤ
minus zero = pos 0
minus (suc n) = negsuc n

unfoldable pub to_signed : Bool → Digits → Text → Reading ℤ
to_signed negative d text =
    if d.found
    then (if negative
        then (if ltb (2 ^ 63) d.value
            then record { value = negsuc (2 ^ 63 - 1); out_of_range = true; stop = d.rest }
            else record { value = minus d.value; out_of_range = false; stop = d.rest })
        else (if ltb (2 ^ 63 - 1) d.value
            then record { value = pos (2 ^ 63 - 1); out_of_range = true; stop = d.rest }
            else record { value = pos d.value; out_of_range = false; stop = d.rest }))
    else record { value = pos 0; out_of_range = false; stop = text }

-- `long` has 64 bits.
unfoldable pub strtol : Text → Reading ℤ
unfolding read_number to_signed
strtol text = let (negative, d) = read_number text in to_signed negative d text

abbrev pub less : ℤ → ℤ → Bool
less (pos a) (pos b) = ltb a b
less (pos a) (negsuc b) = false
less (negsuc a) (pos b) = true
less (negsuc a) (negsuc b) = ltb b a
