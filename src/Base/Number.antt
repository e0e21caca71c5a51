-- ===== src/Base/Number.antt =====
-- strconv.Atoi: an optional sign, then decimal digits, within the range of a 64-bit int.
use Prim.Native.Nat.{ℕ, zero, suc, ◌+◌, ◌-◌, ◌*◌, ◌^◌}
use mathlib.Core.Path.{◌≡◌, refl}
use mathlib.Core.Bool.{Bool, true, false, ◌&&◌, not}
use mathlib.Core.Option.{Option, none, some}
use mathlib.Core.List.{[], ◌∷◌}
use native.Mathlib.Omega.{arith}
use gsm_system.Base.Tests.{leb, ◌==◌, if◌then◌else◌}
use gsm_system.Base.Lists.{all}
use gsm_system.Base.Text.{Text, codes, is_digit, is_empty}

-- `negsuc n` is -(n + 1).
pub data ℤ : Type 0 where
  pos : ℕ → ℤ
  negsuc : ℕ → ℤ

-- The number that a run of decimal digits stands for, behind the digits read so far.
unfoldable pub number_from : ℕ → Text → ℕ
number_from n [] = n
number_from n (c ∷ s) = number_from (n * 10 + (c - b'0')) s

abbrev pub number : Text → ℕ
number s = number_from 0 s

-- A text of one or more decimal digits; a rune above 127 is no digit, so bytes serve.
unfoldable pub is_digits : Text → Bool
is_digits s = not (is_empty s) && all is_digit s

abbrev pub max_int : ℕ
max_int = 2 ^ 63 - 1

abbrev positive : ℕ → Option ℤ
positive n = if leb n max_int then some (pos n) else none

-- -n for n ≤ 2^63
abbrev negative : ℕ → Option ℤ
negative zero = some (pos 0)
negative (suc n) = if leb n max_int then some (negsuc n) else none

-- strconv.Atoi; `none` is its error.
unfoldable pub atoi : Text → Option ℤ
unfolding is_digits number_from
atoi [] = none
atoi (c ∷ s) =
    if c == b'-'
    then if is_digits s then negative (number s) else none
    else if c == b'+'
    then if is_digits s then positive (number s) else none
    else if is_digits (c ∷ s)
    then positive (number (c ∷ s))
    else none

-- An integer from `lo` to `hi`, both natural numbers.
abbrev pub in_range : ℕ → ℕ → ℤ → Bool
in_range lo hi (pos n) = leb lo n && leb n hi
in_range lo hi (negsuc _) = false

-- On digits `Atoi` gives the number, or fails where it exceeds the largest int.
pub atoi_of_is_digits :
    (s : Text)
    → is_digits s ≡ true
    → atoi s ≡ (if leb (number s) max_int then some (pos (number s)) else none)
unfolding atoi
atoi_of_is_digits [] h = unfold is_digits in cc h
atoi_of_is_digits (c ∷ s) h = ground arith

atoi_tests :
    (atoi (codes "-12") ≡ some (negsuc 11))
    × (atoi (codes "+7") ≡ some (pos 7))
    × (atoi (codes "1a") ≡ none)
    × (atoi (codes "9223372036854775808") ≡ none)
    × (atoi (codes "-0") ≡ some (pos 0))
    × (atoi (codes "-") ≡ none)
unfolding atoi
atoi_tests = (refl, refl, refl, refl, refl, refl)
