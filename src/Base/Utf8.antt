-- ===== src/Base/Utf8.antt =====
-- Package `unicode/utf8`, `encoding/hex` and `strings.Fields`, as the parsers use them.
use Prim.Native.Nat.{ℕ, zero, suc, ◌+◌, ◌-◌, ◌*◌, ◌/◌, ◌%◌, ◌<◌}
use mathlib.Core.Bool.{Bool, true, false, ◌&&◌}
use mathlib.Core.Path.{◌≡◌, refl, ap}
use mathlib.Core.Option.{Option, none, some}
use mathlib.Core.List.{List, [], ◌∷◌, ◌++◌, reverse}
use native.Mathlib.Omega.{arith}
use gsm_system.Base.Tests.{ltb, leb, ◌==◌, if◌then◌else◌}
use gsm_system.Base.Lists.{length, All}
use gsm_system.Base.Text.{Text, codes, is_digit, space_width}

abbrev within : ℕ → ℕ → ℕ → Bool
within lo hi c = leb lo c && leb c hi

abbrev tail_byte : ℕ → Bool
tail_byte c = within 0x80 0xbf c

-- The second byte of a rune of three or four bytes that begins with `a`.
abbrev second : ℕ → ℕ → Bool
second a b =
    if a == 0xe0
    then within 0xa0 0xbf b
    else if a == 0xed
    then within 0x80 0x9f b
    else if a == 0xf0
    then within 0x90 0xbf b
    else if a == 0xf4
    then within 0x80 0x8f b
    else tail_byte b

abbrev when : Bool → ℕ → ℕ
when test n = if test then n else 0

-- How many bytes the valid rune takes that the text begins with; 0 if it begins with none.
unfoldable pub rune_width : Text → ℕ
rune_width [] = 0
rune_width (a ∷ []) = when (ltb a 0x80) 1
rune_width (a ∷ b ∷ []) = if ltb a 0x80 then 1 else when (within 0xc2 0xdf a && tail_byte b) 2
rune_width (a ∷ b ∷ c ∷ []) =
    if ltb a 0x80
    then 1
    else if within 0xc2 0xdf a
    then when (tail_byte b) 2
    else when (within 0xe0 0xef a && second a b && tail_byte c) 3
rune_width (a ∷ b ∷ c ∷ d ∷ _) =
    if ltb a 0x80
    then 1
    else if within 0xc2 0xdf a
    then when (tail_byte b) 2
    else if within 0xe0 0xef a
    then when (second a b && tail_byte c) 3
    else when (within 0xf0 0xf4 a && second a b && tail_byte c && tail_byte d) 4

-- The first argument counts the bytes of a rune that are still to pass.
unfoldable pub valid_from : ℕ → Text → Bool
unfolding rune_width
valid_from skip [] = true
valid_from (suc k) (c ∷ s) = valid_from k s
valid_from zero (c ∷ s) = elim (rune_width (c ∷ s)) [ zero ↦ false | suc k ↦ valid_from k s ]

-- utf8.Valid(s)
unfoldable pub utf8_valid : Text → Bool
unfolding valid_from
utf8_valid s = valid_from 0 s

-- The text with every byte that begins no valid rune replaced by U+FFFD, as encoding/json does it.
unfoldable pub to_valid_from : ℕ → Text → Text
unfolding rune_width
to_valid_from skip [] = []
to_valid_from (suc k) (c ∷ s) = c ∷ to_valid_from k s
to_valid_from zero (c ∷ s) = elim (rune_width (c ∷ s)) [
  | zero ↦ 0xef ∷ 0xbf ∷ 0xbd ∷ to_valid_from 0 s
  | suc k ↦ c ∷ to_valid_from k s
]

unfoldable pub to_valid_utf8 : Text → Text
unfolding to_valid_from
to_valid_utf8 s = to_valid_from 0 s

to_valid_from-valid : (k : ℕ) (s : Text) → valid_from k s ≡ true → to_valid_from k s ≡ s
unfolding to_valid_from valid_from
to_valid_from-valid k [] h = refl
to_valid_from-valid (suc k) (c ∷ s) h = ap (c ∷◌) (to_valid_from-valid k s h)
to_valid_from-valid zero (c ∷ s) h =
    by_width (rune_width (c ∷ s)) h (λ k h. to_valid_from-valid k s h)
  where
    by_width :
        (w : ℕ)
        → (elim w [ zero ↦ false | suc k ↦ valid_from k s ]) ≡ true
        → ((k : ℕ) → valid_from k s ≡ true → to_valid_from k s ≡ s)
        → (elim w [ zero ↦ 0xef ∷ 0xbf ∷ 0xbd ∷ to_valid_from 0 s | suc k ↦ c ∷ to_valid_from k s ])
          ≡ c ∷ s
    by_width zero h rest = absurd (cc)
    by_width (suc k) h rest = ap (c ∷◌) (rest k h)

-- A text that is valid already stays.
pub to_valid_utf8-valid : (s : Text) → utf8_valid s ≡ true → to_valid_utf8 s ≡ s
unfolding to_valid_utf8 utf8_valid
to_valid_utf8-valid s h = to_valid_from-valid 0 s h

-- One hexadecimal digit.
unfoldable pub nibble : ℕ → Option ℕ
nibble c =
    if is_digit c
    then some (c - b'0')
    else if within b'a' b'f' c
    then some (c - b'a' + 10)
    else if within b'A' b'F' c
    then some (c - b'A' + 10)
    else none

abbrev put_byte : Option ℕ → Option ℕ → Option Text → Option Text
put_byte (some h) (some l) (some s) = some ((h * 16 + l) ∷ s)
put_byte _ _ _ = none

-- hex.DecodeString(s)
unfoldable pub hex_decode : Text → Option Text
unfolding nibble
hex_decode [] = some []
hex_decode (h ∷ []) = none
hex_decode (h ∷ l ∷ s) = put_byte (nibble h) (nibble l) (hex_decode s)

-- Lower-case hexadecimal, as the native code writes it.
unfoldable pub hex_digit_of : ℕ → ℕ
hex_digit_of n = if ltb n 10 then b'0' + n else b'a' + (n - 10)

unfoldable pub hex_encode : Text → Text
unfolding hex_digit_of
hex_encode [] = []
hex_encode (c ∷ s) = hex_digit_of (c / 16) ∷ hex_digit_of (c % 16) ∷ hex_encode s

abbrev pub IsByte : ℕ → Type 0
IsByte c = c < 256

nibble-hex_digit_of : (n : ℕ) → n < 16 → nibble (hex_digit_of n) ≡ some n
unfolding nibble hex_digit_of
nibble-hex_digit_of n h = ground arith

put_byte-parts :
    (c : ℕ) (s : Text) → put_byte (some (c / 16)) (some (c % 16)) (some s) ≡ some (c ∷ s)
put_byte-parts c s = ap (λ (d : ℕ). some (d ∷ s)) {x = c / 16 * 16 + c % 16} {y = c} (omega arith)

pub hex_decode-encode : (s : Text) → All IsByte s → hex_decode (hex_encode s) ≡ some s
unfolding hex_decode hex_encode
hex_decode-encode [] h = refl
hex_decode-encode (c ∷ s) h = rw (nibble-hex_digit_of (c / 16) (omega arith)) (
    rw (nibble-hex_digit_of (c % 16) (omega arith))
      (rw (hex_decode-encode s h.1) (put_byte-parts c s)))

pub length-hex_encode : (s : Text) → length (hex_encode s) ≡ 2 * length s
unfolding hex_encode
length-hex_encode [] = omega arith
length-hex_encode (c ∷ s) = omega (arith, length-hex_encode s)

pub All-hex_encode :
    (p : ℕ → Bool)
    → ((n : ℕ) → n < 16 → p (hex_digit_of n) ≡ true)
    → (s : Text) → All IsByte s
    → All (λ c. p c ≡ true) (hex_encode s)
unfolding hex_encode
All-hex_encode p h [] b = tt
All-hex_encode p h (c ∷ s) b =
    (h (c / 16) (omega arith), (h (c % 16) (omega arith), All-hex_encode p h s b.1))

abbrev flush : Text → List Text → List Text
flush [] fs = fs
flush (c ∷ cur) fs = reverse (c ∷ cur) ∷ fs

-- The fields behind the bytes `cur` of the field being read, last byte first.
unfoldable pub fields_from : ℕ → Text → Text → List Text
unfolding space_width
fields_from skip cur [] = flush cur []
fields_from (suc k) cur (c ∷ s) = fields_from k cur s
fields_from zero cur (c ∷ s) = elim (space_width (c ∷ s)) [
  | zero ↦ fields_from 0 (c ∷ cur) s
  | suc k ↦ flush cur (fields_from k [] s)
]

-- strings.Fields(s)
unfoldable pub fields : Text → List Text
unfolding fields_from
fields s = fields_from 0 [] s

fields_test : fields (codes "  a bc ") ≡ codes "a" ∷ codes "bc" ∷ []
unfolding fields
fields_test = refl

utf8_tests :
    (utf8_valid (codes "ok" ++ 0xe4 ∷ 0xbd ∷ 0xa0 ∷ []) ≡ true)
    × (utf8_valid (0xed ∷ 0xa0 ∷ 0x80 ∷ []) ≡ false)
    × (utf8_valid (0xff ∷ []) ≡ false)
    × (hex_decode (codes "4fE0") ≡ some (0x4f ∷ 0xe0 ∷ []))
unfolding utf8_valid hex_decode
utf8_tests = (refl, refl, refl, refl)
