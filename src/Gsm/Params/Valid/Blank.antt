-- ===== src/Gsm/Params/Valid/Blank.antt =====
-- Texts of bytes that are no white space, which `strings.TrimSpace` leaves alone.
use gsm_system.Base.{
  ℕ, ◌≤◌, ◌<◌, ◌≡◌, ◌≢◌, ◌⊎◌, refl, true, false, [], ◌∷◌, reverse, length, all, All, arith,
  and-eq-true, All-of_all, All-reverse,
}
use mathlib.Core.List.{reverse-reverse}
use gsm_system.Base.Text.{Text, codes, is_digit, trim_space, trim_by, space_width, space_width_back}
use gsm_system.Base.Number.{is_digits}
use gsm_system.Gsm.Params.{is_blank, interface_char, valid_interface_name}

-- A byte that is no part of any white space.
abbrev pub Plain : ℕ → Type 0
Plain c = (c < 128) × (c ≢ 32) × ((c < 9) ⊎ (13 < c))

pub space_width-Plain : (c : ℕ) (s : Text) → Plain c → space_width (c ∷ s) ≡ 0
unfolding space_width
space_width-Plain c [] h = ground arith
space_width-Plain c (b ∷ []) h = ground arith
space_width-Plain c (b ∷ (a ∷ s)) h = ground arith

pub space_width_back-Plain : (c : ℕ) (s : Text) → Plain c → space_width_back (c ∷ s) ≡ 0
unfolding space_width_back
space_width_back-Plain c [] h = ground arith
space_width_back-Plain c (b ∷ []) h = ground arith
space_width_back-Plain c (b ∷ (a ∷ s)) h = ground arith

pub trim_by-Plain :
    (width : Text → ℕ)
    → ((c : ℕ) (s : Text) → Plain c → width (c ∷ s) ≡ 0)
    → (s : Text) → All Plain s
    → trim_by width 0 s ≡ s
unfolding trim_by
trim_by-Plain width f [] h = refl
trim_by-Plain width f (c ∷ s) h = rw (f c s h.0, trim_by)

-- Trimming leaves a text of plain bytes alone.
pub trim_space-Plain : (s : Text) → All Plain s → trim_space s ≡ s
unfolding trim_space
trim_space-Plain s h = rw (trim_by-Plain space_width space_width-Plain s h) (
    rw (trim_by-Plain space_width_back space_width_back-Plain (reverse s) (All-reverse Plain s h))
      (reverse-reverse s))

pub is_blank-Plain : (c : ℕ) (s : Text) → All Plain (c ∷ s) → is_blank (c ∷ s) ≡ false
unfolding is_blank
is_blank-Plain c s h = rw (trim_space-Plain (c ∷ s) h)

pub digit-Plain : (c : ℕ) → is_digit c ≡ true → Plain c
digit-Plain c h = ground arith

pub interface_char-Plain : (c : ℕ) → interface_char c ≡ true → Plain c
interface_char-Plain c h = ground arith

pub is_blank-is_digits : (s : Text) → is_digits s ≡ true → is_blank s ≡ false
is_blank-is_digits [] h = unfold is_digits in cc h
is_blank-is_digits (c ∷ s) h =
    is_blank-Plain c s (All-of_all Plain is_digit digit-Plain (c ∷ s) (unfold is_digits in h))

pub is_blank-valid_interface_name : (s : Text) → valid_interface_name s ≡ true → is_blank s ≡ false
unfolding valid_interface_name
is_blank-valid_interface_name [] h = cc
is_blank-valid_interface_name (c ∷ s) h = is_blank-Plain c s (
    All-of_all Plain interface_char interface_char-Plain (c ∷ s)
      (and-eq-true _ (all interface_char (c ∷ s)) h).1)

abbrev pub IsDigit : ℕ → Type 0
IsDigit c = (b'0' ≤ c) × (c ≤ b'9')

abbrev pub IsNumeral : Text → Type 0
IsNumeral s = (1 ≤ length s) × All IsDigit s

abbrev pub InBand : Text → ℕ → Type 0
InBand band n =
    (band ≡ codes "900") × ((n ≤ 124) ⊎ (975 ≤ n) × (n ≤ 1023))
    ⊎ (band ≡ codes "1800") × (512 ≤ n) × (n ≤ 885)
