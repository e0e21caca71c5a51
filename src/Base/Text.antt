-- ===== src/Base/Text.antt =====
-- Go strings and byte slices are lists of bytes: tests, searches, splits and `strings.TrimSpace`.
use Prim.Native.Nat.{ℕ, zero, suc, ◌+◌, compare, Ordering}
use Prim.Native.Char.{code}
use Prim.Native.String.{String}
use mathlib.Core.Path.{◌≡◌, refl}
use mathlib.Core.Logic.{◌↔◌}
use mathlib.Core.Bool.{Bool, true, false, ◌&&◌, ◌||◌}
use mathlib.Core.Option
use mathlib.Core.Option.{Option, none, some}
use mathlib.Core.List.{List, [], ◌∷◌, ◌++◌, reverse}
use native.Mathlib.Omega.{arith}
use gsm_system.Base.Tests.{leb, ◌==◌, if◌then◌else◌}
use gsm_system.Base.Lists.{any, All, All-reverse}

abbrev pub Text : Type 0
Text = List ℕ

-- The bytes of an ASCII literal.
abbrev pub codes : String → Text
codes String.[] = []
codes (String.◌∷◌ c s) = code c ∷ codes s

-- s == t
unfoldable pub eqb : Text → Text → Bool
eqb [] [] = true
eqb [] (_ ∷ _) = false
eqb (_ ∷ _) [] = false
eqb (a ∷ s) (b ∷ t) = (a == b) && eqb s t

pub eqb_iff : (s t : Text) → (eqb s t ≡ true) ↔ (s ≡ t)
unfolding eqb
eqb_iff [] [] = ((λ _. refl), (λ _. refl))
eqb_iff [] (b ∷ t) = ((λ h. cc), (λ h. cc))
eqb_iff (a ∷ s) [] = ((λ h. cc), (λ h. cc))
eqb_iff (a ∷ s) (b ∷ t) = ground (arith, eqb_iff s t)

pub eqb_refl : (s : Text) → eqb s s ≡ true
eqb_refl s = (eqb_iff s s).1 refl

abbrev pub is_empty : Text → Bool
is_empty [] = true
is_empty (_ ∷ _) = false

abbrev pub one_of : List Text → Text → Bool
one_of names s = any (eqb s) names

-- s < t, bytewise
unfoldable pub less : Text → Text → Bool
less [] [] = false
less [] (_ ∷ _) = true
less (_ ∷ _) [] = false
less (a ∷ s) (b ∷ t) = elim (compare a b) [
  | Ordering.lt ↦ true
  | Ordering.eq ↦ less s t
  | Ordering.gt ↦ false
]

abbrev pub is_digit : ℕ → Bool
is_digit c = leb b'0' c && leb c b'9'

-- strings.ToLower on one ASCII byte
abbrev pub lower : ℕ → ℕ
lower c = if leb b'A' c && leb c b'Z' then c + 32 else c

-- The rest of `s` behind the prefix `p`, if it starts with it.
unfoldable pub strip_prefix : Text → Text → Option Text
strip_prefix [] s = some s
strip_prefix (a ∷ p) [] = none
strip_prefix (a ∷ p) (b ∷ s) = if a == b then strip_prefix p s else none

pub strip_prefix-append : (p s : Text) → strip_prefix p (p ++ s) ≡ some s
unfolding strip_prefix
strip_prefix-append [] s = refl
strip_prefix-append (a ∷ p) s = ground (arith, strip_prefix-append p s)

pub strip_prefix-eq_some : (p s rest : Text) → strip_prefix p s ≡ some rest → s ≡ p ++ rest
unfolding strip_prefix
strip_prefix-eq_some [] s rest h = cc
strip_prefix-eq_some (a ∷ p) [] rest h = cc
strip_prefix-eq_some (a ∷ p) (b ∷ s) rest h = ground (arith, strip_prefix-eq_some p s rest)

abbrev pub is_some {ℓ} : {A : Type ℓ} → Option A → Bool
is_some none = false
is_some (some _) = true

-- strings.HasPrefix(s, p)
abbrev pub has_prefix : Text → Text → Bool
has_prefix s p = is_some (strip_prefix p s)

-- strings.Contains(s, p)
unfoldable pub contains : Text → Text → Bool
contains [] p = has_prefix [] p
contains (c ∷ s) p = has_prefix (c ∷ s) p || contains s p

-- strings.Index(s, p)
unfoldable pub index_of : Text → Text → Option ℕ
index_of [] p = if has_prefix [] p then some 0 else none
index_of (c ∷ s) p = if has_prefix (c ∷ s) p then some 0 else Option.map (λ i. suc i) (index_of s p)

-- strings.Split(s, sep) for a separator of one byte
unfoldable pub split_from : ℕ → Text → Text → List Text
split_from sep cur [] = reverse cur ∷ []
split_from sep cur (c ∷ s) =
    let closed = split_from sep [] s in
    let longer = split_from sep (c ∷ cur) s in if c == sep then reverse cur ∷ closed else longer

unfoldable pub split : ℕ → Text → List Text
unfolding split_from
split sep s = split_from sep [] s

abbrev ascii_space : ℕ → Bool
ascii_space c = c == 32 || (leb 9 c && leb c 13)

-- How many bytes the white-space rune takes that the text begins with; 0 if it begins with none.
unfoldable pub space_width : Text → ℕ
space_width [] = 0
space_width (a ∷ []) = if ascii_space a then 1 else 0
space_width (a ∷ b ∷ []) =
    if ascii_space a then 1 else if a == 0xc2 && (b == 0x85 || b == 0xa0) then 2 else 0
space_width (a ∷ b ∷ c ∷ _) =
    if ascii_space a
    then 1
    else if a == 0xc2 && (b == 0x85 || b == 0xa0)
    then 2
    else if a == 0xe1 && b == 0x9a && c == 0x80
        || a == 0xe2
          && b == 0x80
          && (leb 0x80 c && leb c 0x8a || c == 0xa8 || c == 0xa9 || c == 0xaf)
        || a == 0xe2 && b == 0x81 && c == 0x9f
        || a == 0xe3 && b == 0x80 && c == 0x80
    then 3
    else 0

-- The same for the rune that a text ends with, over the reversed text.
unfoldable pub space_width_back : Text → ℕ
space_width_back [] = 0
space_width_back (c ∷ []) = if ascii_space c then 1 else 0
space_width_back (c ∷ b ∷ []) =
    if ascii_space c then 1 else if b == 0xc2 && (c == 0x85 || c == 0xa0) then 2 else 0
space_width_back (c ∷ b ∷ a ∷ _) =
    if ascii_space c
    then 1
    else if b == 0xc2 && (c == 0x85 || c == 0xa0)
    then 2
    else if a == 0xe1 && b == 0x9a && c == 0x80
        || a == 0xe2
          && b == 0x80
          && (leb 0x80 c && leb c 0x8a || c == 0xa8 || c == 0xa9 || c == 0xaf)
        || a == 0xe2 && b == 0x81 && c == 0x9f
        || a == 0xe3 && b == 0x80 && c == 0x80
    then 3
    else 0

-- Drops leading runs of what `width` recognises; the first argument counts the bytes still to drop.
unfoldable pub trim_by : (Text → ℕ) → ℕ → Text → Text
trim_by width skip [] = []
trim_by width (suc k) (c ∷ s) = trim_by width k s
trim_by width zero (c ∷ s) = elim (width (c ∷ s)) [ zero ↦ c ∷ s | suc k ↦ trim_by width k s ]

-- strings.TrimSpace(s)
unfoldable pub trim_space : Text → Text
unfolding trim_by space_width space_width_back
trim_space s = reverse (trim_by space_width_back 0 (reverse (trim_by space_width 0 s)))

-- strings.Trim(s, cutset) for a cutset of ASCII bytes
unfoldable pub trim_set : (ℕ → Bool) → Text → Text
trim_set cut [] = []
trim_set cut (c ∷ s) = let rest = trim_set cut s in if cut c then rest else c ∷ s

unfoldable pub trim : (ℕ → Bool) → Text → Text
unfolding trim_set
trim cut s = reverse (trim_set cut (reverse (trim_set cut s)))

-- What holds of every byte of a text holds of every byte of its parts.
module _ (P : ℕ → Type 0) where
  All-trim_by : (width : Text → ℕ) (skip : ℕ) (s : Text) → All P s → All P (trim_by width skip s)
  unfolding trim_by
  All-trim_by width skip [] h = tt
  All-trim_by width (suc k) (c ∷ s) h = All-trim_by width k s h.1
  All-trim_by width zero (c ∷ s) h = by_width (width (c ∷ s)) (λ k. All-trim_by width k s h.1)
    where
      by_width :
          (n : ℕ)
          → ((k : ℕ) → All P (trim_by width k s))
          → All P (elim n [ zero ↦ c ∷ s | suc k ↦ trim_by width k s ])
      by_width zero f = h
      by_width (suc k) f = f k

  pub All-trim_space : (s : Text) → All P s → All P (trim_space s)
  unfolding trim_space
  All-trim_space s h =
      All-reverse P _
        (All-trim_by space_width_back 0 _ (All-reverse P _ (All-trim_by space_width 0 s h)))

  All-split_from :
      (sep : ℕ) (cur s : Text) → All P cur → All P s → All (All P) (split_from sep cur s)
  unfolding split_from
  All-split_from sep cur [] h k = (All-reverse P cur h, tt)
  All-split_from sep cur (c ∷ s) h k =
      by_test (c == sep) (All-split_from sep [] s tt k.1)
        (All-split_from sep (c ∷ cur) s (k.0, h) k.1)
    where
      by_test :
          (b : Bool)
          → All (All P) (split_from sep [] s)
          → All (All P) (split_from sep (c ∷ cur) s)
          → All
              (All P)
              (if b then reverse cur ∷ split_from sep [] s else split_from sep (c ∷ cur) s)
      by_test true f g = (All-reverse P cur h, f)
      by_test false f g = g

  pub All-split : (sep : ℕ) (s : Text) → All P s → All (All P) (split sep s)
  unfolding split
  All-split sep s h = All-split_from sep [] s tt h

trim_test : trim_space (codes " a b " ++ 0xe3 ∷ 0x80 ∷ 0x80 ∷ []) ≡ codes "a b"
unfolding trim_space
trim_test = refl

split_test : split b',' (codes "a,,b") ≡ codes "a" ∷ [] ∷ codes "b" ∷ []
unfolding split
split_test = refl
