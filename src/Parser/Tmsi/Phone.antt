-- ===== src/Parser/Tmsi/Phone.antt =====
-- internal/parser/ue.go: phone numbers in addresses, and when looking for one stays in range.
use mathlib.Core.Option
use gsm_system.Base.{
  ℕ, suc, ◌+◌, ◌≤◌, ◌<◌, ◌≡◌, ◌≢◌, refl, ap, inl, inr, Bool, true, false, ◌&&◌, [], ◌∷◌, Option,
  none, some, length, length-append, take, drop, all, All, All-of_all, arith, ltb-false, ◌==◌,
  Bool-cases, and-eq-true, if◌then◌else◌, ==_iff,
}
use gsm_system.Base.Text.{
  Text, codes, is_digit, is_some, has_prefix, strip_prefix, strip_prefix-eq_some, index_of,
}
use gsm_system.Base.Utf8.{rune_width}
use gsm_system.Parser.Tmsi.{
  trim_prefix, leading_run, leading_digits, decimal_with_length, slice_from, lower_from, lower_text,
  sip_user, phone_identity, digits_behind, user_at, sip_number, identity_in,
}

abbrev pub AreDigits : Text → Type 0
AreDigits s = All (λ c. is_digit c ≡ true) s

pub decimal_with_length-AreDigits :
    (s : Text) (n : ℕ) → decimal_with_length s n ≡ true → (length s ≡ n) × AreDigits s
unfolding decimal_with_length
decimal_with_length-AreDigits s n h =
    let parts = and-eq-true (length s == n) (all is_digit s) h in
    (
      (==_iff (length s) n).0 parts.0,
      All-of_all (λ c. is_digit c ≡ true) is_digit (λ c e. e) s parts.1,
    )

leading_run-AreDigits : (s : Text) → AreDigits (leading_run s)
unfolding leading_run
leading_run-AreDigits [] = tt
leading_run-AreDigits (c ∷ s) = elim (Bool-cases (is_digit c)) [
  | inl e ↦ rw e (e, leading_run-AreDigits s)
  | inr e ↦ rw e tt
]

abbrev pub OnNumber : Option Text → Type 0
OnNumber none = Unit
OnNumber (some n) = AreDigits n

abbrev pub AreAscii : Text → Type 0
AreAscii s = All (λ c. c < 128) s

-- The index leaves room for `n` bytes.
abbrev Fits : ℕ → Text → Option ℕ → Type 0
Fits n s none = Unit
Fits n s (some i) = i + n ≤ length s

has_prefix-le : (s p : Text) → has_prefix s p ≡ true → length p ≤ length s
has_prefix-le s p h = by_rest (strip_prefix p s) refl h
  where
    by_rest : (o : Option Text) → strip_prefix p s ≡ o → is_some o ≡ true → length p ≤ length s
    by_rest none e q = absurd (cc q)
    by_rest (some rest) e q =
        omega (
          arith,
          ap (λ (t : Text). length t) (strip_prefix-eq_some p s rest e),
          length-append p rest,
        )

index_of-Fits : (s p : Text) → Fits (length p) s (index_of s p)
unfolding index_of
index_of-Fits [] p = elim (Bool-cases (has_prefix [] p)) [
  | inl e ↦ rw e (omega (arith, has_prefix-le [] p e))
  | inr e ↦ rw e tt
]
index_of-Fits (c ∷ s) p = elim (Bool-cases (has_prefix (c ∷ s) p)) [
  | inl e ↦ rw e (omega (arith, has_prefix-le (c ∷ s) p e))
  | inr e ↦ rw e (further (index_of s p) (index_of-Fits s p))
]
  where
    further :
        (o : Option ℕ) → Fits (length p) s o → Fits (length p) (c ∷ s) (Option.map (λ i. suc i) o)
    further none f = unfold Option.map in tt
    further (some i) f = unfold Option.map in omega arith

some-ne_none : {t : Text} → ◌≢◌ {A = Option Text} (some t) none
some-ne_none e = cc

slice_from-Fits :
    (s : Text) (i : ℕ) → i + 4 ≤ length s → slice_from (i + 4) s ≡ some (drop (i + 4) s)
slice_from-Fits s i h = rw (ltb-false (length s) (i + 4) h)

module _ (fold : Text → Text) where
  digits_behind-OnNumber : (o : Option Text) → OnNumber (digits_behind fold o)
  unfolding leading_digits
  digits_behind-OnNumber none = tt
  digits_behind-OnNumber (some rest) = leading_run-AreDigits (trim_prefix (codes "+") rest)

  sip_user-AreDigits : (rest : Text) (at : ℕ) → AreDigits (sip_user fold rest at)
  sip_user-AreDigits rest at =
      checked _ _ _ (λ h. (decimal_with_length-AreDigits user (length user) h).1)
    where
      user : Text
      user = trim_prefix (codes "+") (take at rest)

      checked :
          (marked decimal filled : Bool)
          → (decimal ≡ true → AreDigits user)
          → AreDigits (if marked && decimal && filled then user else [])
      checked true true true h = h refl
      checked true true false h = tt
      checked true false filled h = tt
      checked false decimal filled h = tt

  user_at-AreDigits : (rest : Text) (o : Option ℕ) → AreDigits (user_at fold rest o)
  user_at-AreDigits rest none = tt
  user_at-AreDigits rest (some at) = sip_user-AreDigits rest at

  sip_number-OnNumber : (o : Option Text) → OnNumber (sip_number fold o)
  sip_number-OnNumber none = tt
  sip_number-OnNumber (some rest) = user_at-AreDigits rest (index_of rest (codes "@"))

  identity_in-OnNumber : (s : Text) (tel sip : Option ℕ) → OnNumber (identity_in fold s tel sip)
  identity_in-OnNumber s (some start) sip = digits_behind-OnNumber (slice_from (start + 4) s)
  identity_in-OnNumber s none none = tt
  identity_in-OnNumber s none (some start) = sip_number-OnNumber (slice_from (start + 4) s)

  pub phone_identity-OnNumber : (s : Text) → OnNumber (phone_identity fold s)
  unfolding phone_identity
  phone_identity-OnNumber s =
      identity_in-OnNumber s (index_of (lower_text fold s) (codes "tel:"))
        (index_of (lower_text fold s) (codes "sip:"))

  -- Over ASCII the lower-case text is as long as the text itself.

  rune_width-ascii : (c : ℕ) (s : Text) → c < 128 → rune_width (c ∷ s) ≡ 1
  unfolding rune_width
  rune_width-ascii c [] h = ground arith
  rune_width-ascii c (b ∷ []) h = ground arith
  rune_width-ascii c (b ∷ (d ∷ [])) h = ground arith
  rune_width-ascii c (b ∷ (d ∷ (e ∷ s))) h = ground arith

  length-lower_from : (s : Text) → AreAscii s → length (lower_from fold 0 s) ≡ length s
  unfolding lower_from
  length-lower_from [] h = refl
  length-lower_from (c ∷ s) h =
      rw (rune_width-ascii c s h.0, lower_from) (ap (λ n. suc n) (length-lower_from s h.1))

  identity_in-ne_none :
      (s : Text) (tel sip : Option ℕ)
      → Fits 4 s tel
      → Fits 4 s sip
      → identity_in fold s tel sip ≢ none
  identity_in-ne_none s (some start) sip h k e =
      absurd (some-ne_none (rw (slice_from-Fits s start h) at e))
  identity_in-ne_none s none (some start) h k e =
      absurd (some-ne_none (rw (slice_from-Fits s start k) at e))
  identity_in-ne_none s none none h k e = some-ne_none e

  -- On ASCII text the search stays in range.
  pub phone_identity-ne_none : (s : Text) → AreAscii s → phone_identity fold s ≢ none
  unfolding phone_identity
  phone_identity-ne_none s h =
      identity_in-ne_none s (index_of (lower_text fold s) (codes "tel:"))
        (index_of (lower_text fold s) (codes "sip:"))
        (within (index_of (lower_text fold s) (codes "tel:"))
          (index_of-Fits (lower_text fold s) (codes "tel:")))
        (within (index_of (lower_text fold s) (codes "sip:"))
          (index_of-Fits (lower_text fold s) (codes "sip:")))
    where
      within : (o : Option ℕ) → Fits 4 (lower_text fold s) o → Fits 4 s o
      within none f = tt
      within (some i) f = unfold lower_text in omega (arith, length-lower_from s h)
