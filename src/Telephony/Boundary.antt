-- ===== src/Telephony/Boundary.antt =====
-- The backward scan finds the first record start of a tail that ends with complete records.
use gsm_system.Base.{
  ℕ, zero, suc, ◌%◌, ◌<◌, ◌≡◌, ◌≢◌, subst, drop-nil, refl, sym, ap, ◌∙◌, ◌==◌, ltb, Bool, true,
  false, not, ◌&&◌, [], ◌∷◌, Option, none, some, length, drop, if◌then◌else◌, arith, Bool-cases,
  inl, inr,
}
use gsm_system.Base.Text.{Text}
use gsm_system.Telephony.History.{quote_mark, found, scan_back, first_safe_csv_boundary}

unfoldable pub quote_count : Text → ℕ
quote_count [] = 0
quote_count (c ∷ t) = let n = quote_count t in if c == quote_mark then suc n else n

-- A newline with an even number of quotes between it and the end, and something after it.
unfoldable pub ends_before : Text → Bool
ends_before [] = false
ends_before (c ∷ t) = c == 10 && (quote_count t % 2 == 0 && ltb 0 (length t))

-- Whether a record that is not empty starts at an index, not at the very beginning.
unfoldable pub starts_record : ℕ → Text → Bool
starts_record zero t = false
starts_record (suc k) t = ends_before (drop k t)

not-not : (b : Bool) → not (not b) ≡ b
not-not true = refl
not-not false = refl

false≢true : false ≢ true
false≢true = cc

odd_suc : (n : ℕ) → not (not (n % 2 == 0)) ≡ not (suc n % 2 == 0)
odd_suc n = ground arith

scan_back-quotes : (t : Text) → (scan_back t).0 ≡ not (quote_count t % 2 == 0)
unfolding scan_back quote_count
scan_back-quotes [] = refl
scan_back-quotes (c ∷ t) = elim (Bool-cases (c == quote_mark)) [
  | inl e ↦ rw e (ap not (scan_back-quotes t) ∙ odd_suc (quote_count t))
  | inr e ↦ rw e (scan_back-quotes t)
]

pub data IsFirst (t : Text) : Option ℕ → Type 0 where
  nowhere : ((j : ℕ) → starts_record j t ≡ false) → IsFirst t none
  at_index :
      (i : ℕ)
      → starts_record i t ≡ true
      → ((j : ℕ) → j < i → starts_record j t ≡ false)
      → IsFirst t (some i)

at_one : (c : ℕ) (t : Text) → ends_before (c ∷ t) ≡ true → IsFirst (c ∷ t) (some 1)
unfolding starts_record
at_one c t e = at_index 1 e before
  where
    before : (j : ℕ) → j < 1 → starts_record j (c ∷ t) ≡ false
    before zero l = refl
    before (suc j) l = absurd (omega arith)

found-IsFirst :
    (c : ℕ) (t : Text) (o : Option ℕ)
    → ends_before (c ∷ t) ≡ false
    → IsFirst t o
    → IsFirst (c ∷ t) (found false o)
unfolding starts_record
found-IsFirst c t none e (nowhere h) = nowhere never
  where
    never : (j : ℕ) → starts_record j (c ∷ t) ≡ false
    never zero = refl
    never (suc zero) = e
    never (suc (suc j)) = h (suc j)
found-IsFirst c t (some zero) e (at_index _ h g) = absurd (false≢true h)
found-IsFirst c t (some (suc i)) e (at_index _ h g) = at_index (suc (suc i)) h before
  where
    before : (j : ℕ) → j < suc (suc i) → starts_record j (c ∷ t) ≡ false
    before zero l = refl
    before (suc zero) l = e
    before (suc (suc j)) l = g (suc j) (omega arith)

-- The first index of any tail at which a record starts: a newline stands before it, an even number
-- of quotes and at least one byte after that newline, and no smaller index has this; none is
-- returned only if there is no such index.
pub first_safe_csv_boundary-IsFirst : (t : Text) → IsFirst t (first_safe_csv_boundary t)
unfolding first_safe_csv_boundary scan_back starts_record ends_before
first_safe_csv_boundary-IsFirst [] = nowhere never
  where
    never : (j : ℕ) → starts_record j [] ≡ false
    never zero = refl
    never (suc j) = ap ends_before (drop-nil j)
first_safe_csv_boundary-IsFirst (c ∷ t) = elim (Bool-cases (ends_before (c ∷ t))) [
  | inl e ↦ subst (λ b. IsFirst (c ∷ t) (found b (scan_back t).1)) (sym (here ∙ e)) (at_one c t e)
  | inr e ↦
      subst (λ b. IsFirst (c ∷ t) (found b (scan_back t).1)) (sym (here ∙ e))
        (found-IsFirst c t (scan_back t).1 e (first_safe_csv_boundary-IsFirst t))
]
  where
    here : (c == 10 && (not (scan_back t).0 && ltb 0 (length t))) ≡ ends_before (c ∷ t)
    here = rw (scan_back-quotes t) (rw (not-not (quote_count t % 2 == 0)) refl)
