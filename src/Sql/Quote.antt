-- ===== src/Sql/Quote.antt =====
-- `quote` of internal/subscriber/store.go and `sqliteEscape` of internal/gsm/db.go, and what a
-- string literal with the result in it means. How sqlite reads literals is a parameter.
mod Tests
use gsm_system.Base.{
  All, ◌≢◌, ℕ, ◌≡◌, refl, ap, ◌∙◌, ◌==◌, Bool, true, false, not, sym, [], ◌∷◌, ◌++◌, Option, none,
  some, if◌then◌else◌, arith, Bool-cases, inl, inr, ==_iff,
}
use gsm_system.Base.Text.{Text}

-- strings.ReplaceAll(value, "'", "''")
unfoldable pub quote : Text → Text
quote [] = []
quote (c ∷ t) = let rest = quote t in if c == b'\'' then b'\'' ∷ b'\'' ∷ rest else c ∷ rest

abbrev pub put_first : ℕ → Option (Text × Text) → Option (Text × Text)
put_first c none = none
put_first c (some r) = some (c ∷ r.0, r.1)

-- The text that follows does not begin with a quote.
abbrev pub ends_literal : Text → Bool
ends_literal [] = true
ends_literal (c ∷ t) = not (c == b'\'')

-- A byte that a literal has as it is: no quote, and no NUL, which ends the script.
abbrev pub IsPlain : ℕ → Type 0
IsPlain c = ((c == b'\'') ≡ false) × (c ≢ 0)

-- `read_literal` reads the rest of a string literal, from behind its opening quote, and gives its
-- value and the text after its closing quote. The hypotheses are what sqlite documents: a quote in a
-- literal is written twice, any other byte stands for itself, and a single quote closes it.
module _ (read_literal : Text → Option (Text × Text))
    (plain : (c : ℕ) (t : Text) → IsPlain c → read_literal (c ∷ t) ≡ put_first c (read_literal t))
    (doubled : (t : Text) → read_literal (b'\'' ∷ (b'\'' ∷ t)) ≡ put_first b'\'' (read_literal t))
    (closing : (rest : Text)
      → ends_literal rest ≡ true
      → read_literal (b'\'' ∷ rest) ≡ some ([], rest)) where
  -- If a reader of literals takes a doubled quote for one, any other byte but NUL for itself and a
  -- single quote for the end: whatever value without NUL is quoted, the literal is read as exactly
  -- that value, and the reading goes on with the text after the closing quote, if this does not begin
  -- with a quote: no value can end its literal early or change the statement.
  pub read_literal-quote :
      (value rest : Text)
      → All (λ c. c ≢ 0) value
      → ends_literal rest ≡ true
      → read_literal (quote value ++ b'\'' ∷ rest) ≡ some (value, rest)
  unfolding quote
  read_literal-quote [] rest n h = closing rest h
  read_literal-quote (c ∷ t) rest n h = elim (Bool-cases (c == b'\'')) [
    | inl e ↦ rw e (
        doubled (quote t ++ b'\'' ∷ rest)
        ∙ ap (put_first b'\'') (read_literal-quote t rest n.1 h)
        ∙ ap (λ d. some (d ∷ t, rest)) (sym ((==_iff c b'\'').0 e)))
    | inr e ↦ rw e (
        plain c (quote t ++ b'\'' ∷ rest) (e, n.0)
        ∙ ap (put_first c) (read_literal-quote t rest n.1 h))
  ]
