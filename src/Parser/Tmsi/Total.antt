-- ===== src/Parser/Tmsi/Total.antt =====
-- internal/parser/ue.go: on a table in ASCII the parser stays in range.
use gsm_system.Base.{
  ◌<◌, ◌≡◌, ◌≢◌, refl, inl, inr, Bool, true, false, ◌||◌, List, [], ◌∷◌, Option, none, some, length,
  take, drop, All, All-take, All-drop, leb, ltb, ◌==◌, Bool-cases, Option-cases, if◌then◌else◌,
}
use gsm_system.Base.Text.{Text, codes, is_empty, split, trim_space, All-trim_space, All-split}
use gsm_system.Base.Utf8.{fields}
use gsm_system.Base.Number.{ℤ}
use gsm_system.Base.Map.{find}
use gsm_system.Parser.Tmsi.{
  Ue, Columns, ColumnBounds, column, column_at, fixed_column, end_in, find_header, tmsi_columns,
  trim_return, decimal_with_length, phone_identity, first_identity, row_of, observed,
  leading_columns, parse_row, parse_line, join_rows, parse_lines, parse_table, parse_tmsis,
  optional_int,
}
use gsm_system.Parser.Tmsi.Phone.{AreAscii, phone_identity-ne_none}
use gsm_system.Parser.Tmsi.Rows.{IsUe, parse_tmsis-OnRows}

abbrev AreLines : List Text → Type 0
AreLines ls = All AreAscii ls

trim_return-AreAscii : (s : Text) → AreAscii s → AreAscii (trim_return s)
unfolding trim_return
trim_return-AreAscii [] h = tt
trim_return-AreAscii (c ∷ []) h = elim (Bool-cases (c == 13)) [ inl e ↦ rw e tt | inr e ↦ rw e h ]
trim_return-AreAscii (c ∷ (d ∷ s)) h = (h.0, trim_return-AreAscii (d ∷ s) h.1)

fixed_column-AreAscii :
    (line : Text) (b : ColumnBounds) → AreAscii line → AreAscii (fixed_column line b)
unfolding fixed_column
fixed_column-AreAscii line b h = cut (leb (length line) b.start || ltb (end_in line b.end) b.start)
  where
    part : Text
    part = drop b.start (take (end_in line b.end) line)

    cut : (outside : Bool) → AreAscii (if outside then [] else trim_space part)
    cut true = tt
    cut false =
        All-trim_space (λ c. c < 128) part
          (All-drop (λ c. c < 128) b.start (take (end_in line b.end) line)
            (All-take (λ c. c < 128) (end_in line b.end) line h))

column-AreAscii :
    (columns : Columns) (name line : Text) → AreAscii line → AreAscii (column columns name line)
column-AreAscii columns name line h = at (find name columns)
  where
    at : (o : Option ColumnBounds) → AreAscii (column_at line o)
    at none = fixed_column-AreAscii line (record { start = 0; end = some 0 }) h
    at (some b) = fixed_column-AreAscii line b h

abbrev IsSure {ℓ} : {A : Type ℓ} → Option A → Type 0
IsSure none = ⊥
IsSure (some _) = Unit

sure : (o : Option Text) → o ≢ none → IsSure o
sure none h = h refl
sure (some s) h = tt

module _ (fold : Text → Text) (sgsn : List (Text × Text)) where
  row_of-IsSure :
      (imsi imei : Text) (auth reject : Option ℤ) (number : Option Text)
      → IsSure number
      → IsSure (row_of fold sgsn imsi imei auth reject number)
  row_of-IsSure imsi imei auth reject (some n) h = kept (decimal_with_length imsi 15)
    where
      kept :
          (b : Bool)
          → IsSure (if b then observed fold sgsn imsi imei auth reject (some n) else some [])
      kept true = tt
      kept false = tt
  row_of-IsSure imsi imei auth reject none h = absurd h

  first_identity-IsSure :
      (a b : Option Text) → IsSure a → IsSure b → IsSure (first_identity fold a b)
  first_identity-IsSure (some []) b h k = k
  first_identity-IsSure (some (c ∷ a)) b h k = tt
  first_identity-IsSure none b h k = h

  identity-IsSure : (s : Text) → AreAscii s → IsSure (phone_identity fold s)
  identity-IsSure s h = sure (phone_identity fold s) (phone_identity-ne_none fold s h)

  leading_columns-IsSure :
      (line : Text) (fs : List Text) → AreAscii line → IsSure (leading_columns fold sgsn line fs)
  leading_columns-IsSure line [] h = tt
  leading_columns-IsSure line (a ∷ []) h = tt
  leading_columns-IsSure line (a ∷ (b ∷ [])) h = tt
  leading_columns-IsSure line (a ∷ (b ∷ (c ∷ fs))) h =
      row_of-IsSure a c none none (phone_identity fold line) (identity-IsSure line h)

  parse_row-IsSure :
      (columns : Option Columns) (line : Text)
      → AreAscii line
      → IsSure (parse_row fold sgsn columns line)
  parse_row-IsSure none line h = leading_columns-IsSure line (fields line) h
  parse_row-IsSure (some columns) line h =
      row_of-IsSure (at (codes "IMSI")) (at (codes "IMEI")) (optional_int (at (codes "AUTH")))
        (optional_int (at (codes "REJECT_CODE")))
        (first_identity fold (phone_identity fold (at (codes "ASSOCIATED_URI")))
          (phone_identity fold (at (codes "ASSERTED_IDENTITY"))))
        (first_identity-IsSure (phone_identity fold (at (codes "ASSOCIATED_URI")))
          (phone_identity fold (at (codes "ASSERTED_IDENTITY"))) (known (codes "ASSOCIATED_URI"))
          (known (codes "ASSERTED_IDENTITY")))
    where
      at : Text → Text
      at name = column columns name line

      known : (name : Text) → IsSure (phone_identity fold (column columns name line))
      known name = identity-IsSure (column columns name line) (column-AreAscii columns name line h)

  parse_line-IsSure :
      (columns : Option Columns) (line : Text)
      → AreAscii line
      → IsSure (parse_line fold sgsn columns line)
  unfolding parse_line
  parse_line-IsSure columns line h = elim (Bool-cases (is_empty (trim_space line))) [
    | inl e ↦ rw e tt
    | inr e ↦ rw e (parse_row-IsSure columns line h)
  ]

  join_rows-IsSure : (a b : Option (List Ue)) → IsSure a → IsSure b → IsSure (join_rows fold a b)
  join_rows-IsSure (some us) (some vs) h k = tt
  join_rows-IsSure (some us) none h k = k
  join_rows-IsSure none b h k = h

  parse_lines-IsSure :
      (columns : Option Columns) (ls : List Text)
      → AreLines ls
      → IsSure (parse_lines fold sgsn columns ls)
  unfolding parse_lines
  parse_lines-IsSure columns [] h = tt
  parse_lines-IsSure columns (l ∷ ls) h =
      join_rows-IsSure (parse_line fold sgsn columns (trim_return l))
        (parse_lines fold sgsn columns ls)
        (parse_line-IsSure columns (trim_return l) (trim_return-AreAscii l h.0))
        (parse_lines-IsSure columns ls h.1)

abbrev RestAreLines : Option (Columns × List Text) → Type 0
RestAreLines none = Unit
RestAreLines (some (columns, rest)) = AreLines rest

find_header-AreLines : (ls : List Text) → AreLines ls → RestAreLines (find_header ls)
unfolding find_header
find_header-AreLines [] h = tt
find_header-AreLines (l ∷ ls) h = found (tmsi_columns (trim_return l)) (find_header-AreLines ls h.1)
  where
    found :
        (o : Option Columns)
        → RestAreLines (find_header ls)
        → RestAreLines (elim o [ none ↦ find_header ls | some columns ↦ some (columns, ls) ])
    found none k = k
    found (some columns) k = h.1

module _ (fold : Text → Text) (sgsn : List (Text × Text)) where
  parse_table-IsSure :
      (lines : List Text) (o : Option (Columns × List Text))
      → AreLines lines
      → RestAreLines o
      → IsSure (parse_table fold sgsn lines o)
  parse_table-IsSure lines none h k = parse_lines-IsSure fold sgsn none lines h
  parse_table-IsSure lines (some (columns, rest)) h k =
      parse_lines-IsSure fold sgsn (some columns) rest k

  parse_tmsis-IsSure : (out : Text) → AreAscii out → IsSure (parse_tmsis fold out sgsn)
  unfolding parse_tmsis
  parse_tmsis-IsSure out h =
      parse_table-IsSure lines (find_header lines) ascii (find_header-AreLines lines ascii)
    where
      lines : List Text
      lines = split b'\n' (trim_space out)

      ascii : AreLines lines
      ascii = All-split (λ c. c < 128) b'\n' (trim_space out) (All-trim_space (λ c. c < 128) out h)

  -- From a table in ASCII, whatever else it holds, the parser returns, and every terminal in the
  -- result has an IMSI of fifteen digits, an IMEI of fifteen digits or none, and a number that
  -- consists of digits.
  pub parse_tmsis-AreUes :
      (out : Text)
      → AreAscii out
      → (us : List Ue) × (parse_tmsis fold out sgsn ≡ some us) × All IsUe us
  parse_tmsis-AreUes out h = elim (Option-cases (parse_tmsis fold out sgsn)) [
    | inl e ↦ absurd (rw e at (parse_tmsis-IsSure out h))
    | inr (us, e) ↦ (us, e, rw e at (parse_tmsis-OnRows fold sgsn out))
  ]
