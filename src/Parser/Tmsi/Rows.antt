-- ===== src/Parser/Tmsi/Rows.antt =====
-- internal/parser/ue.go: what the rows of the table can give.
use gsm_system.Base.{
  ◌≡◌, refl, ◌⊎◌, inl, inr, Bool, true, false, List, [], ◌∷◌, Option, none, some, length, All,
  All-append, Bool-cases, if◌then◌else◌,
}
use gsm_system.Base.Text.{Text, codes, is_empty, split, trim_space}
use gsm_system.Base.Utf8.{fields}
use gsm_system.Base.Number.{ℤ}
use gsm_system.Parser.Tmsi.{
  Ue, Columns, column, find_header, trim_return, decimal_with_length, phone_identity,
  first_identity, row_of, observed, leading_columns, parse_row, parse_line, join_rows, parse_lines,
  parse_table, parse_tmsis, optional_int,
}
use gsm_system.Parser.Tmsi.Phone.{
  AreDigits, OnNumber, decimal_with_length-AreDigits, phone_identity-OnNumber,
}

-- The IMSI has fifteen digits, the IMEI too or is missing, the number consists of digits.
pub record IsUe (u : Ue) : Type 0 where
  pub imsi : (length u.imsi ≡ 15) × AreDigits u.imsi
  pub imei : (u.imei ≡ []) ⊎ ((length u.imei ≡ 15) × AreDigits u.imei)
  pub number : AreDigits u.number

abbrev pub OnRows : Option (List Ue) → Type 0
OnRows none = Unit
OnRows (some us) = All IsUe us

imei_or_none :
    (imei : Text) (b : Bool)
    → decimal_with_length imei 15 ≡ b
    → ((if b then imei else []) ≡ [])
      ⊎ ((length (if b then imei else []) ≡ 15) × AreDigits (if b then imei else []))
imei_or_none imei true h = inr (decimal_with_length-AreDigits imei 15 h)
imei_or_none imei false h = inl refl

module _ (fold : Text → Text) (sgsn : List (Text × Text)) where
  observed-OnRows :
      (imsi imei : Text) (auth reject : Option ℤ) (number : Option Text)
      → decimal_with_length imsi 15 ≡ true
      → OnNumber number
      → OnRows (observed fold sgsn imsi imei auth reject number)
  observed-OnRows imsi imei auth reject none h n = tt
  observed-OnRows imsi imei auth reject (some number) h n = (
    record {
      imsi = decimal_with_length-AreDigits imsi 15 h;
      imei = imei_or_none imei (decimal_with_length imei 15) refl;
      number = n;
    },
    tt,
  )

  row_of-OnRows :
      (imsi imei : Text) (auth reject : Option ℤ) (number : Option Text)
      → OnNumber number
      → OnRows (row_of fold sgsn imsi imei auth reject number)
  row_of-OnRows imsi imei auth reject number n = elim (Bool-cases (decimal_with_length imsi 15)) [
    | inl e ↦ rw e (observed-OnRows imsi imei auth reject number e n)
    | inr e ↦ rw e tt
  ]

  leading_columns-OnRows :
      (line : Text) (fs : List Text) → OnRows (leading_columns fold sgsn line fs)
  leading_columns-OnRows line [] = tt
  leading_columns-OnRows line (a ∷ []) = tt
  leading_columns-OnRows line (a ∷ (b ∷ [])) = tt
  leading_columns-OnRows line (a ∷ (b ∷ (c ∷ fs))) =
      row_of-OnRows a c none none (phone_identity fold line) (phone_identity-OnNumber fold line)

  first_identity-OnNumber :
      (a b : Option Text) → OnNumber a → OnNumber b → OnNumber (first_identity fold a b)
  first_identity-OnNumber none b h k = tt
  first_identity-OnNumber (some []) b h k = k
  first_identity-OnNumber (some (c ∷ a)) b h k = h

  parse_row-OnRows :
      (columns : Option Columns) (line : Text) → OnRows (parse_row fold sgsn columns line)
  parse_row-OnRows none line = leading_columns-OnRows line (fields line)
  parse_row-OnRows (some columns) line =
      row_of-OnRows (column columns (codes "IMSI") line) (column columns (codes "IMEI") line)
        (optional_int (column columns (codes "AUTH") line))
        (optional_int (column columns (codes "REJECT_CODE") line))
        (first_identity fold (phone_identity fold (column columns (codes "ASSOCIATED_URI") line))
          (phone_identity fold (column columns (codes "ASSERTED_IDENTITY") line)))
        (first_identity-OnNumber
          (phone_identity fold (column columns (codes "ASSOCIATED_URI") line))
          (phone_identity fold (column columns (codes "ASSERTED_IDENTITY") line))
          (phone_identity-OnNumber fold (column columns (codes "ASSOCIATED_URI") line))
          (phone_identity-OnNumber fold (column columns (codes "ASSERTED_IDENTITY") line)))

  parse_line-OnRows :
      (columns : Option Columns) (line : Text) → OnRows (parse_line fold sgsn columns line)
  unfolding parse_line
  parse_line-OnRows columns line = elim (Bool-cases (is_empty (trim_space line))) [
    | inl e ↦ rw e tt
    | inr e ↦ rw e (parse_row-OnRows columns line)
  ]

  join_rows-OnRows : (a b : Option (List Ue)) → OnRows a → OnRows b → OnRows (join_rows fold a b)
  join_rows-OnRows none b h k = tt
  join_rows-OnRows (some us) none h k = tt
  join_rows-OnRows (some us) (some vs) h k = All-append IsUe us vs h k

  parse_lines-OnRows :
      (columns : Option Columns) (ls : List Text) → OnRows (parse_lines fold sgsn columns ls)
  unfolding parse_lines
  parse_lines-OnRows columns [] = tt
  parse_lines-OnRows columns (l ∷ ls) =
      join_rows-OnRows (parse_line fold sgsn columns (trim_return l))
        (parse_lines fold sgsn columns ls) (parse_line-OnRows columns (trim_return l))
        (parse_lines-OnRows columns ls)

  parse_table-OnRows :
      (lines : List Text) (o : Option (Columns × List Text))
      → OnRows (parse_table fold sgsn lines o)
  parse_table-OnRows lines none = parse_lines-OnRows none lines
  parse_table-OnRows lines (some (columns, rest)) = parse_lines-OnRows (some columns) rest

  pub parse_tmsis-OnRows : (out : Text) → OnRows (parse_tmsis fold out sgsn)
  unfolding parse_tmsis
  parse_tmsis-OnRows out =
      parse_table-OnRows (split b'\n' (trim_space out)) (find_header (split b'\n' (trim_space out)))
