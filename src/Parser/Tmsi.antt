-- ===== src/Parser/Tmsi.antt =====
-- internal/parser/ue.go: the TMSI table and the SGSN list of OpenBTS.
-- Two functions of the standard library are parameters: `fold`, what unicode.ToLower makes of one
-- rune above 127, given and returned as bytes, and `address`, what net.ParseIP and String make of a
-- text. A slice out of range, which panics, is `none`.
pub mod Phone
pub mod Rows
pub mod Total
use gsm_system.Base.{
  ℕ, zero, suc, ◌+◌, Bool, true, false, not, ◌&&◌, ◌||◌, List, [], ◌∷◌, ◌++◌, Option, none, some,
  map, length, take, drop, all, ltb, leb, ◌==◌, if◌then◌else◌,
}
use gsm_system.Base.Text.{
  Text, codes, eqb, is_digit, is_empty, lower, has_prefix, strip_prefix, contains, index_of, split,
  trim_space, trim,
}
use gsm_system.Base.Utf8.{rune_width, fields}
use gsm_system.Base.Number.{ℤ, atoi}
use gsm_system.Base.Map.{find, put}

-- strings.TrimPrefix(s, p)
abbrev without_prefix : Text → Option Text → Text
without_prefix s none = s
without_prefix s (some rest) = rest

abbrev pub trim_prefix : Text → Text → Text
trim_prefix p s = without_prefix s (strip_prefix p s)

-- strings.TrimSuffix(line, "\r")
unfoldable pub trim_return : Text → Text
trim_return [] = []
trim_return (c ∷ []) = if c == 13 then [] else c ∷ []
trim_return (c ∷ (d ∷ s)) = c ∷ trim_return (d ∷ s)

unfoldable pub leading_run : Text → Text
leading_run [] = []
leading_run (c ∷ s) = let rest = leading_run s in if is_digit c then c ∷ rest else []

unfoldable pub leading_digits : Text → Text
unfolding strip_prefix leading_run
leading_digits s = leading_run (trim_prefix (codes "+") s)

unfoldable pub decimal_with_length : Text → ℕ → Bool
decimal_with_length s n = length s == n && all is_digit s

-- `optionalInt`
abbrev pub optional_int : Text → Option ℤ
optional_int s = atoi s

-- `columnBounds`; an end of -1 is `none`.
pub record ColumnBounds : Type 0 where
  pub start : ℕ
  pub end : Option ℕ

abbrev pub Columns : Type 0
Columns = List (Text × ColumnBounds)

abbrev pub column_names : List Text
column_names =
    codes "IMSI"
    ∷ codes "TMSI"
    ∷ codes "IMEI"
    ∷ codes "AUTH"
    ∷ codes "CREATED"
    ∷ codes "ACCESSED"
    ∷ codes "TMSI_ASSIGNED"
    ∷ codes "PTMSI_ASSIGNED"
    ∷ codes "AUTH_EXPIRY"
    ∷ codes "REJECT_CODE"
    ∷ codes "ASSOCIATED_URI"
    ∷ codes "ASSERTED_IDENTITY"
    ∷ codes "WELCOME_SENT"
    ∷ []

abbrev cons_start : ℕ → Option (List ℕ) → Option (List ℕ)
cons_start s none = none
cons_start s (some ss) = some (s ∷ ss)

-- The first loop of `tmsiColumns`, from `from` on.
unfoldable pub starts_from : Text → ℕ → List Text → Option (List ℕ)
unfolding index_of
starts_from header from [] = some []
starts_from header from (n ∷ ns) = elim (index_of (drop from header) n) [
  | none ↦ none
  | some relative ↦
      cons_start (from + relative) (starts_from header (from + relative + length n) ns)
]

abbrev pub first_start : List ℕ → Option ℕ
first_start [] = none
first_start (s ∷ _) = some s

-- The second loop: a column ends where the next one starts.
unfoldable pub with_ends : List Text → List ℕ → Columns
with_ends (n ∷ ns) (s ∷ ss) = (n, record { start = s; end = first_start ss }) ∷ with_ends ns ss
with_ends [] ss = []
with_ends (n ∷ ns) [] = []

abbrev ended : Option (List ℕ) → Option Columns
ended none = none
ended (some ss) = some (with_ends column_names ss)

unfoldable pub tmsi_columns : Text → Option Columns
unfolding starts_from with_ends
tmsi_columns header = ended (starts_from header 0 column_names)

abbrev pub end_in : Text → Option ℕ → ℕ
end_in line none = length line
end_in line (some e) = if ltb (length line) e then length line else e

unfoldable pub fixed_column : Text → ColumnBounds → Text
unfolding trim_space
fixed_column line b =
    let end = end_in line b.end in
    if leb (length line) b.start || ltb end b.start
    then []
    else trim_space (drop b.start (take end line))

abbrev column_at : Text → Option ColumnBounds → Text
column_at line none = fixed_column line (record { start = 0; end = some 0 })
column_at line (some b) = fixed_column line b

-- fixedColumn(line, columns[name])
abbrev pub column : Columns → Text → Text → Text
column columns name line = column_at line (find name columns)

-- The lines behind the first header line.
unfoldable pub find_header : List Text → Option (Columns × List Text)
unfolding tmsi_columns trim_return
find_header [] = none
find_header (l ∷ ls) = elim (tmsi_columns (trim_return l)) [
  | none ↦ find_header ls
  | some columns ↦ some (columns, ls)
]

-- s[n:], which panics where `n` exceeds the length.
abbrev pub slice_from : ℕ → Text → Option Text
slice_from n s = if ltb (length s) n then none else some (drop n s)

-- `UE`
pub record Ue : Type 0 where
  pub imsi : Text
  pub imei : Text
  pub number : Text
  pub ip : Text
  pub auth : Option ℤ
  pub reject_code : Option ℤ

-- strings.EqualFold(s, "none"): no other rune folds to one of these letters.
abbrev pub is_none_word : Text → Bool
is_none_word s = eqb (map lower s) (codes "none")

abbrev text_or_empty : Option Text → Text
text_or_empty none = []
text_or_empty (some s) = s

module _ (fold : Text → Text) where
  -- strings.ToLower: an invalid byte becomes U+FFFD. The number counts the bytes of a rune to pass.
  unfoldable pub lower_from : ℕ → Text → Text
  unfolding rune_width
  lower_from skip [] = []
  lower_from (suc k) (c ∷ s) = lower_from k s
  lower_from zero (c ∷ s) = elim (rune_width (c ∷ s)) [
    | zero ↦ 0xef ∷ 0xbf ∷ 0xbd ∷ lower_from 0 s
    | suc zero ↦ lower c ∷ lower_from 0 s
    | suc (suc k) ↦ fold (take (suc (suc k)) (c ∷ s)) ++ lower_from (suc k) s
  ]

  unfoldable pub lower_text : Text → Text
  unfolding lower_from
  lower_text s = lower_from 0 s

  abbrev digits_behind : Option Text → Option Text
  digits_behind none = none
  digits_behind (some rest) = some (leading_digits rest)

  -- The user of a SIP address, where it is marked as a phone number.
  abbrev pub sip_user : Text → ℕ → Text
  sip_user rest at =
      let user = trim_prefix (codes "+") (take at rest) in
      if (has_prefix (take at rest) (codes "+")
          || contains (lower_text (drop at rest)) (codes "user=phone"))
        && decimal_with_length user (length user)
        && not (is_empty user)
      then user
      else []

  abbrev user_at : Text → Option ℕ → Text
  user_at rest none = []
  user_at rest (some at) = sip_user rest at

  abbrev sip_number : Option Text → Option Text
  sip_number none = none
  sip_number (some rest) = some (user_at rest (index_of rest (codes "@")))

  abbrev sip_identity : Text → Option ℕ → Option Text
  sip_identity s none = some []
  sip_identity s (some start) = sip_number (slice_from (start + 4) s)

  abbrev identity_in : Text → Option ℕ → Option ℕ → Option Text
  identity_in s (some start) sip = digits_behind (slice_from (start + 4) s)
  identity_in s none sip = sip_identity s sip

  unfoldable pub phone_identity : Text → Option Text
  unfolding lower_text leading_digits decimal_with_length index_of contains strip_prefix
  phone_identity s =
      identity_in s (index_of (lower_text s) (codes "tel:"))
        (index_of (lower_text s) (codes "sip:"))

  abbrev pub first_identity : Option Text → Option Text → Option Text
  first_identity none other = none
  first_identity (some []) other = other
  first_identity (some (c ∷ s)) other = some (c ∷ s)

  abbrev ip_of : Text → Text
  ip_of ip = if is_none_word ip then [] else ip

  abbrev observed :
      List (Text × Text) → Text → Text → Option ℤ → Option ℤ → Option Text → Option (List Ue)
  observed sgsn imsi imei auth reject none = none
  observed sgsn imsi imei auth reject (some number) = some (
      record {
        imsi = imsi;
        imei = if decimal_with_length imei 15 then imei else [];
        number = number;
        ip = ip_of (text_or_empty (find imsi sgsn));
        auth = auth;
        reject_code = reject;
      }
      ∷ [])

  -- A row with the values of its columns; the number is looked for only behind the test.
  abbrev pub row_of :
      List (Text × Text) → Text → Text → Option ℤ → Option ℤ → Option Text → Option (List Ue)
  row_of sgsn imsi imei auth reject number =
      let row = observed sgsn imsi imei auth reject number in
      if decimal_with_length imsi 15 then row else some []

  abbrev leading_columns : List (Text × Text) → Text → List Text → Option (List Ue)
  leading_columns sgsn line (imsi ∷ (_ ∷ (imei ∷ _))) =
      row_of sgsn imsi imei none none (phone_identity line)
  leading_columns sgsn line _ = some []

  abbrev parse_row : List (Text × Text) → Option Columns → Text → Option (List Ue)
  parse_row sgsn (some columns) line =
      row_of sgsn (column columns (codes "IMSI") line) (column columns (codes "IMEI") line)
        (optional_int (column columns (codes "AUTH") line))
        (optional_int (column columns (codes "REJECT_CODE") line))
        (first_identity (phone_identity (column columns (codes "ASSOCIATED_URI") line))
          (phone_identity (column columns (codes "ASSERTED_IDENTITY") line)))
  parse_row sgsn none line = leading_columns sgsn line (fields line)

  unfoldable pub parse_line : List (Text × Text) → Option Columns → Text → Option (List Ue)
  unfolding phone_identity fixed_column decimal_with_length find fields trim_space
  parse_line sgsn columns line =
      if is_empty (trim_space line) then some [] else parse_row sgsn columns line

  abbrev join_rows : Option (List Ue) → Option (List Ue) → Option (List Ue)
  join_rows (some a) (some b) = some (a ++ b)
  join_rows _ _ = none

  unfoldable pub parse_lines : List (Text × Text) → Option Columns → List Text → Option (List Ue)
  unfolding parse_line trim_return
  parse_lines sgsn columns [] = some []
  parse_lines sgsn columns (l ∷ ls) =
      join_rows (parse_line sgsn columns (trim_return l)) (parse_lines sgsn columns ls)

  abbrev pub parse_table :
      List (Text × Text) → List Text → Option (Columns × List Text) → Option (List Ue)
  parse_table sgsn lines none = parse_lines sgsn none lines
  parse_table sgsn lines (some (columns, rest)) = parse_lines sgsn (some columns) rest

  unfoldable pub parse_tmsis : Text → List (Text × Text) → Option (List Ue)
  unfolding find_header parse_lines split trim_space
  parse_tmsis out sgsn =
      let lines = split b'\n' (trim_space out) in parse_table sgsn lines (find_header lines)
