-- ===== src/Gsm/Params.antt =====
-- internal/gsm/gsm.go: the start parameters and their validation.
-- Texts are byte lists; every character test of the source refuses all runes above 127, so a test
-- of each byte decides alike. An illegal character is not named in the reason.
pub mod Valid
pub mod Tests
use gsm_system.Base.{
  ℕ, ◌≤◌, Bool, true, false, not, ◌&&◌, ◌||◌, List, [], ◌∷◌, ◌++◌, Option, none, some, length, leb,
  ltb, ◌==◌, any, all, if◌then◌else◌,
}
use gsm_system.Base.Text.{Text, codes, eqb, is_empty, is_digit, one_of, trim_space}
use gsm_system.Base.Number.{ℤ, atoi, in_range, is_digits}

pub record StartParams : Type 0 where
  pub arfcns : Text
  pub c0 : Text
  pub band : Text
  pub mcc : Text
  pub mnc : Text
  pub lac : Text
  pub ci : Text
  pub short_name : Text
  pub network : Text

pub data Field : Type 0 where
  arfcns c0 band mcc mnc lac ci short_name network : Field

pub data Reason : Type 0 where
  required must_be_digits one_carrier_only outside_band must_be_band : Reason
  must_be_3_digits must_be_2_or_3_digits lac_range ci_range : Reason
  too_long illegal_character illegal_characters : Reason

-- `FieldIssue`
abbrev pub FieldIssue : Type 0
FieldIssue = Field × Reason

-- strings.TrimSpace(s) == ""
unfoldable pub is_blank : Text → Bool
is_blank s = is_empty (trim_space s)

abbrev issue : Bool → Field → Reason → List FieldIssue
issue ok f r = if ok then [] else (f, r) ∷ []

check_arfcns : StartParams → List FieldIssue
check_arfcns p =
    if is_blank p.arfcns
    then (Field.arfcns, required) ∷ []
    else if not (is_digits p.arfcns)
    then (Field.arfcns, must_be_digits) ∷ []
    else issue (eqb p.arfcns (codes "1")) Field.arfcns one_carrier_only

-- The channel fits the band; any other band is refused by the check of the band.
abbrev channel_in_band : Text → Option ℤ → Bool
channel_in_band b none = false
channel_in_band b (some n) =
    not (eqb b (codes "900") && not (in_range 0 124 n || in_range 975 1023 n))
    && not (eqb b (codes "1800") && not (in_range 512 885 n))

abbrev in_range? : ℕ → ℕ → Option ℤ → Bool
in_range? lo hi none = false
in_range? lo hi (some n) = in_range lo hi n

-- A field that must be a number which passes a test.
check_number : Field → Text → (Option ℤ → Bool) → Reason → List FieldIssue
check_number f s test r =
    if is_blank s
    then (f, required) ∷ []
    else if not (is_digits s)
    then (f, must_be_digits) ∷ []
    else issue (test (atoi s)) f r

check_band : StartParams → List FieldIssue
check_band p = issue (eqb p.band (codes "900") || eqb p.band (codes "1800")) Field.band must_be_band

check_mcc : StartParams → List FieldIssue
check_mcc p = issue (length p.mcc == 3 && is_digits p.mcc) Field.mcc must_be_3_digits

check_mnc : StartParams → List FieldIssue
check_mnc p =
    issue ((length p.mnc == 2 || length p.mnc == 3) && is_digits p.mnc) Field.mnc
      must_be_2_or_3_digits

-- The characters that `validateShortName` lets through.
abbrev pub short_name_char : ℕ → Bool
short_name_char c = leb 0x20 c && leb c 0x7e && not (any (λ d. d == c) (codes "\"';#$`\\"))

-- `validateShortName`; `none` is no error.
unfoldable pub validate_short_name : Text → Option Reason
validate_short_name s =
    if is_empty s
    then some required
    else if ltb 32 (length s)
    then some too_long
    else if all short_name_char s
    then none
    else some illegal_character

abbrev pub interface_char : ℕ → Bool
interface_char c =
    leb b'a' c && leb c b'z'
    || leb b'A' c && leb c b'Z'
    || is_digit c
    || c == b'_'
    || c == b'-'
    || c == b'.'

-- `ValidInterfaceName`
unfoldable pub valid_interface_name : Text → Bool
valid_interface_name name =
    not
      (ltb (length name) 1 || ltb 15 (length name) || eqb name (codes ".") || eqb name (codes ".."))
    && all interface_char name

check_short_name : StartParams → List FieldIssue
check_short_name p = elim (validate_short_name p.short_name) [
  | none ↦ []
  | some r ↦ (Field.short_name, r) ∷ []
]

check_network : StartParams → List FieldIssue
check_network p =
    if is_blank p.network
    then (Field.network, required) ∷ []
    else issue (valid_interface_name p.network) Field.network illegal_characters

-- `ValidateDetailed`
unfoldable pub validate_detailed : StartParams → List FieldIssue
unfolding check_arfcns check_number check_band check_mcc check_mnc check_short_name check_network
validate_detailed p =
    check_arfcns p
    ++ (check_number Field.c0 p.c0 (channel_in_band p.band) outside_band
        ++ (check_band p
            ++ (check_mcc p
                ++ (check_mnc p
                    ++ (check_number Field.lac p.lac (in_range? 1 65279) lac_range
                        ++ (check_number Field.ci p.ci (in_range? 0 65535) ci_range
                            ++ (check_short_name p ++ check_network p)))))))

-- `Validate`: the first issue
unfoldable pub validate : StartParams → Option FieldIssue
unfolding validate_detailed
validate p = elim (validate_detailed p) [ [] ↦ none | i ∷ _ ↦ some i ]

-- `ValidateIMSI`
unfoldable pub valid_imsi : Text → Bool
valid_imsi imsi = length imsi == 15 && is_digits imsi

-- `ValidateNumber`
unfoldable pub valid_number : Text → Bool
valid_number n = leb 2 (length n) && leb (length n) 15 && is_digits n
