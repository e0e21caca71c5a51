-- ===== src/Gsm/Params/Tests.antt =====
-- Parameters that pass and fail the validation.
use gsm_system.Base.{◌≡◌, ◌↔◌, refl, true, false, [], ◌∷◌}
use gsm_system.Base.Text.{codes, eqb, trim_space}
use gsm_system.Base.Number.{atoi, is_digits}
use gsm_system.Gsm.Params.{
  StartParams, Field, Reason, validate_detailed, validate_short_name, valid_interface_name,
  is_blank, valid_imsi, valid_number,
}
use gsm_system.Gsm.Params.Valid.{IsValid, validate_detailed_iff}

abbrev pub addx : StartParams
addx = record {
  arfcns = codes "1";
  c0 = codes "540";
  band = codes "1800";
  mcc = codes "001";
  mnc = codes "01";
  lac = codes "1";
  ci = codes "1";
  short_name = codes "addx";
  network = codes "eth0";
}

checks : Unit {0}
unfolding validate_detailed validate_short_name valid_interface_name is_blank trim_space eqb atoi
    is_digits
checks = tt

addx_passes : validate_detailed addx ≡ []
unfolding checks
addx_passes = refl

wrong_band :
    validate_detailed (record addx { band = codes "900"; lac = codes "65280"; network = [] })
    ≡ (Field.c0, Reason.outside_band)
      ∷ (Field.lac, Reason.lac_range)
      ∷ (Field.network, Reason.required)
      ∷ []
unfolding checks
wrong_band = refl

numbers : (valid_imsi (codes "001010000000001") ≡ true) × (valid_number (codes "1") ≡ false)
unfolding valid_imsi valid_number is_digits
numbers = (refl, refl)

validate_detailed_iff_example : (validate_detailed addx ≡ []) ↔ IsValid addx
validate_detailed_iff_example = validate_detailed_iff addx
