-- ===== src/Gsm/Params/Valid.antt =====
-- When start parameters are valid, said without the checks, and that the checks decide it.
pub mod Blank
use gsm_system.Base.{
  ℕ, ◌≤◌, ◌<◌, ◌≡◌, ◌≢◌, ◌↔◌, ◌⊎◌, refl, Bool, true, false, ◌||◌, List, [], ◌∷◌, ◌++◌, reverse,
  Option, none, some, length, leb, all, All, if◌then◌else◌, arith, and-eq-true, All-of_all,
  all_of_All, All-reverse,
}
use Prim.Native.Nat.{zero-le}
use mathlib.Core.List.{reverse-reverse}
use gsm_system.Base.Text.{
  Text, codes, eqb, eqb_iff, is_digit, trim_space, trim_by, space_width, space_width_back,
}
use gsm_system.Base.Number.{ℤ, pos, atoi, atoi_of_is_digits, is_digits, number, max_int}
use gsm_system.Gsm.Params.{
  StartParams, Field, Reason, is_blank, short_name_char, interface_char, valid_interface_name,
  validate_short_name, validate_detailed, check_arfcns, check_number, check_band, check_mcc,
  check_mnc, check_short_name, check_network, channel_in_band, in_range?,
}
use gsm_system.Gsm.Params.Valid.Blank.{
  Plain, space_width-Plain, space_width_back-Plain, trim_by-Plain, trim_space-Plain, is_blank-Plain,
  digit-Plain, interface_char-Plain, is_blank-is_digits, is_blank-valid_interface_name, IsDigit,
  IsNumeral, InBand,
}

-- A printable ASCII character other than " ' ; # $ ` and \.
abbrev pub IsNameChar : ℕ → Type 0
IsNameChar c =
    (0x20 ≤ c)
    × (c ≤ 0x7e)
    × (c ≢ b'"')
    × (c ≢ b'\'')
    × (c ≢ b';')
    × (c ≢ b'#')
    × (c ≢ b'$')
    × (c ≢ b'`')
    × (c ≢ b'\\')

-- A letter, a digit, "_", "-" or ".".
abbrev pub IsInterfaceChar : ℕ → Type 0
IsInterfaceChar c =
    (b'a' ≤ c) × (c ≤ b'z')
    ⊎ (b'A' ≤ c) × (c ≤ b'Z')
    ⊎ IsDigit c
    ⊎ (c ≡ b'_')
    ⊎ (c ≡ b'-')
    ⊎ (c ≡ b'.')

-- What `ValidInterfaceName` accepts, said without it.
abbrev pub IsInterfaceName : Text → Type 0
IsInterfaceName name =
    (1 ≤ length name)
    × (length name ≤ 15)
    × (name ≢ codes ".")
    × (name ≢ codes "..")
    × All IsInterfaceChar name

pub record IsValid (p : StartParams) : Type 0 where
  pub arfcns : p.arfcns ≡ codes "1"
  pub c0 : IsNumeral p.c0
  pub channel : InBand p.band (number p.c0)
  pub mcc : (length p.mcc ≡ 3) × All IsDigit p.mcc
  pub mnc : ((length p.mnc ≡ 2) ⊎ (length p.mnc ≡ 3)) × All IsDigit p.mnc
  pub lac : IsNumeral p.lac × (1 ≤ number p.lac) × (number p.lac ≤ 65279)
  pub ci : IsNumeral p.ci × (number p.ci ≤ 65535)
  pub short_name :
      (1 ≤ length p.short_name) × (length p.short_name ≤ 32) × All IsNameChar p.short_name
  pub network : IsInterfaceName p.network

is_digits_iff : (s : Text) → (is_digits s ≡ true) ↔ IsNumeral s
unfolding is_digits
is_digits_iff [] = ((λ h. cc), λ h. absurd (omega arith))
is_digits_iff (c ∷ s) = (
  λ h. (omega arith, All-of_all IsDigit is_digit (λ d e. ground arith) (c ∷ s) h),
  λ h. all_of_All IsDigit is_digit (λ d e. ground arith) (c ∷ s) h.1,
)

IsNameChar-iff : (c : ℕ) → (short_name_char c ≡ true) ↔ IsNameChar c
IsNameChar-iff c = (λ h. ground arith, λ h. ground arith)

interface_char_iff : (c : ℕ) → (interface_char c ≡ true) ↔ IsInterfaceChar c
interface_char_iff c = (λ h. ground arith, λ h. ground arith)

append-eq-nil {ℓ} : {A : Type ℓ} (xs ys : List A) → ((xs ++ ys) ≡ []) ↔ ((xs ≡ []) × (ys ≡ []))
append-eq-nil [] ys = (λ h. (refl, h), λ h. h.1)
append-eq-nil (x ∷ xs) ys = (λ h. cc, λ h. cc)

check_number_iff :
    (f : Field) (s : Text) (test : Option ℤ → Bool) (r : Reason)
    → (check_number f s test r ≡ []) ↔ ((is_digits s ≡ true) × (test (atoi s) ≡ true))
unfolding check_number
check_number_iff f s test r = (ground arith, ground (arith, is_blank-is_digits s))

check_arfcns_iff : (p : StartParams) → (check_arfcns p ≡ []) ↔ (p.arfcns ≡ codes "1")
unfolding check_arfcns
check_arfcns_iff p = (
  ground (arith, eqb_iff p.arfcns (codes "1")),
  λ h. rw h (unfold is_blank trim_space is_digits eqb in refl),
)

abbrev read : ℕ → Option ℤ
read n = if leb n max_int then some (pos n) else none

channel_iff :
    (b : Text) (n : ℕ)
    → ((channel_in_band b (read n) ≡ true) × ((eqb b (codes "900") || eqb b (codes "1800")) ≡ true))
      ↔ InBand b n
channel_iff b n = (
  ground (arith, eqb_iff b (codes "900"), eqb_iff b (codes "1800")),
  ground (arith, eqb_iff b (codes "900"), eqb_iff b (codes "1800")),
)

range_iff : (lo hi n : ℕ) → hi ≤ max_int → (in_range? lo hi (read n) ≡ true) ↔ ((lo ≤ n) × (n ≤ hi))
range_iff lo hi n h = (ground arith, ground arith)

check_number_range_iff :
    (f : Field) (s : Text) (lo hi : ℕ) (r : Reason)
    → hi ≤ max_int
    → (check_number f s (in_range? lo hi) r ≡ [])
      ↔ (IsNumeral s × (lo ≤ number s) × (number s ≤ hi))
check_number_range_iff f s lo hi r b =
    let (to, from) = check_number_iff f s (in_range? lo hi) r in
    let (dto, dfrom) = is_digits_iff s in
    let (rto, rfrom) = range_iff lo hi (number s) b in
    (
      λ h. let (d, t) = to h in let w = rto (rw (atoi_of_is_digits s d) at t) in (dto d, w.0, w.1),
      λ h. from (dfrom h.0, rw (atoi_of_is_digits s (dfrom h.0)) (rfrom (h.1, h.2))),
    )

check_c0_band_iff :
    (p : StartParams)
    → ((check_number Field.c0 p.c0 (channel_in_band p.band) Reason.outside_band ≡ [])
        × (check_band p ≡ []))
      ↔ (IsNumeral p.c0 × InBand p.band (number p.c0))
unfolding check_band
check_c0_band_iff p =
    let (to, from) = check_number_iff Field.c0 p.c0 (channel_in_band p.band) Reason.outside_band in
    let (dto, dfrom) = is_digits_iff p.c0 in
    let (cto, cfrom) = channel_iff p.band (number p.c0) in
    (
      λ h. let (d, t) = to h.0 in (dto d, cto (rw (atoi_of_is_digits p.c0 d) at t, ground arith)),
      λ h. (
        from (dfrom h.0, rw (atoi_of_is_digits p.c0 (dfrom h.0)) (cfrom h.1).0),
        rw (cfrom h.1).1,
      ),
    )

check_mcc_iff : (p : StartParams) → (check_mcc p ≡ []) ↔ ((length p.mcc ≡ 3) × All IsDigit p.mcc)
unfolding check_mcc
check_mcc_iff p = (
  λ h. (ground arith, ((is_digits_iff p.mcc).0 (ground arith)).1),
  λ h. ground (arith, (is_digits_iff p.mcc).1 (omega arith, h.1)),
)

check_mnc_iff :
    (p : StartParams)
    → (check_mnc p ≡ []) ↔ (((length p.mnc ≡ 2) ⊎ (length p.mnc ≡ 3)) × All IsDigit p.mnc)
unfolding check_mnc
check_mnc_iff p = (
  λ h. (ground arith, ((is_digits_iff p.mnc).0 (ground arith)).1),
  λ h. ground (arith, (is_digits_iff p.mnc).1 (omega arith, h.1)),
)

check_short_name_iff :
    (p : StartParams)
    → (check_short_name p ≡ [])
      ↔ ((1 ≤ length p.short_name) × (length p.short_name ≤ 32) × All IsNameChar p.short_name)
unfolding check_short_name validate_short_name
check_short_name_iff p = (
  λ h. (
    ground arith,
    ground arith,
    All-of_all IsNameChar short_name_char (λ c. (IsNameChar-iff c).0) p.short_name (ground arith),
  ),
  λ h.
      ground
        (arith, all_of_All IsNameChar short_name_char (λ c. (IsNameChar-iff c).1) p.short_name h.2),
)

IsInterfaceName-iff : (name : Text) → (valid_interface_name name ≡ true) ↔ IsInterfaceName name
unfolding valid_interface_name
IsInterfaceName-iff name = (
  λ h. (
    ground arith,
    ground arith,
    ground (arith, eqb_iff name (codes ".")),
    ground (arith, eqb_iff name (codes "..")),
    All-of_all IsInterfaceChar interface_char (λ c. (interface_char_iff c).0) name (ground arith),
  ),
  λ h. ground (
    arith,
    all_of_All IsInterfaceChar interface_char (λ c. (interface_char_iff c).1) name h.4,
    eqb_iff name (codes "."),
    eqb_iff name (codes ".."),
  ),
)

check_network_valid :
    (p : StartParams) → (check_network p ≡ []) ↔ (valid_interface_name p.network ≡ true)
unfolding check_network
check_network_valid p = (ground arith, ground (arith, is_blank-valid_interface_name p.network))

lac_small : 65279 ≤ max_int
lac_small = omega arith

ci_small : 65535 ≤ max_int
ci_small = omega arith

-- `ValidateDetailed` reports no issue exactly when the parameters are valid: one carrier, a channel
-- of the selected band, 3 digits of MCC, 2 or 3 of MNC, LAC and CI in range, a short name of 1 to 32
-- safe characters and a safe interface name of 1 to 15.
pub validate_detailed_iff : (p : StartParams) → (validate_detailed p ≡ []) ↔ IsValid p
unfolding validate_detailed
validate_detailed_iff p = (to, from)
  where
    to : validate_detailed p ≡ [] → IsValid p
    to h =
        let (arf, h1) = (append-eq-nil _ _).0 h in
        let (c, h2) = (append-eq-nil _ _).0 h1 in
        let (band, h3) = (append-eq-nil _ _).0 h2 in
        let (mcc', h4) = (append-eq-nil _ _).0 h3 in
        let (mnc', h5) = (append-eq-nil _ _).0 h4 in
        let (lac', h6) = (append-eq-nil _ _).0 h5 in
        let (ci', h7) = (append-eq-nil _ _).0 h6 in
        let (name, net) = (append-eq-nil _ _).0 h7 in
        let channel = (check_c0_band_iff p).0 (c, band) in
        record {
          arfcns = (check_arfcns_iff p).0 arf;
          c0 = channel.0;
          channel = channel.1;
          mcc = (check_mcc_iff p).0 mcc';
          mnc = (check_mnc_iff p).0 mnc';
          lac = (check_number_range_iff Field.lac p.lac 1 65279 Reason.lac_range lac_small).0 lac';
          ci =
              let w =
                (check_number_range_iff Field.ci p.ci 0 65535 Reason.ci_range ci_small).0 ci' in
              (w.0, w.2);
          short_name = (check_short_name_iff p).0 name;
          network = (IsInterfaceName-iff p.network).0 ((check_network_valid p).0 net);
        }

    from : IsValid p → validate_detailed p ≡ []
    from v =
        let band = (check_c0_band_iff p).1 (v.c0, v.channel) in
        let lac' =
          (check_number_range_iff Field.lac p.lac 1 65279 Reason.lac_range lac_small).1 v.lac in
        let ci' =
          (check_number_range_iff Field.ci p.ci 0 65535 Reason.ci_range ci_small).1
            (v.ci.0, zero-le, v.ci.1) in
        let net = (check_network_valid p).1 ((IsInterfaceName-iff p.network).1 v.network) in
        rw (
          (check_arfcns_iff p).1 v.arfcns,
          band.0,
          band.1,
          (check_mcc_iff p).1 v.mcc,
          (check_mnc_iff p).1 v.mnc,
          lac',
          ci',
          (check_short_name_iff p).1 v.short_name,
          net,
        )
