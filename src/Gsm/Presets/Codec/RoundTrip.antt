-- ===== src/Gsm/Presets/Codec/RoundTrip.antt =====
-- Decoding what was encoded gives the presets back, if their texts are UTF-8.
use gsm_system.Base.{◌≡◌, refl, true, List, [], ◌∷◌, some, map, All}
use gsm_system.Base.Text.{Text, eqb}
use gsm_system.Base.Number.{pos, atoi}
use gsm_system.Base.Utf8.{utf8_valid, to_valid_utf8-valid}
use gsm_system.Base.Json.Read.{as_read, items_as_read}
use gsm_system.Gsm.Params.{StartParams}
use gsm_system.Base.Json.{items, unique_names, unique_items, to_lower, fold_name, as_string, as_int}
use gsm_system.Gsm.Presets.{Preset}
use gsm_system.Gsm.Presets.Codec.{
  encode, decode, has_items, params_json, preset_json, decode_preset, decode_items,
}

decode_preset-preset_json : (p : Preset) → decode_preset (preset_json p) ≡ some p
unfolding decode_preset preset_json fold_name eqb as_string
decode_preset-preset_json p = refl

decode_items-items : (l : List Preset) → decode_items (items (map preset_json l)) ≡ some l
unfolding decode_items
decode_items-items [] = refl
decode_items-items (p ∷ l) = rw (decode_preset-preset_json p) (rw (decode_items-items l))

pub decode-encode :
    (l : List Preset) → decode (encode l) ≡ some (record { version = pos 2; items = l })
unfolding decode encode fold_name eqb as_int atoi
decode-encode l = rw (decode_items-items l)

unique_preset : (p : Preset) → unique_names to_lower (preset_json p) ≡ true
unfolding unique_names preset_json to_lower eqb
unique_preset p = refl

unique_presets : (l : List Preset) → unique_items to_lower (items (map preset_json l)) ≡ true
unfolding unique_names
unique_presets [] = refl
unique_presets (p ∷ l) = rw (unique_preset p) (unique_presets l)

pub unique_names-encode : (l : List Preset) → unique_names to_lower (encode l) ≡ true
unfolding encode unique_names to_lower eqb
unique_names-encode l = rw (unique_presets l)

pub has_items-encode : (l : List Preset) → has_items (encode l) ≡ true
unfolding encode has_items fold_name eqb
has_items-encode l = refl

abbrev IsUtf8 : Text → Type 0
IsUtf8 s = utf8_valid s ≡ true

-- The nine texts of the parameters are UTF-8.
abbrev pub IsUtf8Params : StartParams → Type 0
IsUtf8Params p =
    IsUtf8 p.arfcns
    × IsUtf8 p.c0
    × IsUtf8 p.band
    × IsUtf8 p.mcc
    × IsUtf8 p.mnc
    × IsUtf8 p.lac
    × IsUtf8 p.ci
    × IsUtf8 p.short_name
    × IsUtf8 p.network

abbrev pub IsUtf8Preset : Preset → Type 0
IsUtf8Preset p = IsUtf8 p.id × IsUtf8 p.name × IsUtf8 p.description × IsUtf8Params p.params

pub as_read-params_json :
    (p : StartParams) → IsUtf8Params p → as_read (params_json p) ≡ params_json p
unfolding as_read params_json
as_read-params_json p (a, c0, band, mcc, mnc, lac, ci, short, network) =
    rw
      (
        to_valid_utf8-valid p.arfcns a,
        to_valid_utf8-valid p.c0 c0,
        to_valid_utf8-valid p.band band,
        to_valid_utf8-valid p.mcc mcc,
        to_valid_utf8-valid p.mnc mnc,
        to_valid_utf8-valid p.lac lac,
        to_valid_utf8-valid p.ci ci,
        to_valid_utf8-valid p.short_name short,
        to_valid_utf8-valid p.network network,
      )
      refl

as_read-preset_json : (p : Preset) → IsUtf8Preset p → as_read (preset_json p) ≡ preset_json p
unfolding as_read preset_json
as_read-preset_json p (id, name, description, params) =
    rw
      (
        to_valid_utf8-valid p.id id,
        to_valid_utf8-valid p.name name,
        to_valid_utf8-valid p.description description,
        as_read-params_json p.params params,
      )
      refl

as_read-items :
    (l : List Preset)
    → All IsUtf8Preset l
    → items_as_read (items (map preset_json l)) ≡ items (map preset_json l)
unfolding as_read
as_read-items [] h = refl
as_read-items (p ∷ l) h = rw (as_read-preset_json p h.0, as_read-items l h.1) refl

pub as_read-encode : (l : List Preset) → All IsUtf8Preset l → as_read (encode l) ≡ encode l
unfolding as_read encode
as_read-encode l h = rw (as_read-items l h) refl
