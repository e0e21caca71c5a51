-- ===== src/Gsm/Presets.antt =====
-- internal/gsm/presets.go and preset_defaults.go: the preset store and its file.
-- A file is its size and what encoding/json reads from it; the steps of `persist` and `load` that
-- the operating system may refuse are arguments. The mutex makes each operation one step.
pub mod Codec
pub mod Store
pub mod Load
pub mod Invariant
pub mod Laws
pub mod Reload
pub mod Tests
use gsm_system.Base.{
  ℕ, zero, suc, ◌+◌, ◌*◌, ◌^◌, Bool, true, false, not, ◌&&◌, ◌||◌, List, [], ◌∷◌, ◌++◌, Option,
  none, some, length, leb, ltb, ◌==◌, all, if◌then◌else◌,
}
use gsm_system.Base.Text.{Text, codes, eqb, is_empty, is_digit, less}
use gsm_system.Gsm.Params.{StartParams, FieldIssue, is_blank, validate}

pub record Preset : Type 0 where
  pub id : Text
  pub name : Text
  pub description : Text
  pub params : StartParams

pub data PresetError : Type 0 where
  not_found exists invalid store_failed : PresetError

abbrev pub max_presets_file_bytes : ℕ
max_presets_file_bytes = 2 ^ 20

abbrev pub max_presets : ℕ
max_presets = 256

abbrev pub id_start : ℕ → Bool
id_start c = leb b'a' c && leb c b'z' || is_digit c

abbrev pub id_char : ℕ → Bool
id_char c = id_start c || c == b'_' || c == b'-'

-- `ValidPresetID`: [a-z0-9][a-z0-9_-]{0,63}
unfoldable pub valid_preset_id : Text → Bool
valid_preset_id [] = false
valid_preset_id (c ∷ s) = id_start c && all id_char s && leb (length s) 63

-- `ValidatePreset`; true is no error.
unfoldable pub valid_preset : Preset → Bool
valid_preset p =
    valid_preset_id p.id
    && not (is_blank p.name || ltb 128 (length p.name))
    && not (ltb 2048 (length p.description))
    && elim (validate p.params) [ none ↦ true | some _ ↦ false ]

-- `defaultPreset`
default_preset : Text → Text → Text → Text → Text → Text → Preset
default_preset id name band c0 mcc mnc = record {
  id = id;
  name = name;
  description = [];
  params = record {
    arfcns = codes "1";
    c0 = c0;
    band = band;
    mcc = mcc;
    mnc = mnc;
    lac = codes "1";
    ci = codes "1";
    short_name = name;
    network = codes "eth0";
  };
}

-- `DefaultPresets`
unfoldable pub default_presets : List Preset
unfolding default_preset
default_presets =
    default_preset (codes "0") (codes "addx") (codes "1800") (codes "540") (codes "001")
      (codes "01")
    ∷ (default_preset (codes "1") (codes "ChinaMobile") (codes "900") (codes "55") (codes "460")
          (codes "00")
        ∷ (default_preset (codes "2") (codes "ChinaMobile") (codes "1800") (codes "540")
              (codes "460") (codes "00")
            ∷ (default_preset (codes "3") (codes "ChinaUnicom") (codes "900") (codes "70")
                  (codes "460") (codes "01")
                ∷ (default_preset (codes "4") (codes "ChinaUnicom") (codes "1800") (codes "668")
                      (codes "460") (codes "01")
                    ∷ []))))

-- sort.Slice by ID; the identifiers in a store differ, so there is one sorted order.
unfoldable pub insert_by_id : Preset → List Preset → List Preset
insert_by_id p [] = p ∷ []
insert_by_id p (q ∷ qs) =
    let rest = insert_by_id p qs in if less q.id p.id then q ∷ rest else p ∷ (q ∷ qs)

unfoldable pub sort_by_id : List Preset → List Preset
unfolding insert_by_id
sort_by_id [] = []
sort_by_id (p ∷ ps) = insert_by_id p (sort_by_id ps)

-- The values of the map.
abbrev pub values : List (Text × Preset) → List Preset
values [] = []
values ((k, p) ∷ m) = p ∷ values m
