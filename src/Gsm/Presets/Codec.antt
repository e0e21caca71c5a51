-- ===== src/Gsm/Presets/Codec.antt =====
-- The JSON form of presets.json, both ways.
pub mod RoundTrip
use gsm_system.Base.{
  ℕ, zero, suc, Bool, true, false, ◌||◌, List, [], ◌∷◌, ◌++◌, Option, none, some, map,
  if◌then◌else◌,
}
use gsm_system.Base.Text.{Text, codes, eqb}
use gsm_system.Base.Number.{ℤ, pos}
use gsm_system.Base.Json.{
  Json, Items, Fields, null, bool, num, str, arr, obj, nil, cons, end, field, items, list_of, names,
  fold_name, as_string, as_int,
}
use gsm_system.Gsm.Params.{StartParams}
use gsm_system.Gsm.Presets.{Preset}

-- `presetFile`
pub record PresetFile : Type 0 where
  pub version : ℤ
  pub items : List Preset

unfoldable pub params_json : StartParams → Json
params_json p = obj (
    field (codes "arfcns") (str p.arfcns) (
      field (codes "c0") (str p.c0) (
        field (codes "band") (str p.band) (
          field (codes "mcc") (str p.mcc) (
            field (codes "mnc") (str p.mnc) (
              field (codes "lac") (str p.lac) (
                field (codes "ci") (str p.ci) (
                  field (codes "short_name") (str p.short_name)
                    (field (codes "network") (str p.network) end)))))))))

preset_json : Preset → Json
unfolding params_json
preset_json p = obj (
    field (codes "id") (str p.id) (
      field (codes "name") (str p.name) (
        field (codes "description") (str p.description)
          (field (codes "params") (params_json p.params) end))))

-- presetFile{Version: 2, Items: ordered}
unfoldable pub encode : List Preset → Json
unfolding preset_json
encode ordered = obj (
    field (codes "version") (num (codes "2"))
      (field (codes "items") (arr (items (map preset_json ordered))) end))

abbrev pub bind {ℓ κ} : {A : Type ℓ} {B : Type κ} → Option A → (A → Option B) → Option B
bind none f = none
bind (some a) f = f a

-- One member of the object of the parameters; an unknown name is an error.
unfoldable pub params_member : StartParams → Text → Json → Option StartParams
unfolding fold_name as_string
params_member p n v =
    let k = fold_name n in
    if eqb k (codes "arfcns")
    then bind (as_string p.arfcns v) (λ s. some (record p { arfcns = s }))
    else if eqb k (codes "c0")
    then bind (as_string p.c0 v) (λ s. some (record p { c0 = s }))
    else if eqb k (codes "band")
    then bind (as_string p.band v) (λ s. some (record p { band = s }))
    else if eqb k (codes "mcc")
    then bind (as_string p.mcc v) (λ s. some (record p { mcc = s }))
    else if eqb k (codes "mnc")
    then bind (as_string p.mnc v) (λ s. some (record p { mnc = s }))
    else if eqb k (codes "lac")
    then bind (as_string p.lac v) (λ s. some (record p { lac = s }))
    else if eqb k (codes "ci")
    then bind (as_string p.ci v) (λ s. some (record p { ci = s }))
    else if eqb k (codes "short_name")
    then bind (as_string p.short_name v) (λ s. some (record p { short_name = s }))
    else if eqb k (codes "network")
    then bind (as_string p.network v) (λ s. some (record p { network = s }))
    else none

params_members : StartParams → Fields → Option StartParams
unfolding params_member
params_members p end = some p
params_members p (field n v fs) = bind (params_member p n v) (λ q. params_members q fs)

unfoldable pub decode_params : StartParams → Json → Option StartParams
unfolding params_members
decode_params p null = some p
decode_params p (obj fs) = params_members p fs
decode_params p _ = none

abbrev pub no_params : StartParams
no_params = record {
  arfcns = [];
  c0 = [];
  band = [];
  mcc = [];
  mnc = [];
  lac = [];
  ci = [];
  short_name = [];
  network = [];
}

abbrev no_preset : Preset
no_preset = record { id = []; name = []; description = []; params = no_params }

preset_member : Preset → Text → Json → Option Preset
unfolding decode_params
preset_member p n v =
    let k = fold_name n in
    if eqb k (codes "id")
    then bind (as_string p.id v) (λ s. some (record p { id = s }))
    else if eqb k (codes "name")
    then bind (as_string p.name v) (λ s. some (record p { name = s }))
    else if eqb k (codes "description")
    then bind (as_string p.description v) (λ s. some (record p { description = s }))
    else if eqb k (codes "params")
    then bind (decode_params p.params v) (λ q. some (record p { params = q }))
    else none

preset_members : Preset → Fields → Option Preset
unfolding preset_member
preset_members p end = some p
preset_members p (field n v fs) = bind (preset_member p n v) (λ q. preset_members q fs)

decode_preset : Json → Option Preset
unfolding preset_members
decode_preset null = some no_preset
decode_preset (obj fs) = preset_members no_preset fs
decode_preset _ = none

decode_items : Items → Option (List Preset)
unfolding decode_preset
decode_items nil = some []
decode_items (cons x xs) =
    bind (decode_preset x) (λ p. bind (decode_items xs) (λ ps. some (p ∷ ps)))

file_member : PresetFile → Text → Json → Option PresetFile
unfolding decode_items as_int
file_member d n v =
    let k = fold_name n in
    if eqb k (codes "version")
    then bind (as_int d.version v) (λ i. some (record d { version = i }))
    else if eqb k (codes "items")
    then elim v [
      | null ↦ some (record d { items = [] })
      | arr xs ↦ bind (decode_items xs) (λ ps. some (record d { items = ps }))
      | _ ↦ none
    ]
    else none

file_members : PresetFile → Fields → Option PresetFile
unfolding file_member
file_members d end = some d
file_members d (field n v fs) = bind (file_member d n v) (λ q. file_members q fs)

-- decoder.Decode(&disk) with DisallowUnknownFields
unfoldable pub decode : Json → Option PresetFile
unfolding file_members
decode null = some (record { version = pos 0; items = [] })
decode (obj fs) = file_members (record { version = pos 0; items = [] }) fs
decode _ = none

-- The first member whose name folds to "items".
items_member : Fields → Option Json
items_member end = none
items_member (field n v fs) =
    let rest = items_member fs in if eqb (fold_name n) (codes "items") then some v else rest

-- The member is there and not null.
unfoldable pub has_items : Json → Bool
unfolding items_member
has_items (obj fs) = elim (items_member fs) [
  | none ↦ false
  | some v ↦ elim v [ null ↦ false | _ ↦ true ]
]
has_items _ = false
