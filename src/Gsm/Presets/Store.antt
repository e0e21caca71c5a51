-- ===== src/Gsm/Presets/Store.antt =====
-- The store with its file, `persist` and the five operations.
pub mod Outcome
use gsm_system.Base.{
  ℕ, zero, suc, ◌+◌, Bool, true, false, not, ◌&&◌, List, [], ◌∷◌, Option, none, some, length, leb,
  ltb, if◌then◌else◌,
}
use gsm_system.Base.Text.{Text, is_some}
use gsm_system.Base.Map.{find, put, delete}
use gsm_system.Base.Json.{Json}
use gsm_system.Base.Json.Print.{marshal_indent}
use gsm_system.Base.Json.Read.{as_read}
use gsm_system.Gsm.Presets.{
  Preset, PresetError, not_found, exists, invalid, store_failed, max_presets,
  max_presets_file_bytes, valid_preset, sort_by_id, values,
}
use gsm_system.Gsm.Presets.Codec.{encode}

-- `document` is none where encoding/json finds a syntax error or data behind the first value.
pub record File : Type 0 where
  pub size : ℕ
  pub is_regular : Bool
  pub document : Option Json

-- `disk` is the file presets.json, if it exists; `items` and `load_err` are the fields of the store.
pub record State : Type 0 where
  pub disk : Option File
  pub items : List (Text × Preset)
  pub load_err : Option PresetError

-- Which steps of one `persist` fail; `rename i` is the i-th attempt.
pub record PersistFaults : Type 0 where
  pub mkdir : Bool
  pub create_temp : Bool
  pub chmod : Bool
  pub write : Bool
  pub sync : Bool
  pub close : Bool
  pub rename : ℕ → Bool
  pub sync_dir : Bool

abbrev pub no_faults : PersistFaults
no_faults = record {
  mkdir = false;
  create_temp = false;
  chmod = false;
  write = false;
  sync = false;
  close = false;
  rename = λ i. false;
  sync_dir = false;
}

-- The loop over `attempts` renames from the i-th on: does one succeed?
renamed : ℕ → ℕ → (ℕ → Bool) → Bool
renamed zero i fails = false
renamed (suc attempts) i fails =
    let rest = renamed attempts (suc i) fails in if fails i then rest else true

-- The steps before the rename; the temporary file is removed when one fails.
abbrev pub prepared : PersistFaults → Bool
prepared f =
    not f.mkdir && not f.create_temp && not f.chmod && not f.write && not f.sync && not f.close

-- The bytes that are written, without the newline at the end.
abbrev pub file_text : List (Text × Preset) → Text
file_text m = marshal_indent (encode (sort_by_id (values m)))

-- The file that is written, as a decoder reads it.
abbrev pub file_of : List (Text × Preset) → File
file_of m = record {
  size = length (file_text m) + 1;
  is_regular = true;
  document = some (as_read (encode (sort_by_id (values m))));
}

-- `(*PresetStore).persist`
unfoldable pub persist : PersistFaults → List (Text × Preset) → State → State × Option PresetError
unfolding renamed
persist f m s =
    if ltb max_presets_file_bytes (length (file_text m) + 1)
    then (s, some invalid)
    else if not (prepared f)
    then (s, some store_failed)
    else if not (renamed 6 0 f.rename)
    then (s, some store_failed)
    else if f.sync_dir
    then (record s { disk = some (file_of m); load_err = some store_failed }, some store_failed)
    else (record s { disk = some (file_of m) }, none)

-- persist(next), then s.items = next if there was no error
abbrev take_over : List (Text × Preset) → State × Option PresetError → State × Option PresetError
take_over next (s, none) = (record s { items = next }, none)
take_over next (s, some err) = (s, some err)

commit : PersistFaults → List (Text × Preset) → State → State × Option PresetError
commit f next s = take_over next (persist f next s)

-- The part of an operation behind the check of `loadErr`.
abbrev gate : Option PresetError → State → (State × Option PresetError) → State × Option PresetError
gate (some e) s go = (s, some e)
gate none s go = go

abbrev when_loaded : State → (State × Option PresetError) → State × Option PresetError
when_loaded s go = gate s.load_err s go

-- `List`
unfoldable pub list_presets : State → Option PresetError × List Preset
list_presets s = elim s.load_err [
  | some e ↦ (some e, [])
  | none ↦ (none, sort_by_id (values s.items))
]

-- `Get`
unfoldable pub get_preset : Text → State → Option PresetError × Option Preset
get_preset id s = elim s.load_err [
  | some e ↦ (some e, none)
  | none ↦ elim (find id s.items) [ none ↦ (some not_found, none) | some p ↦ (none, some p) ]
]

-- `Create`
unfoldable pub create : PersistFaults → Preset → State → State × Option PresetError
unfolding commit
create f p s =
    if valid_preset p
    then when_loaded s (
        if is_some (find p.id s.items)
        then (s, some exists)
        else if leb max_presets (length s.items)
        then (s, some invalid)
        else commit f (put p.id p s.items) s)
    else (s, some invalid)

-- `Update`
unfoldable pub update : PersistFaults → Text → Preset → State → State × Option PresetError
unfolding commit
update f id given s =
    let p = record given { id = id } in
    if valid_preset p
    then when_loaded s
        (if is_some (find id s.items) then commit f (put id p s.items) s else (s, some not_found))
    else (s, some invalid)

-- `Delete`
unfoldable pub delete_preset : PersistFaults → Text → State → State × Option PresetError
unfolding commit
delete_preset f id s =
    when_loaded s
      (if is_some (find id s.items) then commit f (delete id s.items) s else (s, some not_found))
