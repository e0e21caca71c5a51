-- ===== src/Gsm/Presets/Load.antt =====
-- `load`, which `NewPresetStore` runs once: its error poisons the store.
pub mod Sound
pub mod Items
use gsm_system.Base.{
  ℕ, ◌+◌, Bool, true, false, not, ◌&&◌, ◌||◌, List, [], ◌∷◌, Option, none, some, length, leb, ltb,
  if◌then◌else◌,
}
use gsm_system.Base.Text.{Text, is_some}
use gsm_system.Base.Number.{ℤ, pos, in_range}
use gsm_system.Base.Map.{find, put}
use gsm_system.Base.Json.{Json, null, obj, unique_names, to_lower}
use gsm_system.Gsm.Presets.{
  Preset, PresetError, store_failed, max_presets, max_presets_file_bytes, valid_preset,
  default_presets,
}
use gsm_system.Gsm.Presets.Codec.{PresetFile, decode, has_items}
use gsm_system.Gsm.Presets.Store.{State, File, PersistFaults, persist}

-- Which step of opening and reading an existing file fails, if one does.
pub record LoadFaults : Type 0 where
  pub read : Bool  -- open, stat, read or close
  pub persist : PersistFaults

-- items[preset.ID] = preset for each default
abbrev put_all : List Preset → List (Text × Preset) → List (Text × Preset)
put_all [] m = m
put_all (p ∷ ps) m = put_all ps (put p.id p m)

-- Each default whose identifier is free is added.
add_missing : List Preset → List (Text × Preset) → List (Text × Preset)
add_missing [] m = m
add_missing (p ∷ ps) m = add_missing ps (if is_some (find p.id m) then m else put p.id p m)

-- The loop over disk.Items: every preset valid, no identifier twice.
unfoldable pub load_items : List (Text × Preset) → List Preset → Option (List (Text × Preset))
load_items m [] = some m
load_items m (p ∷ ps) =
    if valid_preset p && not (is_some (find p.id m)) then load_items (put p.id p m) ps else none

-- An error of `persist` becomes one of `load`, and the map is not taken over.
abbrev adopt : List (Text × Preset) → State × Option PresetError → State
adopt m (s, none) = record s { items = m }
adopt m (s, some e) = record s { load_err = some store_failed }

abbrev fail : State → State
fail s = record s { load_err = some store_failed }

migrate : PersistFaults → List (Text × Preset) → State → State
unfolding add_missing
migrate f loaded s =
    let next = add_missing default_presets loaded in
    if ltb max_presets (length next) then fail s else adopt next (persist f next s)

load_file : PersistFaults → PresetFile → State → State
unfolding load_items migrate
load_file f d s =
    if not (in_range 1 2 d.version) || ltb max_presets (length d.items)
    then fail s
    else elim (load_items [] d.items) [
      | none ↦ fail s
      | some loaded ↦
          if in_range 1 1 d.version then migrate f loaded s else record s { items = loaded }
    ]

load_document : PersistFaults → Option Json → State → State
unfolding load_file
load_document f none s = fail s
load_document f (some j) s =
    if unique_names to_lower j && has_items j
    then elim (decode j) [ none ↦ fail s | some d ↦ load_file f d s ]
    else fail s

load_disk : LoadFaults → Option File → State → State
unfolding load_document
load_disk f none s =
    adopt (put_all default_presets []) (persist f.persist (put_all default_presets []) s)
load_disk f (some file) s =
    if f.read || ltb max_presets_file_bytes file.size || not file.is_regular
    then fail s
    else load_document f.persist file.document s

-- `load` on a fresh store
unfoldable pub load : LoadFaults → State → State
unfolding load_disk
load f s = load_disk f s.disk s

-- `NewPresetStore` over what is on the disk
unfoldable pub new_preset_store : LoadFaults → Option File → State
unfolding load
new_preset_store f disk = load f (record { disk = disk; items = []; load_err = none })
