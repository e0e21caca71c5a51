-- ===== src/Gsm/Presets/Tests.antt =====
-- A store that is created from nothing, changed, and poisoned.
use gsm_system.Base.{◌≡◌, ◌≢◌, refl, true, ◌++◌, [], ◌∷◌, none, some, map}
use gsm_system.Base.Text.{Text, codes, eqb, trim_space, less}
use gsm_system.Base.Number.{atoi, is_digits}
use gsm_system.Base.Map.{find, put, delete}
use gsm_system.Base.Utf8.{utf8_valid, to_valid_utf8}
use gsm_system.Base.Json.Read.{as_read}
use gsm_system.Base.Json.{str, obj, arr, items, field, end, unique_names, to_lower, fold_name}
use gsm_system.Base.Json.Print.{marshal_indent}
use gsm_system.Gsm.Params.{validate, is_blank, validate_short_name, valid_interface_name}
use gsm_system.Gsm.Params.Tests.{addx}
use gsm_system.Gsm.Presets.{
  Preset, PresetError, store_failed, default_presets, valid_preset, valid_preset_id, sort_by_id,
}
use gsm_system.Gsm.Presets.Codec.{encode}
use gsm_system.Gsm.Presets.Store.{
  State, PersistFaults, no_faults, persist, create, update, delete_preset, get_preset, list_presets,
}
use gsm_system.Gsm.Presets.Invariant.{IsSound}
use gsm_system.Gsm.Presets.Load.{LoadFaults, new_preset_store}
use gsm_system.Gsm.Presets.Load.Sound.{loaded, created, Reachable-IsSound}
use gsm_system.Gsm.Presets.Laws.{FailsClosed, create_error, poisoned_forever}
use gsm_system.Gsm.Presets.Reload.{readable, Reloads, AreUtf8, create-Reloads}
use gsm_system.Gsm.Presets.Codec.RoundTrip.{IsUtf8Preset}

abbrev fine : LoadFaults
fine = readable no_faults

abbrev fresh : State
fresh = new_preset_store fine none

abbrev lab : Preset
lab = record { id = codes "lab-1"; name = codes "Lab"; description = []; params = addx }

running : Unit {0}
unfolding new_preset_store persist create update delete_preset get_preset list_presets
    default_presets valid_preset valid_preset_id validate is_blank trim_space validate_short_name
    valid_interface_name eqb atoi is_digits find put delete marshal_indent encode sort_by_id less
running = tt

fresh_ids :
    map (λ (p : Preset). p.id) (list_presets fresh).1
    ≡ codes "0" ∷ (codes "1" ∷ (codes "2" ∷ (codes "3" ∷ (codes "4" ∷ []))))
unfolding running
fresh_ids = refl

created_fine : (create no_faults lab fresh).1 ≡ none
unfolding running
created_fine = refl

updated_fine : (update no_faults (codes "0") lab fresh).1 ≡ none
unfolding running
updated_fine = refl

deleted_fine : (delete_preset no_faults (codes "0") fresh).1 ≡ none
unfolding running
deleted_fine = refl

created_twice : (create no_faults lab (create no_faults lab fresh).0).1 ≡ some PresetError.exists
unfolding running
created_twice = refl

abbrev unsynced : PersistFaults
unsynced = record no_faults { sync_dir = true }

poisoned_load : (create unsynced lab fresh).0.load_err ≡ some store_failed
unfolding running
poisoned_load = refl

unsynced_error : (create unsynced lab fresh).1 ≡ some store_failed
unfolding running
unsynced_error = refl

fresh-IsSound : IsSound fresh.items
fresh-IsSound = Reachable-IsSound (loaded fine none)

Reachable-IsSound_example : IsSound (create no_faults lab fresh).0.items
Reachable-IsSound_example = Reachable-IsSound (created no_faults lab (loaded fine none))

create_error_example : FailsClosed (put lab.id lab fresh.items) fresh (create unsynced lab fresh).0
create_error_example = create_error unsynced lab fresh unsynced_error

abbrev poisoned_store : State
poisoned_store = (create unsynced lab fresh).0

poisoned_forever_example :
    ((create no_faults lab poisoned_store).0 ≡ poisoned_store)
    × ((create no_faults lab poisoned_store).1 ≢ none)
    × ((update no_faults (codes "0") lab poisoned_store).0 ≡ poisoned_store)
    × ((update no_faults (codes "0") lab poisoned_store).1 ≢ none)
    × ((delete_preset no_faults (codes "0") poisoned_store).0 ≡ poisoned_store)
    × ((delete_preset no_faults (codes "0") poisoned_store).1 ≢ none)
    × ((get_preset (codes "0") poisoned_store).0 ≡ some store_failed)
    × ((list_presets poisoned_store).0 ≡ some store_failed)
poisoned_forever_example = poisoned_forever no_faults (codes "0") lab poisoned_store poisoned_load

lab-IsUtf8 : IsUtf8Preset lab
unfolding utf8_valid
lab-IsUtf8 = (refl, refl, refl, (refl, refl, refl, refl, refl, refl, refl, refl, refl))

-- A byte that begins no rune comes back as U+FFFD.
replaced_test : as_read (str (0x41 ∷ 0xff ∷ [])) ≡ str (0x41 ∷ 0xef ∷ 0xbf ∷ 0xbd ∷ [])
unfolding as_read to_valid_utf8
replaced_test = refl

fresh-AreUtf8 : AreUtf8 fresh.items
unfolding running utf8_valid
fresh-AreUtf8 = (
  (refl, refl, refl, (refl, refl, refl, refl, refl, refl, refl, refl, refl)),
  (
    (refl, refl, refl, (refl, refl, refl, refl, refl, refl, refl, refl, refl)),
    (
      (refl, refl, refl, (refl, refl, refl, refl, refl, refl, refl, refl, refl)),
      (
        (refl, refl, refl, (refl, refl, refl, refl, refl, refl, refl, refl, refl)),
        ((refl, refl, refl, (refl, refl, refl, refl, refl, refl, refl, refl, refl)), tt),
      ),
    ),
  ),
)

create-Reloads_example :
    Reloads no_faults (create no_faults lab fresh).0.disk (create no_faults lab fresh).0.items
create-Reloads_example =
    create-Reloads no_faults no_faults lab fresh fresh-IsSound lab-IsUtf8 fresh-AreUtf8 created_fine

-- "items" and "item" with a long s: the test for repeated names takes them for two names, the
-- decoder for one.
abbrev long_s_items : Text
long_s_items = codes "item" ++ 0xc5 ∷ 0xbf ∷ []

long_s_escapes :
    (unique_names to_lower
        (obj (field (codes "items") (arr (items [])) (field long_s_items (arr (items [])) end)))
      ≡ true)
    × (fold_name long_s_items ≡ fold_name (codes "items"))
unfolding unique_names to_lower fold_name eqb
long_s_escapes = (refl, refl)
