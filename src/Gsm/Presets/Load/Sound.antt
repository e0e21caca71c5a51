-- ===== src/Gsm/Presets/Load/Sound.antt =====
-- The items of a store are sound from the moment it is loaded.
use gsm_system.Base.{
  ◌+◌, ◌≤◌, ◌≡◌, refl, subst, true, not, ◌&&◌, ◌||◌, List, [], ◌∷◌, Option, none, some, length, All,
  ltb, arith, Bool-cases, Option-cases, inl, inr,
}
use mathlib.Core.Option.{some-injective}
use gsm_system.Base.Text.{Text, is_some, trim_space, eqb}
use gsm_system.Base.Number.{in_range, atoi, is_digits}
use gsm_system.Base.Map.{find, put, length-put}
use gsm_system.Base.Json.{Json, unique_names, to_lower}
use gsm_system.Gsm.Params.{validate, is_blank, validate_short_name, valid_interface_name}
use gsm_system.Gsm.Presets.{
  Preset, PresetError, max_presets, max_presets_file_bytes, valid_preset, valid_preset_id,
  default_presets,
}
use gsm_system.Gsm.Presets.Codec.{PresetFile, decode, has_items}
use gsm_system.Gsm.Presets.Store.{
  State, File, PersistFaults, persist, create, update, delete_preset,
}
use gsm_system.Gsm.Presets.Invariant.{
  IsSound, put-IsSound, length-put_le, items-persist, create-IsSound, update-IsSound,
  delete_preset-IsSound,
}
use gsm_system.Gsm.Presets.Load.{
  LoadFaults, put_all, add_missing, load_items, adopt, migrate, load_file, load_document, load_disk,
  new_preset_store,
}

abbrev pub AllValid : List Preset → Type 0
AllValid = All (λ p. valid_preset p ≡ true)

pub defaults_valid : AllValid default_presets
unfolding default_presets valid_preset valid_preset_id validate is_blank trim_space
    validate_short_name valid_interface_name eqb atoi is_digits
defaults_valid = (refl, (refl, (refl, (refl, (refl, tt)))))

nothing-IsSound : IsSound []
nothing-IsSound = record { distinct = tt; entries = tt; bounded = omega arith }

put_all-IsSound :
    (ps : List Preset) (m : List (Text × Preset))
    → AllValid ps
    → IsSound m
    → length m + length ps ≤ max_presets
    → IsSound (put_all ps m)
put_all-IsSound [] m v h b = h
put_all-IsSound (p ∷ ps) m v h b =
    put_all-IsSound ps (put p.id p m) v.1
      (put-IsSound p m h v.0 (omega (arith, length-put_le p.id p m)))
      (omega (arith, length-put_le p.id p m))

length-add_missing :
    (ps : List Preset) (m : List (Text × Preset)) → length m ≤ length (add_missing ps m)
unfolding add_missing
length-add_missing [] m = omega arith
length-add_missing (p ∷ ps) m =
    ground
      (arith, length-add_missing ps m, length-add_missing ps (put p.id p m), length-put p.id p m)

add_missing-IsSound :
    (ps : List Preset) (m : List (Text × Preset))
    → AllValid ps
    → IsSound m
    → length (add_missing ps m) ≤ max_presets
    → IsSound (add_missing ps m)
unfolding add_missing
add_missing-IsSound [] m v h b = h
add_missing-IsSound (p ∷ ps) m v h b = elim (Bool-cases (is_some (find p.id m))) [
  | inl there ↦ rw there (add_missing-IsSound ps m v.1 h (rw (there, add_missing) at b))
  | inr free ↦
      let b' = rw (free, add_missing) at b in
      rw free (
        add_missing-IsSound ps (put p.id p m) v.1
          (put-IsSound p m h v.0 (omega (arith, length-add_missing ps (put p.id p m)))) b')
]

load_items-IsSound :
    (m : List (Text × Preset)) (ps : List Preset) {m' : List (Text × Preset)}
    → IsSound m
    → length m + length ps ≤ max_presets
    → load_items m ps ≡ some m'
    → IsSound m'
unfolding load_items
load_items-IsSound m [] {m'} h b e = subst IsSound (some-injective m m' e) h
load_items-IsSound m (p ∷ ps) h b e =
    elim (Bool-cases (valid_preset p && not (is_some (find p.id m)))) [
      | inl good ↦
          load_items-IsSound (put p.id p m) ps
            (put-IsSound p m h (ground arith) (omega (arith, length-put_le p.id p m)))
            (omega (arith, length-put_le p.id p m)) (rw (good, load_items) at e)
      | inr bad ↦ absurd (nothing_loaded (rw (bad, load_items) at e))
    ]
  where
    nothing_loaded : {m' : List (Text × Preset)} → none ≡ some m' → ⊥
    nothing_loaded h = cc

adopt-IsSound :
    (m : List (Text × Preset)) (r : State × Option PresetError)
    → IsSound m
    → IsSound r.0.items
    → IsSound (adopt m r).items
adopt-IsSound m (s, none) h k = h
adopt-IsSound m (s, some e) h k = k

migrate-IsSound :
    (f : PersistFaults) (loaded : List (Text × Preset)) (s : State)
    → IsSound loaded
    → IsSound s.items
    → IsSound (migrate f loaded s).items
unfolding migrate
migrate-IsSound f loaded s h k =
    let next = add_missing default_presets loaded in
    elim (Bool-cases (ltb max_presets (length next))) [
      | inl many ↦ rw many k
      | inr fits ↦ rw fits (
          adopt-IsSound next (persist f next s)
            (add_missing-IsSound default_presets loaded defaults_valid h (ground arith))
            (rw (items-persist f next s) k))
    ]

load_file-IsSound :
    (f : PersistFaults) (d : PresetFile) (s : State)
    → IsSound s.items
    → IsSound (load_file f d s).items
unfolding load_file
load_file-IsSound f d s k =
    elim (Bool-cases (not (in_range 1 2 d.version) || ltb max_presets (length d.items))) [
      | inl bad ↦ rw bad k
      | inr good ↦ rw good (elim (Option-cases (load_items [] d.items)) [
        | inl broken ↦ rw broken k
        | inr (loaded, e) ↦
            let sound = load_items-IsSound [] d.items nothing-IsSound (ground arith) e in
            rw e (elim (Bool-cases (in_range 1 1 d.version)) [
              | inl old ↦ rw old (migrate-IsSound f loaded s sound k)
              | inr new ↦ rw new sound
            ])
      ])
    ]

load_document-IsSound :
    (f : PersistFaults) (o : Option Json) (s : State)
    → IsSound s.items
    → IsSound (load_document f o s).items
unfolding load_document
load_document-IsSound f none s k = k
load_document-IsSound f (some j) s k = elim (Bool-cases (unique_names to_lower j && has_items j)) [
  | inr bad ↦ rw bad k
  | inl good ↦ rw good (elim (Option-cases (decode j)) [
    | inl broken ↦ rw broken k
    | inr (d, e) ↦ rw e (load_file-IsSound f d s k)
  ])
]

load_disk-IsSound :
    (f : LoadFaults) (disk : Option File) (s : State)
    → IsSound s.items
    → IsSound (load_disk f disk s).items
unfolding load_disk
load_disk-IsSound f none s k =
    adopt-IsSound (put_all default_presets []) (persist f.persist (put_all default_presets []) s)
      (put_all-IsSound default_presets [] defaults_valid nothing-IsSound
        (unfold default_presets in omega arith))
      (rw (items-persist f.persist (put_all default_presets []) s) k)
load_disk-IsSound f (some file) s k =
    elim (Bool-cases (f.read || ltb max_presets_file_bytes file.size || not file.is_regular)) [
      | inl bad ↦ rw bad k
      | inr good ↦ rw good (load_document-IsSound f.persist file.document s k)
    ]

pub new_preset_store-IsSound :
    (f : LoadFaults) (disk : Option File) → IsSound (new_preset_store f disk).items
unfolding new_preset_store
new_preset_store-IsSound f disk =
    load_disk-IsSound f disk (record { disk = disk; items = []; load_err = none }) nothing-IsSound

-- The states of a store: it is loaded from any disk, and then any operations run, with any faults.
pub data Reachable : State → Type 0 where
  loaded : (f : LoadFaults) (disk : Option File) → Reachable (new_preset_store f disk)
  created : (f : PersistFaults) (p : Preset) {s : State} → Reachable s → Reachable (create f p s).0
  updated :
      (f : PersistFaults) (id : Text) (p : Preset) {s : State}
      → Reachable s
      → Reachable (update f id p s).0
  deleted :
      (f : PersistFaults) (id : Text) {s : State} → Reachable s → Reachable (delete_preset f id s).0

-- In every state of a store, whatever was on the disk and whichever system calls failed, the
-- identifiers differ, each preset is valid and stands under its own identifier, and there are at
-- most 256.
pub Reachable-IsSound : {s : State} → Reachable s → IsSound s.items
Reachable-IsSound (loaded f disk) = new_preset_store-IsSound f disk
Reachable-IsSound (created f p {s} r) = create-IsSound f p s (Reachable-IsSound r)
Reachable-IsSound (updated f id p {s} r) = update-IsSound f id p s (Reachable-IsSound r)
Reachable-IsSound (deleted f id {s} r) = delete_preset-IsSound f id s (Reachable-IsSound r)
