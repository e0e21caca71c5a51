-- ===== src/Gsm/Presets/Reload.antt =====
-- What is on the disk is what is in memory: a store that is loaded again has the same presets, if their
-- texts are UTF-8: encoding/json replaces other bytes.
use gsm_system.Base.{
  ◌+◌, ◌≤◌, ◌≡◌, false, List, [], ◌∷◌, All, Option, none, some, length, ltb, arith,
}
use gsm_system.Base.Text.{Text}
use gsm_system.Base.Map.{find, put-All, delete-All}
use gsm_system.Base.Json.Read.{as_read}
use gsm_system.Gsm.Presets.{
  Preset, PresetError, max_presets, max_presets_file_bytes, sort_by_id, values,
}
use gsm_system.Gsm.Presets.Codec.{encode}
use gsm_system.Gsm.Presets.Codec.RoundTrip.{
  decode-encode, unique_names-encode, has_items-encode, IsUtf8Preset, as_read-encode,
}
use gsm_system.Gsm.Presets.Store.{
  State, File, PersistFaults, file_text, file_of, create, update, delete_preset,
}
use gsm_system.Gsm.Presets.Store.Outcome.{
  Outcome, refused, poisoned, committed, create-Outcome, update-Outcome, delete-Outcome,
}
use gsm_system.Gsm.Presets.Invariant.{
  IsSound, create-IsSound, update-IsSound, delete_preset-IsSound,
}
use gsm_system.Gsm.Presets.Load.{LoadFaults, new_preset_store}
use gsm_system.Gsm.Presets.Load.Items.{
  load_items-sort_by_id, sort_by_id-All, length-sort_by_id-values,
}

-- The file is read without a fault; whether it could be written does not matter.
abbrev pub readable : PersistFaults → LoadFaults
readable f = record { read = false; persist = f }

-- The store that `NewPresetStore` makes of the disk has no error and the same bindings.
pub record Reloads (f : PersistFaults) (disk : Option File) (m : List (Text × Preset))
    : Type 0 where
  pub loads : (new_preset_store (readable f) disk).load_err ≡ none
  pub same : (k : Text) → find k (new_preset_store (readable f) disk).items ≡ find k m

-- Every preset of the map has texts of UTF-8.
abbrev pub AreUtf8 : List (Text × Preset) → Type 0
AreUtf8 m = All (λ e. IsUtf8Preset e.1) m

values-IsUtf8 : (m : List (Text × Preset)) → AreUtf8 m → All IsUtf8Preset (values m)
values-IsUtf8 [] h = tt
values-IsUtf8 ((k, p) ∷ m) h = (h.0, values-IsUtf8 m h.1)

as_read-sort_by_id :
    (m : List (Text × Preset))
    → AreUtf8 m
    → as_read (encode (sort_by_id (values m))) ≡ encode (sort_by_id (values m))
as_read-sort_by_id m h =
    as_read-encode (sort_by_id (values m))
      (sort_by_id-All IsUtf8Preset (values m) (values-IsUtf8 m h))

file_of-Reloads :
    (f : PersistFaults) (m : List (Text × Preset))
    → IsSound m
    → AreUtf8 m
    → length (file_text m) + 1 ≤ max_presets_file_bytes
    → Reloads f (some (file_of m)) m
unfolding new_preset_store
file_of-Reloads f m h u fits =
    let (m', e, same) = load_items-sort_by_id m h in
    let small : ltb max_presets_file_bytes (length (file_text m) + 1) ≡ false = ground arith in
    let few : ltb max_presets (length (sort_by_id (values m))) ≡ false =
      ground (arith, length-sort_by_id-values m, h.bounded) in
    record {
      loads =
          rw (small, as_read-sort_by_id m u)
            (rw (unique_names-encode, has_items-encode, decode-encode, few, e));
      same = λ k.
          rw (small, as_read-sort_by_id m u)
            (rw (unique_names-encode, has_items-encode, decode-encode, few, e) (same k));
    }

Outcome-Reloads :
    {Guard : Type 0} {next : List (Text × Preset)} {s s' : State} {e : Option PresetError}
    (g : PersistFaults)
    → Outcome Guard next s s' e
    → e ≡ none
    → IsSound s'.items
    → AreUtf8 next
    → Reloads g s'.disk s'.items
Outcome-Reloads g (refused same err h) n sound u = absurd (cc)
Outcome-Reloads g (poisoned k l next' h) n sound u = absurd (cc)
Outcome-Reloads {next} g (committed k l fits next' h) n sound u =
    rw next' (file_of-Reloads g next (rw next' at sound) u fits)

-- After a `Create` without an error, on sound items, if the texts of the new preset and of those
-- that were there are UTF-8, a new store over the disk loads without an error and binds every
-- identifier to what the running store binds it to.
pub create-Reloads :
    (f g : PersistFaults) (p : Preset) (s : State)
    → IsSound s.items
    → IsUtf8Preset p
    → AreUtf8 s.items
    → (create f p s).1 ≡ none
    → Reloads g (create f p s).0.disk (create f p s).0.items
create-Reloads f g p s h v u n =
    Outcome-Reloads g (create-Outcome f p s) n (create-IsSound f p s h)
      (put-All (λ e. IsUtf8Preset e.1) p.id p s.items v u)

-- The same after an `Update`, whose preset takes the identifier of the path.
update-Reloads :
    (f g : PersistFaults) (id : Text) (p : Preset) (s : State)
    → IsSound s.items
    → IsUtf8Preset (record p { id = id })
    → AreUtf8 s.items
    → (update f id p s).1 ≡ none
    → Reloads g (update f id p s).0.disk (update f id p s).0.items
update-Reloads f g id p s h v u n =
    Outcome-Reloads g (update-Outcome f id p s) n (update-IsSound f id p s h)
      (put-All (λ e. IsUtf8Preset e.1) id (record p { id = id }) s.items v u)

-- The same after a `Delete`.
delete_preset-Reloads :
    (f g : PersistFaults) (id : Text) (s : State)
    → IsSound s.items
    → AreUtf8 s.items
    → (delete_preset f id s).1 ≡ none
    → Reloads g (delete_preset f id s).0.disk (delete_preset f id s).0.items
delete_preset-Reloads f g id s h u n =
    Outcome-Reloads g (delete-Outcome f id s) n (delete_preset-IsSound f id s h)
      (delete-All (λ e. IsUtf8Preset e.1) id s.items u)
