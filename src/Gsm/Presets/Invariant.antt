-- ===== src/Gsm/Presets/Invariant.antt =====
-- What holds of the items of a store, through loading and every operation.
use gsm_system.Base.{◌+◌, ◌≤◌, ◌≡◌, refl, true, List, Option, some, length, All, arith, inl, inr}
use gsm_system.Base.Text.{Text}
use gsm_system.Base.Map.{
  find, put, delete, HasDistinctKeys, put-All, delete-All, put-HasDistinctKeys,
  delete-HasDistinctKeys, length-put, length-delete,
}
use gsm_system.Gsm.Presets.{Preset, PresetError, valid_preset, max_presets}
use gsm_system.Gsm.Presets.Store.{State, PersistFaults, persist, create, update, delete_preset}
use gsm_system.Gsm.Presets.Store.Outcome.{
  persist_cases, Outcome, refused, poisoned, committed, create-Outcome, update-Outcome,
  delete-Outcome,
}

-- A valid preset under its own identifier.
abbrev pub IsEntry : Text × Preset → Type 0
IsEntry (k, p) = (p.id ≡ k) × (valid_preset p ≡ true)

-- Distinct keys, each with a valid preset of that identifier, and at most 256 of them.
pub record IsSound (m : List (Text × Preset)) : Type 0 where
  pub distinct : HasDistinctKeys m
  pub entries : All IsEntry m
  pub bounded : length m ≤ max_presets

pub put-IsSound :
    (p : Preset) (m : List (Text × Preset))
    → IsSound m
    → valid_preset p ≡ true
    → length (put p.id p m) ≤ max_presets
    → IsSound (put p.id p m)
put-IsSound p m h v l = record {
  distinct = put-HasDistinctKeys p.id p m h.distinct;
  entries = put-All IsEntry p.id p m (refl, v) h.entries;
  bounded = l;
}

pub delete-IsSound : (k : Text) (m : List (Text × Preset)) → IsSound m → IsSound (delete k m)
delete-IsSound k m h = record {
  distinct = delete-HasDistinctKeys k m h.distinct;
  entries = delete-All IsEntry k m h.entries;
  bounded = omega (arith, length-delete k m, h.bounded);
}

-- `persist` leaves the items alone.
pub items-persist :
    (f : PersistFaults) (m : List (Text × Preset)) (s : State) → (persist f m s).0.items ≡ s.items
items-persist f m s = elim (persist_cases f m s) [
  | inl (err, e) ↦ rw e
  | inr (inl e) ↦ rw e
  | inr (inr (fits, e)) ↦ rw e
]

-- An operation ends with sound items if those it meant to bring about are sound.
Outcome-IsSound :
    {Guard : Type 0} {next : List (Text × Preset)} {s s' : State} {e : Option PresetError}
    → Outcome Guard next s s' e
    → (Guard → IsSound next)
    → IsSound s.items
    → IsSound s'.items
Outcome-IsSound (refused same err _) k h = rw same h
Outcome-IsSound (poisoned g _ next' _) k h = rw next' h
Outcome-IsSound (committed g _ _ next' _) k h = rw next' (k g)

pub length-put_le :
    (k : Text) (p : Preset) (m : List (Text × Preset)) → length (put k p m) ≤ length m + 1
length-put_le k p m = ground (arith, length-put k p m)

length-put_there :
    (k : Text) (p q : Preset) (m : List (Text × Preset))
    → find k m ≡ some q
    → length (put k p m) ≡ length m
length-put_there k p q m h = ground (arith, length-put k p m)

-- The items of a store are sound after `Create`, `Update` and `Delete`, whatever fails, if they were
-- before.
pub create-IsSound :
    (f : PersistFaults) (p : Preset) (s : State) → IsSound s.items → IsSound (create f p s).0.items
create-IsSound f p s h =
    Outcome-IsSound (create-Outcome f p s)
      (λ g. put-IsSound p s.items h g.0 (omega (arith, length-put_le p.id p s.items, g.2))) h

pub update-IsSound :
    (f : PersistFaults) (id : Text) (p : Preset) (s : State)
    → IsSound s.items
    → IsSound (update f id p s).0.items
update-IsSound f id p s h =
    Outcome-IsSound (update-Outcome f id p s)
      (λ g.
        put-IsSound (record p { id = id }) s.items h g.0
          (omega
            (arith, length-put_there id (record p { id = id }) g.1.0 s.items g.1.1, h.bounded)))
      h

pub delete_preset-IsSound :
    (f : PersistFaults) (id : Text) (s : State)
    → IsSound s.items
    → IsSound (delete_preset f id s).0.items
delete_preset-IsSound f id s h =
    Outcome-IsSound (delete-Outcome f id s) (λ g. delete-IsSound id s.items h) h
