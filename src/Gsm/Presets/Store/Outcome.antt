-- ===== src/Gsm/Presets/Store/Outcome.antt =====
-- The three ways in which an operation that changes the store can end.
use gsm_system.Base.{
  ◌+◌, ◌≤◌, ◌<◌, ◌≡◌, refl, true, List, Option, none, some, length, leb, ltb, arith, Bool-cases,
  Option-cases, inl, inr, ◌⊎◌,
}
use gsm_system.Base.Text.{Text}
use gsm_system.Base.Map.{find, put, delete}
use gsm_system.Gsm.Presets.{
  Preset, PresetError, store_failed, invalid, valid_preset, max_presets, max_presets_file_bytes,
}
use gsm_system.Gsm.Presets.Store.{
  State, PersistFaults, prepared, renamed, file_text, file_of, persist, commit, gate, when_loaded,
  create, update, delete_preset,
}

-- `next` are the items that the operation is to bring about.
pub data Outcome (Guard : Type 0) (next : List (Text × Preset)) (s s' : State)
    (e : Option PresetError) : Type 0 where
  -- Nothing was changed.
  refused : s' ≡ s → (err : PresetError) → e ≡ some err → Outcome Guard next s s' e
  -- The new file is in place, but syncing the directory failed: the store is poisoned.
  poisoned :
      Guard
      → s.load_err ≡ none
      → s' ≡ record s { disk = some (file_of next); load_err = some store_failed }
      → e ≡ some store_failed
      → Outcome Guard next s s' e
  -- The new items are in place, on the disk and in memory.
  committed :
      Guard
      → s.load_err ≡ none
      → length (file_text next) + 1 ≤ max_presets_file_bytes
      → s' ≡ record s { disk = some (file_of next); items = next }
      → e ≡ none
      → Outcome Guard next s s' e

-- The three results of `persist`.
pub persist_cases :
    (f : PersistFaults) (next : List (Text × Preset)) (s : State)
    → ((err : PresetError) × (persist f next s ≡ (s, some err)))
      ⊎ (persist f next s ≡ (
        record s { disk = some (file_of next); load_err = some store_failed },
        some store_failed,
      ))
      ⊎ (length (file_text next) + 1 ≤ max_presets_file_bytes)
        × (persist f next s ≡ (record s { disk = some (file_of next) }, none))
unfolding persist
persist_cases f next s =
    elim (Bool-cases (ltb max_presets_file_bytes (length (file_text next) + 1))) [
      | inl big ↦ inl (invalid, rw big)
      | inr fits ↦ elim (Bool-cases (prepared f)) [
        | inr no_temp ↦ inl (store_failed, rw (fits, no_temp))
        | inl ready ↦ elim (Bool-cases (renamed 6 0 f.rename)) [
          | inr stuck ↦ inl (store_failed, rw (fits, ready, stuck))
          | inl moved ↦ elim (Bool-cases f.sync_dir) [
            | inl unsynced ↦ inr (inl (rw (fits, ready, moved, unsynced)))
            | inr synced ↦ inr (inr (ground arith, rw (fits, ready, moved, synced)))
          ]
        ]
      ]
    ]

commit-Outcome :
    {Guard : Type 0} (f : PersistFaults) (next : List (Text × Preset)) (s : State)
    → Guard
    → s.load_err ≡ none
    → Outcome Guard next s (commit f next s).0 (commit f next s).1
unfolding commit
commit-Outcome f next s g l = elim (persist_cases f next s) [
  | inl (err, e) ↦ rw (e, commit) (refused refl err refl)
  | inr (inl e) ↦ rw (e, commit) (poisoned g l refl refl)
  | inr (inr (fits, e)) ↦ rw (e, commit) (committed g l fits refl refl)
]

gate-Outcome :
    {Guard : Type 0} {next : List (Text × Preset)} (o : Option PresetError) (s : State)
    (go : State × Option PresetError)
    → s.load_err ≡ o
    → (s.load_err ≡ none → Outcome Guard next s go.0 go.1)
    → Outcome Guard next s (gate o s go).0 (gate o s go).1
gate-Outcome none s go e k = k e
gate-Outcome (some err) s go e k = refused refl err refl

-- An operation on a store whose load failed is refused.
loaded-Outcome :
    {Guard : Type 0} {next : List (Text × Preset)} (s : State) (go : State × Option PresetError)
    → (s.load_err ≡ none → Outcome Guard next s go.0 go.1)
    → Outcome Guard next s (when_loaded s go).0 (when_loaded s go).1
loaded-Outcome s go k = gate-Outcome s.load_err s go refl k

-- What `Create` needs to go on to `persist`.
abbrev pub CanCreate : Preset → State → Type 0
CanCreate p s =
    (valid_preset p ≡ true) × (find p.id s.items ≡ none) × (length s.items < max_presets)

create_cases :
    {Guard : Type 0} (f : PersistFaults) (p : Preset) (s : State)
    → (CanCreate p s → Guard)
    → Outcome Guard (put p.id p s.items) s (create f p s).0 (create f p s).1
unfolding create
create_cases f p s k = elim (Bool-cases (valid_preset p)) [
  | inr bad ↦ rw (bad, create) (refused refl invalid refl)
  | inl good ↦
      rw (good, create)
        (loaded-Outcome s _ λ ok. elim (Option-cases (find p.id s.items)) [
          | inr (q, there) ↦ rw there (refused refl PresetError.exists refl)
          | inl free ↦ rw free (elim (Bool-cases (leb max_presets (length s.items))) [
            | inl full ↦ rw full (refused refl invalid refl)
            | inr room ↦
                rw room (commit-Outcome f (put p.id p s.items) s (k (good, free, ground arith)) ok)
          ])
        ])
]

pub create-Outcome :
    (f : PersistFaults) (p : Preset) (s : State)
    → Outcome (CanCreate p s) (put p.id p s.items) s (create f p s).0 (create f p s).1
create-Outcome f p s = create_cases f p s (λ g. g)

abbrev pub CanUpdate : Text → Preset → State → Type 0
CanUpdate id given s =
    (valid_preset (record given { id = id }) ≡ true) × ((q : Preset) × (find id s.items ≡ some q))

update_cases :
    {Guard : Type 0} (f : PersistFaults) (id : Text) (given : Preset) (s : State)
    → (CanUpdate id given s → Guard)
    → Outcome Guard
        (put id (record given { id = id }) s.items)
        s
        (update f id given s).0
        (update f id given s).1
unfolding update
update_cases f id given s k = elim (Bool-cases (valid_preset (record given { id = id }))) [
  | inr bad ↦ rw (bad, update) (refused refl invalid refl)
  | inl good ↦
      rw (good, update)
        (loaded-Outcome s _ λ ok. elim (Option-cases (find id s.items)) [
          | inl free ↦ rw free (refused refl PresetError.not_found refl)
          | inr (q, there) ↦ rw there (
              commit-Outcome f (put id (record given { id = id }) s.items) s (k (good, (q, there)))
                ok)
        ])
]

pub update-Outcome :
    (f : PersistFaults) (id : Text) (given : Preset) (s : State)
    → Outcome
        (CanUpdate id given s)
        (put id (record given { id = id }) s.items)
        s
        (update f id given s).0
        (update f id given s).1
update-Outcome f id given s = update_cases f id given s (λ g. g)

abbrev pub CanDelete : Text → State → Type 0
CanDelete id s = (q : Preset) × (find id s.items ≡ some q)

delete_cases :
    {Guard : Type 0} (f : PersistFaults) (id : Text) (s : State)
    → (CanDelete id s → Guard)
    → Outcome Guard (delete id s.items) s (delete_preset f id s).0 (delete_preset f id s).1
unfolding delete_preset
delete_cases f id s k = loaded-Outcome s _ λ ok. elim (Option-cases (find id s.items)) [
  | inl free ↦ rw free (refused refl PresetError.not_found refl)
  | inr (q, there) ↦ rw there (commit-Outcome f (delete id s.items) s (k (q, there)) ok)
]

pub delete-Outcome :
    (f : PersistFaults) (id : Text) (s : State)
    → Outcome
        (CanDelete id s)
        (delete id s.items)
        s
        (delete_preset f id s).0
        (delete_preset f id s).1
delete-Outcome f id s = delete_cases f id s (λ g. g)
