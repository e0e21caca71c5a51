-- ===== src/Gsm/Presets/Laws.antt =====
-- What a client of the store sees: reads after writes, failures, and a poisoned store.
use gsm_system.Base.{
  ◌≡◌, ◌≢◌, ◌⊎◌, inl, inr, ap, ◌∙◌, List, Option, none, some, if◌then◌else◌, arith,
}
use gsm_system.Base.Text.{Text, eqb}
use gsm_system.Base.Map.{find, put, find-put, find-delete}
use gsm_system.Gsm.Presets.{Preset, PresetError, not_found, store_failed}
use gsm_system.Gsm.Presets.Store.{
  State, PersistFaults, file_of, create, update, delete_preset, get_preset, list_presets,
}
use gsm_system.Gsm.Presets.Store.Outcome.{
  Outcome, refused, poisoned, committed, create-Outcome, update-Outcome, delete-Outcome,
}
use gsm_system.Gsm.Presets.Invariant.{IsSound}

-- The answer of `Get` over given items.
abbrev pub answer : Option Preset → Option PresetError × Option Preset
answer none = (some not_found, none)
answer (some p) = (none, some p)

get_preset_lem :
    (k : Text) (s : State) → s.load_err ≡ none → get_preset k s ≡ answer (find k s.items)
unfolding get_preset
get_preset_lem k s h = ground arith

-- What an operation without an error leaves to read.
Outcome-get :
    {Guard : Type 0} {next : List (Text × Preset)} {s s' : State} {e : Option PresetError}
    (k : Text)
    → Outcome Guard next s s' e
    → e ≡ none
    → get_preset k s' ≡ answer (find k next)
Outcome-get k (refused same err h) n = absurd (cc)
Outcome-get k (poisoned g l next' h) n = absurd (cc)
Outcome-get {next} {s} k (committed g l fits next' h) n =
    rw next' (get_preset_lem k (record s { disk = some (file_of next); items = next }) l)

-- After a `Create` without an error, `Get` returns the new preset under its identifier, and under
-- every other what was there before.
get_preset-create :
    (f : PersistFaults) (p : Preset) (s : State) (k : Text)
    → (create f p s).1 ≡ none
    → get_preset k (create f p s).0 ≡ answer (if eqb p.id k then some p else find k s.items)
get_preset-create f p s k h =
    Outcome-get k (create-Outcome f p s) h ∙ ap answer (find-put p.id k p s.items)

-- After an `Update` without an error, `Get` returns the given preset under the identifier of the
-- call, carrying that identifier, and under every other what was there before.
get_preset-update :
    (f : PersistFaults) (id : Text) (p : Preset) (s : State) (k : Text)
    → (update f id p s).1 ≡ none
    → get_preset k (update f id p s).0
      ≡ answer (if eqb id k then some (record p { id = id }) else find k s.items)
get_preset-update f id p s k h =
    Outcome-get k (update-Outcome f id p s) h
    ∙ ap answer (find-put id k (record p { id = id }) s.items)

-- After a `Delete` without an error, over distinct identifiers, `Get` finds nothing under the
-- identifier, and under every other what was there before.
get_preset-delete :
    (f : PersistFaults) (id : Text) (s : State) (k : Text)
    → IsSound s.items
    → (delete_preset f id s).1 ≡ none
    → get_preset k (delete_preset f id s).0 ≡ answer (if eqb id k then none else find k s.items)
get_preset-delete f id s k sound h =
    Outcome-get k (delete-Outcome f id s) h ∙ ap answer (find-delete id k s.items sound.distinct)

-- A failed operation: nothing changed, or the file was replaced and the store refuses from then on.
abbrev pub FailsClosed : List (Text × Preset) → State → State → Type 0
FailsClosed next s s' =
    (s' ≡ s) ⊎ (s' ≡ record s { disk = some (file_of next); load_err = some store_failed })

Outcome-FailsClosed :
    {Guard : Type 0} {next : List (Text × Preset)} {s s' : State} {e : Option PresetError}
    {err : PresetError}
    → Outcome Guard next s s' e
    → e ≡ some err
    → FailsClosed next s s'
Outcome-FailsClosed (refused same _ _) h = inl same
Outcome-FailsClosed (poisoned _ _ next' _) h = inr next'
Outcome-FailsClosed (committed _ _ _ _ n) h = absurd (cc)

-- A `Create` that returns an error has either changed nothing, or its file is complete on the disk
-- and the store is poisoned with the items of before.
pub create_error :
    (f : PersistFaults) (p : Preset) (s : State) {err : PresetError}
    → (create f p s).1 ≡ some err
    → FailsClosed (put p.id p s.items) s (create f p s).0
create_error f p s h = Outcome-FailsClosed (create-Outcome f p s) h

Outcome-poisoned :
    {Guard : Type 0} {next : List (Text × Preset)} {s s' : State} {e : Option PresetError}
    {err : PresetError}
    → Outcome Guard next s s' e
    → s.load_err ≡ some err
    → (s' ≡ s) × (e ≢ none)
Outcome-poisoned (refused same _ h) l = (same, λ n. cc)
Outcome-poisoned (poisoned _ n _ _) l = absurd (cc)
Outcome-poisoned (committed _ n _ _ _) l = absurd (cc)

-- A store whose load error is set stays exactly as it is: `Create`, `Update` and `Delete` return an
-- error and change neither memory nor the disk, and `Get` and `List` return that error.
pub poisoned_forever :
    (f : PersistFaults) (id : Text) (p : Preset) (s : State) {err : PresetError}
    → s.load_err ≡ some err
    → ((create f p s).0 ≡ s)
      × ((create f p s).1 ≢ none)
      × ((update f id p s).0 ≡ s)
      × ((update f id p s).1 ≢ none)
      × ((delete_preset f id s).0 ≡ s)
      × ((delete_preset f id s).1 ≢ none)
      × ((get_preset id s).0 ≡ some err)
      × ((list_presets s).0 ≡ some err)
unfolding get_preset list_presets
poisoned_forever f id p s h =
    let (c, c') = Outcome-poisoned (create-Outcome f p s) h in
    let (u, u') = Outcome-poisoned (update-Outcome f id p s) h in
    let (d, d') = Outcome-poisoned (delete-Outcome f id s) h in
    (c, c', u, u', d, d', ground arith, ground arith)
