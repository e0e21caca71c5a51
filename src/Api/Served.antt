-- ===== src/Api/Served.antt =====
-- What the answer to a request to start the cell says about the processes.
use gsm_system.Base.{
  ◌∙◌, ◌≡◌, ◌≢◌, refl, sym, ap, Bool, true, false, not, [], ◌∷◌, List, Option, none, some,
  if◌then◌else◌,
}
use gsm_system.Base.Text.{Text}
use gsm_system.Gsm.Params.{StartParams, FieldIssue, validate_detailed}
use gsm_system.Gsm.Presets.{Preset, PresetError, not_found, valid_preset_id}
use gsm_system.Gsm.Presets.Store.{get_preset}
use gsm_system.Gsm.Presets.Codec.{no_params}
use gsm_system.Gsm.Manager.{Process, Manager}
use gsm_system.Gsm.Manager.Profile.{overlay_profile}
use gsm_system.Gsm.Manager.Start.{
  StartEnv, StartError, already_running, no_network_rule, no_device, start,
}
use gsm_system.Gsm.Manager.Rollback.{replay, Ended, was_refused, has_failed, is_done, start-Ended}
use gsm_system.Gsm.Manager.Launch.{Succeeds, start-Succeeds}
use gsm_system.Api.Cell.{
  Code, ok, CellStartRequest, has_explicit_params, params_of, CellEnv, Reply, reject, start_code,
  start_reply, start_checked, start_with, start_preset, start_unnamed, start_named, read_error_code,
  handle_cell_start,
}

-- The request started the cell with some parameters, or was answered with an error and left the
-- children that ran before and no other.
pub data Served (env : StartEnv) (m : Manager) (r : Reply) : Type 0 where
  started :
      (p : StartParams)
      → r.code ≡ Code.ok
      → validate_detailed p ≡ []
      → Succeeds env p m (start env p m)
      → r.manager ≡ (start env p m).manager
      → Served env m r
  left_alone : r.code ≢ Code.ok → ((ps : List Process) → replay r.effects ps ≡ ps) → Served env m r

reject-Served : (env : StartEnv) (m : Manager) (c : Code) → c ≢ Code.ok → Served env m (reject c m)
unfolding replay
reject-Served env m c h = left_alone h λ ps. refl

true≢false : true ≢ false
true≢false = cc

abbrev is_ok : Code → Bool
is_ok ok = true
is_ok _ = false

ok-refuted : (c : Code) → is_ok c ≡ false → c ≢ Code.ok
ok-refuted c h e = absurd (true≢false (sym (ap is_ok e) ∙ h))

start_code-error : (e : StartError) → is_ok (start_code (some e)) ≡ false
unfolding start_code
start_code-error already_running = refl
start_code-error no_network_rule = refl
start_code-error no_device = refl
start_code-error _ = refl

Ended-Served :
    (env : StartEnv) (p : StartParams) (m : Manager)
    → validate_detailed p ≡ []
    → Ended m (start env p m)
    → Served env m (start_reply (start env p m))
unfolding replay start_code
Ended-Served env p m v (was_refused e same) =
    left_alone
      (ok-refuted (start_code (start env p m).error)
        (ap (λ o. is_ok (start_code o.error)) same ∙ start_code-error e))
      (λ ps. ap (λ o. replay o.effects ps) same)
Ended-Served env p m v (has_failed e err _ quiet) =
    left_alone
      (ok-refuted (start_code (start env p m).error)
        (ap (λ o. is_ok (start_code o)) err ∙ start_code-error e))
      quiet
Ended-Served env p m v (is_done _ _ _ none_left _ _ _) =
    started p (ap start_code none_left) v (start-Succeeds env p m none_left) refl

start_with-Served :
    (env : StartEnv) (p : StartParams) (m : Manager) → Served env m (start_with env p m)
unfolding start_with
start_with-Served env p m = by_issues (validate_detailed p) refl
  where
    by_issues :
        (l : List FieldIssue) → validate_detailed p ≡ l → Served env m (start_checked env p m l)
    by_issues [] v = Ended-Served env p m v (start-Ended env p m)
    by_issues (i ∷ l) v = reject-Served env m Code.refused (ok-refuted Code.refused refl)

if-Served :
    (env : StartEnv) (m : Manager) (b : Bool) (x y : Reply)
    → Served env m x
    → Served env m y
    → Served env m (if b then x else y)
if-Served env m true x y h g = h
if-Served env m false x y h g = g

read_error-Served :
    (env : StartEnv) (m : Manager) (e : PresetError) → Served env m (reject (read_error_code e) m)
read_error-Served env m not_found = reject-Served env m Code.unknown (ok-refuted Code.unknown refl)
read_error-Served env m _ = reject-Served env m Code.internal (ok-refuted Code.internal refl)

start_preset-Served :
    (env : StartEnv) (m : Manager) (r : Option PresetError × Option Preset)
    → Served env m (start_preset env m r)
start_preset-Served env m (some e, _) = read_error-Served env m e
start_preset-Served env m (none, some p) = start_with-Served env p.params m
start_preset-Served env m (none, none) =
    reject-Served env m Code.internal (ok-refuted Code.internal refl)

start_body-Served :
    (env : CellEnv) (b : CellStartRequest) (m : Manager)
    → Served env.start m (handle_cell_start env Code.ok b m)
unfolding handle_cell_start
start_body-Served env b m = by_id b.preset_id
  where
    by_id :
        (id : Option Text)
        → Served env.start m
            (elim id [ none ↦ start_unnamed env b m | some i ↦ start_named env b m i ])
    by_id none =
        if-Served env.start m (not (has_explicit_params b)) _ _
          (start_with-Served env.start (overlay_profile env.profile no_params).0 m)
          (start_with-Served env.start (params_of b) m)
    by_id (some i) =
        if-Served env.start m (has_explicit_params b) _ _
          (reject-Served env.start m Code.refused (ok-refuted Code.refused refl))
          (if-Served env.start m (not (valid_preset_id i)) _ _
            (reject-Served env.start m Code.refused (ok-refuted Code.refused refl))
            (start_preset-Served env.start m (get_preset i env.presets)))

-- Any request to start the cell, however it names its parameters and whatever the calls of the
-- start return: the answer is ok and the start succeeded, with parameters that pass the validation,
-- or the answer is another one and the children that ran before still run and no other.
pub handle_cell_start-Served :
    (env : CellEnv) (c : Code) (b : CellStartRequest) (m : Manager)
    → Served env.start m (handle_cell_start env c b m)
unfolding handle_cell_start
handle_cell_start-Served env ok b m = start_body-Served env b m
handle_cell_start-Served env c b m = reject-Served env.start m c (ok-refuted c refl)
