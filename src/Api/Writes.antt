-- ===== src/Api/Writes.antt =====
-- internal/api/v1.go and internal/api/presets.go: the requests that change the configuration, the
-- presets, the subscriber registry and the network rule. A body is given decoded, with the code of
-- decoding it; a flag says whether an error stands for a file that does not exist.
pub mod Guarded
pub mod Agree
use gsm_system.Base.{
  ℕ, Bool, true, false, not, ◌&&◌, ◌||◌, [], ◌∷◌, ◌++◌, List, map, Option, none, some, length, ltb,
  if◌then◌else◌,
}
use gsm_system.Base.Text.{Text, codes, is_empty, one_of, trim_space}
use gsm_system.Gsm.Params.{
  FieldIssue, StartParams, is_blank, valid_number, valid_interface_name, validate_detailed,
}
use gsm_system.Gsm.Presets.{
  Preset, PresetError, not_found, exists, invalid, store_failed, valid_preset_id,
}
use gsm_system.Gsm.Presets.Store.{
  State, PersistFaults, create, update, delete_preset, list_presets, get_preset,
}
use gsm_system.Gsm.Manager.{Seen, Manager, Gated, refused, ran, with_stopped_cell}
use gsm_system.Gsm.Manager.Profile.{ProfileFile, load_profile}
use gsm_system.Gsm.Database.{
  Values, Update, ConfigError, update_config, query_fails, transaction_fails, cell_is_running,
}
use gsm_system.Subscriber.Binding.{
  StoreError, conflict, inconsistent, fails, Answer, answer, error, Result, StoreEnv, Rows, get,
  bind_number, unbind_number,
}
use gsm_system.NetworkRule.{
  Iptables, RuleError, Presence, is_present, is_absent, unknown, present, ensure,
}
use gsm_system.Api.Cell.{Code, read_error_code}
use gsm_system.Api.Identity.{service_codes}

-- The error of `UpdateConfig`, in the order of the cases.
unfoldable pub config_code : Bool → Option ConfigError → Code
config_code missing none = Code.ok
config_code missing (some cell_is_running) = Code.conflict
config_code missing (some query_fails) = if missing then Code.unknown else Code.internal
config_code missing (some transaction_fails) = if missing then Code.unknown else Code.internal
config_code missing (some _) = Code.refused

-- The answer and the script that was run, if one was.
abbrev config_reply : Bool → Update → Code × Option Text
config_reply missing u = (config_code missing u.error, u.script)

-- `handleConfigPatch`
unfoldable pub handle_config_patch :
    Seen → Manager → Option Text → Bool → Bool → Code → Values → Code × Option Text
unfolding config_code
handle_config_patch seen m out runs missing Code.ok [] = (Code.refused, none)
handle_config_patch seen m out runs missing Code.ok (u ∷ l) =
    config_reply missing (update_config seen m out runs (u ∷ l))
handle_config_patch seen m out runs missing c values = (c, none)

-- `validateBindingNumber`
unfoldable pub valid_binding_number : Text → Bool
valid_binding_number number = valid_number number && not (one_of service_codes number)

-- `writeSubscriberError`
unfoldable pub subscriber_code : Bool → StoreError → Code
subscriber_code missing StoreError.not_found = Code.unknown
subscriber_code missing conflict = Code.conflict
subscriber_code missing inconsistent = Code.conflict
subscriber_code missing fails = if missing then Code.unknown else Code.internal

abbrev pub subscriber_reply {ℓ} : {A : Type ℓ} → Bool → Answer A → Code × Answer A
subscriber_reply missing (error e) = (subscriber_code missing e, error e)
subscriber_reply missing (answer r) = (Code.ok, answer r)

abbrev pub bind_tested : Bool → StoreEnv → Text → Bool → Code × Option (Answer Result)
bind_tested missing env number true =
    let (c, a) = subscriber_reply missing (bind_number env number) in (c, some a)
bind_tested missing env number false = (Code.refused, none)

-- `handleSubscriberBind`; a refused request asks nothing of the store.
unfoldable pub handle_subscriber_bind :
    Bool → StoreEnv → Code → Text → Code × Option (Answer Result)
unfolding subscriber_code valid_binding_number
handle_subscriber_bind missing env Code.ok number =
    bind_tested missing env number (valid_binding_number number)
handle_subscriber_bind missing env c number = (c, none)

-- `handleSubscriberUnbind`
unfoldable pub handle_subscriber_unbind : Bool → StoreEnv → Code × Answer Result
unfolding subscriber_code
handle_subscriber_unbind missing env = subscriber_reply missing (unbind_number env)

-- `validateIface`
unfoldable pub validate_iface : Text → Bool
validate_iface iface = valid_interface_name (trim_space iface)

-- `savedOrExplicitIface`; `none` is its error.
abbrev checked_iface : Text → Option Text
checked_iface iface = if validate_iface iface then some iface else none

abbrev saved_iface : Option StartParams → Option Text
saved_iface none = none
saved_iface (some p) = checked_iface (trim_space p.network)

unfoldable pub saved_or_explicit_iface : ProfileFile → Text → Option Text
unfolding validate_iface
saved_or_explicit_iface saved explicit =
    if is_empty (trim_space explicit)
    then saved_iface (load_profile saved)
    else checked_iface (trim_space explicit)

abbrev query_iface : ProfileFile → Option Text → Option Text
query_iface saved none = saved_or_explicit_iface saved []
query_iface saved (some v) = checked_iface (trim_space v)

module _ {Table : Type 0} (iptables : Iptables Table) where
  -- What `WithStoppedCell` runs: the rule, with whether it changed.
  abbrev pub rule_operation : Text → Table × Bool → (Table × Bool) × Option RuleError
  rule_operation iface (t, changed) =
      let (t', changed', e) = ensure iptables iface t in ((t', changed'), e)

  abbrev pub rule_code : Gated RuleError → Code
  rule_code refused = Code.conflict
  rule_code (ran none) = Code.ok
  rule_code (ran (some e)) = Code.no_hardware

  -- `handleNetworkPut`: the table, whether the answer says that it changed, and the code.
  unfoldable pub handle_network_put : Seen → Manager → Code → Text → Table → Table × Bool × Code
  unfolding validate_iface with_stopped_cell
  handle_network_put seen m Code.ok body t =
      let iface = trim_space body in
      if validate_iface iface
      then (let ((t', changed), g) = with_stopped_cell seen m (rule_operation iface) (t, false) in
          (t', changed, rule_code g))
      else (t, false, Code.refused)
  handle_network_put seen m c body t = (t, false, c)

  abbrev presence_reply : Presence → Code × Option Bool
  presence_reply is_present = (Code.ok, some true)
  presence_reply is_absent = (Code.ok, some false)
  presence_reply (unknown e) = (Code.no_hardware, none)

  abbrev iface_reply : Table → Option Text → Code × Option Bool
  iface_reply t none = (Code.refused, none)
  iface_reply t (some iface) = presence_reply (present iptables iface t)

  -- The end of `handleNetworkGet`, of the value that the query gives for `iface`, if it gives one.
  unfoldable pub handle_network_get : ProfileFile → Option Text → Table → Code × Option Bool
  handle_network_get saved query t = iface_reply t (query_iface saved query)

pub data PresetField : Type 0 where
  id_field name_required name_too_long description_too_long : PresetField
  params_field : FieldIssue → PresetField

abbrev pub if_not : Bool → PresetField → List PresetField
if_not ok f = if ok then [] else f ∷ []

-- `validatePresetRequest`
unfoldable pub validate_preset_request : Preset → Bool → List PresetField
unfolding valid_preset_id validate_detailed
validate_preset_request p include_id =
    if_not (not include_id || valid_preset_id p.id) id_field
    ++ ((if is_blank p.name
          then name_required ∷ []
          else if_not (not (ltb 128 (length p.name))) name_too_long)
        ++ (if_not (not (ltb 2048 (length p.description))) description_too_long
            ++ map params_field (validate_detailed p.params)))

-- `writePresetMutationError`
unfoldable pub mutation_code : Option PresetError → Code
mutation_code none = Code.ok
mutation_code (some not_found) = Code.unknown
mutation_code (some exists) = Code.conflict
mutation_code (some invalid) = Code.refused
mutation_code (some store_failed) = Code.internal

abbrev pub mutation_reply : State × Option PresetError → State × Code
mutation_reply (s, e) = (s, mutation_code e)

abbrev create_valid : PersistFaults → Preset → State → List PresetField → State × Code
create_valid f p s [] = mutation_reply (create f p s)
create_valid f p s (i ∷ l) = (s, Code.refused)

-- `handlePresets` with POST
unfoldable pub handle_preset_create : PersistFaults → Code → Preset → State → State × Code
unfolding mutation_code validate_preset_request
handle_preset_create f Code.ok p s = create_valid f p s (validate_preset_request p true)
handle_preset_create f c p s = (s, c)

abbrev update_valid : PersistFaults → Text → Preset → State → List PresetField → State × Code
update_valid f id p s [] = mutation_reply (update f id p s)
update_valid f id p s (i ∷ l) = (s, Code.refused)

-- `routePreset` with PUT, of an identifier that is valid
unfoldable pub handle_preset_update : PersistFaults → Code → Text → Preset → State → State × Code
unfolding mutation_code validate_preset_request
handle_preset_update f Code.ok id given s =
    let p = record given { id = id } in update_valid f id p s (validate_preset_request p false)
handle_preset_update f c id given s = (s, c)

-- `routePreset` with DELETE
unfoldable pub handle_preset_delete : PersistFaults → Text → State → State × Code
unfolding mutation_code
handle_preset_delete f id s = mutation_reply (delete_preset f id s)

abbrev read_code : Option PresetError → Code
read_code none = Code.ok
read_code (some e) = read_error_code e

-- `routePreset` with GET
unfoldable pub handle_preset_get : Text → State → Code × Option Preset
handle_preset_get id s = let (e, p) = get_preset id s in (read_code e, p)

abbrev list_code : Option PresetError → Code
list_code none = Code.ok
list_code (some e) = Code.internal

-- `handlePresets` with GET
unfoldable pub handle_preset_list : State → Code × List Preset
handle_preset_list s = let (e, items) = list_presets s in (list_code e, items)
