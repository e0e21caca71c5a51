-- ===== src/Gsm/Manager/Profile.antt =====
-- internal/gsm/manager.go: the profile of the last start, its file, and filling parameters from it.
-- A file holds the JSON value its text stands for, or `none` if it stands for none.
use gsm_system.Base.{Bool, true, false, ◌||◌, [], ◌∷◌, List, Option, none, some, if◌then◌else◌}
use gsm_system.Base.Text.{Text, codes, one_of}
use gsm_system.Base.Json.{Json, obj, null, Fields, end, field, fold_name}
use gsm_system.Base.Json.Read.{as_read}
use gsm_system.Gsm.Params.{StartParams, is_blank}
use gsm_system.Gsm.Presets.Codec.{bind, params_member, params_json, no_params}

pub data ProfileFile : Type 0 where
  no_file : ProfileFile
  not_json : ProfileFile
  holds : Json → ProfileFile

-- The call of `SaveProfile` that fails; only the last one comes after the rename.
pub data SaveFault : Type 0 where
  creating writing renaming syncing_directory : SaveFault

-- `SaveProfile`; `true` if it returns no error.
unfoldable pub save_profile : Option SaveFault → StartParams → ProfileFile → ProfileFile × Bool
save_profile none p f = (holds (as_read (params_json p)), true)
save_profile (some SaveFault.syncing_directory) p f = (holds (as_read (params_json p)), false)
save_profile (some _) p f = (f, false)

abbrev param_names : List Text
param_names =
    codes "arfcns"
    ∷ codes "c0"
    ∷ codes "band"
    ∷ codes "mcc"
    ∷ codes "mnc"
    ∷ codes "lac"
    ∷ codes "ci"
    ∷ codes "short_name"
    ∷ codes "network"
    ∷ []

-- json.Unmarshal into `StartParams`: unknown names are passed over.
unfoldable pub unmarshal_members : StartParams → Fields → Option StartParams
unmarshal_members p end = some p
unmarshal_members p (field n v fs) = elim (one_of param_names (fold_name n)) [
  | true ↦ bind (params_member p n v) (λ q. unmarshal_members q fs)
  | false ↦ unmarshal_members p fs
]

unfoldable pub unmarshal : Json → Option StartParams
unmarshal null = some no_params
unmarshal (obj fs) = unmarshal_members no_params fs
unmarshal _ = none

abbrev pub lacks_required : StartParams → Bool
lacks_required p = is_blank p.band || (is_blank p.mcc || (is_blank p.mnc || is_blank p.network))

abbrev pub check_required : StartParams → Option StartParams
check_required p = if lacks_required p then none else some p

-- `LoadProfile`
unfoldable pub load_profile : ProfileFile → Option StartParams
load_profile no_file = none
load_profile not_json = none
load_profile (holds j) = bind (unmarshal j) check_required

abbrev pub or_else : Text → Text → Text
or_else [] saved = saved
or_else (c ∷ t) saved = c ∷ t

abbrev pub fill : StartParams → StartParams → StartParams
fill p saved = record {
  arfcns = or_else p.arfcns saved.arfcns;
  c0 = or_else p.c0 saved.c0;
  band = or_else p.band saved.band;
  mcc = or_else p.mcc saved.mcc;
  mnc = or_else p.mnc saved.mnc;
  lac = or_else p.lac saved.lac;
  ci = or_else p.ci saved.ci;
  short_name = or_else p.short_name saved.short_name;
  network = or_else p.network saved.network;
}

abbrev pub fill_from : StartParams → Option StartParams → StartParams × Bool
fill_from p none = (p, false)
fill_from p (some saved) = (fill p saved, true)

-- `OverlayProfile`
unfoldable pub overlay_profile : ProfileFile → StartParams → StartParams × Bool
overlay_profile f p = fill_from p (load_profile f)
