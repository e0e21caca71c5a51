-- ===== src/Gsm/Database.antt =====
-- internal/gsm/db.go: reading and changing the radio configuration in the OpenBTS database.
-- The sqlite3 command is not modelled: its output and success are arguments, the script is a result.
mod Tests
use gsm_system.Base.{
  ℕ, ◌≡◌, ◌≢◌, Bool, true, false, not, [], ◌∷◌, ◌++◌, List, all, map, Option, none, some,
  if◌then◌else◌, Bool-cases, sym, ap,
}
use gsm_system.Base.Text.{Text, codes, eqb, less, one_of}
use gsm_system.Base.Map.{find, put}
use gsm_system.Sql.Quote.{quote}
use gsm_system.Sql.Rows.{query_pairs}
use gsm_system.Gsm.Params.{StartParams, FieldIssue, validate}
use gsm_system.Gsm.Manager.{Seen, Manager, cell_running}

abbrev pub Values : Type 0
Values = List (Text × Text)

-- `radioConfigKeys`; `configKeys` has the same names.
abbrev pub radio_config_keys : List Text
radio_config_keys =
    codes "GSM.Radio.ARFCNs"
    ∷ codes "GSM.Radio.C0"
    ∷ codes "GSM.Radio.Band"
    ∷ codes "GSM.Identity.MCC"
    ∷ codes "GSM.Identity.MNC"
    ∷ codes "GSM.Identity.LAC"
    ∷ codes "GSM.Identity.CI"
    ∷ codes "GSM.Identity.ShortName"
    ∷ []

-- The two statements of one update.
unfoldable pub update_sql : Text × Text → Text
update_sql (k, v) =
    codes "UPDATE CONFIG SET VALUESTRING='"
    ++ (quote v
        ++ (codes "' WHERE KEYSTRING='"
            ++ (quote k ++ codes "';\nINSERT INTO _gsm_config_guard VALUES(changes());\n")))

unfoldable pub updates_sql : Values → Text
updates_sql [] = []
updates_sql (u ∷ l) = update_sql u ++ updates_sql l

-- The script of `updateConfigTransaction`.
unfoldable pub transaction_sql : Values → Text
transaction_sql updates =
    codes "PRAGMA busy_timeout=5000;\nBEGIN IMMEDIATE;\n"
    ++ (codes "CREATE TEMP TABLE _gsm_config_guard(ok INTEGER CHECK(ok = 1));\n"
        ++ (updates_sql updates ++ codes "DROP TABLE _gsm_config_guard;\nCOMMIT;\n"))

-- The updates of `applyConfigLocked`, in the order of `radioConfigKeys`.
unfoldable pub apply_config : StartParams → Text
apply_config p = transaction_sql (
    (codes "GSM.Radio.ARFCNs", p.arfcns)
    ∷ (codes "GSM.Radio.C0", p.c0)
    ∷ (codes "GSM.Radio.Band", p.band)
    ∷ (codes "GSM.Identity.MCC", p.mcc)
    ∷ (codes "GSM.Identity.MNC", p.mnc)
    ∷ (codes "GSM.Identity.LAC", p.lac)
    ∷ (codes "GSM.Identity.CI", p.ci)
    ∷ (codes "GSM.Identity.ShortName", p.short_name)
    ∷ [])

pub data ConfigError : Type 0 where
  no_values : ConfigError
  unsupported_key : ConfigError
  cell_is_running : ConfigError
  query_fails : ConfigError
  invalid_config : FieldIssue → ConfigError
  transaction_fails : ConfigError

-- A Go map that the pairs are put into one by one; a missing key reads as the empty text.
unfoldable pub merge : Values → Values → Values
merge [] m = m
merge ((k, v) ∷ l) m = merge l (put k v m)

abbrev pub value_of : Text → Values → Text
value_of k m = elim (find k m) [ none ↦ [] | some v ↦ v ]

unfoldable pub merged_params : Values → StartParams
merged_params m = record {
  arfcns = value_of (codes "GSM.Radio.ARFCNs") m;
  c0 = value_of (codes "GSM.Radio.C0") m;
  band = value_of (codes "GSM.Radio.Band") m;
  mcc = value_of (codes "GSM.Identity.MCC") m;
  mnc = value_of (codes "GSM.Identity.MNC") m;
  lac = value_of (codes "GSM.Identity.LAC") m;
  ci = value_of (codes "GSM.Identity.CI") m;
  short_name = value_of (codes "GSM.Identity.ShortName") m;
  network = codes "lo";
}

-- sort.Strings of the keys, with their values
unfoldable pub insert_key : Text × Text → Values → Values
insert_key u [] = u ∷ []
insert_key u (w ∷ l) = let rest = insert_key u l in if less w.0 u.0 then w ∷ rest else u ∷ w ∷ l

unfoldable pub sort_keys : Values → Values
sort_keys [] = []
sort_keys (u ∷ l) = insert_key u (sort_keys l)

-- The script that was run, if one was, and the error.
pub record Update : Type 0 where
  pub script : Option Text
  pub error : Option ConfigError

abbrev refuse : ConfigError → Update
refuse e = record { script = none; error = some e }

abbrev run_script : Bool → Values → Option FieldIssue → Update
run_script ok values (some i) = refuse (invalid_config i)
run_script ok values none = record {
  script = some (transaction_sql (sort_keys values));
  error = if ok then none else some transaction_fails;
}

abbrev update_rows : Bool → Values → Option Text → Update
update_rows ok values none = refuse query_fails
update_rows ok values (some out) =
    run_script ok values (validate (merged_params (merge values (merge (query_pairs out) []))))

abbrev supported : Values → Bool
supported values = all (λ u. one_of radio_config_keys u.0) values

abbrev gated_update : Seen → Manager → Option Text → Bool → Values → Update
gated_update seen m out ok values =
    if not (supported values)
    then refuse unsupported_key
    else if cell_running seen m
    then refuse cell_is_running
    else update_rows ok values out

-- `UpdateConfig`: `out` is the output of the query, `ok` whether the transaction succeeds.
unfoldable pub update_config : Seen → Manager → Option Text → Bool → Values → Update
update_config seen m out ok [] = refuse no_values
update_config seen m out ok (u ∷ l) = gated_update seen m out ok (u ∷ l)

-- `SetSingleConfig`
unfoldable pub set_single_config : Seen → Manager → Option Text → Bool → Text → Text → Update
set_single_config seen m out ok k v = update_config seen m out ok ((k, v) ∷ [])

-- Why a script may run.
pub record MayRun (seen : Seen) (m : Manager) (out : Option Text) (values : Values) (script : Text)
    : Type 0 where
  pub keys : supported values ≡ true
  pub idle : cell_running seen m ≡ false
  pub rows :
      (t : Text) × (out ≡ some t)
      × (validate (merged_params (merge values (merge (query_pairs t) []))) ≡ none)
  pub whole : script ≡ transaction_sql (sort_keys values)

unfoldable pub Justified : Seen → Manager → Option Text → Values → Option Text → Type 0
Justified seen m out values none = Unit
Justified seen m out values (some script) = MayRun seen m out values script
