-- ===== src/Gsm/Database/Tests.antt =====
-- A change of one value, and what runs.
use gsm_system.Base.{◌≡◌, refl, true, [], ◌∷◌, ◌++◌, none, some}
use gsm_system.Base.Text.{Text, codes, eqb, trim_space, split, trim_set}
use gsm_system.Base.Number.{atoi, is_digits}
use gsm_system.Base.Map.{find, put}
use gsm_system.Gsm.Params.{validate, validate_short_name, valid_interface_name, is_blank}
use gsm_system.Sql.Rows.{query_pairs, pair_rows, split_once, trim_suffix}
use gsm_system.Gsm.Manager.{cell_running}
use gsm_system.Gsm.Database.{
  merged_params, merge, Values, transaction_sql, sort_keys, update_config,
}
use gsm_system.Gsm.Manager.Tests.{nothing_seen, idle}

abbrev new_cell : Values
new_cell = (codes "GSM.Radio.C0", codes "20") ∷ (codes "GSM.Radio.Band", codes "900") ∷ []

-- What sqlite3 prints of a whole configuration.
abbrev row : Text → Text → Text
row key value = key ++ (0x1f ∷ (value ++ codes "\n"))

abbrev rows : Text
rows =
    row (codes "GSM.Radio.ARFCNs") (codes "1")
    ++ (row (codes "GSM.Radio.C0") (codes "540")
        ++ (row (codes "GSM.Radio.Band") (codes "1800")
            ++ (row (codes "GSM.Identity.MCC") (codes "001")
                ++ (row (codes "GSM.Identity.MNC") (codes "01")
                    ++ (row (codes "GSM.Identity.LAC") (codes "1")
                        ++ (row (codes "GSM.Identity.CI") (codes "1")
                            ++ row (codes "GSM.Identity.ShortName") (codes "addx")))))))

-- The change is valid as a whole, and its script runs.
new_cell_runs :
    update_config nothing_seen idle (some rows) true new_cell
    ≡ record { script = some (transaction_sql (sort_keys new_cell)); error = none }
unfolding update_config merged_params merge query_pairs find put validate validate_short_name
    is_blank trim_space eqb atoi is_digits cell_running pair_rows split trim_set split_once
    trim_suffix valid_interface_name
new_cell_runs = refl
