-- ===== src/Telephony/Tests.antt =====
-- Channels and call records on concrete text.
use gsm_system.Base.{◌≡◌, refl, ◌++◌, true, [], ◌∷◌, some, none}
use gsm_system.Base.Text.{Text, codes, eqb, split, trim_space}
use gsm_system.Base.Number.{atoi}
use gsm_system.Sql.Rows.{unix_lines}
use gsm_system.Telephony.{non_negative_int}
use gsm_system.Telephony.Concise.{
  parse_concise, parse_lines, parse_line, parse_fields, nullable_native, is_summary, after_digits,
}
use gsm_system.Telephony.History.{records, scan_back, first_safe_csv_boundary, select_records}
use gsm_system.Telephony.Boundary.{IsFirst, first_safe_csv_boundary-IsFirst}

one_call :
    parse_concise (codes "SIP/1!ctx!2101!1!Up!Dial!x!7!a!b!c! 12 !(None)!u1\r\n1 active channel\n")
    ≡ some (
        (record {
          channel = codes "SIP/1";
          context = codes "ctx";
          extension = codes "2101";
          state = codes "Up";
          application = codes "Dial";
          caller_id = codes "7";
          duration_seconds = 12;
          bridge_id = none;
          unique_id = some (codes "u1");
        })
        ∷ [])
unfolding parse_concise parse_lines parse_line parse_fields nullable_native is_summary after_digits
    unix_lines non_negative_int eqb split trim_space atoi
one_call = refl

-- The tail begins inside a quoted field that contains a newline.
abbrev cut_tail : Text
cut_tail = codes "x\ny\",1\n\"a\",2\n"

cut_tail_boundary : first_safe_csv_boundary cut_tail ≡ some 7
unfolding first_safe_csv_boundary scan_back
cut_tail_boundary = refl

first_safe_csv_boundary-IsFirst_example : IsFirst cut_tail (first_safe_csv_boundary cut_tail)
first_safe_csv_boundary-IsFirst_example = first_safe_csv_boundary-IsFirst cut_tail

small_window : select_records 13 (codes "w" ++ cut_tail) ≡ records (codes "\"a\",2\n") true
unfolding select_records first_safe_csv_boundary scan_back
small_window = refl
