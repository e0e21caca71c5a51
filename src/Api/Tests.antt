-- ===== src/Api/Tests.antt =====
-- Pages, tails and quoted values on concrete inputs.
use gsm_system.Base.{ℕ, ◌≡◌, refl, true, [], ◌∷◌, List, none, some, arith}
use gsm_system.Base.Text.{codes, eqb}
use gsm_system.Base.Number.{atoi}
use gsm_system.Api.Page.{Query, entries, key_errors, parameter, parse_page_query, sort_errors}
use gsm_system.Api.Tail.{IsTail, read_tail, read_tail-IsTail}
use gsm_system.Api.Cell.{Code, CellStartRequest, CellEnv, handle_cell_start, status_of, code_number}
use gsm_system.Api.Served.{Served, handle_cell_start-Served}
use gsm_system.Gsm.Params.Tests.{addx}
use gsm_system.Gsm.Presets.Codec.{params_json}
use gsm_system.Gsm.Manager.Profile.{holds}
use gsm_system.Gsm.Manager.Tests.{idle, env_with}

abbrev second_page : Query
second_page = (codes "limit", codes "20" ∷ []) ∷ (codes "offset", codes "20" ∷ []) ∷ []

second_page_reads : parse_page_query second_page ≡ (record { limit = 20; offset = 20 }, [])
unfolding parse_page_query entries key_errors parameter sort_errors eqb atoi
second_page_reads = refl

abbrev five : List ℕ
five = 1 ∷ 2 ∷ 3 ∷ 4 ∷ 5 ∷ []

read_tail-IsTail_example :
    IsTail 4 (codes "ab\nc\n") (read_tail 4 (some (record { size = 5; bytes = codes "ab\nc\n" })))
read_tail-IsTail_example = read_tail-IsTail 4 (codes "ab\nc\n") (omega arith)

abbrev no_request : CellStartRequest
no_request = record {
  preset_id = none;
  arfcns = none;
  c0 = none;
  band = none;
  mcc = none;
  mnc = none;
  lac = none;
  ci = none;
  short_name = none;
  network = none;
}

abbrev cell_env : CellEnv
cell_env = record {
  presets = record { disk = none; items = []; load_err = none };
  profile = holds (params_json addx);
  start = env_with λ _. true;
}

handle_cell_start-Served_example :
    Served (env_with λ _. true) idle (handle_cell_start cell_env Code.ok no_request idle)
handle_cell_start-Served_example = handle_cell_start-Served cell_env Code.ok no_request idle

statuses :
    (status_of (code_number Code.ok) ≡ 200) × (status_of (code_number Code.no_hardware) ≡ 503)
unfolding status_of
statuses = (refl, refl)
