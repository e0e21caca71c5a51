-- ===== src/Healthcheck/Tests.antt =====
-- The probe of a cell that is not running.
use gsm_system.Base.{◌≡◌, refl, some, true, false}
use gsm_system.Base.Text.{codes, eqb}
use gsm_system.Gsm.Manager.Status.{is_running}
use gsm_system.Gsm.Manager.Tests.{nothing_seen, idle}
use gsm_system.Healthcheck.{check_cell, probe_host, cell_not_ready}
use gsm_system.Healthcheck.Accepts.{AcceptsWell, check_cell_iff}

any_host : probe_host (codes "0.0.0.0") ≡ codes "127.0.0.1"
unfolding probe_host eqb
any_host = refl

degraded_test :
    check_cell true (
      some (record {
        status = 200;
        body = some (record {
          code = some 0;
          state = codes "degraded";
          ready = false;
          running = true;
          transitioning = false;
        });
      }))
    ≡ some cell_not_ready
unfolding check_cell eqb
degraded_test = refl

check_cell_iff_example : AcceptsWell (is_running true nothing_seen idle)
check_cell_iff_example = check_cell_iff true nothing_seen idle
