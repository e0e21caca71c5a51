-- ===== src/ProcessLog/Tests.antt =====
-- Runs of the readiness detector.
use gsm_system.Base.{ℕ, true, List, [], ◌∷◌, some, ◌≡◌, refl, arith}
use gsm_system.Base.Text.{codes, contains, strip_prefix}
use gsm_system.ProcessLog.{ProcessLog, Slice, marker, write_all, new_process_log}
use gsm_system.ProcessLog.Marker.{accepted, ready-eq-contains}

-- The marker comes in two reads; the second is accepted in part only.
abbrev cut_marker : List (Slice × ℕ)
cut_marker =
    (record { bytes = codes "boot\nsystem re"; spare = codes "old" }, 14)
    ∷ (record { bytes = codes "ady, go"; spare = [] }, 4)
    ∷ []

ready-eq-contains_example :
    (w : ProcessLog) × (write_all new_process_log cut_marker ≡ some w)
    × (w.ready_closed ≡ contains (accepted cut_marker) marker)
    × (w.seen ≡ w.ready_closed)
ready-eq-contains_example = ready-eq-contains cut_marker (omega arith, (omega arith, tt))

cut_marker_found : contains (accepted cut_marker) marker ≡ true
unfolding contains strip_prefix
cut_marker_found = refl
