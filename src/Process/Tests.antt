-- ===== src/Process/Tests.antt =====
-- Ending a process that needs KILL, and the table of ps.
use gsm_system.Base.{◌+◌, ◌*◌, ◌≡◌, refl, true, [], ◌∷◌, some, arith}
use gsm_system.Base.Text.{codes, strip_prefix}
use gsm_system.Base.Number.{pos}
use gsm_system.Process.{pids, kill_pid, Rounds, term, kill}
use gsm_system.Process.Ends.{IsKilled, kill_pid-IsKilled}

pids_test :
    pids
      (codes "smqueue")
      (some (codes "  PID STAT COMMAND\n   7 Ss   smqueue\n  8 Z smqueue\n 9 S smqueue2\n"))
    ≡ pos 7 ∷ []
unfolding pids strip_prefix
pids_test = refl

abbrev stubborn : Rounds
stubborn = record { now = λ i. 1000 + 250 * i; stat = λ i. some (codes "S\n") }

kill_test :
    kill_pid 6 1000 1000 stubborn (some (codes "Z"))
    ≡ some (record { ended = true; signals = term ∷ (kill ∷ []) })
unfolding kill_pid
kill_test = refl

kill_pid-IsKilled_example :
    IsKilled
      (1000 + 1000)
      stubborn
      (some (codes "Z"))
      (kill_pid 7 1000 1000 stubborn (some (codes "Z")))
kill_pid-IsKilled_example =
    kill_pid-IsKilled 1000 1000 stubborn (some (codes "Z")) (omega arith) (λ i. omega arith)
