-- ===== src/Logsink/Tests.antt =====
-- Runs of the collector and the process writer.
use gsm_system.Base.{ℕ, ◌≡◌, refl, true, false, [], ◌∷◌, none, arith}
use gsm_system.Base.Text.{codes, eqb}
use gsm_system.Logsink.Store.{regular, Logs, Faults, no_faults, append_log}
use gsm_system.Logsink.Bounds.{IsBounded, append_log-IsBounded}
use gsm_system.Logsink.Retention.{Retains, Reported, LosesLate, write-Retains}
use gsm_system.Logsink.Routing.{receive-IsBounded}
use gsm_system.Logsink.Sink.{Dir, log_name, target_name, valid_log_name, receive}
use gsm_system.Logsink.Writer.{NewFaults, Writer, write}

abbrev small : Logs
small = record { current = regular (codes "abcdef"); backup = regular (codes "xy") }

abbrev always_fine : ℕ → Faults
always_fine _ = no_faults

abbrev open_writer : Writer
open_writer = record { is_closed = false }

-- Six bytes and five more do not fit into eight: the log moves to the backup.
rotates :
    write 8 always_fine open_writer (codes "12345") small
    ≡ (record { current = regular (codes "12345"); backup = regular (codes "abcdef") }, 5, none)
unfolding write append_log
rotates = refl

-- Twenty bytes are written in chunks of eight.
chunks :
    (write 8 always_fine open_writer (codes "0123456789abcdefghij") small).0
    ≡ record { current = regular (codes "ghij"); backup = regular (codes "89abcdef") }
unfolding write append_log
chunks = refl

tags :
    (log_name (codes "<30>Nov 1 host SMQUEUE[12]: x") ≡ codes "smqueue.log")
    × (log_name (codes "openbts: y") ≡ codes "openbts-syslog.log")
    × (log_name (codes "xopenbts: y") ≡ codes "system.log")
unfolding log_name
tags = (refl, refl, refl)

append_log-IsBounded_example : IsBounded 8 (append_log 8 no_faults (codes "12345") small).0
append_log-IsBounded_example = append_log-IsBounded 8 no_faults (codes "12345") small (omega arith)

abbrev fine_start : NewFaults
fine_start = record { current = none; backup = none; append = no_faults }

write-Retains_example :
    let (s', n, e) = write 8 always_fine open_writer (codes "12345") small in
    (k : ℕ) × (r : Retains (codes "12345") k small s') × Reported (codes "12345") k 0 n e
    × (e ≡ none → LosesLate 8 r.lost s')
write-Retains_example =
    write-Retains 8 always_fine open_writer (codes "12345") small (omega arith) refl

abbrev empty_dir : Dir
empty_dir name = small

receive-IsBounded_example :
    IsBounded 8 (
      receive (codes "sms.log") 8 always_fine (codes "smqueue: a" ∷ []) empty_dir (codes "sms.log"))
receive-IsBounded_example =
    receive-IsBounded 8 (codes "sms.log") always_fine (codes "smqueue: a" ∷ []) empty_dir
      (λ name. omega arith) (codes "sms.log")

-- The name of the configuration is tested, and takes the lines of smqueue.
names_test :
    (valid_log_name (codes "sms.log") ≡ true)
    × (valid_log_name (codes "../sms.log") ≡ false)
    × (target_name (codes "sms.log") (codes "smqueue: a") ≡ codes "sms.log")
    × (target_name (codes "sms.log") (codes "openbts: a") ≡ codes "openbts-syslog.log")
unfolding valid_log_name target_name log_name eqb
names_test = (refl, refl, refl, refl)
