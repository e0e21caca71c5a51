-- ===== src/Logsink.antt =====
-- internal/logsink: bounded log files with one rotated backup, the process writer, the syslog sink.
pub mod Store
pub mod Writer
pub mod Sink
pub mod Bounds
pub mod Retention
pub mod Routing
pub mod Tests
