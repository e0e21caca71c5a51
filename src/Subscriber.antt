-- ===== src/Subscriber.antt =====
-- internal/subscriber/store.go: the registry of numbers that the two Asterisk tables stand for, and
-- the decisions of binding and unbinding. The sqlite3 command is an argument: what its calls return.
pub mod Snapshot
pub mod Binding
pub mod Agree
pub mod Tests
