-- ===== src/Sql.antt =====
-- internal/gsm/db.go and internal/subscriber/store.go: text for and from the sqlite3 command.
pub mod Quote
pub mod Rows
