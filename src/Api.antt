-- ===== src/Api.antt =====
-- internal/api: queries and pages, log tails, and the requests that change the cell.
pub mod Identity
pub mod Send
pub mod Writes
pub mod Route
pub mod Http
pub mod Page
pub mod Tail
pub mod Cell
pub mod Served
mod Tests
mod Requests
