-- ===== src/Parser.antt =====
-- internal/parser: what the native OpenBTS and smqueue output says, as data.
-- The parsers are pure functions of the text; texts are byte lists, and a position in a log is the
-- number of bytes before it.
pub mod Native
pub mod Party
pub mod Notice
pub mod Delivery
pub mod Merge
pub mod Imsi
pub mod Tmsi
pub mod Sgsn
pub mod Tests
